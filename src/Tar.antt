-- ===== src/Tar.antt =====
-- `TarTool` of cincan/tar_tool.py, a module for each group of its methods.
pub mod Config
pub mod Filter
pub mod Modified
pub mod Download
pub mod Upload
pub mod Results
