-- ===== src/Log.antt =====
-- cincan/command_log.py: the records of command runs, their JSON form, and the directory of logs.
pub mod Hash
pub mod Json
pub mod Directory
pub mod Store
