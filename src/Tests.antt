-- ===== src/Tests.antt =====
-- Runs of the model, and the theorems at concrete data.
mod Files
mod Runs
mod Logs
mod Tools
mod Transfers
mod Downloads
mod Stored
mod Launches
mod Whole
mod Ends
mod Programs
