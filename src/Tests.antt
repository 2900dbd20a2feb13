-- ===== src/Tests.antt =====
-- Runs of the model of student-distrib/ on small states: a file system with one file, a kernel with
-- one terminal and one process.
pub mod Data
mod Files
mod Machine
mod Console
mod Text
mod Calls
mod Programs
mod Processes
mod Memory
mod Shell
mod Lifecycle
mod Starting
