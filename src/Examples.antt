-- ===== src/Examples.antt =====
-- Tests, and the theorems at concrete inputs.
mod World
mod Positions
mod Analyser
mod Workspace
mod Requests
mod ShellCheck
mod Settings
mod Completion
mod Formatting
mod Scan
mod Dispatch
