-- ===== src/Tests.antt =====
-- Concrete inputs: runs of the definitions, and the theorems at inputs that meet their hypotheses.
mod Bench
mod Calls
mod Sessions
mod Registry
mod Names
mod Settings
mod Records
mod Writing
mod Wire
mod Reports
mod Greetings
mod Lines
mod Program
mod Documents
