-- ===== src/Refinement.antt =====
-- The machine over the code's arrays follows the machine over plain lists: command by command, and
-- then for whole runs.
pub mod Rules
pub mod Printing
pub mod Handlers
pub mod Calls
pub mod Run
mod Tests
