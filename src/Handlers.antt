-- ===== src/Handlers.antt =====
-- execute.c: a handler for each case of the instruction switch, with the operands of the instruction
-- as arguments. `debug_level` is 0, as debug.c sets it, so nothing of the tracing is printed.
pub mod Constants
pub mod Numeric
pub mod Control
pub mod Calls
pub mod Objects
