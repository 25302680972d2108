-- ===== src/Console.antt =====
-- source/kernel/dev/console.c: a text console with its escape sequences.
-- `Display` has the cells and the state, `Cursor` the moves, `Escape` the state machine.
pub mod Display
pub mod Cursor
pub mod Escape
pub mod Scroll
pub mod Bounds
pub mod Command
pub mod Machine
pub mod Params
pub mod Text
