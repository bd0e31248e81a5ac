-- ===== src/Handle/Exclusive.antt =====
-- A discipline for the callers of a handle: `start` and `wait` are called only while
-- no caller is inside `wait`. `stop` and `is_running` may be called at any time.
pub mod Defs
pub mod Ended
pub mod Calls
pub mod Runs
pub mod Promises
