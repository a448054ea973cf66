-- ===== src/Host/Tests.antt =====
-- The theorems of `Host` at concrete inputs.
pub mod Machine
mod Boxes
mod Calls
mod Slots
mod Typed
