-- ===== src/Nbt/Walk.antt =====
-- The walks of NBT trees: on what the wire format writes, and on any input.
pub mod Accepts
pub mod Cases
pub mod Steps
pub mod Total
