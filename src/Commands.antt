-- ===== src/Commands.antt =====
-- internal/commands: the keys of a command and their slots.
pub mod Slots
pub mod Keys
