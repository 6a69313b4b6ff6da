-- ===== src/Tests.antt =====
-- Runs of the definitions on concrete inputs, and the theorems at inputs that meet their hypotheses.
mod Structure
mod Commands
mod Types
mod Aof
mod Writer
mod Streams
mod Whole
mod Reader
mod Utils
