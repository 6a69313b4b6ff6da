-- ===== src/Utils.antt =====
-- What the parts of the program share (internal/utils).
pub mod Queue
