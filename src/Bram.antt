-- ===== src/Bram.antt =====
-- ql-qlf-plugin, the passes on RAM blocks.
pub mod Types
pub mod Init
