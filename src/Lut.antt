-- ===== src/Lut.antt =====
-- The passes of ql-qlf-plugin that rewrite look-up tables, and truth tables in general.
pub mod Table
pub mod Dedup
pub mod Eqn
