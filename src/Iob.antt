-- ===== src/Iob.antt =====
-- ql-iob-plugin: IO cells get the pad, place and type that a PCF file and a pinmap assign to them.
pub mod Pinmap
pub mod Pcf
pub mod Locate
pub mod Cells
mod Tests
