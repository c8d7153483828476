-- ===== src/Sdc.antt =====
-- sdc-plugin: timing constraints, from Tcl commands to an SDC file.
pub mod Writer
pub mod Commands
pub mod Clocks
