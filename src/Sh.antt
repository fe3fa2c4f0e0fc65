-- ===== src/Sh.antt =====
-- tools/sh.c: the shell. The children hold the modules for the parts of a line.
pub mod Environment
pub mod Expand
pub mod Words
pub mod Segments
pub mod Path
pub mod Commands
pub mod Lines
pub mod Sessions
