-- ===== src/Io.antt =====
-- include/server: the buffered devices.
pub mod Device
pub mod File
