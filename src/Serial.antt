-- ===== src/Serial.antt =====
-- src/rh56_driver/serial_backend.py: the RS485 protocol of the RH56 hand. Bytes are numbers below
-- 256; on numbers that are not negative `v & 0xFF` is `v % 256`, `v >> 8` is `v / 256`, and
-- `lo | (hi << 8)` of a byte `lo` is `lo + hi * 256`.
pub mod Words
pub mod Frames
pub mod Registers
pub mod Commands
pub mod Canonical
