-- ===== src/Serial.antt =====
-- Serial ports (src/flockwave/connections/serial.py): which USB device is chosen, the streams over a
-- port, and the connection.
pub mod Match
pub mod Find
pub mod Streams
pub mod Transfer
pub mod Port
mod Tests
