-- ===== src/Tests.antt =====
-- Runs on small inputs.
mod Devices
mod Registers
mod Records
mod Streams
mod Inis
mod Tables
