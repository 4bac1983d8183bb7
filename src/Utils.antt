-- ===== src/Utils.antt =====
-- src/utils.rs: checksums, address ranges, coil and register packing, frame-length prediction.
pub mod Crc
pub mod Lrc
pub mod Range
pub mod Coils
pub mod Registers
pub mod Predict
