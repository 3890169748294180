-- ===== src/Encoder.antt =====
-- include/nodepp/encoder.h, a module for each of its namespaces. Integers are unsigned words, as the
-- source takes them (`make_unsigned`); the width of a template's type is a parameter in bytes or bits.
pub mod Hash
pub mod Xor
pub mod Bytes
pub mod Bin
pub mod Endian
pub mod Pac
pub mod Hex
pub mod Base64
pub mod Tests
