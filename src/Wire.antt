-- ===== src/Wire.antt =====
-- hpfeeds/protocol.py: the wire format and the incremental parser of it.
pub mod Opcode
pub mod Message
pub mod Unpacker
pub mod Tests
