-- ===== src/MsgPack.antt =====
-- The decoding of one MessagePack frame (src/msgpack_observation.rs).
pub mod Normalize
pub mod Frame
pub mod Shallow
pub mod Observed
pub mod Decoded
