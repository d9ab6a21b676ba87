-- ===== src/Gosproto.antt =====
-- The packages under server/src/github.com/davyxu/gosproto: the sproto wire format.
pub mod Error
pub mod Words
pub mod Pack
pub mod Types
pub mod Meta
pub mod Encode
pub mod Decode
pub mod Layout
pub mod RoundTrip
pub mod Packed
mod CodecExamples
mod MetaExamples
mod Examples
