-- ===== src/Doc.antt =====
-- bindings/python/pyx/_doc.py: the binary document codec.
pub mod Utf8
pub mod Varint
pub mod Value
pub mod Encode
pub mod Decode
pub mod Positions
pub mod Strict
pub mod Wire
pub mod RoundTrip
mod Tests
