-- ===== src/Doc/RoundTrip.antt =====
-- bindings/python/pyx/_doc.py: decoding what was encoded.
mod Parts
pub mod Payload
mod Loops
pub mod Document
