-- ===== src/Native.antt =====
-- bindings/python/pyx/_native.c, the C extension that stands in for parts of the binding where it could be built.
pub mod Get
pub mod Encode
pub mod Decode
pub mod Many
pub mod Stored
