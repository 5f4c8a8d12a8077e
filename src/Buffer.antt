-- ===== src/Buffer.antt =====
-- The `Buffer` class of src/buffer.c, over the heap of `Buffer.Mem`.
pub mod Mem
pub mod Access
pub mod Read
pub mod Write
pub mod Valid
pub mod Decode
pub mod Encode
pub mod ReadsBack
pub mod RoundTrip
pub mod Codec
pub mod Frame
pub mod Range
pub mod Float
pub mod New
pub mod Concat
pub mod Owners
mod Tests
