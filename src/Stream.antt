-- ===== src/Stream.antt =====
-- simple/stream.go: blobs written and read chunk by chunk. A stream is the bytes that it still holds, and
-- `broken` says whether it ends in an error and not in io.EOF. What a decoder wrote counts only when it
-- succeeds: its caller writes to a temporary file, which an error removes.
pub mod Encode
pub mod Buffered
pub mod Encoded
pub mod Decode
pub mod Refine
pub mod Body
pub mod RoundTrip
pub mod Files
mod Tests
