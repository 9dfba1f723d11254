-- ===== src/Transfer.antt =====
-- transfer/: the description of the files of a server, and the stream that it is written as.
pub mod Types
pub mod Wire
pub mod Encoding
pub mod Records
pub mod Readback
pub mod Valid
pub mod Writer
pub mod Reader
pub mod Stream
mod Tests
