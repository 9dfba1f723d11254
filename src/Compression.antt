-- ===== src/Compression.antt =====
-- compress/lz77: the decoder of the plain LZ77 format of [MS-XCA].
mod Tests
pub mod Decoder
