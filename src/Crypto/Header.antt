-- ===== src/Crypto/Header.antt =====
-- The self-describing GB3 header: GB3Header, ChunkCount, encodeGB3Header and ParseGB3Header.
pub mod Bounds
use gbf_core.Base.{
  ℕ, suc, ◌+◌, ◌-◌, ◌/◌, ◌%◌, ◌^◌, ◌==◌, leb, ltb, Bool, not, ◌||◌, if◌then◌else◌, List, [], ◌∷◌,
  ◌++◌, length, take, drop, get_or, Result, ok, err, guard, ◌>>=◌, ◌>>◌,
}
use gbf_core.Base.Bytes.{
  Bytes, bytes_eq, put_uint16, put_uint32, put_uint64, uint16, uint32, uint64,
}
use gbf_core.Crypto.Format.{
  magic_gb3, magic_size, gb3_header_size, max_gb3_chunk_size, max_uint32, CryptoError,
  header_too_short, panic, not_gb3, unsupported_version, unsupported_hash, unsupported_encryption,
  unsupported_chunking, unsupported_compression, chunk_size_zero, chunk_size_exceeded,
  chunk_count_overflow,
}

pub record Gb3Header : Type 0 where
  pub version : ℕ
  pub flags : ℕ
  pub hash_alg : ℕ
  pub compression_alg : ℕ
  pub encryption_alg : ℕ
  pub chunking_alg : ℕ
  pub key_version : ℕ
  pub chunk_size : ℕ
  pub plaintext_size : ℕ

-- `ChunkCount`, in uint64: the sum wraps. With a nonzero chunk size the `- 1` does not.
unfoldable pub chunk_count : Gb3Header → ℕ
chunk_count h =
    if h.chunk_size == 0 then 0 else (h.plaintext_size + h.chunk_size - 1) % 2 ^ 64 / h.chunk_size

-- `encodeGB3Header`
unfoldable pub encode_gb3_header : ℕ → ℕ → ℕ → ℕ → Bytes
unfolding put_uint16 put_uint32 put_uint64
encode_gb3_header flags compress_alg chunk_size plaintext_size =
    magic_gb3
    ++ ((1 ∷ flags ∷ 1 ∷ compress_alg ∷ 1 ∷ 1 ∷ [])
        ++ (put_uint16 1 ++ (put_uint32 chunk_size ++ put_uint64 plaintext_size)))

-- The fields at their offsets.
unfoldable pub read_gb3_header : Bytes → Gb3Header
unfolding uint16 uint32 uint64
read_gb3_header buf = record {
  version = get_or buf 4 0;
  flags = get_or buf 5 0;
  hash_alg = get_or buf 6 0;
  compression_alg = get_or buf 7 0;
  encryption_alg = get_or buf 8 0;
  chunking_alg = get_or buf 9 0;
  key_version = uint16 (drop 10 buf);
  chunk_size = uint32 (drop 12 buf);
  plaintext_size = uint64 (drop 16 buf);
}

-- The checks of `ParseGB3Header` behind its magic, in order.
unfoldable pub check_gb3_header : Gb3Header → Result CryptoError Gb3Header
check_gb3_header h = do
  guard (h.version == 1) unsupported_version
  guard (h.hash_alg == 1) unsupported_hash
  guard (h.encryption_alg == 1) unsupported_encryption
  guard (h.chunking_alg == 1) unsupported_chunking
  guard (h.compression_alg == 0 || h.compression_alg == 1) unsupported_compression
  guard (not (h.chunk_size == 0)) chunk_size_zero
  guard (leb h.chunk_size max_gb3_chunk_size) chunk_size_exceeded
  guard (leb (chunk_count h) max_uint32) chunk_count_overflow
  ok h

-- A slice `buf[:n]` or `buf[n:]`, or a read below n: out of range, Go panics.
abbrev pub in_range : ℕ → Bytes → Result CryptoError (Unit {0})
in_range n buf = guard (leb n (length buf)) panic

-- `ParseGB3Header`
unfoldable pub parse_gb3_header : Bytes → Result CryptoError Gb3Header
parse_gb3_header buf = do
  guard (leb gb3_header_size (length buf)) header_too_short
  in_range gb3_header_size buf
  guard (bytes_eq (take magic_size buf) magic_gb3) not_gb3
  check_gb3_header (read_gb3_header buf)
