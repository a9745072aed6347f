-- ===== src/Crypto/Header/Bounds.antt =====
-- The GB3 header: what the parser accepts, the round trip, and the chunk count of what it accepts.
use gbf_core.Base.{
  ℕ, ◌+◌, ◌-◌, ◌/◌, ◌%◌, ◌^◌, ◌≤◌, ◌<◌, ◌≡◌, refl, sym, ap, inl, inr, leb, true, ◌++◌, length, take,
  ok, arith, length-append, le→leb, leb→le, Bool-cases,
}
use native.Mathlib.Nat.{div-eq_of_lt}
use gbf_core.Base.Bytes.{Bytes, bytes_eq}
use gbf_core.Crypto.Format.{magic_gb3, magic_size, max_gb3_chunk_size, max_uint32, gb3_header_size}
use gbf_core.Crypto.Header.{
  Gb3Header, chunk_count, encode_gb3_header, read_gb3_header, check_gb3_header, parse_gb3_header,
}

-- The header that the encoder describes.
abbrev pub header_of : ℕ → ℕ → ℕ → ℕ → Gb3Header
header_of flags compress_alg size len = record {
  version = 1;
  flags = flags;
  hash_alg = 1;
  compression_alg = compress_alg;
  encryption_alg = 1;
  chunking_alg = 1;
  key_version = 1;
  chunk_size = size;
  plaintext_size = len;
}

-- The fields come back from the bytes.
pub read-encode :
    (flags alg size len : ℕ) (rest : Bytes)
    → size < 2 ^ 32
    → len < 2 ^ 64
    → read_gb3_header (encode_gb3_header flags alg size len ++ rest) ≡ header_of flags alg size len
unfolding read_gb3_header encode_gb3_header
read-encode flags alg size len rest hs hl = ground arith

-- What the parser promises of a header that it accepts.
pub record IsGb3 (h : Gb3Header) : Type 0 where
  pub version : h.version ≡ 1
  pub hash_alg : h.hash_alg ≡ 1
  pub encryption_alg : h.encryption_alg ≡ 1
  pub chunking_alg : h.chunking_alg ≡ 1
  pub compression_alg : h.compression_alg ≤ 1
  pub chunk_size_pos : 0 < h.chunk_size
  pub chunk_size_le : h.chunk_size ≤ max_gb3_chunk_size
  pub chunk_count_le : chunk_count h ≤ max_uint32

pub check-ok : (h : Gb3Header) → IsGb3 h → check_gb3_header h ≡ ok h
unfolding check_gb3_header
check-ok h v = ground arith

pub check-IsGb3 : (h h' : Gb3Header) → check_gb3_header h ≡ ok h' → (h' ≡ h) × IsGb3 h
unfolding check_gb3_header
check-IsGb3 h h' e = ground arith

pub length-encode :
    (flags alg size len : ℕ) → length (encode_gb3_header flags alg size len) ≡ gb3_header_size
unfolding encode_gb3_header
length-encode flags alg size len = refl

magic-encode :
    (flags alg size len : ℕ) (rest : Bytes)
    → bytes_eq (take magic_size (encode_gb3_header flags alg size len ++ rest)) magic_gb3 ≡ true
unfolding encode_gb3_header bytes_eq
magic-encode flags alg size len rest = refl

-- For a chunk size below 2^32 and a plaintext size below 2^64, parsing an encoded header with
-- anything behind it is checking the fields that were encoded.
pub parse-encode_append :
    (flags alg size len : ℕ) (rest : Bytes)
    → size < 2 ^ 32
    → len < 2 ^ 64
    → parse_gb3_header (encode_gb3_header flags alg size len ++ rest)
      ≡ check_gb3_header (header_of flags alg size len)
unfolding parse_gb3_header
parse-encode_append flags alg size len rest hs hl =
    rw
      (
        le→leb gb3_header_size (length (encode_gb3_header flags alg size len ++ rest)) (
            omega (
              arith,
              length-append (encode_gb3_header flags alg size len) rest,
              length-encode flags alg size len,
            )),
        magic-encode flags alg size len rest,
      )
      (ap check_gb3_header (read-encode flags alg size len rest hs hl))

-- For a positive chunk size, and while the sum of the two sizes fits 64 bits, the chunk count is
-- the quotient of the sizes rounded up.
pub chunk_count-exact :
    (h : Gb3Header)
    → 0 < h.chunk_size
    → h.plaintext_size + h.chunk_size < 2 ^ 64
    → chunk_count h ≡ (h.plaintext_size + h.chunk_size - 1) / h.chunk_size
unfolding chunk_count
chunk_count-exact h hp hs = ground arith

-- Past that it wraps.
pub chunk_count_wraps :
    (h : Gb3Header)
    → h.plaintext_size < 2 ^ 64
    → h.chunk_size < 2 ^ 32
    → 2 ^ 64 < h.plaintext_size + h.chunk_size
    → chunk_count h ≡ 0
unfolding chunk_count
chunk_count_wraps h hp hc hs =
    let r : (h.plaintext_size + h.chunk_size - 1) % 2 ^ 64 < h.chunk_size = omega arith in
    let q : (h.plaintext_size + h.chunk_size - 1) % 2 ^ 64 / h.chunk_size ≡ 0 = div-eq_of_lt r in
    ground arith

-- A header that the parser accepts has version 1, the known algorithms, a chunk size between 1 and
-- 64 MiB and a chunk count of at most 2^32 - 1, and is the one that the bytes spell, of which there
-- are at least 24.
pub parse-IsGb3 :
    (buf : Bytes) (h : Gb3Header)
    → parse_gb3_header buf ≡ ok h
    → IsGb3 h × (read_gb3_header buf ≡ h) × (gb3_header_size ≤ length buf)
unfolding parse_gb3_header
parse-IsGb3 buf h e = elim (Bool-cases (leb gb3_header_size (length buf))) [
  | inl long ↦ elim (Bool-cases (bytes_eq (take magic_size buf) magic_gb3)) [
    | inl magic ↦
        let (same, v) = check-IsGb3 (read_gb3_header buf) h (rw (long, magic) at e) in
        (rw same v, sym same, leb→le _ _ long)
    | inr other ↦ (let f = rw (long, other) at e in cc)
  ]
  | inr short ↦ (let f = rw short at e in cc)
]
