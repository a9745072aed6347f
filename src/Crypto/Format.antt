-- ===== src/Crypto/Format.antt =====
-- The constants of simple/crypto.go, the errors of its functions, and the chunk-count test.
use gbf_core.Base.{ℕ, ◌+◌, ◌*◌, ◌^◌, Bool, false, ◌&&◌, [], ◌∷◌, ltb, if◌then◌else◌, length}
use gbf_core.Base.Bytes.{Bytes, uint32}

abbrev pub magic_gb1 : Bytes
magic_gb1 = b'G' ∷ b'B' ∷ b'1' ∷ 0 ∷ []

abbrev pub magic_gb2 : Bytes
magic_gb2 = b'G' ∷ b'B' ∷ b'2' ∷ 0 ∷ []

abbrev pub magic_gb3 : Bytes
magic_gb3 = b'G' ∷ b'B' ∷ b'3' ∷ 0 ∷ []

abbrev pub gkm1_magic : Bytes
gkm1_magic = b'G' ∷ b'K' ∷ b'M' ∷ b'1' ∷ []

abbrev pub magic_size : ℕ
magic_size = 4

abbrev pub iv_size : ℕ
iv_size = 12

abbrev pub tag_size : ℕ
tag_size = 16

abbrev pub chunk_count_size : ℕ
chunk_count_size = 4

abbrev pub flags_size : ℕ
flags_size = 1

abbrev pub max_chunk_count : ℕ
max_chunk_count = 100000

abbrev pub gb3_header_size : ℕ
gb3_header_size = 24

abbrev pub max_gb3_chunk_size : ℕ
max_gb3_chunk_size = 64 * 1024 * 1024

abbrev pub default_chunk_size : ℕ
default_chunk_size = 4 * 1024 * 1024

abbrev pub max_stored_size : ℕ
max_stored_size = default_chunk_size + tag_size + 1024

abbrev pub max_blob_size : ℕ
max_blob_size = default_chunk_size + iv_size + tag_size + 2 ^ 20

abbrev pub max_uint32 : ℕ
max_uint32 = 0xffff_ffff

-- One constructor for each error return. `panic` is a slice out of range, and `out_of_fuel` is the
-- model's own: the rejection sampling of `newSmallBlobIV` has no bound in the source.
pub data CryptoError : Type 0 where
  data_too_short invalid_magic cipher_failed rand_failed small_too_short : CryptoError
  decrypt_failed invalid_chunk_count missing_iv missing_size_header : CryptoError
  stored_size_exceeded missing_ciphertext decompress_failed trailing_data : CryptoError
  header_too_short not_gb3 unsupported_version unsupported_hash unsupported_encryption : CryptoError
  unsupported_chunking unsupported_compression chunk_size_zero chunk_size_exceeded : CryptoError
  chunk_count_overflow blob_too_large read_failed not_gkm1 key_required : CryptoError
  panic out_of_fuel : CryptoError

-- `isChunkCount`
unfoldable pub is_chunk_count : Bytes → Bool
is_chunk_count buf =
    if ltb (length buf) chunk_count_size
    then false
    else ltb 0 (uint32 buf) && ltb (uint32 buf) max_chunk_count
