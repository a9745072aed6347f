-- ===== src/Crypto/Decrypt.antt =====
-- Decryptor: Decrypt, decryptSmall, decryptLarge, decryptLargeV2, decryptLargeV3, DecryptStream
-- and IsEncryptedBlob.
use Prim.Native.Nat.{bit_and}
use gbf_core.Base.{
  ℕ, zero, suc, ◌+◌, ltb, leb, ◌==◌, Bool, true, false, not, ◌&&◌, ◌||◌, if◌then◌else◌, Option, [],
  ◌++◌, length, take, drop, get_or, Result, ok, err, guard, or_fail, ◌>>=◌, ◌>>◌,
}
use gbf_core.Base.Bytes.{Bytes, bytes_eq, uint32}
use gbf_core.Crypto.Format.{
  magic_gb1, magic_gb2, magic_gb3, magic_size, iv_size, tag_size, chunk_count_size, flags_size,
  max_chunk_count, gb3_header_size, max_stored_size, max_blob_size, is_chunk_count, CryptoError,
}
use gbf_core.Crypto.Aead.{Aead, Zstd}
use gbf_core.Crypto.Header.{in_range, chunk_count, parse_gb3_header}
use gbf_core.Crypto.Encrypt.{Cryptor}

unfoldable pub is_panic : CryptoError → Bool
is_panic CryptoError.panic = true
is_panic e = false

-- The first result if it is a plaintext, otherwise the second if that is one, otherwise the first
-- error: the two readings of a GB1 blob. A panic of either ends both.
unfoldable pub or_else :
    Result CryptoError Bytes → Result CryptoError Bytes → Result CryptoError Bytes
or_else (ok p) second = ok p
or_else (err e) (ok p) = if is_panic e then err e else ok p
or_else (err e) (err f) = if is_panic e then err e else if is_panic f then err f else err e

-- `compressed := flags != 0` of GB2 and `flags & GB3FlagChunkCompressed != 0` of GB3
unfoldable pub compressed_v2 : ℕ → Bool
compressed_v2 flags = not (flags == 0)

unfoldable pub compressed_v3 : ℕ → Bool
compressed_v3 flags = not (bit_and flags 1 == 0)

-- The end of each chunk loop: the blob must be used up.
unfoldable pub finish : Bytes → Bytes → Result CryptoError Bytes
finish rest plaintext = if length rest == 0 then ok plaintext else err CryptoError.trailing_data

-- `IsEncryptedBlob`
unfoldable pub is_encrypted_blob : Bytes → Bool
is_encrypted_blob buf =
    if ltb (length buf) magic_size
    then false
    else bytes_eq (take magic_size buf) magic_gb1
      || bytes_eq (take magic_size buf) magic_gb2
      || bytes_eq (take magic_size buf) magic_gb3

module _ (a : Aead) (z : Zstd) (d : Cryptor) where
  unfoldable pub decrypt_small : Bytes → Result CryptoError Bytes
  decrypt_small buf = do
    guard (leb (iv_size + tag_size) (length buf)) CryptoError.small_too_short
    in_range iv_size buf
    guard (a.key_ok d.key) CryptoError.cipher_failed
    or_fail (a.unseal d.key (take iv_size buf) (drop iv_size buf)) CryptoError.decrypt_failed

  -- The chunk loop of `decryptLarge`: IV, then a full chunk or what is left.
  unfoldable pub open_chunks : ℕ → Bytes → Bytes → Result CryptoError Bytes
  open_chunks zero buf plaintext = finish buf plaintext
  open_chunks (suc n) buf plaintext = do
    guard (leb iv_size (length buf)) CryptoError.missing_iv
    in_range iv_size buf
    let iv = take iv_size buf
    let rest = drop iv_size buf
    let estimated = d.chunk_size + tag_size
    let chunk_end = if ltb (length rest) estimated then length rest else estimated
    in_range chunk_end rest
    decrypted ← or_fail (a.unseal d.key iv (take chunk_end rest)) CryptoError.decrypt_failed
    open_chunks n (drop chunk_end rest) (plaintext ++ decrypted)

  unfoldable pub decrypt_large : Bytes → Result CryptoError Bytes
  decrypt_large buf = do
    in_range chunk_count_size buf
    let count = uint32 buf
    guard (not (count == 0 || leb max_chunk_count count)) CryptoError.invalid_chunk_count
    guard (a.key_ok d.key) CryptoError.cipher_failed
    open_chunks count (drop chunk_count_size buf) []

  unfoldable pub inflate : Bool → Bytes → Result CryptoError Bytes
  inflate compressed decrypted =
      if compressed
      then or_fail (z.decompress decrypted) CryptoError.decompress_failed
      else ok decrypted

  -- The chunk loop of `decryptLargeV2` and `decryptLargeV3`: stored size, flags, IV, ciphertext.
  unfoldable pub open_framed : (ℕ → Bool) → ℕ → ℕ → Bytes → Bytes → Result CryptoError Bytes
  unfolding inflate
  open_framed is_compressed max_stored zero buf plaintext = finish buf plaintext
  open_framed is_compressed max_stored (suc n) buf plaintext = do
    guard (leb (chunk_count_size + flags_size) (length buf)) CryptoError.missing_size_header
    in_range (chunk_count_size + flags_size) buf
    let stored_size = uint32 buf
    let compressed = is_compressed (get_or buf chunk_count_size 0)
    let framed = drop (chunk_count_size + flags_size) buf
    guard (leb stored_size max_stored) CryptoError.stored_size_exceeded
    guard (leb iv_size (length framed)) CryptoError.missing_iv
    in_range iv_size framed
    let rest = drop iv_size framed
    guard (leb stored_size (length rest)) CryptoError.missing_ciphertext
    in_range stored_size rest
    decrypted ←
        or_fail (a.unseal d.key (take iv_size framed) (take stored_size rest))
          CryptoError.decrypt_failed
    inflated ← inflate compressed decrypted
    open_framed is_compressed max_stored n (drop stored_size rest) (plaintext ++ inflated)

  unfoldable pub decrypt_large_v2 : Bytes → Result CryptoError Bytes
  decrypt_large_v2 buf = do
    guard (leb chunk_count_size (length buf)) CryptoError.data_too_short
    in_range chunk_count_size buf
    let count = uint32 buf
    guard (not (count == 0 || leb max_chunk_count count)) CryptoError.invalid_chunk_count
    guard (a.key_ok d.key) CryptoError.cipher_failed
    open_framed compressed_v2 max_stored_size count (drop chunk_count_size buf) []

  unfoldable pub decrypt_large_v3 : Bytes → Result CryptoError Bytes
  decrypt_large_v3 full = do
    header ← parse_gb3_header full
    in_range gb3_header_size full
    guard (a.key_ok d.key) CryptoError.cipher_failed
    open_framed compressed_v3 (header.chunk_size + tag_size + 1024) (chunk_count header)
        (drop gb3_header_size full) []

  -- The case MagicGB1 of `Decrypt`: both readings are tried, the likelier one first.
  unfoldable pub decrypt_gb1 : Bytes → Result CryptoError Bytes
  decrypt_gb1 buf =
      if ltb chunk_count_size (length buf) && is_chunk_count (take chunk_count_size buf)
      then or_else (decrypt_large buf) (decrypt_small buf)
      else if ltb chunk_count_size (length buf)
      then or_else (decrypt_small buf) (decrypt_large buf)
      else decrypt_small buf

  unfoldable pub decrypt : Bytes → Result CryptoError Bytes
  decrypt ciphertext = do
    guard (leb magic_size (length ciphertext)) CryptoError.data_too_short
    in_range magic_size ciphertext
    let magic = take magic_size ciphertext
    let buf = drop magic_size ciphertext
    if bytes_eq magic magic_gb3
        then decrypt_large_v3 ciphertext
        else if bytes_eq magic magic_gb2
        then decrypt_large_v2 buf
        else if bytes_eq magic magic_gb1
        then decrypt_gb1 buf
        else err CryptoError.invalid_magic

  -- `DecryptStream` of a reader that holds some bytes (`none` when a read fails).
  unfoldable pub decrypt_stream : Option Bytes → Result CryptoError Bytes
  decrypt_stream reader = do
    content ← or_fail reader CryptoError.read_failed
    let buf = take (max_blob_size + 1) content
    guard (leb (length buf) max_blob_size) CryptoError.blob_too_large
    decrypt buf
