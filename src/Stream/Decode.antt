-- ===== src/Stream/Decode.antt =====
-- decryptStreamToFile of simple/stream.go, and the decoders that it calls.
use gbf_core.Base.{
  ℕ, zero, suc, ◌+◌, ◌-◌, ltb, leb, ◌==◌, Bool, true, false, not, ◌&&◌, ◌||◌, if◌then◌else◌, none,
  some, [], ◌++◌, length, take, drop, replicate, get_or, Result, ok, err, guard, or_fail, ◌>>=◌,
  ◌>>◌,
}
use gbf_core.Base.Bytes.{Bytes, bytes_eq, uint32}
use gbf_core.Crypto.Format.{
  magic_gb1, magic_gb2, magic_gb3, magic_size, iv_size, tag_size, chunk_count_size, flags_size,
  max_chunk_count, gb3_header_size, max_stored_size, max_blob_size, is_chunk_count, CryptoError,
}
use gbf_core.Crypto.Aead.{Aead, Zstd}
use gbf_core.Crypto.Header.{chunk_count, parse_gb3_header}
use gbf_core.Crypto.Encrypt.{Cryptor}
use gbf_core.Crypto.Decrypt.{decrypt_small, inflate, compressed_v2, compressed_v3}
use gbf_core.Blob.{is_compressed}

-- What a short read of four bytes leaves in their buffer.
unfoldable pub padded : ℕ → Bytes → Bytes
padded n src = take n src ++ replicate (n - length src) 0

module _ (a : Aead) (z : Zstd) (d : Cryptor) (broken : Bool) where
  -- `writeSmallPlaintext`: what it writes.
  unfoldable pub write_small_plaintext : Bytes → Result CryptoError Bytes
  write_small_plaintext plaintext =
      if is_compressed plaintext
      then or_fail (z.decompress plaintext) CryptoError.decompress_failed
      else ok plaintext

  -- `readBoundedSmall`
  unfoldable pub read_bounded_small : Bytes → Bytes → Result CryptoError Bytes
  read_bounded_small initial src = do
    let limit = max_blob_size + 1 - length initial
    guard (not (broken && ltb (length src) limit)) CryptoError.read_failed
    let all = initial ++ take limit src
    guard (leb (length all) max_blob_size) CryptoError.blob_too_large
    ok all

  -- `decryptSmallStream` and `decryptSmallStreamFromIV`, which have one body.
  unfoldable pub decrypt_small_stream : Bytes → Bytes → Result CryptoError Bytes
  decrypt_small_stream initial src = do
    all ← read_bounded_small initial src
    plaintext ← decrypt_small a z d all
    write_small_plaintext plaintext

  -- The second reading of a blob whose first chunk did not open.
  unfoldable pub reread_small : Bool → Result CryptoError Bytes → Result CryptoError Bytes
  reread_small may (err e) = err CryptoError.decrypt_failed
  reread_small may (ok plaintext) =
      if may then write_small_plaintext plaintext else err CryptoError.decrypt_failed

  -- The chunk loop of GB1: `first` tells the chunk 0, and `count_buf` is what was read before it.
  unfoldable pub stream_chunks : Bytes → ℕ → Bool → Bytes → Bytes → Result CryptoError Bytes
  stream_chunks count_buf zero first src dst = ok dst
  stream_chunks count_buf (suc n) first src dst = do
    guard (leb iv_size (length src)) CryptoError.missing_iv
    let iv = take iv_size src
    let rest = drop iv_size src
    let estimated = d.chunk_size + tag_size
    let short = ltb (length rest) estimated
    guard (not (broken && short)) CryptoError.read_failed
    let encrypted = take estimated rest
    elim (a.unseal d.key iv encrypted) [
      | none ↦ reread_small (first && short) (decrypt_small a z d (count_buf ++ (iv ++ encrypted)))
      | some decrypted ↦ stream_chunks count_buf n false (drop estimated rest) (dst ++ decrypted)
    ]

  -- The chunk loop of `decryptGB2StreamToFile` and `decryptGB3StreamToFile`.
  unfoldable pub stream_framed : (ℕ → Bool) → ℕ → ℕ → Bytes → Bytes → Result CryptoError Bytes
  stream_framed is_set max_stored zero src dst = ok dst
  stream_framed is_set max_stored (suc n) src dst = do
    guard (leb (chunk_count_size + flags_size) (length src)) CryptoError.missing_size_header
    let stored_size = uint32 src
    let framed = drop (chunk_count_size + flags_size) src
    guard (leb stored_size max_stored) CryptoError.stored_size_exceeded
    guard (leb iv_size (length framed)) CryptoError.missing_iv
    let rest = drop iv_size framed
    guard (leb stored_size (length rest)) CryptoError.missing_ciphertext
    decrypted ←
        or_fail (a.unseal d.key (take iv_size framed) (take stored_size rest))
          CryptoError.decrypt_failed
    inflated ← inflate a z d (is_set (get_or src chunk_count_size 0)) decrypted
    stream_framed is_set max_stored n (drop stored_size rest) (dst ++ inflated)

  unfoldable pub decrypt_gb2_stream : Bytes → Result CryptoError Bytes
  decrypt_gb2_stream src = do
    guard (leb chunk_count_size (length src)) CryptoError.data_too_short
    let count = uint32 src
    guard (not (count == 0 || leb max_chunk_count count)) CryptoError.invalid_chunk_count
    guard (a.key_ok d.key) CryptoError.cipher_failed
    stream_framed compressed_v2 max_stored_size count (drop chunk_count_size src) []

  unfoldable pub decrypt_gb3_stream : Bytes → Result CryptoError Bytes
  decrypt_gb3_stream src = do
    guard (leb (gb3_header_size - magic_size) (length src)) CryptoError.header_too_short
    header ← parse_gb3_header (magic_gb3 ++ take (gb3_header_size - magic_size) src)
    guard (a.key_ok d.key) CryptoError.cipher_failed
    stream_framed compressed_v3 (header.chunk_size + tag_size + 1024) (chunk_count header)
        (drop (gb3_header_size - magic_size) src) []

  -- What `decryptStreamToFile` does behind the magic of GB1.
  unfoldable pub decrypt_gb1_stream : Bytes → Result CryptoError Bytes
  decrypt_gb1_stream src =
      let count_buf = padded chunk_count_size src in
      let rest = drop chunk_count_size src in
      if ltb (length src) chunk_count_size
      then decrypt_small_stream count_buf []
      else if not (is_chunk_count count_buf)
      then (guard (leb (iv_size - chunk_count_size) (length rest)) CryptoError.missing_iv
          >> decrypt_small_stream (count_buf ++ take (iv_size - chunk_count_size) rest)
              (drop (iv_size - chunk_count_size) rest))
      else (guard (a.key_ok d.key) CryptoError.cipher_failed
          >> stream_chunks count_buf (uint32 count_buf) true rest [])

  -- `decryptStreamToFile`
  unfoldable pub decrypt_stream_to_file : Bytes → Result CryptoError Bytes
  decrypt_stream_to_file src = do
    guard (leb magic_size (length src)) CryptoError.data_too_short
    let magic = take magic_size src
    let rest = drop magic_size src
    if bytes_eq magic magic_gb3
        then decrypt_gb3_stream rest
        else if bytes_eq magic magic_gb2
        then decrypt_gb2_stream rest
        else if bytes_eq magic magic_gb1
        then decrypt_gb1_stream rest
        else err CryptoError.invalid_magic
