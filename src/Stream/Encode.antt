-- ===== src/Stream/Encode.antt =====
-- encryptFileToWriter of simple/stream.go.
use gbf_core.Base.{
  ℕ, zero, suc, ◌%◌, ◌^◌, ltb, leb, ◌==◌, Bool, true, false, not, ◌&&◌, ◌||◌, if◌then◌else◌, [],
  ◌∷◌, ◌++◌, length, take, drop, Result, ok, guard, or_fail, ◌>>=◌, ◌>>◌,
}
use gbf_core.Base.Bytes.{Bytes, put_uint32}
use gbf_core.Crypto.Format.{
  magic_gb1, magic_gb2, max_chunk_count, CryptoError, cipher_failed, rand_failed, read_failed,
}
use gbf_core.Crypto.Aead.{Aead, Zstd, Rand}
use gbf_core.Crypto.Header.{encode_gb3_header}
use gbf_core.Crypto.Encrypt.{Cryptor, chunk_count_for}

abbrev pub compress_threshold : ℕ
compress_threshold = 65536

-- `toStore` and `compressed`: a chunk is kept as it is unless compressing it makes it smaller.
unfoldable pub stored_form : Zstd → Bool → Bytes → Bytes × Bool
stored_form z try_compress chunk =
    if try_compress
      && leb compress_threshold (length chunk)
      && ltb (length (z.compress chunk)) (length chunk)
    then (z.compress chunk, true)
    else (chunk, false)

-- How one chunk is written: with its size and its flags in GB2 and GB3.
unfoldable pub stream_frame : Bool → Bool → Bytes → Bytes → Bytes
stream_frame framed compressed iv encrypted =
    if framed
    then put_uint32 (length encrypted % 2 ^ 32) ++ (if compressed then 1 else 0) ∷ (iv ++ encrypted)
    else iv ++ encrypted

-- The header: the GB3 header, or the magic and the chunk count.
unfoldable pub stream_header : Bool → ℕ → ℕ → ℕ → Bytes
stream_header try_compress chunk_size size count =
    let flag = if try_compress then 1 else 0 in
    if leb max_chunk_count count
    then encode_gb3_header flag flag (chunk_size % 2 ^ 32) (size % 2 ^ 64)
    else (if try_compress then magic_gb2 else magic_gb1) ++ put_uint32 (count % 2 ^ 32)

module _ (a : Aead) (z : Zstd) (rand : Rand) (e : Cryptor) (broken : Bool) where
  -- The chunk loop, with n chunks left from the i-th on: what stands in `dst`, and what `plainHash`
  -- was fed. It ends early where the file does.
  unfoldable pub stream_seal :
      Bool → Bool → ℕ → ℕ → Bytes → Bytes → Bytes → Result CryptoError (Bytes × Bytes)
  stream_seal try_compress framed zero i src dst hashed = ok (dst, hashed)
  stream_seal try_compress framed (suc n) i src dst hashed =
      let chunk = take e.chunk_size src in
      let (to_store, compressed) = stored_form z try_compress chunk in
      guard (not (broken && ltb (length src) e.chunk_size)) read_failed
      >> elim (length chunk == 0) [
        | true ↦ ok (dst, hashed)
        | false ↦ or_fail (rand i) rand_failed >>= λ iv.
            stream_seal try_compress framed n (suc i) (drop e.chunk_size src)
              (dst ++ stream_frame framed compressed iv (a.seal e.key iv to_store))
              (hashed ++ chunk)
      ]

  -- `encryptFileToWriter` of a file with that content, whose size was `size` when it was asked for.
  unfoldable pub encrypt_file_to_writer : Bool → Bytes → ℕ → Result CryptoError (Bytes × Bytes)
  encrypt_file_to_writer try_compress content size = do
    guard (a.key_ok e.key) cipher_failed
    let count = chunk_count_for size e.chunk_size
    stream_seal try_compress (try_compress || leb max_chunk_count count) count 0 content
        (stream_header try_compress e.chunk_size size count) []
