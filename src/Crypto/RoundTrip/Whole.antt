-- ===== src/Crypto/RoundTrip/Whole.antt =====
-- `Encrypt`, then `Decrypt`, on each of the three layouts.
use gbf_core.Base.{
  ℕ, ◌*◌, ◌%◌, ◌^◌, ◌≤◌, ◌<◌, ◌≡◌, ◌≢◌, refl, ◌∙◌, ltb, leb, le→leb, Bool-cases, true, false, inl,
  inr, [], ◌++◌, append_assoc, append-nil, length, take, Result, ok, err, arith,
}
use gbf_core.Base.Bytes.{Bytes, put_uint32}
use gbf_core.Crypto.Format.{
  CryptoError, trailing_data, magic_gb1, chunk_count_size, is_chunk_count, max_chunk_count,
  max_uint32, max_gb3_chunk_size,
}
use gbf_core.Crypto.Aead.{Aead, IsAead, Zstd, Rand, IsRand}
use gbf_core.Crypto.Header.{encode_gb3_header}
use gbf_core.Crypto.Encrypt.{
  Cryptor, chunk_count_for, frame_gb1, frame_gb3, encrypt_small, encrypt_large, encrypt_large_v1,
  encrypt_large_v3, encrypt,
}
use gbf_core.Crypto.Decrypt.{decrypt, finish}
use gbf_core.Crypto.RoundTrip.Chunks.{
  body, ivs_of, seal_chunks-body, chunk_count_for_bounds, chunk_count_for-le, chunk_count_for-pos,
}
use gbf_core.Crypto.RoundTrip.Blob.{
  new_small_blob_iv-found, decrypt-gb1, decrypt-gb3, decrypt_gb1-small, decrypt_gb1-large,
  decrypt_large_v3-body,
}

-- What the round trip asks of the cryptor: a key that the cipher takes and a chunk size that a GB3
-- reader takes.
pub record IsCryptor (a : Aead) (e : Cryptor) : Type 0 where
  pub key_ok : a.key_ok e.key ≡ true
  pub size_pos : 0 < e.chunk_size
  pub size_le : e.chunk_size ≤ max_gb3_chunk_size

module _ (a : Aead) (law : IsAead a) (z : Zstd) (rand : Rand) (r : IsRand rand) (e : Cryptor)
    (v : IsCryptor a e) where
  -- `Encrypt` gives a blob, and `Decrypt` gives the plaintext back.
  abbrev pub Recovers : Result CryptoError Bytes → Bytes → Type 0
  Recovers sealed p = (blob : Bytes) × (sealed ≡ ok blob) × (decrypt a z e blob ≡ ok p)

  pub encrypt_small-Recovers :
      (fuel m : ℕ) (p : Bytes)
      → m < fuel
      → is_chunk_count (take chunk_count_size (r m).0) ≡ false
      → Recovers (encrypt_small a rand e fuel p) p
  unfolding encrypt_small
  encrypt_small-Recovers fuel m p h c =
      let (iv, found, len, plain) =
        new_small_blob_iv-found fuel 0 m rand r (omega arith) (omega arith) c in
      (
        magic_gb1 ++ (iv ++ a.seal e.key iv p),
        rw (v.key_ok, found),
        decrypt-gb1 a z e (iv ++ a.seal e.key iv p)
            ∙ decrypt_gb1-small a z e law iv p v.key_ok len plain,
      )

  pub encrypt_large_v1-Recovers :
      (p : Bytes) (n : ℕ)
      → n ≡ chunk_count_for (length p) e.chunk_size
      → 0 < length p
      → n < max_chunk_count
      → Recovers (encrypt_large_v1 a rand e p n) p
  unfolding encrypt_large_v1
  encrypt_large_v1-Recovers p n hn pos up =
      let (lo, hi) = chunk_count_for_bounds (length p) e.chunk_size v.size_pos in
      let chunks = body a e.key frame_gb1 (ivs_of rand r) p e.chunk_size n 0 in
      (
        (magic_gb1 ++ put_uint32 n) ++ chunks,
        rw v.key_ok (seal_chunks-body a rand r e frame_gb1 p n 0 _),
        rw (append_assoc magic_gb1 (put_uint32 n) chunks) (
            decrypt-gb1 a z e (put_uint32 n ++ chunks)
            ∙ decrypt_gb1-large a z e law (ivs_of rand r) p n v.key_ok (λ j. (r j).2)
                (omega (arith, chunk_count_for-pos (length p) e.chunk_size v.size_pos pos)) up
                (rw hn lo) (rw hn hi)),
      )

  -- A GB3 blob is recovered, and refused if anything follows it.
  pub encrypt_large_v3-Recovers :
      (p extra : Bytes)
      → length p ≤ max_uint32 * e.chunk_size
      → (blob : Bytes) × (encrypt_large_v3 a rand e p ≡ ok blob)
        × (decrypt a z e (blob ++ extra) ≡ finish extra p)
  unfolding encrypt_large_v3
  encrypt_large_v3-Recovers p extra fits =
      let n = chunk_count_for (length p) e.chunk_size in
      let chunks = body a e.key frame_gb3 (ivs_of rand r) p e.chunk_size n 0 in
      let header = encode_gb3_header 0 0 e.chunk_size (length p) in
      let few : n ≤ max_uint32 =
        chunk_count_for-le (length p) e.chunk_size max_uint32 v.size_pos fits in
      let size : e.chunk_size % 2 ^ 32 ≡ e.chunk_size = omega (arith, v.size_le) in
      let len : length p % 2 ^ 64 ≡ length p = omega (arith, v.size_le) in
      (
        header ++ chunks,
        rw (le→leb n max_uint32 few, v.key_ok, size, len)
            (seal_chunks-body a rand r e frame_gb3 p n 0 header),
        rw (append_assoc header chunks extra) (
            decrypt-gb3 a z e 0 0 e.chunk_size (length p) (chunks ++ extra)
            ∙ decrypt_large_v3-body a z e law (ivs_of rand r) p n extra v.key_ok (λ j. (r j).2)
                v.size_pos v.size_le refl few fits
                (chunk_count_for_bounds (length p) e.chunk_size v.size_pos).0),
      )

  -- A GB1 or GB3 blob of a text of at least one chunk decrypts to that text.
  pub encrypt_large-Recovers :
      (p : Bytes)
      → 0 < length p
      → length p ≤ max_uint32 * e.chunk_size
      → Recovers (encrypt_large a rand e p) p
  unfolding encrypt_large finish
  encrypt_large-Recovers p pos fits =
      let n = chunk_count_for (length p) e.chunk_size in
      elim (Bool-cases (leb max_chunk_count n)) [
        | inl many ↦
            let (blob, made, opened) = encrypt_large_v3-Recovers p [] fits in
            (blob, rw many made, rw append-nil at opened)
        | inr few ↦ rw few (encrypt_large_v1-Recovers p n refl pos (ground arith))
      ]

  -- With a cipher that opens what it sealed and adds one tag, a key that the cipher takes, a chunk
  -- size between 1 and 64 MiB, a text of at most 2^32 - 1 chunks, reads of randomness that all give
  -- an IV, and among the first `fuel` of them one that does not look like a chunk count, `Encrypt`
  -- returns a blob and `Decrypt` of that blob returns the text.
  pub decrypt-encrypt :
      (fuel m : ℕ) (p : Bytes)
      → m < fuel
      → is_chunk_count (take chunk_count_size (r m).0) ≡ false
      → length p ≤ max_uint32 * e.chunk_size
      → (blob : Bytes) × (encrypt a rand e fuel p ≡ ok blob) × (decrypt a z e blob ≡ ok p)
  unfolding encrypt
  decrypt-encrypt fuel m p h c fits = elim (Bool-cases (ltb (length p) e.chunk_size)) [
    | inl small ↦ rw small (encrypt_small-Recovers fuel m p h c)
    | inr large ↦ rw large (encrypt_large-Recovers p (ground (arith, v.size_pos)) fits)
  ]

  -- With a cipher that opens what it sealed and adds one tag, a key that the cipher takes, a chunk
  -- size between 1 and 64 MiB, a text of at most 2^32 - 1 chunks and reads of randomness that all
  -- give an IV, the GB3 encoder returns a blob, and that blob with anything behind it is refused
  -- for trailing data.
  pub decrypt-encrypt_large_v3_append :
      (p extra : Bytes)
      → extra ≢ []
      → length p ≤ max_uint32 * e.chunk_size
      → (blob : Bytes) × (encrypt_large_v3 a rand e p ≡ ok blob)
        × (decrypt a z e (blob ++ extra) ≡ err trailing_data)
  unfolding finish
  decrypt-encrypt_large_v3_append p extra more fits =
      let (blob, made, opened) = encrypt_large_v3-Recovers p extra fits in
      (blob, made, opened ∙ ground arith)
