-- ===== src/Crypto/RoundTrip/Blob.antt =====
-- Whole blobs: `Encrypt`, then `Decrypt`.
use gbf_core.Base.{
  ℕ, zero, suc, ◌+◌, ◌*◌, ◌≤◌, ◌<◌, ◌≡◌, ◌≢◌, refl, sym, ap, ◌∙◌, leb, lt→ltb, le→leb, Bool-cases,
  ◌==◌, ◌||◌, true, false, inl, inr, [], ◌++◌, length, take, drop, length-append, take-append,
  take-append_le, drop-append, subst, ok, arith,
}
use mathlib.Core.Bool.{false≢true}
use gbf_core.Base.Bytes.{Bytes, bytes_eq, put_uint32, uint32, uint32-put_uint32, length-put_uint32}
use gbf_core.Crypto.Format.{
  magic_gb1, iv_size, tag_size, chunk_count_size, is_chunk_count, max_chunk_count, max_uint32,
  max_gb3_chunk_size, gb3_header_size,
}
use gbf_core.Crypto.Aead.{Aead, IsAead, Zstd, Rand, IsRand}
use gbf_core.Crypto.Header.{encode_gb3_header, chunk_count}
use gbf_core.Crypto.Header.Bounds.{
  IsGb3, header_of, parse-encode_append, check-ok, length-encode, chunk_count-exact,
}
use gbf_core.Crypto.Encrypt.{
  Cryptor, chunk_at, chunk_count_for, frame_gb1, frame_gb3, new_small_blob_iv,
}
use gbf_core.Crypto.Decrypt.{
  decrypt, decrypt_gb1, decrypt_small, decrypt_large, decrypt_large_v3, or_else, compressed_v3,
  finish,
}
use gbf_core.Crypto.RoundTrip.Chunks.{body}
use gbf_core.Crypto.RoundTrip.Gb1.{open_chunks-body}
use gbf_core.Crypto.RoundTrip.Gb3.{open_framed-body}

drop_none : (s : ℕ) (p : Bytes) → drop (0 * s) p ≡ p
drop_none s p = let none_left : 0 * s ≡ 0 = omega arith in ap (λ k. drop k p) none_left

pub raw_v3 : compressed_v3 0 ≡ false
unfolding compressed_v3
raw_v3 = refl

pub header-IsGb3 :
    (size len : ℕ)
    → 0 < size
    → size ≤ max_gb3_chunk_size
    → chunk_count (header_of 0 0 size len) ≤ max_uint32
    → IsGb3 (header_of 0 0 size len)
header-IsGb3 size len pos up count = record {
  version = refl;
  hash_alg = refl;
  encryption_alg = refl;
  chunking_alg = refl;
  compression_alg = omega arith;
  chunk_size_pos = pos;
  chunk_size_le = up;
  chunk_count_le = count;
}

-- If every read of randomness gives an IV and one of those within the fuel is no chunk count,
-- rejection sampling returns an IV of twelve bytes that is no chunk count.
pub new_small_blob_iv-found :
    (fuel n m : ℕ) (rand : Rand) (r : IsRand rand)
    → n ≤ m
    → m < n + fuel
    → is_chunk_count (take chunk_count_size (r m).0) ≡ false
    → (iv : Bytes) × (new_small_blob_iv fuel rand n ≡ ok iv)
      × (length iv ≡ iv_size)
      × (is_chunk_count (take chunk_count_size iv) ≡ false)
unfolding new_small_blob_iv
new_small_blob_iv-found zero n m rand r lo up c = absurd (omega arith)
new_small_blob_iv-found (suc fuel) n m rand r lo up c =
    let (iv, read, len) = r n in
    elim (Bool-cases (is_chunk_count (take chunk_count_size iv))) [
      | inl again ↦
          let later : m ≢ n = λ e. false≢true (
            sym (subst (λ k. is_chunk_count (take chunk_count_size (r k).0) ≡ false) e c)
            ∙ again) in
          rw (read, new_small_blob_iv, again)
            (new_small_blob_iv-found fuel (suc n) m rand r (omega arith) (omega arith) c)
      | inr plain ↦ (iv, rw (read, new_small_blob_iv, plain), len, plain)
    ]

module _ (a : Aead) (z : Zstd) (e : Cryptor) where
  -- `Decrypt` on each magic.
  pub decrypt-gb1 : (buf : Bytes) → decrypt a z e (magic_gb1 ++ buf) ≡ decrypt_gb1 a z e buf
  unfolding decrypt bytes_eq
  decrypt-gb1 buf = rw (le→leb 4 (length (magic_gb1 ++ buf)) (omega arith))

  pub decrypt-gb3 :
      (flags alg size len : ℕ) (rest : Bytes)
      → decrypt a z e (encode_gb3_header flags alg size len ++ rest)
        ≡ decrypt_large_v3 a z e (encode_gb3_header flags alg size len ++ rest)
  unfolding decrypt bytes_eq encode_gb3_header
  decrypt-gb3 flags alg size len rest =
      rw (le→leb 4 (length (encode_gb3_header flags alg size len ++ rest)) (omega arith))

  pub decrypt_small-seal :
      (law : IsAead a) (iv p : Bytes)
      → a.key_ok e.key ≡ true
      → length iv ≡ iv_size
      → decrypt_small a z e (iv ++ a.seal e.key iv p) ≡ ok p
  unfolding decrypt_small
  decrypt_small-seal law iv p k hi =
      let sealed = a.seal e.key iv p in
      rw (
        le→leb 28 (length (iv ++ sealed))
            (omega (arith, length-append iv sealed, law.length-seal e.key iv p)),
        le→leb iv_size (length (iv ++ sealed)) (omega (arith, length-append iv sealed)),
        k,
        take-append iv_size iv sealed hi,
        drop-append iv_size iv sealed hi,
        law.unseal-seal e.key iv p,
      )

  -- A small blob whose IV is no chunk count is read as one at once.
  pub decrypt_gb1-small :
      (law : IsAead a) (iv p : Bytes)
      → a.key_ok e.key ≡ true
      → length iv ≡ iv_size
      → is_chunk_count (take chunk_count_size iv) ≡ false
      → decrypt_gb1 a z e (iv ++ a.seal e.key iv p) ≡ ok p
  unfolding decrypt_gb1 or_else
  decrypt_gb1-small law iv p k hi hc =
      let sealed = a.seal e.key iv p in
      rw (
        lt→ltb 4 (length (iv ++ sealed)) (omega (arith, length-append iv sealed)),
        take-append_le chunk_count_size iv sealed (omega arith),
        hc,
        decrypt_small-seal law iv p k hi,
      )

  body-pos :
      (ivs : ℕ → Bytes) (p : Bytes) (n i : ℕ)
      → ((j : ℕ) → length (ivs j) ≡ iv_size)
      → 0 < n
      → 0 < length (body a e.key frame_gb1 ivs p e.chunk_size n i)
  unfolding frame_gb1
  body-pos ivs p zero i hi h = absurd (omega arith)
  body-pos ivs p (suc n) i hi h =
      let enc = a.seal e.key (ivs i) (chunk_at p e.chunk_size i) in
      let rest = body a e.key frame_gb1 ivs p e.chunk_size n (suc i) in
      omega (arith, length-append (ivs i ++ enc) rest, length-append (ivs i) enc, hi i)

  is_chunk_count-put : (n : ℕ) → 0 < n → n < max_chunk_count → is_chunk_count (put_uint32 n) ≡ true
  unfolding is_chunk_count uint32 put_uint32
  is_chunk_count-put n lo up = ground arith

  decrypt_large-body :
      (law : IsAead a) (ivs : ℕ → Bytes) (p : Bytes) (n : ℕ)
      → a.key_ok e.key ≡ true
      → ((j : ℕ) → length (ivs j) ≡ iv_size)
      → 0 < n
      → n < max_chunk_count
      → length p ≤ n * e.chunk_size
      → n * e.chunk_size < length p + e.chunk_size
      → decrypt_large a z e (put_uint32 n ++ body a e.key frame_gb1 ivs p e.chunk_size n 0) ≡ ok p
  unfolding decrypt_large
  decrypt_large-body law ivs p n k hi pos up lo hi' =
      let chunks = body a e.key frame_gb1 ivs p e.chunk_size n 0 in
      let counted : (n == 0 || leb max_chunk_count n) ≡ false = ground arith in
      rw
        (
          le→leb 4 (length (put_uint32 n ++ chunks))
              (omega (arith, length-append (put_uint32 n) chunks, length-put_uint32 n)),
          uint32-put_uint32 n chunks (omega arith),
          drop-append 4 (put_uint32 n) chunks (length-put_uint32 n),
          counted,
          k,
        )
        (open_chunks-body a law z e ivs p n 0 [] hi (omega arith) (omega arith)
          ∙ ap ok (drop_none e.chunk_size p))

  -- A large blob's count marks it as one, so it is read in chunks at once.
  pub decrypt_gb1-large :
      (law : IsAead a) (ivs : ℕ → Bytes) (p : Bytes) (n : ℕ)
      → a.key_ok e.key ≡ true
      → ((j : ℕ) → length (ivs j) ≡ iv_size)
      → 0 < n
      → n < max_chunk_count
      → length p ≤ n * e.chunk_size
      → n * e.chunk_size < length p + e.chunk_size
      → decrypt_gb1 a z e (put_uint32 n ++ body a e.key frame_gb1 ivs p e.chunk_size n 0) ≡ ok p
  unfolding decrypt_gb1 or_else
  decrypt_gb1-large law ivs p n k hi pos up lo hi' =
      let chunks = body a e.key frame_gb1 ivs p e.chunk_size n 0 in
      rw (
        lt→ltb 4 (length (put_uint32 n ++ chunks)) (
            omega (
              arith,
              length-append (put_uint32 n) chunks,
              length-put_uint32 n,
              body-pos ivs p n 0 hi pos,
            )),
        take-append 4 (put_uint32 n) chunks (length-put_uint32 n),
        is_chunk_count-put n pos up,
        decrypt_large-body law ivs p n k hi pos up lo hi',
      )

  pub decrypt_large_v3-body :
      (law : IsAead a) (ivs : ℕ → Bytes) (p : Bytes) (n : ℕ) (extra : Bytes)
      → a.key_ok e.key ≡ true
      → ((j : ℕ) → length (ivs j) ≡ iv_size)
      → 0 < e.chunk_size
      → e.chunk_size ≤ max_gb3_chunk_size
      → n ≡ chunk_count_for (length p) e.chunk_size
      → n ≤ max_uint32
      → length p ≤ max_uint32 * e.chunk_size
      → length p ≤ n * e.chunk_size
      → decrypt_large_v3 a z e (
          encode_gb3_header 0 0 e.chunk_size (length p)
          ++ (body a e.key frame_gb3 ivs p e.chunk_size n 0 ++ extra))
        ≡ finish extra p
  unfolding decrypt_large_v3 chunk_count_for
  decrypt_large_v3-body law ivs p n extra k hi pos size hn up fits lo =
      let rest = body a e.key frame_gb3 ivs p e.chunk_size n 0 ++ extra in
      let header = header_of 0 0 e.chunk_size (length p) in
      let counted : chunk_count header ≡ n = chunk_count-exact header pos (omega arith) ∙ sym hn in
      rw
        (
          parse-encode_append 0 0 e.chunk_size (length p) rest (omega arith) (omega arith),
          check-ok header (header-IsGb3 e.chunk_size (length p) pos size (omega arith)),
          le→leb gb3_header_size (length (encode_gb3_header 0 0 e.chunk_size (length p) ++ rest)) (
              omega (
                arith,
                length-append (encode_gb3_header 0 0 e.chunk_size (length p)) rest,
                length-encode 0 0 e.chunk_size (length p),
              )),
          k,
          drop-append gb3_header_size (encode_gb3_header 0 0 e.chunk_size (length p)) rest
              (length-encode 0 0 e.chunk_size (length p)),
          counted,
        )
        (open_framed-body a law z e compressed_v3 (e.chunk_size + tag_size + 1024) raw_v3
            (omega arith) (omega arith) ivs p n 0 [] extra hi (omega arith)
          ∙ ap (finish extra) (drop_none e.chunk_size p))
