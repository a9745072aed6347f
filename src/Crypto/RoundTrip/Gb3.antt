-- ===== src/Crypto/RoundTrip/Gb3.antt =====
-- The GB3 chunk loop, forwards and back, and the bytes that may follow a blob.
use gbf_core.Base.{
  ℕ, zero, suc, ◌+◌, ◌*◌, ◌^◌, ◌≤◌, ◌<◌, ◌≡◌, refl, ap, ◌∙◌, le→leb, Bool, false, some, ◌∷◌, ◌++◌,
  append-nil, append_assoc, length, drop, length-append, take-append, drop-append, drop_all, arith,
}
use native.Mathlib.Nat.{mod-eq_of_lt}
use gbf_core.Base.Bytes.{Bytes, put_uint32, uint32-put_uint32}
use gbf_core.Crypto.Format.{iv_size, tag_size}
use gbf_core.Crypto.Aead.{Aead, IsAead, Zstd}
use gbf_core.Crypto.Encrypt.{Cryptor, chunk_at, frame_gb3}
use gbf_core.Crypto.Decrypt.{open_framed, finish}
use gbf_core.Crypto.RoundTrip.Chunks.{body, chunk_at-drop, length-chunk_at-le}

frame-append :
    (iv enc rest : Bytes)
    → length enc < 2 ^ 32
    → frame_gb3 iv enc ++ rest ≡ put_uint32 (length enc) ++ 0 ∷ (iv ++ (enc ++ rest))
unfolding frame_gb3 put_uint32
frame-append iv enc rest h = rw (mod-eq_of_lt h, append_assoc iv enc rest)

module _ (a : Aead) (law : IsAead a) (z : Zstd) (e : Cryptor) (is_compressed : ℕ → Bool) (max : ℕ)
    (raw : is_compressed 0 ≡ false) (fits : e.chunk_size + tag_size ≤ max)
    (word : max < 2 ^ 32) where
  -- One frame is taken off the front, whatever follows.
  pub open_framed-step :
      (n : ℕ) (iv enc chunk rest plaintext : Bytes)
      → length iv ≡ iv_size
      → length enc ≤ max
      → a.unseal e.key iv enc ≡ some chunk
      → open_framed a z e is_compressed max
          (suc n)
          (put_uint32 (length enc) ++ 0 ∷ (iv ++ (enc ++ rest)))
          plaintext
        ≡ open_framed a z e is_compressed max n rest (plaintext ++ chunk)
  unfolding open_framed put_uint32
  open_framed-step n iv enc chunk rest plaintext hi he hu =
      rw
        (
          raw,
          le→leb 5 (length (put_uint32 (length enc) ++ 0 ∷ (iv ++ (enc ++ rest)))) (omega arith),
          uint32-put_uint32 (length enc) (0 ∷ (iv ++ (enc ++ rest))) (omega arith),
          le→leb (length enc) max he,
          le→leb iv_size (length (iv ++ (enc ++ rest)))
              (omega (arith, length-append iv (enc ++ rest))),
          take-append iv_size iv (enc ++ rest) hi,
          drop-append iv_size iv (enc ++ rest) hi,
          le→leb (length enc) (length (enc ++ rest)) (omega (arith, length-append enc rest)),
          take-append (length enc) enc rest refl,
          drop-append (length enc) enc rest refl,
          hu,
        )
        refl

  open_framed-zero :
      (buf plaintext : Bytes)
      → open_framed a z e is_compressed max zero buf plaintext ≡ finish buf plaintext
  unfolding open_framed
  open_framed-zero buf plaintext = refl

  -- The loop takes what the encoder wrote, and leaves what follows it.
  pub open_framed-body :
      (ivs : ℕ → Bytes) (p : Bytes) (n i : ℕ) (plaintext extra : Bytes)
      → ((j : ℕ) → length (ivs j) ≡ iv_size)
      → length p ≤ (i + n) * e.chunk_size
      → open_framed a z e is_compressed max n
          (body a e.key frame_gb3 ivs p e.chunk_size n i ++ extra)
          plaintext
        ≡ finish extra (plaintext ++ drop (i * e.chunk_size) p)
  open_framed-body ivs p zero i plaintext extra hi lo =
      rw (drop_all (i * e.chunk_size) p (omega arith), append-nil)
        (open_framed-zero extra plaintext)
  open_framed-body ivs p (suc n) i plaintext extra hi lo =
      let s = e.chunk_size in
      let chunk = chunk_at p s i in
      let enc = a.seal e.key (ivs i) chunk in
      let rest = body a e.key frame_gb3 ivs p s n (suc i) in
      let bound : length enc ≤ max =
        omega (arith, law.length-seal e.key (ivs i) chunk, length-chunk_at-le p s i) in
      rw
        (
          append_assoc (frame_gb3 (ivs i) enc) rest extra,
          frame-append (ivs i) enc (rest ++ extra) (omega arith),
        )
        (open_framed-step n (ivs i) enc chunk (rest ++ extra) plaintext (hi i) bound
            (law.unseal-seal e.key (ivs i) chunk)
          ∙ open_framed-body ivs p n (suc i) (plaintext ++ chunk) extra hi (omega arith)
          ∙ ap (finish extra) (
              append_assoc plaintext chunk (drop (suc i * s) p)
              ∙ ap (◌++◌ plaintext) (chunk_at-drop p s i)))
