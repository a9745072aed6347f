-- ===== src/Crypto/RoundTrip/Gb1.antt =====
-- The GB1 chunk loop, forwards and back.
use gbf_core.Base.{
  ℕ, zero, suc, ◌+◌, ◌*◌, ◌≤◌, ◌<◌, ◌≡◌, refl, ap, ◌∙◌, ◌⊎◌, inl, inr, ltb, le→leb, if◌then◌else◌,
  [], ◌++◌, append-nil, append_assoc, length, drop, length-append, take-append, drop-append,
  drop_all, ok, arith,
}
use gbf_core.Base.Bytes.{Bytes}
use gbf_core.Crypto.Format.{iv_size, tag_size}
use gbf_core.Crypto.Aead.{Aead, IsAead, Zstd}
use gbf_core.Crypto.Encrypt.{Cryptor, chunk_at, frame_gb1}
use gbf_core.Crypto.Decrypt.{open_chunks, finish}
use gbf_core.Crypto.RoundTrip.Chunks.{body, chunk_at-drop, body_end, length-chunk_at-le}

module _ (a : Aead) (law : IsAead a) (z : Zstd) (e : Cryptor) where
  -- Where the sealed chunk ends: at the full size, or with the blob.
  chunk_end :
      (s : ℕ) (enc rest : Bytes)
      → length enc ≤ s
      → (rest ≡ []) ⊎ (length enc ≡ s)
      → (if ltb (length (enc ++ rest)) s then length (enc ++ rest) else s) ≡ length enc
  chunk_end s enc rest h (inl last) = rw (last, append-nil) (ground arith)
  chunk_end s enc rest h (inr full) = ground (arith, length-append enc rest)

  pub open_chunks-step :
      (n : ℕ) (iv chunk rest plaintext : Bytes)
      → length iv ≡ iv_size
      → length chunk ≤ e.chunk_size
      → (rest ≡ []) ⊎ (length chunk ≡ e.chunk_size)
      → open_chunks a z e (suc n) (iv ++ (a.seal e.key iv chunk ++ rest)) plaintext
        ≡ open_chunks a z e n rest (plaintext ++ chunk)
  unfolding open_chunks
  open_chunks-step n iv chunk rest plaintext hi hc last = rw (
    le→leb iv_size (length (iv ++ (a.seal e.key iv chunk ++ rest)))
        (omega (arith, length-append iv (a.seal e.key iv chunk ++ rest))),
    take-append iv_size iv (a.seal e.key iv chunk ++ rest) hi,
    drop-append iv_size iv (a.seal e.key iv chunk ++ rest) hi,
    chunk_end (e.chunk_size + tag_size) (a.seal e.key iv chunk) rest
        (omega (arith, law.length-seal e.key iv chunk))
        (elim last [ inl r ↦ inl r | inr f ↦ inr (omega (arith, law.length-seal e.key iv chunk)) ]),
    le→leb (length (a.seal e.key iv chunk)) (length (a.seal e.key iv chunk ++ rest))
        (omega (arith, length-append (a.seal e.key iv chunk) rest)),
    take-append (length (a.seal e.key iv chunk)) (a.seal e.key iv chunk) rest refl,
    drop-append (length (a.seal e.key iv chunk)) (a.seal e.key iv chunk) rest refl,
    law.unseal-seal e.key iv chunk,
  )

  pub open_chunks-body :
      (ivs : ℕ → Bytes) (p : Bytes) (n i : ℕ) (plaintext : Bytes)
      → ((j : ℕ) → length (ivs j) ≡ iv_size)
      → length p ≤ (i + n) * e.chunk_size
      → (i + n) * e.chunk_size < length p + e.chunk_size
      → open_chunks a z e n (body a e.key frame_gb1 ivs p e.chunk_size n i) plaintext
        ≡ ok (plaintext ++ drop (i * e.chunk_size) p)
  unfolding frame_gb1 open_chunks finish
  open_chunks-body ivs p zero i plaintext hi lo up =
      rw (drop_all (i * e.chunk_size) p (omega arith), append-nil)
  open_chunks-body ivs p (suc n) i plaintext hi lo up =
      let s = e.chunk_size in
      let chunk = chunk_at p s i in
      let rest = body a e.key frame_gb1 ivs p s n (suc i) in
      rw (append_assoc (ivs i) (a.seal e.key (ivs i) chunk) rest) (
        open_chunks-step n (ivs i) chunk rest plaintext (hi i) (length-chunk_at-le p s i)
          (body_end a e.key frame_gb1 ivs p s n i up)
        ∙ open_chunks-body ivs p n (suc i) (plaintext ++ chunk) hi (omega arith) (omega arith)
        ∙ ap ok (
            append_assoc plaintext chunk (drop (suc i * s) p)
            ∙ ap (◌++◌ plaintext) (chunk_at-drop p s i)))
