-- ===== src/Stream/Encoded.antt =====
-- What the streaming encoder writes, and that the chunk loop of GB2 and GB3 reads it back.
use gbf_core.Base.{
  ℕ, zero, suc, ◌+◌, ◌*◌, ◌^◌, ◌≤◌, ◌<◌, ltb, leb, ltb→lt, le→leb, ◌==◌, ◌≡◌, refl, sym, ap, ◌∙◌,
  inl, inr, Bool, true, false, ◌&&◌, &&-true, Bool-cases, some, [], ◌∷◌, ◌++◌, append-nil,
  append_assoc, length, length-append, length-take, length-drop, length-zero, take, drop,
  take-append, drop-append, take-append-drop, Result, ok, if◌then◌else◌, arith, ==_iff,
}
use native.Mathlib.Nat.{mod-eq_of_lt}
use gbf_core.Base.Bytes.{Bytes, put_uint32, uint32-put_uint32}
use gbf_core.Crypto.Format.{CryptoError, iv_size, tag_size}
use gbf_core.Crypto.Aead.{Aead, IsAead, Zstd, Rand, IsRand}
use gbf_core.Crypto.Encrypt.{Cryptor}
use gbf_core.Crypto.Decrypt.{inflate}
use gbf_core.Crypto.RoundTrip.Chunks.{ivs_of}
use gbf_core.Stream.Encode.{stored_form, stream_frame, stream_seal, compress_threshold}
use gbf_core.Stream.Decode.{stream_framed}

-- A decompressor that gives back what the compressor took.
abbrev pub IsZstd : Zstd → Type 0
IsZstd z = (p : Bytes) → z.decompress (z.compress p) ≡ some p

-- What is stored of a chunk is no longer than the chunk, and its flag tells how to get it back.
length-stored_form-le :
    (z : Zstd) (try_compress : Bool) (chunk : Bytes)
    → length (stored_form z try_compress chunk).0 ≤ length chunk
unfolding stored_form
length-stored_form-le z try_compress chunk =
    elim (Bool-cases (
      try_compress
      && leb compress_threshold (length chunk)
      && ltb (length (z.compress chunk)) (length chunk))) [
        | inr whole ↦ rw (stored_form, whole) (omega arith)
        | inl small ↦
            let shorter =
              ltb→lt _ _
                (&&-true (try_compress && leb compress_threshold (length chunk)) _ small).1 in
            rw (stored_form, small) (omega (arith, shorter))
      ]

both :
    {x x' y y' : Bytes}
    → x ≡ x'
    → y ≡ y'
    → ◌≡◌ {A = Result CryptoError (Bytes × Bytes)} (ok (x, y)) (ok (x', y'))
both p q = λ i. ok (p i, q i)

module _ (a : Aead) (law : IsAead a) (z : Zstd) (zlaw : IsZstd z) (e : Cryptor) where
  inflate-stored_form :
      (try_compress : Bool) (chunk : Bytes)
      → inflate a z e (stored_form z try_compress chunk).1 (stored_form z try_compress chunk).0
        ≡ ok chunk
  unfolding stored_form inflate
  inflate-stored_form try_compress chunk =
      elim (Bool-cases (
        try_compress
        && leb compress_threshold (length chunk)
        && ltb (length (z.compress chunk)) (length chunk))) [
          | inr whole ↦ rw (stored_form, whole)
          | inl small ↦ rw (stored_form, small, inflate, zlaw chunk)
        ]

  -- One chunk as it is written.
  abbrev pub chunk_frame : Bool → Bool → Bytes → Bytes → Bytes
  chunk_frame try_compress framed iv chunk =
      stream_frame framed (stored_form z try_compress chunk).1 iv
        (a.seal e.key iv (stored_form z try_compress chunk).0)

  -- The chunks of what is left of a file.
  unfoldable pub stream_body : Bool → Bool → (ℕ → Bytes) → ℕ → ℕ → Bytes → Bytes
  stream_body try_compress framed ivs zero i src = []
  stream_body try_compress framed ivs (suc n) i src =
      let rest = stream_body try_compress framed ivs n (suc i) (drop e.chunk_size src) in
      if length (take e.chunk_size src) == 0
      then []
      else chunk_frame try_compress framed (ivs i) (take e.chunk_size src) ++ rest

  pub stream_body-zero :
      (try_compress framed : Bool) (ivs : ℕ → Bytes) (i : ℕ) (src : Bytes)
      → stream_body try_compress framed ivs zero i src ≡ []
  unfolding stream_body
  stream_body-zero try_compress framed ivs i src = refl

  pub stream_body_stop :
      (try_compress framed : Bool) (ivs : ℕ → Bytes) (n i : ℕ) (src : Bytes)
      → (length (take e.chunk_size src) == 0) ≡ true
      → stream_body try_compress framed ivs (suc n) i src ≡ []
  unfolding stream_body
  stream_body_stop try_compress framed ivs n i src h = rw (stream_body, h)

  pub stream_body_more :
      (try_compress framed : Bool) (ivs : ℕ → Bytes) (n i : ℕ) (src : Bytes)
      → (length (take e.chunk_size src) == 0) ≡ false
      → stream_body try_compress framed ivs (suc n) i src
        ≡ chunk_frame try_compress framed (ivs i) (take e.chunk_size src)
          ++ stream_body try_compress framed ivs n (suc i) (drop e.chunk_size src)
  unfolding stream_body
  stream_body_more try_compress framed ivs n i src h = rw (stream_body, h)

  pub full_take :
      (s : ℕ) (src : Bytes) → 0 < s → 0 < length src → (length (take s src) == 0) ≡ false
  full_take s src pos full = let m = length-take s src in ground (arith, m)

  empty_take : (s : ℕ) (src : Bytes) → 0 < s → (length (take s src) == 0) ≡ true → src ≡ []
  empty_take s src pos h =
      let l : length (take s src) ≡ 0 = (==_iff _ 0).0 h in
      length-zero src (let m = length-take s src in omega (arith, l, m, pos))

  -- The encoder writes those chunks behind what stands there, and hashes the file as far as it read.
  pub stream_seal-stream_body :
      (rand : Rand) (r : IsRand rand) (try_compress framed : Bool) (n i : ℕ)
      (src dst hashed : Bytes)
      → 0 < e.chunk_size
      → length src ≤ n * e.chunk_size
      → stream_seal a z rand e false try_compress framed n i src dst hashed
        ≡ ok (dst ++ stream_body try_compress framed (ivs_of rand r) n i src, hashed ++ src)
  unfolding stream_seal
  stream_seal-stream_body rand r try_compress framed zero i src dst hashed pos fits =
      let nothing : src ≡ [] = length-zero src (omega arith) in
      rw (
        nothing,
        stream_body-zero try_compress framed (ivs_of rand r) i [],
        append-nil dst,
        append-nil hashed,
      )
  stream_seal-stream_body rand r try_compress framed (suc n) i src dst hashed pos fits =
      let chunk = take e.chunk_size src in
      let rest = drop e.chunk_size src in
      elim (Bool-cases (length chunk == 0)) [
        | inl stop ↦
            let nothing = empty_take e.chunk_size src pos stop in
            rw
              (stream_seal, stop, stream_body_stop try_compress framed (ivs_of rand r) n i src stop)
              (both (sym (append-nil dst))
                (sym (append-nil hashed) ∙ ap (◌++◌ hashed) (sym nothing)))
        | inr more ↦
            let (iv, drawn, _) = r i in
            let next =
              stream_seal-stream_body rand r try_compress framed n (suc i) rest
                (dst ++ chunk_frame try_compress framed iv chunk) (hashed ++ chunk) pos
                (omega (arith, length-drop e.chunk_size src)) in
            rw
              (
                stream_seal,
                more,
                drawn,
                stream_body_more try_compress framed (ivs_of rand r) n i src more,
              )
              (next
                ∙ both (append_assoc dst (chunk_frame try_compress framed iv chunk) _) (
                    append_assoc hashed chunk rest
                    ∙ ap (◌++◌ hashed) (take-append-drop e.chunk_size src)))
      ]

  frame-append :
      (compressed : Bool) (iv encrypted rest : Bytes)
      → length encrypted < 2 ^ 32
      → stream_frame true compressed iv encrypted ++ rest
        ≡ put_uint32 (length encrypted)
          ++ (if compressed then 1 else 0) ∷ (iv ++ (encrypted ++ rest))
  unfolding stream_frame put_uint32
  frame-append compressed iv encrypted rest h = rw (mod-eq_of_lt h, append_assoc iv encrypted rest)

  module _ (is_set : ℕ → Bool) (max : ℕ) (flags : (b : Bool) → is_set (if b then 1 else 0) ≡ b)
      (fits : e.chunk_size + tag_size ≤ max) (word : max < 2 ^ 32) where
    -- One frame is taken off the front.
    stream_framed-step :
        (broken : Bool) (n : ℕ) (compressed : Bool) (iv enc stored chunk rest dst : Bytes)
        → length iv ≡ iv_size
        → length enc ≤ max
        → a.unseal e.key iv enc ≡ some stored
        → inflate a z e compressed stored ≡ ok chunk
        → stream_framed a z e broken is_set max
            (suc n)
            (put_uint32 (length enc) ++ (if compressed then 1 else 0) ∷ (iv ++ (enc ++ rest)))
            dst
          ≡ stream_framed a z e broken is_set max n rest (dst ++ chunk)
    unfolding stream_framed put_uint32
    stream_framed-step broken n compressed iv enc stored chunk rest dst hi he hu hz =
        let flag : ℕ = if compressed then 1 else 0 in
        rw
          (
            flags compressed,
            le→leb 5 (length (put_uint32 (length enc) ++ flag ∷ (iv ++ (enc ++ rest))))
                (omega arith),
            uint32-put_uint32 (length enc) (flag ∷ (iv ++ (enc ++ rest))) (omega arith),
            le→leb (length enc) max he,
            le→leb iv_size (length (iv ++ (enc ++ rest)))
                (omega (arith, length-append iv (enc ++ rest))),
            take-append iv_size iv (enc ++ rest) hi,
            drop-append iv_size iv (enc ++ rest) hi,
            le→leb (length enc) (length (enc ++ rest)) (omega (arith, length-append enc rest)),
            take-append (length enc) enc rest refl,
            drop-append (length enc) enc rest refl,
            hu,
            hz,
          )
          refl

    -- The loop reads back the file.
    pub stream_framed-stream_body :
        (broken try_compress : Bool) (ivs : ℕ → Bytes) (n i : ℕ) (src dst : Bytes)
        → ((j : ℕ) → length (ivs j) ≡ iv_size)
        → length src ≤ n * e.chunk_size
        → n * e.chunk_size < length src + e.chunk_size
        → stream_framed a z e broken is_set max n (stream_body try_compress true ivs n i src) dst
          ≡ ok (dst ++ src)
    unfolding stream_framed
    stream_framed-stream_body broken try_compress ivs zero i src dst hi lo up =
        let nothing : src ≡ [] = length-zero src (omega arith) in
        rw nothing (ap ok (sym (append-nil dst)))
    stream_framed-stream_body broken try_compress ivs (suc n) i src dst hi lo up =
        let s = e.chunk_size in
        let chunk = take s src in
        let rest = drop s src in
        let (stored, compressed) = stored_form z try_compress chunk in
        let enc = a.seal e.key (ivs i) stored in
        let body = stream_body try_compress true ivs n (suc i) rest in
        let more : (length chunk == 0) ≡ false =
          full_take s src (omega (arith, lo, up)) (omega (arith, lo, up)) in
        let bound : length enc ≤ max = omega (
          arith,
          law.length-seal e.key (ivs i) stored,
          length-stored_form-le z try_compress chunk,
          length-take s src,
        ) in
        let next =
          stream_framed-stream_body broken try_compress ivs n (suc i) rest (dst ++ chunk) hi
            (omega (arith, lo, length-drop s src)) (omega (arith, up, length-drop s src)) in
        rw
          (
            stream_body_more try_compress true ivs n i src more,
            frame-append compressed (ivs i) enc body (omega arith),
          )
          (stream_framed-step broken n compressed (ivs i) enc stored chunk body dst (hi i) bound
              (law.unseal-seal e.key (ivs i) stored) (inflate-stored_form try_compress chunk)
            ∙ next
            ∙ ap ok (append_assoc dst chunk rest ∙ ap (◌++◌ dst) (take-append-drop s src)))
