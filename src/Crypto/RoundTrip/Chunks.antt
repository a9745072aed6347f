-- ===== src/Crypto/RoundTrip/Chunks.antt =====
-- The chunks of a plaintext, and what the sealing loop appends for them.
use native.Mathlib.Nat.{div-lt_iff_lt-mul, div-add-mod, mod-lt}
use gbf_core.Base.{
  ℕ, zero, suc, ◌+◌, ◌-◌, ◌*◌, ◌/◌, ◌≤◌, ◌<◌, ◌≡◌, refl, sym, ap, ◌∙◌, ◌⊎◌, inl, inr, ltb,
  Bool-cases, ltb→lt, le→ltb, [], ◌++◌, append-nil, append_assoc, length, drop, length-take,
  length-drop, take-append-drop, take_all, drop_all, drop-drop, ok, arith,
}
use gbf_core.Base.Bytes.{Bytes}
use gbf_core.Crypto.Aead.{Aead, Rand, IsRand}
use gbf_core.Crypto.Encrypt.{Cryptor, chunk_at, chunk_count_for, seal_chunks}

pub chunk_at_last : (p : Bytes) (s i : ℕ) → length p ≤ i * s + s → chunk_at p s i ≡ drop (i * s) p
unfolding chunk_at
chunk_at_last p s i h = elim (Bool-cases (ltb (length p) (i * s + s))) [
  | inl t ↦ rw t (take_all _ _ (omega (arith, length-drop (i * s) p)))
  | inr t ↦ rw t (take_all _ _ (omega (arith, length-drop (i * s) p)))
]

pub chunk_at_full :
    (p : Bytes) (s i : ℕ)
    → i * s + s ≤ length p
    → (chunk_at p s i ++ drop (suc i * s) p ≡ drop (i * s) p) × (length (chunk_at p s i) ≡ s)
unfolding chunk_at
chunk_at_full p s i h =
    let width : i * s + s - i * s ≡ s = omega arith in
    let next : suc i * s ≡ i * s + s = omega arith in
    rw (le→ltb (length p) (i * s + s) h, width, next, ← drop-drop s (i * s) p)
      (
        take-append-drop s (drop (i * s) p),
        omega (arith, length-take s (drop (i * s) p), length-drop (i * s) p),
      )

pub length-chunk_at-le : (p : Bytes) (s i : ℕ) → length (chunk_at p s i) ≤ s
unfolding chunk_at
length-chunk_at-le p s i = elim (Bool-cases (ltb (length p) (i * s + s))) [
  | inl t ↦ rw t (omega (arith, length-take (length p - i * s) (drop (i * s) p), ltb→lt _ _ t))
  | inr t ↦ rw t (omega (arith, length-take (i * s + s - i * s) (drop (i * s) p)))
]

-- The count is the least number of chunks that hold the text.
pub chunk_count_for_bounds :
    (len s : ℕ) → 0 < s → (len ≤ chunk_count_for len s * s) × (chunk_count_for len s * s < len + s)
unfolding chunk_count_for
chunk_count_for_bounds len s h = grind (arith, div-add-mod (len + s - 1) s, mod-lt (len + s - 1) h)

pub chunk_count_for-le : (len s m : ℕ) → 0 < s → len ≤ m * s → chunk_count_for len s ≤ m
unfolding chunk_count_for
chunk_count_for-le len s m h fits =
    let below : (len + s - 1) / s < suc m = (div-lt_iff_lt-mul h).1 (omega arith) in omega arith

pub chunk_count_for-pos : (len s : ℕ) → 0 < s → 0 < len → 0 < chunk_count_for len s
chunk_count_for-pos len s h pos = grind (arith, chunk_count_for_bounds len s h)

-- What the loop writes from the i-th chunk on.
abbrev pub body : Aead → Bytes → (Bytes → Bytes → Bytes) → (ℕ → Bytes) → Bytes → ℕ → ℕ → ℕ → Bytes
body a key frame ivs p s zero i = []
body a key frame ivs p s (suc n) i =
    frame (ivs i) (a.seal key (ivs i) (chunk_at p s i)) ++ body a key frame ivs p s n (suc i)

abbrev pub ivs_of : (rand : Rand) → IsRand rand → ℕ → Bytes
ivs_of rand r i = (r i).0

pub seal_chunks-body :
    (a : Aead) (rand : Rand) (r : IsRand rand) (e : Cryptor) (frame : Bytes → Bytes → Bytes)
    (p : Bytes) (n i : ℕ) (out : Bytes)
    → seal_chunks a rand e frame p n i out
      ≡ ok (out ++ body a e.key frame (ivs_of rand r) p e.chunk_size n i)
unfolding seal_chunks
seal_chunks-body a rand r e frame p zero i out = ap ok (sym (append-nil out))
seal_chunks-body a rand r e frame p (suc n) i out =
    let (iv, e₁, _) = r i in
    rw e₁ (
      seal_chunks-body a rand r e frame p n (suc i) _
      ∙ ap ok (append_assoc out (frame iv (a.seal e.key iv (chunk_at p e.chunk_size i))) _))

-- The i-th chunk and what follows it make up the rest of the text.
pub chunk_at-drop : (p : Bytes) (s i : ℕ) → chunk_at p s i ++ drop (suc i * s) p ≡ drop (i * s) p
chunk_at-drop p s i = elim (Bool-cases (ltb (length p) (i * s + s))) [
  | inl t ↦
      rw
        (
          chunk_at_last p s i (omega (arith, ltb→lt _ _ t)),
          drop_all (suc i * s) p (omega (arith, ltb→lt _ _ t)),
        )
        (append-nil (drop (i * s) p))
  | inr t ↦ (chunk_at_full p s i (ground arith)).0
]

-- Only the last chunk may be short.
pub body_end :
    (a : Aead) (key : Bytes) (frame : Bytes → Bytes → Bytes) (ivs : ℕ → Bytes) (p : Bytes)
    (s n i : ℕ)
    → (i + suc n) * s < length p + s
    → (body a key frame ivs p s n (suc i) ≡ []) ⊎ (length (chunk_at p s i) ≡ s)
body_end a key frame ivs p s zero i h = inl refl
body_end a key frame ivs p s (suc n) i h = inr (chunk_at_full p s i (omega arith)).1
