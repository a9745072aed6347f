-- ===== src/Persist/Envelope.antt =====
-- The checksum envelope GBR1 of simple/manifest.go: writing and opening it.
use gbf_core.Base.{
  ◌+◌, ◌≡◌, sym, ap, ◌∙◌, inl, inr, ◌↔◌, true, Bool-cases, some, ◌++◌, length, take, drop,
  length-append, take-append, drop-append, take-append-drop, drop-drop, le→leb, &&-true, arith,
}
use gbf_core.Base.Bytes.{Bytes, bytes_eq, bytes_eq_iff, bytes_eq_refl}
use gbf_core.Persist.{registry_envelope_magic, is_gbr_envelope, strip_gbr_envelope, gbr_envelope}

-- What opens is the envelope of its payload.
pub strip_gbr_envelope-some :
    (sha : Bytes → Bytes) (content p : Bytes)
    → is_gbr_envelope content ≡ true
    → strip_gbr_envelope sha content ≡ some p
    → content ≡ gbr_envelope sha p
unfolding is_gbr_envelope strip_gbr_envelope gbr_envelope
strip_gbr_envelope-some sha content p m h =
    elim (Bool-cases (bytes_eq (take 32 (drop 4 content)) (sha (drop 36 content)))) [
      | inr other ↦ absurd (let x = rw (strip_gbr_envelope, other) at h in cc)
      | inl same ↦
          let x : some (drop 36 content) ≡ some p = rw (strip_gbr_envelope, same) at h in
          let payload : drop 36 content ≡ p = cc in
          let magic : take 4 content ≡ registry_envelope_magic =
            (bytes_eq_iff (take 4 content) registry_envelope_magic).0 (&&-true _ _ m).1 in
          let sum : take 32 (drop 4 content) ≡ sha p =
            (bytes_eq_iff _ (sha (drop 36 content))).0 same ∙ ap sha payload in
          let tail : drop 32 (drop 4 content) ≡ p = drop-drop 32 4 content ∙ payload in
          let after : drop 4 content ≡ sha p ++ p =
            sym (take-append-drop 32 (drop 4 content)) ∙ rw (sum, tail) in
          sym (take-append-drop 4 content) ∙ rw (magic, after)
    ]

module _ (sha : Bytes → Bytes) (length-sha : (p : Bytes) → length (sha p) ≡ 32) where
  pub is_gbr_envelope-gbr_envelope : (p : Bytes) → is_gbr_envelope (gbr_envelope sha p) ≡ true
  unfolding is_gbr_envelope gbr_envelope bytes_eq
  is_gbr_envelope-gbr_envelope p =
      let l : length (sha p ++ p) ≡ length (sha p) + length p = length-append (sha p) p in
      rw (
        le→leb 36 (length (registry_envelope_magic ++ (sha p ++ p)))
          (omega (arith, l, length-sha p)))

  pub strip_gbr_envelope-gbr_envelope :
      (p : Bytes) → strip_gbr_envelope sha (gbr_envelope sha p) ≡ some p
  unfolding strip_gbr_envelope gbr_envelope
  strip_gbr_envelope-gbr_envelope p = rw (
    take-append 32 (sha p) p (length-sha p),
    drop-append 32 (sha p) p (length-sha p),
    bytes_eq_refl (sha p),
  )

  -- With hashes of 32 bytes, a file that is told to be an envelope opens to a payload exactly when
  -- it is the envelope that is written for that payload.
  pub strip_gbr_envelope_iff :
      (content p : Bytes)
      → is_gbr_envelope content ≡ true
      → (strip_gbr_envelope sha content ≡ some p) ↔ (content ≡ gbr_envelope sha p)
  strip_gbr_envelope_iff content p m = (
    strip_gbr_envelope-some sha content p m,
    λ e. ap (strip_gbr_envelope sha) e ∙ strip_gbr_envelope-gbr_envelope p,
  )
