-- ===== src/Fsutil/Ignore/Decide.antt =====
-- IsExcluded and ShouldSkipDir. `case_insensitive` is the platform's, `glob_match` is path.Match.
use gbf_core.Base.{
  ◌≡◌, refl, sym, ◌∙◌, ◌↔◌, ◌⊎◌, inl, inr, Bool, true, false, not, ◌||◌, if◌then◌else◌, Bool-cases,
  List, [], ◌∷◌, ◌++◌, All, ℕ, arith, ◌==◌, ||-false, ==_iff, ap,
}
use gbf_core.Base.Bytes.{Bytes, bytes_eq, bytes_eq_comm, codes}
use gbf_core.Base.Text.{
  slash, has_prefix, has_suffix, contains, contains_any, contains_byte, to_lower,
}
use gbf_core.Fsutil.Ignore.Match.{match_literal, match_plain, match_pattern, match_pattern_lem}

abbrev pub restore_tmp_suffix : Bytes
restore_tmp_suffix = codes ".ginkgo-backup-restore-tmp"

abbrev pub AnyPattern : (Bytes → Type 0) → List Bytes → Type 0
AnyPattern P [] = ⊥
AnyPattern P (p ∷ ps) = P p ⊎ AnyPattern P ps

contains_byte-any :
    (s bs : Bytes) (b : ℕ)
    → contains_any s bs ≡ false
    → contains_byte bs b ≡ true
    → contains_byte s b ≡ false
unfolding contains_any contains_byte
contains_byte-any [] bs b h k = refl
contains_byte-any (c ∷ s) bs b h k =
    let (first, rest) = ||-false (contains_byte bs c) _ h in
    elim (Bool-cases (c == b)) [
      | inl same ↦
          (let e : false ≡ true = sym first ∙ ap (contains_byte bs) ((==_iff c b).0 same) ∙ k in cc)
      | inr other ↦ rw (other, contains_byte-any s bs b rest k)
    ]

-- No asterisk, no double asterisk.
contains_star : (s : Bytes) → contains_byte s b'*' ≡ false → contains s (codes "**") ≡ false
unfolding contains contains_byte has_prefix bytes_eq
contains_star [] h = refl
contains_star (c ∷ s) h =
    let (first, rest) = ||-false (c == b'*') _ h in rw (first, contains_star s rest) (ground arith)

star_listed : contains_byte (codes "*?[") b'*' ≡ true
unfolding contains_byte
star_listed = refl

match_plain-literal :
    (glob_match : Bytes → Bytes → Bool) (path n : Bytes)
    → contains_any n (codes "*?[") ≡ false
    → has_suffix n (slash ∷ []) ≡ false
    → match_pattern glob_match path n ≡ match_literal path n
unfolding match_plain
match_plain-literal glob_match path n glob dir =
    match_pattern_lem glob_match path n
    ∙ rw (contains_star n (contains_byte-any n (codes "*?[") b'*' glob star_listed), glob, dir) refl

match_pattern-literal :
    (glob_match : Bytes → Bytes → Bool) (path n : Bytes)
    → contains_any n (codes "*?[") ≡ false
    → has_suffix n (slash ∷ []) ≡ false
    → match_pattern glob_match path n ≡ false
    → (bytes_eq n path ≡ false) × (has_prefix path (n ++ slash ∷ []) ≡ false)
unfolding match_literal
match_pattern-literal glob_match path n glob dir miss =
    let e = sym (match_plain-literal glob_match path n glob dir) ∙ miss in
    let (first, _) = ||-false _ (has_suffix path (slash ∷ n)) e in
    let (two, _) = ||-false _ (contains path (slash ∷ (n ++ slash ∷ []))) first in
    let (a, b) = ||-false (bytes_eq path n) (has_prefix path (n ++ slash ∷ [])) two in
    (bytes_eq_comm n path ∙ a, b)

module _ (case_insensitive : Bool) (glob_match : Bytes → Bytes → Bool) where
  unfoldable pub normalize_for_match : Bytes → Bytes
  normalize_for_match s = if case_insensitive then to_lower s else s

  -- A loop that stops at the first pattern that matches.
  unfoldable pub any_match : Bytes → List Bytes → Bool
  any_match rel_path [] = false
  any_match rel_path (pat ∷ pats) =
      if match_pattern glob_match rel_path (normalize_for_match pat)
      then true
      else any_match rel_path pats

  unfoldable pub is_excluded : Bytes → List Bytes → List Bytes → Bool
  is_excluded rel_path positives negatives =
      if has_suffix (normalize_for_match rel_path) restore_tmp_suffix
      then true
      else if not (any_match (normalize_for_match rel_path) positives)
      then false
      else not (any_match (normalize_for_match rel_path) negatives)

  -- The loop of `ShouldSkipDir`
  unfoldable pub keeps : Bytes → List Bytes → Bool
  keeps norm_path [] = false
  keeps norm_path (neg ∷ negs) =
      let n = normalize_for_match neg in
      if bytes_eq n norm_path || has_prefix norm_path (n ++ slash ∷ [])
      then true
      else keeps norm_path negs

  unfoldable pub should_skip_dir : Bytes → List Bytes → List Bytes → Bool
  should_skip_dir rel_path positives negatives =
      if not (is_excluded rel_path positives negatives)
      then false
      else not (keeps (normalize_for_match rel_path) negatives)

  -- Some pattern of the list matches.
  abbrev pub Matches : Bytes → Bytes → Type 0
  Matches path pat = match_pattern glob_match path (normalize_for_match pat) ≡ true

  any_match_iff :
      (path : Bytes) (pats : List Bytes)
      → (any_match path pats ≡ true) ↔ AnyPattern (Matches path) pats
  unfolding any_match
  any_match_iff path [] = (λ h. cc, λ h. absurd h)
  any_match_iff path (pat ∷ pats) =
      let (there, back) = any_match_iff path pats in
      elim (Bool-cases (match_pattern glob_match path (normalize_for_match pat))) [
        | inl hit ↦ rw hit (λ _. inl refl, λ _. refl)
        | inr miss ↦
            rw miss (λ h. inr (there h), λ h. elim h [ inl hit ↦ cc | inr more ↦ back more ])
      ]

  -- A path is excluded exactly when it ends in the suffix of restore leftovers, or some positive
  -- pattern matches it and no negative one does.
  pub is_excluded_iff :
      (path : Bytes) (positives negatives : List Bytes)
      → (is_excluded path positives negatives ≡ true) ↔ (
          (has_suffix (normalize_for_match path) restore_tmp_suffix ≡ true)
          ⊎ (AnyPattern (Matches (normalize_for_match path)) positives
              × ¬ AnyPattern (Matches (normalize_for_match path)) negatives))
  unfolding is_excluded
  is_excluded_iff path positives negatives =
      let norm = normalize_for_match path in
      let (pos, pos') = any_match_iff norm positives in
      let (neg, neg') = any_match_iff norm negatives in
      elim (Bool-cases (has_suffix norm restore_tmp_suffix)) [
        | inl tmp ↦ rw tmp (λ _. inl refl, λ _. refl)
        | inr user ↦ elim (Bool-cases (any_match norm positives)) [
          | inr none_ ↦
              rw (user, none_)
                (
                  λ h. cc,
                  λ h. elim h [
                    | inl t ↦ cc
                    | inr (p, _) ↦ (let e : false ≡ true = sym none_ ∙ pos' p in cc)
                  ],
                )
          | inl some_ ↦ elim (Bool-cases (any_match norm negatives)) [
            | inl back ↦
                rw (user, some_, back)
                  (λ h. cc, λ h. elim h [ inl t ↦ cc | inr (_, n) ↦ absurd (n (neg back)) ])
            | inr kept ↦
                rw (user, some_, kept)
                  (
                    λ _. inr (pos some_, λ n. let e : false ≡ true = sym kept ∙ neg' n in cc),
                    λ _. refl,
                  )
          ]
        ]
      ]

  -- A pattern that names one path: no wildcard, and no slash at its end.
  abbrev pub Literal : Bytes → Type 0
  Literal pat =
      (contains_any (normalize_for_match pat) (codes "*?[") ≡ false)
      × (has_suffix (normalize_for_match pat) (slash ∷ []) ≡ false)

  any_match-∷ :
      (path neg : Bytes) (negs : List Bytes)
      → any_match path (neg ∷ negs) ≡ false
      → (match_pattern glob_match path (normalize_for_match neg) ≡ false)
        × (any_match path negs ≡ false)
  unfolding any_match
  any_match-∷ path neg negs h =
      elim (Bool-cases (match_pattern glob_match path (normalize_for_match neg))) [
        | inl hit ↦ (let e = rw hit at h in cc)
        | inr miss ↦ (miss, rw miss at h)
      ]

  keeps-matches :
      (path : Bytes) (negatives : List Bytes)
      → All Literal negatives
      → any_match path negatives ≡ false
      → keeps path negatives ≡ false
  unfolding keeps any_match
  keeps-matches path [] all h = refl
  keeps-matches path (neg ∷ negs) ((glob, dir), all) h =
      let n = normalize_for_match neg in
      let (miss, rest) = any_match-∷ path neg negs h in
      let (p, q) = match_pattern-literal glob_match path n glob dir miss in
      rw (p, q, keeps-matches path negs all rest)

  -- With negative patterns that have no wildcard and no slash at their end, and for a path that is
  -- no restore leftover, `ShouldSkipDir` is `IsExcluded`: its loop never keeps a directory,
  -- whatever a negative pattern names below it.
  pub should_skip_dir_lem :
      (path : Bytes) (positives negatives : List Bytes)
      → All Literal negatives
      → (has_suffix (normalize_for_match path) restore_tmp_suffix ≡ false)
      → should_skip_dir path positives negatives ≡ is_excluded path positives negatives
  unfolding should_skip_dir is_excluded
  should_skip_dir_lem path positives negatives all user =
      let norm = normalize_for_match path in
      elim (Bool-cases (any_match norm positives)) [
        | inr none_ ↦ rw (user, none_)
        | inl some_ ↦ elim (Bool-cases (any_match norm negatives)) [
          | inl back ↦ rw (user, some_, back)
          | inr kept ↦ rw (user, some_, kept, keeps-matches norm negatives all kept)
        ]
      ]
