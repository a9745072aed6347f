-- ===== src/Fsutil/Ignore/Match.antt =====
-- MatchPattern and matchGlobstar. `glob_match` is path.Match: pattern, then name; an error of the
-- pattern is no match.
use gbf_core.Base.{
  ℕ, zero, suc, ◌+◌, ◌-◌, ◌<◌, ◌≡◌, fun_ext, inl, inr, ◌==◌, Bool, true, false, not, ◌&&◌, ◌||◌,
  if◌then◌else◌, Bool-cases, Option-cases, none, some, List, [], ◌∷◌, ◌++◌, take, drop, length,
  length-drop, arith,
}
use gbf_core.Base.Bytes.{Bytes, bytes_eq, codes}
use gbf_core.Base.Text.{
  slash, has_prefix, has_prefix-le, has_suffix, contains, contains_any, index, split, join, base,
}

-- A path is the directory or lies under it, at the top or deeper: the four tests of `MatchPattern`.
unfoldable pub match_literal : Bytes → Bytes → Bool
match_literal rel_path name =
    bytes_eq rel_path name
    || has_prefix rel_path (name ++ slash ∷ [])
    || contains rel_path (slash ∷ (name ++ slash ∷ []))
    || has_suffix rel_path (slash ∷ name)

module _ (glob_match : Bytes → Bytes → Bool) where
  unfoldable pub match_base : Bytes → Bytes → Bool
  match_base rel_path pattern =
      if glob_match pattern (base rel_path) then true else glob_match pattern rel_path

  unfoldable pub match_plain : Bytes → Bytes → Bool
  match_plain rel_path pattern =
      if not (contains_any pattern (codes "*?["))
      then if has_suffix pattern (slash ∷ [])
        then match_literal rel_path (take (length pattern - 1) pattern)
        else match_literal rel_path pattern
      else match_base rel_path pattern

  -- The first loop of `matchGlobstar`, with the parts from the first one on.
  starts : (Bytes → Bool) → List Bytes → Bool
  starts test [] = false
  starts test (part ∷ []) = false
  starts test (part ∷ next ∷ parts) = test (join (next ∷ parts)) || starts test (next ∷ parts)

  -- The last loop: `before` are the parts up to the i-th, without it.
  unfoldable pub middle : (Bytes → Bool) → Bytes → List Bytes → List Bytes → Bool
  middle test prefix before [] = false
  middle test prefix before (part ∷ parts) =
      let prefix_path = join (before ++ part ∷ []) in
      let remaining = join parts in
      let here =
        (bytes_eq prefix_path prefix
          || (contains prefix_path (slash ∷ prefix) && not (length before == 0)))
        && not (bytes_eq remaining [])
        && test remaining in
      here || middle test prefix (before ++ part ∷ []) parts

  -- `matchGlobstar`, with the calls of `MatchPattern` as a parameter.
  unfoldable pub match_globstar : (Bytes → Bytes → Bool) → Bytes → Bytes → Bool
  unfolding starts middle
  match_globstar recur rel_path pattern =
      if bytes_eq pattern (codes "**")
      then true
      else if has_prefix pattern (codes "**/")
      then recur rel_path (drop 3 pattern)
        || starts (λ p. recur p (drop 3 pattern)) (split rel_path)
      else if has_suffix pattern (codes "/**")
      then (let prefix = take (length pattern - 3) pattern in
          bytes_eq rel_path prefix
          || has_prefix rel_path (prefix ++ slash ∷ [])
          || contains rel_path (slash ∷ (prefix ++ slash ∷ [])))
      else elim (index pattern (codes "/**/")) [
        | some i ↦ middle (λ p. recur p (drop (i + 4) pattern)) (take i pattern) [] (split rel_path)
        | none ↦ match_base rel_path pattern
      ]

  -- `MatchPattern` with fuel: each nested call is made on a shorter pattern.
  unfoldable pub match_within : ℕ → Bytes → Bytes → Bool
  match_within zero rel_path pattern = false
  match_within (suc fuel) rel_path pattern =
      if contains pattern (codes "**")
      then match_globstar (match_within fuel) rel_path pattern
      else match_plain rel_path pattern

  unfoldable pub match_pattern : Bytes → Bytes → Bool
  match_pattern rel_path pattern = match_within (suc (length pattern)) rel_path pattern

  index-pos : (pattern : Bytes) (i : ℕ) → index pattern (codes "/**/") ≡ some i → 0 < length pattern
  unfolding index has_prefix
  index-pos [] i h = cc
  index-pos (c ∷ pattern) i h = omega arith

  -- The calls are made on shorter patterns only.
  match_globstar-agree :
      (f g : Bytes → Bytes → Bool) (rel_path pattern : Bytes)
      → ((p r : Bytes) → length p < length pattern → f r p ≡ g r p)
      → match_globstar f rel_path pattern ≡ match_globstar g rel_path pattern
  unfolding match_globstar
  match_globstar-agree f g rel_path pattern same =
      elim (Bool-cases (bytes_eq pattern (codes "**"))) [
        | inl all ↦ rw all
        | inr some_ ↦ elim (Bool-cases (has_prefix pattern (codes "**/"))) [
          | inl first ↦
              let shorter : length (drop 3 pattern) < length pattern =
                omega (arith, length-drop 3 pattern, has_prefix-le pattern (codes "**/") first) in
              rw (
                some_,
                first,
                same (drop 3 pattern) rel_path shorter,
                fun_ext (λ (r : Bytes). same (drop 3 pattern) r shorter),
              )
          | inr later ↦ elim (Bool-cases (has_suffix pattern (codes "/**"))) [
            | inl last ↦ rw (some_, later, last)
            | inr inner ↦ elim (Option-cases (index pattern (codes "/**/"))) [
              | inl plain ↦ rw (some_, later, inner, plain)
              | inr (i, found) ↦
                  let shorter : length (drop (i + 4) pattern) < length pattern =
                    omega (arith, length-drop (i + 4) pattern, index-pos pattern i found) in
                  rw (
                    some_,
                    later,
                    inner,
                    found,
                    fun_ext (λ (r : Bytes). same (drop (i + 4) pattern) r shorter),
                  )
            ]
          ]
        ]
      ]

  -- More fuel than the pattern is long changes nothing.
  pub match_within-enough :
      (f g : ℕ) (pattern rel_path : Bytes)
      → length pattern < f
      → length pattern < g
      → match_within f rel_path pattern ≡ match_within g rel_path pattern
  unfolding match_within
  match_within-enough zero g pattern rel_path hf hg = absurd (omega arith)
  match_within-enough (suc f) zero pattern rel_path hf hg = absurd (omega arith)
  match_within-enough (suc f) (suc g) pattern rel_path hf hg =
      elim (Bool-cases (contains pattern (codes "**"))) [
        | inl star ↦ rw star (
            match_globstar-agree (match_within f) (match_within g) rel_path pattern
              (λ p r shorter. match_within-enough f g p r (omega arith) (omega arith)))
        | inr plain ↦ rw plain
      ]

  -- `MatchPattern` has enough fuel: it is its two branches with the nested calls made without fuel,
  -- by parts for a pattern with `**` and as it stands for any other.
  pub match_pattern_lem :
      (rel_path pattern : Bytes)
      → match_pattern rel_path pattern ≡ (
          if contains pattern (codes "**")
          then match_globstar match_pattern rel_path pattern
          else match_plain rel_path pattern)
  unfolding match_pattern match_within
  match_pattern_lem rel_path pattern = elim (Bool-cases (contains pattern (codes "**"))) [
    | inl star ↦ rw star (
        match_globstar-agree (match_within (length pattern)) match_pattern rel_path pattern
          (λ p r shorter.
            match_within-enough (length pattern) (suc (length p)) p r shorter (omega arith)))
    | inr plain ↦ rw plain
  ]
