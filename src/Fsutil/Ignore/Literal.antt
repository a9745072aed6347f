-- ===== src/Fsutil/Ignore/Literal.antt =====
-- MatchPattern of fsutil/ignore.go on a pattern without wildcards: where its name stands in the path.
use gbf_core.Base.{
  ℕ, ◌-◌, ◌≡◌, refl, sym, ap, ◌∙◌, ◌⊎◌, inl, inr, ◌↔◌, Bool, true, false, ◌||◌, Bool-cases, [], ◌∷◌,
  ◌++◌, append_assoc, length, take, drop, length-append, drop-append, take-append-drop, leb, le→leb,
  &&-true, if◌then◌else◌, arith,
}
use gbf_core.Base.Bytes.{Bytes, bytes_eq, bytes_eq_iff, bytes_eq_refl, codes}
use gbf_core.Base.Text.{
  slash, has_prefix, has_suffix, contains, contains_any, contains_byte, has_prefix→append,
  has_prefix-append,
}
use gbf_core.Fsutil.Ignore.Match.{match_literal, match_plain, match_pattern, match_pattern_lem}

-- What is contained stands somewhere.
contains-some : (s p : Bytes) → contains s p ≡ true → (a b : Bytes) × (s ≡ a ++ (p ++ b))
unfolding contains
contains-some [] p h = ([], drop (length p) [], has_prefix→append [] p h)
contains-some (c ∷ s) p h = elim (Bool-cases (has_prefix (c ∷ s) p)) [
  | inl here ↦ ([], drop (length p) (c ∷ s), has_prefix→append (c ∷ s) p here)
  | inr later ↦ let (a, b, e) = contains-some s p (rw later at h) in (c ∷ a, b, ap (◌∷◌ c) e)
]

prefix-contains : (s q : Bytes) → has_prefix s q ≡ true → contains s q ≡ true
unfolding contains
prefix-contains [] q h = h
prefix-contains (c ∷ s) q h = rw h refl

contains-append : (a p b : Bytes) → contains (a ++ (p ++ b)) p ≡ true
unfolding contains
contains-append [] p b = prefix-contains (p ++ b) p (has_prefix-append p b)
contains-append (c ∷ a) p b = let e = contains-append a p b in ground arith

has_suffix→append : (s p : Bytes) → has_suffix s p ≡ true → (a : Bytes) × (s ≡ a ++ p)
unfolding has_suffix
has_suffix→append s p h =
    let (enough, same) = &&-true (leb (length p) (length s)) _ h in
    (
      take (length s - length p) s,
      sym (take-append-drop (length s - length p) s)
          ∙ ap (λ t. take (length s - length p) s ++ t) ((bytes_eq_iff _ p).0 same),
    )

has_suffix-append : (a p : Bytes) → has_suffix (a ++ p) p ≡ true
unfolding has_suffix
has_suffix-append a p =
    let l = length-append a p in
    let e : drop (length (a ++ p) - length p) (a ++ p) ≡ p =
      drop-append (length (a ++ p) - length p) a p (omega (arith, l)) in
    let enough : leb (length p) (length (a ++ p)) ≡ true =
      le→leb (length p) (length (a ++ p)) (omega (arith, l)) in
    rw (enough, e) (bytes_eq_refl p)

-- The last byte of a list.
by_end : (b : Bytes) → (b ≡ []) ⊎ ((c : Bytes) × (x : ℕ) × (b ≡ c ++ x ∷ []))
by_end [] = inl refl
by_end (y ∷ b) = elim (by_end b) [
  | inl e ↦ inr ([], y, ap (◌∷◌ y) e)
  | inr (c, x, e) ↦ inr (y ∷ c, x, ap (◌∷◌ y) e)
]

end-injective : (s t : Bytes) (x y : ℕ) → s ++ x ∷ [] ≡ t ++ y ∷ [] → s ≡ t
end-injective [] [] x y h = refl
end-injective [] (b ∷ t) x y h =
    absurd (let e = ap length h in omega (arith, e, length-append t (y ∷ [])))
end-injective (a ∷ s) [] x y h =
    absurd (let e = ap length h in omega (arith, e, length-append s (x ∷ [])))
end-injective (a ∷ s) (b ∷ t) x y h =
    let p : a ≡ b = cc in
    let q : s ++ x ∷ [] ≡ t ++ y ∷ [] = cc in let r = end-injective s t x y q in rw (p, r)

-- The name stands between slashes in the path, of which one is added at either end.
abbrev pub Stands : Bytes → Bytes → Type 0
Stands name rel_path =
    (a b : Bytes) × (slash ∷ (rel_path ++ slash ∷ []) ≡ a ++ (slash ∷ (name ++ slash ∷ b)))

-- The end of the path is the end of what the name stands in.
cut_end :
    (rel pre b : Bytes)
    → rel ++ slash ∷ [] ≡ pre ++ slash ∷ b
    → (rel ≡ pre) ⊎ ((c : Bytes) × (rel ≡ pre ++ slash ∷ c))
cut_end rel pre b h = elim (by_end b) [
  | inl e ↦
      let h' : rel ++ slash ∷ [] ≡ pre ++ slash ∷ [] = h ∙ ap (λ (t : Bytes). pre ++ slash ∷ t) e in
      inl (end-injective rel pre slash slash h')
  | inr (c, x, e) ↦
      let h' : rel ++ slash ∷ [] ≡ (pre ++ slash ∷ c) ++ x ∷ [] =
        h ∙ ap (λ (t : Bytes). pre ++ slash ∷ t) e ∙ sym (append_assoc pre (slash ∷ c) (x ∷ [])) in
      inr (c, end-injective rel (pre ++ slash ∷ c) slash x h')
]

match_literal-Stands : (rel name : Bytes) → match_literal rel name ≡ true → Stands name rel
unfolding match_literal
match_literal-Stands rel name h = elim (Bool-cases (bytes_eq rel name)) [
  | inl same ↦
      ([], [], ap (λ (t : Bytes). slash ∷ (t ++ slash ∷ [])) ((bytes_eq_iff rel name).0 same))
  | inr b ↦ elim (Bool-cases (has_prefix rel (name ++ slash ∷ []))) [
    | inl first ↦
        let t = drop (length (name ++ slash ∷ [])) rel in
        let e : rel ≡ (name ++ slash ∷ []) ++ t =
          has_prefix→append rel (name ++ slash ∷ []) first in
        (
          [],
          t ++ slash ∷ [],
          ap (λ (u : Bytes). slash ∷ (u ++ slash ∷ [])) (e ∙ append_assoc name (slash ∷ []) t)
              ∙ ap (◌∷◌ slash) (append_assoc name (slash ∷ t) (slash ∷ [])),
        )
    | inr c ↦ elim (Bool-cases (contains rel (slash ∷ (name ++ slash ∷ [])))) [
      | inl inside ↦
          let (u, v, e) = contains-some rel (slash ∷ (name ++ slash ∷ [])) inside in
          (
            slash ∷ u,
            v ++ slash ∷ [],
            ap (λ (t : Bytes). slash ∷ (t ++ slash ∷ [])) e
                ∙ ap (◌∷◌ slash) (
                    append_assoc u (slash ∷ ((name ++ slash ∷ []) ++ v)) (slash ∷ [])
                    ∙ ap (λ (t : Bytes). u ++ slash ∷ t)
                        (append_assoc (name ++ slash ∷ []) v (slash ∷ [])
                          ∙ append_assoc name (slash ∷ []) (v ++ slash ∷ []))),
          )
      | inr d ↦
          let last : has_suffix rel (slash ∷ name) ≡ true = rw (b, c, d) at h in
          let (u, e) = has_suffix→append rel (slash ∷ name) last in
          (
            slash ∷ u,
            [],
            ap (λ (t : Bytes). slash ∷ (t ++ slash ∷ [])) e
                ∙ ap (◌∷◌ slash) (append_assoc u (slash ∷ name) (slash ∷ [])),
          )
    ]
  ]
]

any_of :
    (b c d e : Bool) → (b ≡ true) ⊎ (c ≡ true) ⊎ (d ≡ true) ⊎ (e ≡ true) → (b || c || d || e) ≡ true
any_of b c d e h = ground arith

Stands-match_literal : (rel name : Bytes) → Stands name rel → match_literal rel name ≡ true
unfolding match_literal
Stands-match_literal rel name ([], b, h) =
    let h' : rel ++ slash ∷ [] ≡ name ++ slash ∷ b = cc in
    any_of (bytes_eq rel name) (has_prefix rel (name ++ slash ∷ [])) _ _
      (elim (cut_end rel name b h') [
        | inl e ↦ inl ((bytes_eq_iff rel name).1 e)
        | inr (c, e) ↦
            let e' : rel ≡ (name ++ slash ∷ []) ++ c = e ∙ sym (append_assoc name (slash ∷ []) c) in
            inr (
              inl (
                ap (λ t. has_prefix t (name ++ slash ∷ [])) e'
                ∙ has_prefix-append (name ++ slash ∷ []) c))
      ])
Stands-match_literal rel name (x ∷ a, b, h) =
    let h' : rel ++ slash ∷ [] ≡ a ++ (slash ∷ (name ++ slash ∷ b)) = cc in
    let g : rel ++ slash ∷ [] ≡ (a ++ slash ∷ name) ++ slash ∷ b =
      h' ∙ sym (append_assoc a (slash ∷ name) (slash ∷ b)) in
    any_of (bytes_eq rel name) (has_prefix rel (name ++ slash ∷ [])) _ _
      (elim (cut_end rel (a ++ slash ∷ name) b g) [
        | inl e ↦ inr (
            inr
              (inr (ap (λ t. has_suffix t (slash ∷ name)) e ∙ has_suffix-append a (slash ∷ name))))
        | inr (c, e) ↦
            let e' : rel ≡ a ++ ((slash ∷ (name ++ slash ∷ [])) ++ c) =
              e
              ∙ append_assoc a (slash ∷ name) (slash ∷ c)
              ∙ ap (λ (t : Bytes). a ++ slash ∷ t) (sym (append_assoc name (slash ∷ []) c)) in
            inr (
              inr (
                inl (
                  ap (λ t. contains t (slash ∷ (name ++ slash ∷ []))) e'
                  ∙ contains-append a (slash ∷ (name ++ slash ∷ [])) c)))
      ])

-- A pattern with `**` has a wildcard.
wildcard : (a b : Bytes) → contains_any (a ++ b'*' ∷ b) (codes "*?[") ≡ true
unfolding contains_any contains_byte
wildcard [] b = refl
wildcard (c ∷ a) b = let e = wildcard a b in ground arith

no_globstar :
    (pattern : Bytes)
    → contains_any pattern (codes "*?[") ≡ false
    → contains pattern (codes "**") ≡ false
no_globstar pattern plain = elim (Bool-cases (contains pattern (codes "**"))) [
  | inr none_ ↦ none_
  | inl there ↦
      let (a, b, e) = contains-some pattern (codes "**") there in
      let f : contains_any pattern (codes "*?[") ≡ true =
        ap (λ t. contains_any t (codes "*?[")) e ∙ wildcard a (b'*' ∷ b) in
      absurd (let g : true ≡ false = sym f ∙ plain in cc)
]

-- The name that a pattern without wildcards asks for: the pattern, without a slash at its end.
abbrev pub name_of : Bytes → Bytes
name_of pattern =
    if has_suffix pattern (slash ∷ []) then take (length pattern - 1) pattern else pattern

-- A pattern without `*`, `?` and `[` matches exactly the paths in which its name, which is the
-- pattern without a slash at its end, stands between slashes, when one is added at either end of
-- the path.
pub match_pattern-Stands :
    (glob_match : Bytes → Bytes → Bool) (rel_path pattern : Bytes)
    → contains_any pattern (codes "*?[") ≡ false
    → (match_pattern glob_match rel_path pattern ≡ true) ↔ Stands (name_of pattern) rel_path
unfolding match_plain
match_pattern-Stands glob_match rel_path pattern plain =
    let e : match_pattern glob_match rel_path pattern ≡ match_literal rel_path (name_of pattern) =
      match_pattern_lem glob_match rel_path pattern
      ∙ rw (no_globstar pattern plain, match_plain, plain)
          (elim (Bool-cases (has_suffix pattern (slash ∷ []))) [
            | inl b ↦ rw b refl
            | inr b ↦ rw b refl
          ]) in
    (
      λ h. match_literal-Stands rel_path (name_of pattern) (sym e ∙ h),
      λ s. e ∙ Stands-match_literal rel_path (name_of pattern) s,
    )
