-- ===== src/Fsutil/Ignore/Sizes.antt =====
-- Size filters: what they exclude, and the bounds of a parsed one.
use gbf_core.Base.{
  ℕ, ◌*◌, ◌/◌, ◌≤◌, ◌<◌, ◌≡◌, refl, sym, ap, ◌↔◌, ◌⊎◌, inl, inr, ltb, true, false, ◌&&◌, Bool-cases,
  Option, none, some, Option-cases, List, [], ◌∷◌, drop, arith,
}
use native.Mathlib.Nat.{div-add-mod', le_trans, mul-le-mul_right}
use mathlib.Core.Option.{some-injective}
use gbf_core.Base.Bytes.{Bytes, bytes_eq, codes}
use gbf_core.Base.Text.{has_prefix, trim_space}
use gbf_core.Fsutil.Ignore.{
  Op, gt, ge, lt, le, SizeFilter, exceeds, is_size_excluded, max_int64, parse_op, parse_unit,
  parse_count, scale, parse_amount, parse_size_filter,
}

-- What a filter says of a size.
abbrev pub Holds : ℕ → SizeFilter → Type 0
Holds size f = elim f.op [
  | gt ↦ f.bytes < size
  | ge ↦ f.bytes ≤ size
  | lt ↦ size < f.bytes
  | le ↦ size ≤ f.bytes
]

abbrev pub Any : (SizeFilter → Type 0) → List SizeFilter → Type 0
Any P [] = ⊥
Any P (f ∷ fs) = P f ⊎ Any P fs

exceeds_iff : (size : ℕ) (f : SizeFilter) → (exceeds size f ≡ true) ↔ Holds size f
unfolding exceeds
exceeds_iff size f = ground arith

-- A size is excluded exactly when one of the filters holds of it.
pub is_size_excluded_iff :
    (size : ℕ) (fs : List SizeFilter) → (is_size_excluded size fs ≡ true) ↔ Any (Holds size) fs
unfolding is_size_excluded
is_size_excluded_iff size [] = (λ h. cc, λ h. absurd h)
is_size_excluded_iff size (f ∷ fs) =
    let (there, back) = exceeds_iff size f in
    let (there', back') = is_size_excluded_iff size fs in
    elim (Bool-cases (exceeds size f)) [
      | inl hit ↦ rw hit (λ _. inl (there hit), λ _. refl)
      | inr miss ↦ rw miss (
        λ h. inr (there' h),
        λ h. elim h [ inl hit ↦ (let e = back hit in cc) | inr more ↦ back' more ],
      )
    ]

parse_unit-pos : (rest : Bytes) → 0 < (parse_unit rest).0
unfolding parse_unit
parse_unit-pos rest = ground arith

parse_count-le : (s : Bytes) (v : ℕ) → parse_count s ≡ some v → v ≤ max_int64
unfolding parse_count
parse_count-le s v h = ground arith

product-le :
    (v m : ℕ)
    → 0 < m
    → v ≤ max_int64
    → (ltb 1 m && ltb (max_int64 / m) v) ≡ false
    → v * m ≤ max_int64
product-le v m pos small h = elim (Bool-cases (ltb 1 m)) [
  | inl wide ↦
      let q : v ≤ max_int64 / m = ground arith in
      le_trans (mul-le-mul_right m q) (omega (arith, div-add-mod' max_int64 m))
  | inr unit ↦ let one : m ≡ 1 = ground arith in rw one (omega arith)
]

scale-le :
    (op : Op) (m : ℕ) (o : Option ℕ) (f : SizeFilter)
    → 0 < m
    → ((v : ℕ) → o ≡ some v → v ≤ max_int64)
    → scale op m o ≡ some f
    → (f.bytes ≤ max_int64) × ((v : ℕ) × (o ≡ some v) × (f.bytes ≡ v * m))
unfolding scale
scale-le op m none f pos small h = cc
scale-le op m (some v) f pos small h =
    let bound = small v refl in
    elim (Bool-cases (ltb 1 m && ltb (max_int64 / m) v)) [
      | inl too_large ↦ (let e = rw too_large at h in cc)
      | inr fits ↦
          let e : some (record { op = op; bytes = v * m }) ≡ some f = rw fits at h in
          let b : v * m ≡ f.bytes =
            ap (λ (g : SizeFilter). g.bytes)
              (some-injective (record { op = op; bytes = v * m }) f e) in
          (rw (← b) (product-le v m pos bound fits), (v, refl, sym b))
    ]

parse_amount-le :
    (op : Op) (rest : Bytes) (f : SizeFilter)
    → parse_amount op rest ≡ some f
    → (f.bytes ≤ max_int64)
      × ((v : ℕ) × (parse_count (trim_space (parse_unit rest).1) ≡ some v)
          × (f.bytes ≡ v * (parse_unit rest).0))
unfolding parse_amount
parse_amount-le op rest f h = elim (Bool-cases (bytes_eq rest [])) [
  | inl blank ↦ (let e = rw blank at h in cc)
  | inr full ↦
      scale-le op (parse_unit rest).0 (parse_count (trim_space (parse_unit rest).1)) f
        (parse_unit-pos rest) (parse_count-le _) (rw full at h)
]

-- A parsed size filter came behind `size:` and an operator, and its bound is the number times the
-- unit and fits an int64: no product wraps.
pub parse_size_filter_lem :
    (text : Bytes) (f : SizeFilter)
    → parse_size_filter text ≡ some f
    → (has_prefix (trim_space text) (codes "size:") ≡ true)
      × (f.bytes ≤ max_int64)
      × ((op : Op) × (rest : Bytes) × (v : ℕ) × (parse_op (drop 5 (trim_space text))
            ≡ some (op, rest))
          × (parse_count (trim_space (parse_unit (trim_space rest)).1) ≡ some v)
          × (f.bytes ≡ v * (parse_unit (trim_space rest)).0))
unfolding parse_size_filter
parse_size_filter_lem text f h = elim (Bool-cases (has_prefix (trim_space text) (codes "size:"))) [
  | inr other ↦ (let e = rw other at h in cc)
  | inl size ↦ elim (Option-cases (parse_op (drop 5 (trim_space text)))) [
    | inl none_found ↦ (let e = rw (size, none_found) at h in cc)
    | inr ((op, rest), found) ↦
        let (bound, (v, count, product)) =
          parse_amount-le op (trim_space rest) f (rw (size, found) at h) in
        (size, bound, (op, rest, v, found, count, product))
  ]
]
