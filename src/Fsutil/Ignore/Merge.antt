-- ===== src/Fsutil/Ignore/Merge.antt =====
-- MergeExcludes and SplitExcludePatterns: nothing lost, nothing twice.
use gbf_core.Base.{
  ◌+◌, ◌≡◌, refl, sym, ap, ◌∙◌, true, false, ◌||◌, if◌then◌else◌, Bool-cases, none, some,
  Option-cases, inl, inr, List, [], ◌∷◌, ◌++◌, append-nil, append_assoc, length, drop, arith,
}
use gbf_core.Base.Bytes.{Bytes, bytes_eq, bytes_eq_iff, bytes_eq_comm, codes}
use gbf_core.Base.Text.{has_prefix}
use gbf_core.Fsutil.Ignore.{
  mem_bytes, merge_into, merge_excludes, parse_size_filter, Patterns, split_into,
  split_exclude_patterns,
}

mem_bytes-append :
    (q : Bytes) (xs ys : List Bytes) → mem_bytes q (xs ++ ys) ≡ (mem_bytes q xs || mem_bytes q ys)
unfolding mem_bytes
mem_bytes-append q [] ys = refl
mem_bytes-append q (x ∷ xs) ys = ground (arith, mem_bytes-append q xs ys)

mem_bytes-same :
    (p q : Bytes) (xs : List Bytes) → bytes_eq p q ≡ true → mem_bytes p xs ≡ mem_bytes q xs
mem_bytes-same p q xs h = ap (λ r. mem_bytes r xs) ((bytes_eq_iff p q).0 h)

-- No pattern stands twice.
abbrev pub IsDistinct : List Bytes → Type 0
IsDistinct [] = Unit
IsDistinct (x ∷ xs) = (mem_bytes x xs ≡ false) × IsDistinct xs

snoc-IsDistinct :
    (p : Bytes) (xs : List Bytes)
    → mem_bytes p xs ≡ false
    → IsDistinct xs
    → IsDistinct (xs ++ p ∷ [])
unfolding mem_bytes
snoc-IsDistinct p [] h d = (refl, tt)
snoc-IsDistinct p (x ∷ xs) h d = (
  ground (arith, mem_bytes-append x xs (p ∷ []), bytes_eq_comm x p),
  snoc-IsDistinct p xs (ground arith) d.1,
)

merge_into_lem :
    (ps result : List Bytes)
    → IsDistinct result
    → IsDistinct (merge_into result ps)
      × ((q : Bytes) → mem_bytes q (merge_into result ps) ≡ (mem_bytes q result || mem_bytes q ps))
      × ((rest : List Bytes) × (merge_into result ps ≡ result ++ rest))
unfolding merge_into mem_bytes
merge_into_lem [] result d = (d, λ q. ground arith, ([], sym (append-nil result)))
merge_into_lem (p ∷ ps) result d = elim (Bool-cases (mem_bytes p result)) [
  | inl seen ↦
      let (distinct, members, (rest, first)) = merge_into_lem ps result d in
      rw seen (distinct, λ q. ground (arith, members q, mem_bytes-same p q result), (rest, first))
  | inr fresh ↦
      let (distinct, members, (rest, first)) =
        merge_into_lem ps (result ++ p ∷ []) (snoc-IsDistinct p result fresh d) in
      rw fresh (
        distinct,
        λ q. ground (arith, members q, mem_bytes-append q result (p ∷ [])),
        (p ∷ rest, first ∙ append_assoc result (p ∷ []) rest),
      )
]

-- The merged patterns are distinct, are exactly those of the two lists, and those of the first list
-- come before the rest.
pub merge_excludes_lem :
    (source ignore : List Bytes)
    → IsDistinct (merge_excludes source ignore)
      × ((q : Bytes)
          → mem_bytes q (merge_excludes source ignore) ≡ (mem_bytes q source || mem_bytes q ignore))
      × ((rest : List Bytes) × (merge_excludes source ignore ≡ merge_excludes source [] ++ rest))
unfolding merge_excludes merge_into mem_bytes
merge_excludes_lem source ignore =
    let (distinct, members, _) = merge_into_lem source [] tt in
    let (distinct', members', (rest, first)) =
      merge_into_lem ignore (merge_into [] source) distinct in
    (distinct', λ q. members' q ∙ ap (λ b. b || mem_bytes q ignore) (members q), (rest, first))

-- Where each pattern belongs, with no accumulator.
abbrev pub class_of : Bytes → Patterns → Patterns
class_of p later =
    if has_prefix p (codes "!")
    then record later { negatives = drop 1 p ∷ later.negatives }
    else elim (parse_size_filter p) [
      | some f ↦ record later { size_filters = f ∷ later.size_filters }
      | none ↦ record later { positives = p ∷ later.positives }
    ]

abbrev pub classes : List Bytes → Patterns
classes [] = record { positives = []; negatives = []; size_filters = [] }
classes (p ∷ ps) = class_of p (classes ps)

split_into-classes :
    (ps : List Bytes) (acc : Patterns)
    → split_into acc ps ≡ record {
      positives = acc.positives ++ (classes ps).positives;
      negatives = acc.negatives ++ (classes ps).negatives;
      size_filters = acc.size_filters ++ (classes ps).size_filters;
    }
unfolding split_into
split_into-classes [] acc = sym (λ i. record {
  positives = append-nil acc.positives i;
  negatives = append-nil acc.negatives i;
  size_filters = append-nil acc.size_filters i;
})
split_into-classes (p ∷ ps) acc = elim (Bool-cases (has_prefix p (codes "!"))) [
  | inl negative ↦ rw negative (
      split_into-classes ps (record acc { negatives = acc.negatives ++ drop 1 p ∷ [] }) ∙ λ i.
      record {
        positives = acc.positives ++ (classes ps).positives;
        negatives = append_assoc acc.negatives (drop 1 p ∷ []) (classes ps).negatives i;
        size_filters = acc.size_filters ++ (classes ps).size_filters;
      })
  | inr plain ↦ elim (Option-cases (parse_size_filter p)) [
    | inl none_found ↦
        rw (plain, none_found)
          (split_into-classes ps (record acc { positives = acc.positives ++ p ∷ [] }) ∙ λ i.
            record {
              positives = append_assoc acc.positives (p ∷ []) (classes ps).positives i;
              negatives = acc.negatives ++ (classes ps).negatives;
              size_filters = acc.size_filters ++ (classes ps).size_filters;
            })
    | inr (f, found) ↦
        rw (plain, found)
          (split_into-classes ps (record acc { size_filters = acc.size_filters ++ f ∷ [] }) ∙ λ i.
            record {
              positives = acc.positives ++ (classes ps).positives;
              negatives = acc.negatives ++ (classes ps).negatives;
              size_filters = append_assoc acc.size_filters (f ∷ []) (classes ps).size_filters i;
            })
  ]
]

length-classes :
    (ps : List Bytes)
    → length (classes ps).positives
        + length (classes ps).negatives
        + length (classes ps).size_filters
      ≡ length ps
length-classes [] = refl
length-classes (p ∷ ps) = ground (arith, length-classes ps)

-- Every pattern goes into exactly one of the three lists, in order: behind a `!` into the negatives
-- without it, a size filter into the filters, and all else into the positives.
pub split_exclude_patterns_lem :
    (ps : List Bytes)
    → (split_exclude_patterns ps ≡ classes ps)
      × (let r = split_exclude_patterns ps in
          length r.positives + length r.negatives + length r.size_filters ≡ length ps)
unfolding split_exclude_patterns
split_exclude_patterns_lem ps =
    let same : split_exclude_patterns ps ≡ classes ps = split_into-classes ps _ in
    (same, rw same (length-classes ps))
