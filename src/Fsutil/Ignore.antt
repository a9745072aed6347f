-- ===== src/Fsutil/Ignore.antt =====
-- fsutil/ignore.go: merging and splitting patterns, size filters, and the exclusion decision.
pub mod Merge
pub mod Sizes
pub mod Match
pub mod Literal
pub mod Decide
use gbf_core.Base.{
  ℕ, zero, suc, ◌+◌, ◌-◌, ◌*◌, ◌/◌, ◌^◌, ltb, leb, ◌==◌, Bool, true, false, not, ◌&&◌, ◌||◌,
  if◌then◌else◌, Option, none, some, List, [], ◌∷◌, ◌++◌, map, length, take, drop,
}
use gbf_core.Base.Bytes.{Bytes, bytes_eq, codes}
use gbf_core.Base.Text.{
  slash, has_prefix, has_suffix, contains, contains_any, index, split, join, trim_space, to_lower,
  base, digits_value,
}

-- `seen[p]`
unfoldable pub mem_bytes : Bytes → List Bytes → Bool
mem_bytes p [] = false
mem_bytes p (q ∷ qs) = bytes_eq q p || mem_bytes p qs

-- One loop of `MergeExcludes`. What was seen is what was appended.
unfoldable pub merge_into : List Bytes → List Bytes → List Bytes
merge_into result [] = result
merge_into result (p ∷ ps) = merge_into (if mem_bytes p result then result else result ++ p ∷ []) ps

unfoldable pub merge_excludes : List Bytes → List Bytes → List Bytes
merge_excludes source_excludes ignore_patterns =
    merge_into (merge_into [] source_excludes) ignore_patterns

-- `LoadIgnoreFile` behind the read of the file: the trimmed lines but blanks and comments.
unfoldable pub ignore_lines : List Bytes → List Bytes
ignore_lines [] = []
ignore_lines (line ∷ lines) =
    let trimmed = trim_space line in
    if bytes_eq trimmed [] || has_prefix trimmed (codes "#")
    then ignore_lines lines
    else trimmed ∷ ignore_lines lines

pub data Op : Type 0 where
  gt ge lt le : Op

pub record SizeFilter : Type 0 where
  pub op : Op
  pub bytes : ℕ

-- The `switch` on the operator.
unfoldable pub parse_op : Bytes → Option (Op × Bytes)
parse_op rest =
    if has_prefix rest (codes ">=")
    then some (ge, drop 2 rest)
    else if has_prefix rest (codes "<=")
    then some (le, drop 2 rest)
    else if has_prefix rest (codes ">")
    then some (gt, drop 1 rest)
    else if has_prefix rest (codes "<")
    then some (lt, drop 1 rest)
    else none

-- The `switch` on the unit: the multiplier and the text before the unit.
unfoldable pub parse_unit : Bytes → ℕ × Bytes
parse_unit rest =
    let lower = to_lower rest in
    if has_suffix lower (codes "gb")
    then (1024 * 1024 * 1024, take (length rest - 2) rest)
    else if has_suffix lower (codes "mb")
    then (1024 * 1024, take (length rest - 2) rest)
    else if has_suffix lower (codes "kb")
    then (1024, take (length rest - 2) rest)
    else if has_suffix lower (codes "b")
    then (1, take (length rest - 1) rest)
    else (1, rest)

abbrev pub max_int64 : ℕ
max_int64 = 2 ^ 63 - 1

-- strconv.ParseInt with the check `val < 0` behind it. A minus sign is accepted before zero only.
unsigned_value : Bytes → Option ℕ
unsigned_value [] = none
unsigned_value (c ∷ s) = digits_value 0 (c ∷ s)

signed_value : Bytes → Option ℕ
signed_value [] = none
signed_value (c ∷ s) =
    if c == b'+'
    then unsigned_value s
    else if c == b'-'
    then elim (unsigned_value s) [ some zero ↦ some 0 | _ ↦ none ]
    else unsigned_value (c ∷ s)

unfoldable pub parse_count : Bytes → Option ℕ
unfolding signed_value unsigned_value
parse_count s = elim (signed_value s) [
  | none ↦ none
  | some v ↦ if leb v max_int64 then some v else none
]

-- The last check: the product must fit an int64.
unfoldable pub scale : Op → ℕ → Option ℕ → Option SizeFilter
scale op multiplier none = none
scale op multiplier (some val) =
    if ltb 1 multiplier && ltb (max_int64 / multiplier) val
    then none
    else some (record { op = op; bytes = val * multiplier })

unfoldable pub parse_amount : Op → Bytes → Option SizeFilter
parse_amount op rest =
    if bytes_eq rest []
    then none
    else let (multiplier, number) = parse_unit rest in
      scale op multiplier (parse_count (trim_space number))

-- `ParseSizeFilter`
unfoldable pub parse_size_filter : Bytes → Option SizeFilter
parse_size_filter text =
    let s = trim_space text in
    if not (has_prefix s (codes "size:")) then none else elim (parse_op (drop 5 s)) [
      | none ↦ none
      | some (op, rest) ↦ parse_amount op (trim_space rest)
    ]

-- One case of `IsSizeExcluded`
unfoldable pub exceeds : ℕ → SizeFilter → Bool
exceeds size f = elim f.op [
  | gt ↦ ltb f.bytes size
  | ge ↦ leb f.bytes size
  | lt ↦ ltb size f.bytes
  | le ↦ leb size f.bytes
]

-- `IsSizeExcluded`
unfoldable pub is_size_excluded : ℕ → List SizeFilter → Bool
is_size_excluded size [] = false
is_size_excluded size (f ∷ fs) = if exceeds size f then true else is_size_excluded size fs

pub record Patterns : Type 0 where
  pub positives : List Bytes
  pub negatives : List Bytes
  pub size_filters : List SizeFilter

-- `SplitExcludePatterns`
unfoldable pub split_into : Patterns → List Bytes → Patterns
split_into acc [] = acc
split_into acc (p ∷ ps) =
    split_into
      (if has_prefix p (codes "!")
        then record acc { negatives = acc.negatives ++ drop 1 p ∷ [] }
        else elim (parse_size_filter p) [
          | some f ↦ record acc { size_filters = acc.size_filters ++ f ∷ [] }
          | none ↦ record acc { positives = acc.positives ++ p ∷ [] }
        ])
      ps

unfoldable pub split_exclude_patterns : List Bytes → Patterns
unfolding split_into
split_exclude_patterns = split_into (record { positives = []; negatives = []; size_filters = [] })
