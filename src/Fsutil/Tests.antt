-- ===== src/Fsutil/Tests.antt =====
-- Runs of the ignore rules, and each theorem at a concrete input.
use gbf_core.Base.{ℕ, ◌*◌, ◌≤◌, ◌≡◌, refl, ◌↔◌, ◌⊎◌, Bool, true, false, some, List, [], ◌∷◌, drop}
use gbf_core.Base.Bytes.{Bytes, bytes_eq, codes}
use gbf_core.Base.Text.{
  slash, has_prefix, has_suffix, contains, contains_any, contains_byte, trim_space, is_space,
  trim_left, to_lower, digits_value,
}
use gbf_core.Fsutil.Ignore.{
  Op, ge, SizeFilter, parse_op, parse_unit, parse_count, scale, parse_amount, parse_size_filter,
  max_int64,
}
use gbf_core.Fsutil.Ignore.Sizes.{parse_size_filter_lem}
use gbf_core.Fsutil.Ignore.Match.{match_within, match_plain, match_literal, match_pattern}
use gbf_core.Fsutil.Ignore.Literal.{Stands, name_of, match_pattern-Stands}
use gbf_core.Fsutil.Ignore.Decide.{
  restore_tmp_suffix, normalize_for_match, any_match, is_excluded, should_skip_dir, keeps,
  AnyPattern, Matches, is_excluded_iff, should_skip_dir_lem,
}

abbrev logs : Bytes
logs = codes "*.log"

abbrev cache : Bytes
cache = codes "cache"

abbrev three_kilobytes : SizeFilter
three_kilobytes = record { op = ge; bytes = 3072 }

filter_parses : parse_size_filter (codes " size:>= 3 KB") ≡ some three_kilobytes
unfolding parse_size_filter parse_op parse_amount parse_unit parse_count scale has_prefix has_suffix
    trim_space trim_left is_space to_lower bytes_eq digits_value
filter_parses = refl

parse_size_filter_lem_example :
    (has_prefix (trim_space (codes " size:>= 3 KB")) (codes "size:") ≡ true)
    × (three_kilobytes.bytes ≤ max_int64)
    × ((op : Op) × (rest : Bytes) × (v : ℕ) × (parse_op
            (drop 5 (trim_space (codes " size:>= 3 KB")))
          ≡ some (op, rest))
        × (parse_count (trim_space (parse_unit (trim_space rest)).1) ≡ some v)
        × (three_kilobytes.bytes ≡ v * (parse_unit (trim_space rest)).0))
parse_size_filter_lem_example =
    parse_size_filter_lem (codes " size:>= 3 KB") three_kilobytes filter_parses

-- A matcher for patterns without wildcards.
abbrev plain_match : Bytes → Bytes → Bool
plain_match pattern name = bytes_eq pattern name

no_wildcard : contains_any (codes "cache/") (codes "*?[") ≡ false
unfolding contains_any contains_byte
no_wildcard = refl

match_pattern-Stands_example :
    (match_pattern plain_match (codes "a/cache/x") (codes "cache/") ≡ true)
    ↔ Stands (name_of (codes "cache/")) (codes "a/cache/x")
match_pattern-Stands_example =
    match_pattern-Stands plain_match (codes "a/cache/x") (codes "cache/") no_wildcard

is_excluded_iff_example :
    (is_excluded false plain_match (codes "cache/x") (cache ∷ []) [] ≡ true) ↔ (
      (has_suffix (normalize_for_match false plain_match (codes "cache/x")) restore_tmp_suffix
        ≡ true)
      ⊎ (AnyPattern
            (Matches false plain_match (normalize_for_match false plain_match (codes "cache/x")))
            (cache ∷ [])
          × ¬ AnyPattern
              (Matches false plain_match (normalize_for_match false plain_match (codes "cache/x")))
              []))
is_excluded_iff_example = is_excluded_iff false plain_match (codes "cache/x") (cache ∷ []) []

keep_is_literal :
    (contains_any (codes "cache/keep") (codes "*?[") ≡ false)
    × (has_suffix (codes "cache/keep") (slash ∷ []) ≡ false)
unfolding contains_any contains_byte has_suffix bytes_eq
keep_is_literal = (refl, refl)

cache_is_user : has_suffix cache restore_tmp_suffix ≡ false
unfolding has_suffix
cache_is_user = refl

-- The directory is skipped although a negative pattern names a file in it.
should_skip_dir_lem_example :
    should_skip_dir false plain_match cache (cache ∷ []) (codes "cache/keep" ∷ [])
    ≡ is_excluded false plain_match cache (cache ∷ []) (codes "cache/keep" ∷ [])
unfolding normalize_for_match
should_skip_dir_lem_example =
    should_skip_dir_lem false plain_match cache (cache ∷ []) (codes "cache/keep" ∷ [])
      (keep_is_literal, tt) cache_is_user

abbrev keep : List Bytes
keep = codes "cache/keep" ∷ []

-- The directory is excluded, and with it skipped; the file in it that is named again is not excluded.
cache_skipped :
    (should_skip_dir false plain_match cache (cache ∷ []) keep ≡ true)
    × (is_excluded false plain_match (codes "cache/keep") (cache ∷ []) keep ≡ false)
unfolding should_skip_dir keeps is_excluded any_match normalize_for_match match_pattern match_within
    match_plain match_literal contains contains_any contains_byte has_prefix has_suffix bytes_eq
cache_skipped = (refl, refl)
