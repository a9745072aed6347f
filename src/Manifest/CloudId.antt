-- ===== src/Manifest/CloudId.antt =====
-- validateCloudID, on the bytes of the text: the runes it rejects are ASCII.
use gbf_core.Base.{
  ℕ, ◌≤◌, ◌≡◌, ◌≢◌, refl, sym, ◌∙◌, leb, ltb, ◌==◌, Bool, true, false, not, ◌&&◌, ◌||◌,
  if◌then◌else◌, leb→le, none, some, List, [], ◌∷◌, ◌++◌, length, take, get_or, Result, ok, guard,
  ◌>>◌, >>=-eq-ok, All, guard-ok, guard-eq-ok, ||-false,
}
use mathlib.Core.List.{reverse}
use gbf_core.Base.Bytes.{Bytes, bytes_eq, bytes_eq_iff, codes}
use gbf_core.Base.Text.{slash, has_prefix, split, trim_space, to_upper, index}

abbrev pub max_cloud_id_length : ℕ
max_cloud_id_length = 1024

pub data CloudIdError : Type 0 where
  is_empty too_long is_absolute is_drive invalid_character empty_segment relative_segment
        reserved_name :
      CloudIdError

abbrev pub windows_reserved_names : List Bytes
windows_reserved_names =
    codes "CON"
    ∷ codes "PRN"
    ∷ codes "AUX"
    ∷ codes "NUL"
    ∷ codes "COM1"
    ∷ codes "COM2"
    ∷ codes "COM3"
    ∷ codes "COM4"
    ∷ codes "COM5"
    ∷ codes "COM6"
    ∷ codes "COM7"
    ∷ codes "COM8"
    ∷ codes "COM9"
    ∷ codes "LPT1"
    ∷ codes "LPT2"
    ∷ codes "LPT3"
    ∷ codes "LPT4"
    ∷ codes "LPT5"
    ∷ codes "LPT6"
    ∷ codes "LPT7"
    ∷ codes "LPT8"
    ∷ codes "LPT9"
    ∷ []

-- `invalidCloudIDChar`
unfoldable pub invalid_cloud_id_char : ℕ → Bool
invalid_cloud_id_char r = if ltb r 32 || r == 127 then true else r == b':' || r == b'*' || r == b'?'

-- strings.TrimRight of " ."
trim_dots : Bytes → Bytes
trim_dots [] = []
trim_dots (c ∷ s) = if c == b' ' || c == b'.' then trim_dots s else c ∷ s

-- The text before the first dot.
stem : Bytes → Bytes
stem seg = elim (index seg (codes ".")) [ some i ↦ take i seg | none ↦ seg ]

unfoldable pub is_listed : Bytes → List Bytes → Bool
is_listed s [] = false
is_listed s (t ∷ ts) = bytes_eq s t || is_listed s ts

-- `isWindowsReservedName`
unfoldable pub is_windows_reserved_name : Bytes → Bool
unfolding trim_dots stem
is_windows_reserved_name seg =
    let base = reverse (trim_dots (reverse (stem seg))) in
    if bytes_eq base [] then false else is_listed (to_upper base) windows_reserved_names

-- strings.ReplaceAll of a backslash by a slash
unfoldable pub to_slash : Bytes → Bytes
to_slash [] = []
to_slash (c ∷ s) = (if c == b'\\' then slash else c) ∷ to_slash s

unfoldable pub any_invalid : Bytes → Bool
any_invalid [] = false
any_invalid (c ∷ s) = invalid_cloud_id_char c || any_invalid s

unfoldable pub is_drive_path : Bytes → Bool
is_drive_path id =
    let c = get_or id 0 0 in
    leb 2 (length id)
    && get_or id 1 0 == b':'
    && ((leb b'A' c && leb c b'Z') || (leb b'a' c && leb c b'z'))

-- One turn of the last loop, and the loop.
unfoldable pub check_segment : Bytes → Result CloudIdError (Unit {0})
check_segment seg = do
  guard (not (bytes_eq seg [])) empty_segment
  let trimmed = trim_space seg
  guard (not (bytes_eq trimmed (codes ".") || bytes_eq trimmed (codes ".."))) relative_segment
  guard (not (is_windows_reserved_name trimmed)) reserved_name

unfoldable pub check_segments : List Bytes → Result CloudIdError (Unit {0})
check_segments [] = ok tt
check_segments (seg ∷ segs) = do check_segment seg; check_segments segs

-- `validateCloudID`
unfoldable pub validate_cloud_id : Bytes → Result CloudIdError (Unit {0})
validate_cloud_id id = do
  guard (not (bytes_eq id [])) is_empty
  guard (leb (length id) max_cloud_id_length) too_long
  guard (not (has_prefix id (codes "/") || has_prefix id (codes "\\"))) is_absolute
  guard (not (is_drive_path id)) is_drive
  guard (not (any_invalid id)) invalid_character
  check_segments (split (to_slash id))

-- `ManifestPathKey`
unfoldable pub manifest_path_key : Bytes → Bytes → Bytes
manifest_path_key fingerprint source_id = fingerprint ++ (codes "/" ++ source_id)

-- A segment that stays in its directory, and that Windows can name.
pub record IsSafeSegment (seg : Bytes) : Type 0 where
  pub not_empty : seg ≢ []
  pub not_dot : seg ≢ codes "."
  pub not_dot_dot : seg ≢ codes ".."
  pub not_reserved : is_windows_reserved_name (trim_space seg) ≡ false

not-true : (b : Bool) → not b ≡ true → b ≡ false
not-true true h = cc
not-true false h = refl

dot_not :
    (seg : Bytes)
    → (bytes_eq (trim_space seg) (codes ".") || bytes_eq (trim_space seg) (codes "..")) ≡ false
    → (seg ≢ codes ".") × (seg ≢ codes "..")
unfolding trim_space bytes_eq
dot_not seg h = (λ e. let k = rw e at h in cc, λ e. let k = rw e at h in cc)

check_segment-IsSafeSegment : (seg : Bytes) → check_segment seg ≡ ok tt → IsSafeSegment seg
unfolding check_segment
check_segment-IsSafeSegment seg h =
    let (full, h1) = guard-eq-ok (not (bytes_eq seg [])) empty_segment _ h in
    let (dots, h2) =
      guard-eq-ok
        (not (bytes_eq (trim_space seg) (codes ".") || bytes_eq (trim_space seg) (codes "..")))
        relative_segment _ h1 in
    let (one, two) = dot_not seg (not-true _ dots) in
    record {
      not_empty =
          λ e. let f : true ≡ false = sym ((bytes_eq_iff seg []).1 e) ∙ not-true _ full in cc;
      not_dot = one;
      not_dot_dot = two;
      not_reserved = not-true _ (guard-ok _ reserved_name h2);
    }

check_segments-All : (segs : List Bytes) → check_segments segs ≡ ok tt → All IsSafeSegment segs
unfolding check_segments
check_segments-All [] h = tt
check_segments-All (seg ∷ segs) h =
    let (u, first, rest) = >>=-eq-ok (check_segment seg) _ h in
    (check_segment-IsSafeSegment seg first, check_segments-All segs rest)

-- A cloud id that is accepted is at most 1024 bytes long, does not begin with a slash, holds no
-- rejected character, and each of its segments, with a backslash as a separator too, is neither
-- empty nor `.` nor `..`, and trimmed no name that Windows reserves.
pub validate_cloud_id_lem :
    (id : Bytes)
    → validate_cloud_id id ≡ ok tt
    → (length id ≤ max_cloud_id_length)
      × (has_prefix id (codes "/") ≡ false)
      × (any_invalid id ≡ false)
      × All IsSafeSegment (split (to_slash id))
unfolding validate_cloud_id
validate_cloud_id_lem id h =
    let (_, h1) = guard-eq-ok (not (bytes_eq id [])) is_empty _ h in
    let (small, h2) = guard-eq-ok (leb (length id) max_cloud_id_length) too_long _ h1 in
    let (rel, h3) =
      guard-eq-ok (not (has_prefix id (codes "/") || has_prefix id (codes "\\"))) is_absolute _
        h2 in
    let (_, h4) = guard-eq-ok (not (is_drive_path id)) is_drive _ h3 in
    let (valid, h5) = guard-eq-ok (not (any_invalid id)) invalid_character _ h4 in
    (leb→le _ _ small, (||-false _ _ (not-true _ rel)).0, not-true _ valid, check_segments-All _ h5)
