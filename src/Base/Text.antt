-- ===== src/Base/Text.antt =====
-- What the source uses of the packages strings, path/filepath and strconv, over byte strings. White
-- space and letters are the ASCII ones.
use Prim.Native.Nat.{ℕ, suc, ◌+◌, ◌-◌, ◌*◌, ◌≤◌}
use mathlib.Core.Path.{◌≡◌, refl, sym, ap, ◌∙◌}
use mathlib.Core.Bool.{Bool, true, false, ◌&&◌, ◌||◌}
use mathlib.Core.Option.{Option, none, some}
use mathlib.Core.List.{List, [], ◌∷◌, ◌++◌, reverse}
use native.Mathlib.Omega.{arith}
use gbf_core.Base.Tests.{leb, ◌==◌, if◌then◌else◌, le→leb, leb→le, &&-true}
use gbf_core.Base.Lists.{length, take, drop, take-append, take-append-drop, length-append}
use gbf_core.Base.Bytes.{Bytes, bytes_eq, bytes_eq_iff, bytes_eq_refl}

abbrev pub slash : ℕ
slash = b'/'

-- strings.HasPrefix and strings.HasSuffix
unfoldable pub has_prefix : Bytes → Bytes → Bool
has_prefix s p = leb (length p) (length s) && bytes_eq (take (length p) s) p

unfoldable pub has_suffix : Bytes → Bytes → Bool
has_suffix s p = leb (length p) (length s) && bytes_eq (drop (length s - length p) s) p

-- strings.Contains, strings.ContainsRune of an ASCII byte, and strings.ContainsAny
unfoldable pub contains : Bytes → Bytes → Bool
contains [] p = has_prefix [] p
contains (c ∷ s) p = has_prefix (c ∷ s) p || contains s p

unfoldable pub contains_byte : Bytes → ℕ → Bool
contains_byte [] b = false
contains_byte (c ∷ s) b = c == b || contains_byte s b

unfoldable pub contains_any : Bytes → Bytes → Bool
contains_any [] bs = false
contains_any (c ∷ s) bs = contains_byte bs c || contains_any s bs

-- strings.Index
unfoldable pub index : Bytes → Bytes → Option ℕ
index [] p = if has_prefix [] p then some 0 else none
index (c ∷ s) p =
    let rest = index s p in
    if has_prefix (c ∷ s) p then some 0 else elim rest [ none ↦ none | some i ↦ some (suc i) ]

-- strings.LastIndex of one byte
unfoldable pub last_index : Bytes → ℕ → Option ℕ
last_index [] b = none
last_index (c ∷ s) b = elim (last_index s b) [
  | some i ↦ some (suc i)
  | none ↦ if c == b then some 0 else none
]

-- strings.ToUpper
unfoldable pub to_upper : Bytes → Bytes
to_upper [] = []
to_upper (c ∷ s) = (if leb b'a' c && leb c b'z' then c - 32 else c) ∷ to_upper s

-- strings.Split and strings.Join at a slash
cons_head : ℕ → List Bytes → List Bytes
cons_head c [] = (c ∷ []) ∷ []
cons_head c (part ∷ parts) = (c ∷ part) ∷ parts

unfoldable pub split : Bytes → List Bytes
unfolding cons_head
split [] = [] ∷ []
split (c ∷ s) = if c == slash then [] ∷ split s else cons_head c (split s)

unfoldable pub join : List Bytes → Bytes
join [] = []
join (part ∷ []) = part
join (part ∷ parts) = part ++ slash ∷ join parts

-- strings.TrimSpace
unfoldable pub is_space : ℕ → Bool
is_space c = c == 32 || (leb 9 c && leb c 13)

unfoldable pub trim_left : Bytes → Bytes
unfolding is_space
trim_left [] = []
trim_left (c ∷ s) = if is_space c then trim_left s else c ∷ s

unfoldable pub trim_space : Bytes → Bytes
unfolding trim_left
trim_space s = reverse (trim_left (reverse (trim_left s)))

-- strings.ToLower
unfoldable pub to_lower : Bytes → Bytes
to_lower [] = []
to_lower (c ∷ s) = (if leb b'A' c && leb c b'Z' then c + 32 else c) ∷ to_lower s

-- filepath.Base
drop_slashes : Bytes → Bytes
drop_slashes [] = []
drop_slashes (c ∷ s) = if c == slash then drop_slashes s else c ∷ s

up_to_slash : Bytes → Bytes
up_to_slash [] = []
up_to_slash (c ∷ s) = if c == slash then [] else c ∷ up_to_slash s

non_empty_base : Bytes → Bytes
non_empty_base [] = slash ∷ []
non_empty_base (c ∷ s) = reverse (up_to_slash (c ∷ s))

unfoldable pub base : Bytes → Bytes
unfolding drop_slashes up_to_slash non_empty_base
base [] = b'.' ∷ []
base (c ∷ s) = non_empty_base (drop_slashes (reverse (c ∷ s)))

-- strconv.ParseInt at base 10 without a bound: an optional sign, then digits.
unfoldable pub digits_value : ℕ → Bytes → Option ℕ
digits_value acc [] = some acc
digits_value acc (c ∷ s) =
    let rest = digits_value (acc * 10 + (c - b'0')) s in
    if leb b'0' c && leb c b'9' then rest else none

-- A prefix is what a string begins with.
pub has_prefix→append : (s p : Bytes) → has_prefix s p ≡ true → s ≡ p ++ drop (length p) s
unfolding has_prefix
has_prefix→append s p h =
    let (enough, same) = &&-true (leb (length p) (length s)) _ h in
    sym (take-append-drop (length p) s)
    ∙ ap (λ t. t ++ drop (length p) s) ((bytes_eq_iff _ p).0 same)

pub has_prefix-append : (p t : Bytes) → has_prefix (p ++ t) p ≡ true
unfolding has_prefix
has_prefix-append p t =
    let e : take (length p) (p ++ t) ≡ p = take-append (length p) p t refl in
    let enough : leb (length p) (length (p ++ t)) ≡ true =
      le→leb (length p) (length (p ++ t)) (omega (arith, length-append p t)) in
    ground (arith, ap (λ (u : Bytes). bytes_eq u p) e, bytes_eq_refl p)

pub has_prefix-le : (s p : Bytes) → has_prefix s p ≡ true → length p ≤ length s
unfolding has_prefix
has_prefix-le s p h = leb→le _ _ ((&&-true (leb (length p) (length s)) _ h).0)
