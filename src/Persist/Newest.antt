-- ===== src/Persist/Newest.antt =====
-- LoadLatestManifest of simple/manifest.go: the order of its candidates, and the one that it takes.
use gbf_core.Base.{
  ◌≡◌, refl, sym, ap, ◌∙◌, ◌⊎◌, inl, inr, true, false, Bool-cases, Option, none, some, List, [],
  ◌∷◌, All, All-map, Result, ok, err, Result-cases, arith, ok-injective,
}
use mathlib.Core.List.{Memᴰ}
use gbf_core.Base.Bytes.{Bytes}
use gbf_core.Base.Int64.{ℤ, ltℤ}
use gbf_core.Disk.{DiskError}
use gbf_core.Manifest.{Manifest}
use gbf_core.Persist.Load.{LoadError}
use gbf_core.Persist.Listing.{
  DirEntry, manifest_files, keep_first, try_load, Candidate, differ, newer, insert, sort, names_of,
  candidates, load_latest_manifest,
}

-- The first is not older than the second.
abbrev NotOlder : Candidate → Candidate → Type 0
NotOlder a b = ltℤ a.unix_sec b.unix_sec ≡ false

NotOlder-newer : (a b : Candidate) → newer a b ≡ true → NotOlder a b
unfolding newer differ
NotOlder-newer a b h = ground arith

NotOlder-not_newer : (a b : Candidate) → newer a b ≡ false → NotOlder b a
unfolding newer differ
NotOlder-not_newer a b h = ground arith

NotOlder-trans : (a b c : Candidate) → NotOlder a b → NotOlder b c → NotOlder a c
NotOlder-trans a b c h k = ground arith

ltℤ-refl : (c : Candidate) → ltℤ c.unix_sec c.unix_sec ≡ false
ltℤ-refl c = ground arith

abbrev IsSorted : List Candidate → Type 0
IsSorted [] = Unit
IsSorted (x ∷ xs) = All (NotOlder x) xs × IsSorted xs

All-insert :
    (P : Candidate → Type 0) (x : Candidate) (xs : List Candidate)
    → P x
    → All P xs
    → All P (insert x xs)
unfolding insert
All-insert P x [] p all = (p, tt)
All-insert P x (y ∷ ys) p (q, all) = elim (Bool-cases (newer x y)) [
  | inl first ↦ rw (insert, first) (p, (q, all))
  | inr later ↦ rw (insert, later) (q, All-insert P x ys p all)
]

insert-All :
    (P : Candidate → Type 0) (x : Candidate) (xs : List Candidate)
    → All P (insert x xs)
    → P x × All P xs
unfolding insert
insert-All P x [] (p, all) = (p, tt)
insert-All P x (y ∷ ys) all = elim (Bool-cases (newer x y)) [
  | inl first ↦ rw (insert, first) at all
  | inr later ↦
      let both : P y × All P (insert x ys) = rw (insert, later) at all in
      let (p, rest) = insert-All P x ys both.1 in (p, (both.0, rest))
]

insert-IsSorted : (x : Candidate) (xs : List Candidate) → IsSorted xs → IsSorted (insert x xs)
unfolding insert
insert-IsSorted x [] s = (tt, tt)
insert-IsSorted x (y ∷ ys) (below, s) = elim (Bool-cases (newer x y)) [
  | inl first ↦
      let top = NotOlder-newer x y first in
      rw (insert, first) ((top, All-map ys (λ z r. NotOlder-trans x y z top r) below), (below, s))
  | inr later ↦
      rw (insert, later)
        (All-insert (NotOlder y) x ys (NotOlder-not_newer x y later) below, insert-IsSorted x ys s)
]

sort-IsSorted : (xs : List Candidate) → IsSorted (sort xs)
unfolding sort
sort-IsSorted [] = tt
sort-IsSorted (x ∷ xs) = insert-IsSorted x (sort xs) (sort-IsSorted xs)

sort-All : (P : Candidate → Type 0) (xs : List Candidate) → All P (sort xs) → All P xs
unfolding sort
sort-All P [] all = tt
sort-All P (x ∷ xs) all = let (p, rest) = insert-All P x (sort xs) all in (p, sort-All P xs rest)

-- A candidate is no newer than the one that was taken, or it fails to load.
abbrev pub IsPassed : (Bytes → Result LoadError Manifest) → Candidate → Candidate → Type 0
IsPassed load c d = (ltℤ c.unix_sec d.unix_sec ≡ false) ⊎ ((e : LoadError) × (load d.name ≡ err e))

try_load-ok :
    (load : Bytes → Result LoadError Manifest) (first : Option LoadError) (cs : List Candidate)
    {m : Manifest}
    → IsSorted cs
    → try_load load first (names_of cs) ≡ ok m
    → (c : Candidate) × Memᴰ c cs × (load c.name ≡ ok m) × All (IsPassed load c) cs
unfolding try_load names_of
try_load-ok load none [] s h = cc
try_load-ok load (some e) [] s h = cc
try_load-ok load first (c ∷ cs) {m} (below, s) h = elim (Result-cases (load c.name)) [
  | inl (n, r) ↦
      let e : n ≡ m = ok-injective (rw (try_load, names_of, r) at h) in
      (c, Memᴰ.head refl, r ∙ ap ok e, (inl (ltℤ-refl c), All-map cs (λ d q. inl q) below))
  | inr (e, r) ↦
      let (d, there, l, all) =
        try_load-ok load (keep_first first e) cs s (rw (try_load, names_of, r) at h) in
      (d, Memᴰ.tail there, l, (inr (e, r), all))
]

Mem-insert : (c x : Candidate) (xs : List Candidate) → (c ≡ x) ⊎ Memᴰ c xs → Memᴰ c (insert x xs)
unfolding insert
Mem-insert c x [] (inl e) = Memᴰ.head e
Mem-insert c x [] (inr m) = elim m [ ]
Mem-insert c x (y ∷ ys) which = elim (Bool-cases (newer x y)) [
  | inl first ↦ rw (insert, first) (elim which [ inl e ↦ Memᴰ.head e | inr m ↦ Memᴰ.tail m ])
  | inr later ↦
      rw (insert, later)
        (elim which [
          | inl e ↦ Memᴰ.tail (Mem-insert c x ys (inl e))
          | inr (Memᴰ.head e) ↦ Memᴰ.head e
          | inr (Memᴰ.tail m) ↦ Memᴰ.tail (Mem-insert c x ys (inr m))
        ])
]

insert-Mem : (c x : Candidate) (xs : List Candidate) → Memᴰ c (insert x xs) → (c ≡ x) ⊎ Memᴰ c xs
unfolding insert
insert-Mem c x [] (Memᴰ.head e) = inl e
insert-Mem c x [] (Memᴰ.tail m) = inr m
insert-Mem c x (y ∷ ys) m = elim (Bool-cases (newer x y)) [
  | inl first ↦ elim (rw (insert, first) at m) [ Memᴰ.head e ↦ inl e | Memᴰ.tail k ↦ inr k ]
  | inr later ↦ elim (rw (insert, later) at m) [
    | Memᴰ.head e ↦ inr (Memᴰ.head e)
    | Memᴰ.tail k ↦ elim (insert-Mem c x ys k) [ inl e ↦ inl e | inr there ↦ inr (Memᴰ.tail there) ]
  ]
]

sort-Mem : (c : Candidate) (xs : List Candidate) → Memᴰ c (sort xs) → Memᴰ c xs
unfolding sort
sort-Mem c [] m = elim m [ ]
sort-Mem c (x ∷ xs) m = elim (insert-Mem c x (sort xs) m) [
  | inl e ↦ Memᴰ.head e
  | inr there ↦ Memᴰ.tail (sort-Mem c xs there)
]

Mem-sort : (c : Candidate) (xs : List Candidate) → Memᴰ c xs → Memᴰ c (sort xs)
unfolding sort
Mem-sort c [] m = elim m [ ]
Mem-sort c (x ∷ xs) (Memᴰ.head e) = Mem-insert c x (sort xs) (inl e)
Mem-sort c (x ∷ xs) (Memᴰ.tail m) = Mem-insert c x (sort xs) (inr (Mem-sort c xs m))

try_load-found :
    (load : Bytes → Result LoadError Manifest) (first : Option LoadError) (cs : List Candidate)
    (c : Candidate) {n : Manifest}
    → Memᴰ c cs
    → load c.name ≡ ok n
    → (m : Manifest) × (try_load load first (names_of cs) ≡ ok m)
unfolding try_load names_of
try_load-found load first [] c there loads = elim there [ ]
try_load-found load first (x ∷ cs) c {n} (Memᴰ.head e) loads = (
  n,
  let l : load x.name ≡ ok n = ap (λ (d : Candidate). load d.name) (sym e) ∙ loads in
      rw (try_load, names_of, l),
)
try_load-found load first (x ∷ cs) c (Memᴰ.tail there) loads = elim (Result-cases (load x.name)) [
  | inl (m, r) ↦ (m, rw (try_load, names_of, r))
  | inr (e, r) ↦
      let (m, found) = try_load-found load (keep_first first e) cs c there loads in
      (m, rw (try_load, names_of, r) found)
]

module _ (parse_int : Bytes → Option ℤ) (format : ℤ → Bytes) (parse_time : Bytes → Option ℤ)
    (decimal : ℤ → Bytes) (load : Bytes → Result LoadError Manifest) where
  -- If the latest manifest of a directory is found, it was loaded from a candidate of that
  -- directory than which no candidate of a later second loads.
  pub load_latest_manifest-newest :
      (listing : Result DiskError (List DirEntry)) {m : Manifest}
      → load_latest_manifest parse_int format parse_time decimal load listing ≡ ok m
      → (c : Candidate) × (load c.name ≡ ok m)
        × ((entries : List DirEntry) × (listing ≡ ok entries)
            × Memᴰ c (candidates parse_int format parse_time decimal (manifest_files entries))
            × All
                (IsPassed load c)
                (candidates parse_int format parse_time decimal (manifest_files entries)))
  unfolding load_latest_manifest
  load_latest_manifest-newest (err e) h = cc
  load_latest_manifest-newest (ok entries) h =
      let cs = candidates parse_int format parse_time decimal (manifest_files entries) in
      let (c, there, l, all) = try_load-ok load none (sort cs) (sort-IsSorted cs) h in
      (c, l, (entries, refl, sort-Mem c cs there, sort-All (IsPassed load c) cs all))

  -- When some candidate of a directory that was read loads, the latest manifest is found: newer
  -- manifests that do not load are passed over.
  pub load_latest_manifest-found :
      (entries : List DirEntry) (c : Candidate) {n : Manifest}
      → Memᴰ c (candidates parse_int format parse_time decimal (manifest_files entries))
      → load c.name ≡ ok n
      → (m : Manifest) × (load_latest_manifest parse_int format parse_time decimal load (ok entries)
          ≡ ok m)
  unfolding load_latest_manifest
  load_latest_manifest-found entries c there loads =
      let cs = candidates parse_int format parse_time decimal (manifest_files entries) in
      try_load-found load none (sort cs) c (Mem-sort c cs there) loads
