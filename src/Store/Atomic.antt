-- ===== src/Store/Atomic.antt =====
-- Put writes a blob whole or not at all, and the exists cache tells the truth.
use gbf_core.Base.{
  ◌≡◌, refl, sym, ap, ◌∙◌, ◌⊎◌, inl, inr, true, false, not, ◌&&◌, Bool-cases, Option, none, some,
  List, [], ◌∷◌, All, All-map, Result, ok, err, Result-cases, &&-true,
}
use gbf_core.Base.Bytes.{Bytes, bytes_eq, bytes_eq_iff, bytes_eq_refl}
use gbf_core.Store.{
  StoreError, create_failed, write_failed, sync_failed, close_failed, rename_failed,
  sync_parent_failed, Store, Faults, validate_hash, blob_dir, blob_path, tmp_path, is_some, mem_key,
  set_file, with_file, remember, drop_tmp, put_file, ensure_dir, put_blob,
}
use gbf_core.Store.Hash.{blob_path-ne, tmp_path-ne}

-- The cache names valid hashes whose blobs are there.
abbrev pub IsKnown : Store → Bytes → Type 0
IsKnown s k = (validate_hash k ≡ true) × (is_some (s.files (blob_path s.base_dir k)) ≡ true)

abbrev pub IsSound : Store → Type 0
IsSound s = All (IsKnown s) s.exists_set

-- A cached hash is known.
pub mem_key-IsKnown :
    (s : Store) (hash : Bytes) (l : List Bytes)
    → All (IsKnown s) l
    → mem_key hash l ≡ true
    → IsKnown s hash
unfolding mem_key
mem_key-IsKnown s hash [] all h = cc
mem_key-IsKnown s hash (k ∷ l) (known, all) h = elim (Bool-cases (bytes_eq k hash)) [
  | inl same ↦ rw (← (bytes_eq_iff k hash).0 same) known
  | inr other ↦ mem_key-IsKnown s hash l all (rw other at h)
]

-- Two stores that differ in directories made and at `tmp`, and in the file `path` when it was stored.
record Same (tmp : Bytes) (s t : Store) : Type 0 where
  base : t.base_dir ≡ s.base_dir
  cache : t.exists_set ≡ s.exists_set
  file : (p : Bytes) → bytes_eq tmp p ≡ false → t.files p ≡ s.files p

record Stored (tmp path data_ : Bytes) (s t : Store) : Type 0 where
  base : t.base_dir ≡ s.base_dir
  cache : t.exists_set ≡ s.exists_set
  file : (p : Bytes) → bytes_eq tmp p ≡ false → t.files p ≡ set_file s.files path (some data_) p

-- How a put ends.
data PutCase (hash path tmp data_ : Bytes) (s : Store) (r : Result StoreError (Unit {0}) × Store)
    : Type 0 where
  failed :
      (e : StoreError) (t : Store) → Same tmp s t → r ≡ (err e, t) → PutCase hash path tmp data_ s r
  found :
      (t : Store)
      → Same tmp s t
      → is_some (t.files path) ≡ true
      → r ≡ (ok tt, remember t hash)
      → PutCase hash path tmp data_ s r
  unsynced :
      (e : StoreError) (t : Store)
      → Stored tmp path data_ s t
      → r ≡ (err e, t)
      → PutCase hash path tmp data_ s r
  stored :
      (t : Store)
      → Stored tmp path data_ s t
      → r ≡ (ok tt, remember t hash)
      → PutCase hash path tmp data_ s r

ok_inj : {A : Type 0} {a b : A} → ◌≡◌ {A = Result StoreError A} (ok a) (ok b) → a ≡ b
ok_inj h = cc

Same-refl : (tmp : Bytes) (s : Store) → Same tmp s s
Same-refl tmp s = record { base = refl; cache = refl; file = λ p h. refl }

with_file-Same :
    (tmp : Bytes) (c : Option Bytes) (s t : Store) → Same tmp s t → Same tmp s (with_file t tmp c)
unfolding with_file set_file
with_file-Same tmp c s t x = record {
  base = x.base;
  cache = x.cache;
  file = λ p h. rw h (x.file p h);
}

drop_tmp-Same :
    (f : Faults) (tmp : Bytes) (s t : Store) → Same tmp s t → Same tmp s (drop_tmp f tmp t)
unfolding drop_tmp
drop_tmp-Same f tmp s t x = elim (Bool-cases f.remove) [
  | inl bad ↦ rw bad x
  | inr good ↦ rw good (with_file-Same tmp none s t x)
]

with_file-Stored :
    (tmp path data_ : Bytes) (s t : Store)
    → Same tmp s t
    → Stored tmp path data_ s (with_file (with_file t tmp none) path (some data_))
unfolding with_file set_file
with_file-Stored tmp path data_ s t x = record {
  base = x.base;
  cache = x.cache;
  file = λ p h. rw h (rw (x.file p h) refl);
}

put_file-PutCase :
    (f : Faults) (hash path tmp data_ : Bytes) (s t : Store)
    → Same tmp s t
    → PutCase hash path tmp data_ s (put_file f hash path tmp data_ t)
unfolding put_file is_some remember drop_tmp
put_file-PutCase f hash path tmp data_ s t x =
    let w = with_file-Same tmp (some data_) s t x in
    let clean_s = drop_tmp f tmp (with_file t tmp (some data_)) in
    let torn_s = drop_tmp f tmp (with_file t tmp (some f.partial)) in
    let new_s = with_file (with_file (with_file t tmp (some data_)) tmp none) path (some data_) in
    let cleaned = drop_tmp-Same f tmp s _ w in
    let torn = drop_tmp-Same f tmp s _ (with_file-Same tmp (some f.partial) s t x) in
    elim (Bool-cases f.create) [
      | inl e1 ↦ failed create_failed t x (rw e1 refl)
      | inr o1 ↦ elim (Bool-cases f.write) [
        | inl e2 ↦ failed write_failed torn_s torn (rw (o1, e2) refl)
        | inr o2 ↦ elim (Bool-cases f.sync) [
          | inl e3 ↦ failed sync_failed clean_s cleaned (rw (o1, o2, e3) refl)
          | inr o3 ↦ elim (Bool-cases f.close) [
            | inl e4 ↦ failed close_failed clean_s cleaned (rw (o1, o2, o3, e4) refl)
            | inr o4 ↦ elim (Bool-cases f.rename) [
              | inl e5 ↦
                  elim (Bool-cases (
                    not f.restat
                    && is_some ((drop_tmp f tmp (with_file t tmp (some data_))).files path))) [
                      | inl raced ↦
                          found clean_s cleaned (&&-true (not f.restat) _ raced).1
                            (rw (o1, o2, o3, o4, e5, raced) refl)
                      | inr gone ↦
                          failed rename_failed clean_s cleaned (rw (o1, o2, o3, o4, e5, gone) refl)
                    ]
              | inr o5 ↦ elim (Bool-cases f.sync_parent) [
                | inl e6 ↦
                    unsynced sync_parent_failed new_s (with_file-Stored tmp path data_ s _ w)
                      (rw (o1, o2, o3, o4, o5, e6) refl)
                | inr o6 ↦
                    stored new_s (with_file-Stored tmp path data_ s _ w)
                      (rw (o1, o2, o3, o4, o5, o6) refl)
              ]
            ]
          ]
        ]
      ]
    ]

ensure_dir-Same :
    (f : Faults) (dir tmp : Bytes) (s t : Store) → ensure_dir f dir s ≡ ok t → Same tmp s t
unfolding ensure_dir
ensure_dir-Same f dir tmp s t h = elim (Bool-cases (mem_key dir s.dir_cache)) [
  | inl made ↦ (let e : s ≡ t = ok_inj (rw made at h) in rw (← e) (Same-refl tmp s))
  | inr new ↦ elim (Bool-cases f.mkdir) [
    | inl bad ↦ (let e = rw (new, bad) at h in cc)
    | inr good ↦
        (let e = ok_inj (rw (new, good) at h) in
          rw (← e) (record { base = refl; cache = refl; file = λ p k. refl }))
  ]
]

-- Either the cache answered, or the put went on.
put_blob-cases :
    (f : Faults) (hash data_ : Bytes) (s : Store)
    → validate_hash hash ≡ true
    → (put_blob f hash data_ s ≡ (ok tt, s)) × (mem_key hash s.exists_set ≡ true)
      ⊎ PutCase hash
          (blob_path s.base_dir hash)
          (tmp_path (blob_path s.base_dir hash) f.uuid)
          data_
          s
          (put_blob f hash data_ s)
unfolding put_blob
put_blob-cases f hash data_ s valid =
    let path = blob_path s.base_dir hash in
    let tmp = tmp_path path f.uuid in
    elim (Bool-cases (mem_key hash s.exists_set)) [
      | inl hit ↦ inl (rw (valid, hit) refl, hit)
      | inr miss ↦ elim (Bool-cases (not f.stat && is_some (s.files path))) [
        | inl there ↦ inr (
            found s (Same-refl tmp s) (&&-true (not f.stat) _ there).1
              (rw (valid, miss, there) refl))
        | inr fresh ↦ elim (Result-cases (ensure_dir f (blob_dir s.base_dir hash) s)) [
          | inr (e, bad) ↦ inr (failed e s (Same-refl tmp s) (rw (valid, miss, fresh, bad) refl))
          | inl (t, good) ↦
              let e : put_blob f hash data_ s ≡ put_file f hash path tmp data_ t =
                rw (put_blob, valid, miss, fresh, good) refl in
              inr (
                rw e (
                  put_file-PutCase f hash path tmp data_ s t
                    (ensure_dir-Same f (blob_dir s.base_dir hash) tmp s t good)))
        ]
      ]
    ]

set_file-cases :
    (files : Bytes → Option Bytes) (base hash k : Bytes) (c : Option Bytes)
    → validate_hash hash ≡ true
    → validate_hash k ≡ true
    → (set_file files (blob_path base hash) c (blob_path base k) ≡ files (blob_path base k))
      ⊎ ((k ≡ hash) × (set_file files (blob_path base hash) c (blob_path base k) ≡ c))
unfolding set_file
set_file-cases files base hash k c vh vk = elim (Bool-cases (bytes_eq hash k)) [
  | inl same ↦
      let e = (bytes_eq_iff hash k).0 same in
      inr (sym e, rw (← e) (rw (bytes_eq_refl (blob_path base hash)) refl))
  | inr differ ↦ inl (
      rw
        (blob_path-ne base hash k vh vk
          (λ e. let d : false ≡ true = sym differ ∙ (bytes_eq_iff hash k).1 e in cc))
        refl)
]

whole_after :
    {a b c d : Option Bytes} {k hash : Bytes}
    → a ≡ b
    → (b ≡ c) ⊎ ((k ≡ hash) × (b ≡ d))
    → (a ≡ c) ⊎ ((k ≡ hash) × (a ≡ d))
whole_after e (inl h) = inl (e ∙ h)
whole_after e (inr (k, h)) = inr (k, e ∙ h)

-- For two valid hashes, and whichever calls of the operating system fail, a put under one leaves
-- the blob of the other as it was, and its own either as it was or holding the whole data.
pub put_blob-atomic :
    (f : Faults) (hash data_ k : Bytes) (s : Store)
    → validate_hash hash ≡ true
    → validate_hash k ≡ true
    → ((put_blob f hash data_ s).1.files (blob_path s.base_dir k)
        ≡ s.files (blob_path s.base_dir k))
      ⊎ ((k ≡ hash) × ((put_blob f hash data_ s).1.files (blob_path s.base_dir k) ≡ some data_))
unfolding remember set_file
put_blob-atomic f hash data_ k s vh vk =
    let q = blob_path s.base_dir k in
    let other = tmp_path-ne s.base_dir hash k f.uuid vh vk in
    let whole : set_file s.files (blob_path s.base_dir hash) (some data_) q ≡ s.files q
        ⊎ ((k ≡ hash)
            × (set_file s.files (blob_path s.base_dir hash) (some data_) q ≡ some data_)) =
      set_file-cases s.files s.base_dir hash k (some data_) vh vk in
    elim (put_blob-cases f hash data_ s vh) [
      | inl (e, _) ↦ inl (ap (λ (r : Result StoreError (Unit {0}) × Store). r.1.files q) e)
      | inr (failed _ t x e) ↦
          inl (ap (λ (r : Result StoreError (Unit {0}) × Store). r.1.files q) e ∙ x.file q other)
      | inr (found t x _ e) ↦
          inl (ap (λ (r : Result StoreError (Unit {0}) × Store). r.1.files q) e ∙ x.file q other)
      | inr (unsynced _ t x e) ↦
          whole_after
            (ap (λ (r : Result StoreError (Unit {0}) × Store). r.1.files q) e ∙ x.file q other)
            whole
      | inr (stored t x e) ↦
          whole_after
            (ap (λ (r : Result StoreError (Unit {0}) × Store). r.1.files q) e ∙ x.file q other)
            whole
    ]

is_some-whole :
    {a b : Option Bytes} {d k hash : Bytes}
    → (a ≡ b) ⊎ ((k ≡ hash) × (a ≡ some d))
    → is_some b ≡ true
    → is_some a ≡ true
unfolding is_some
is_some-whole (inl e) h = rw e h
is_some-whole (inr (_, e)) h = rw e refl

pub put_blob-base_dir :
    (f : Faults) (hash data_ : Bytes) (s : Store)
    → validate_hash hash ≡ true
    → (put_blob f hash data_ s).1.base_dir ≡ s.base_dir
unfolding remember
put_blob-base_dir f hash data_ s vh = elim (put_blob-cases f hash data_ s vh) [
  | inl (e, _) ↦ rw e refl
  | inr (failed _ t x e) ↦ rw e x.base
  | inr (found t x _ e) ↦ rw e x.base
  | inr (unsynced _ t x e) ↦ rw e x.base
  | inr (stored t x e) ↦ rw e x.base
]

-- What a put adds to the cache is there.
put_blob-cache :
    (f : Faults) (hash data_ : Bytes) (s : Store)
    → validate_hash hash ≡ true
    → ((put_blob f hash data_ s).1.exists_set ≡ s.exists_set)
      ⊎ (((put_blob f hash data_ s).1.exists_set ≡ hash ∷ s.exists_set)
          × (is_some ((put_blob f hash data_ s).1.files (blob_path s.base_dir hash)) ≡ true))
unfolding remember set_file is_some
put_blob-cache f hash data_ s vh =
    let path = blob_path s.base_dir hash in
    let other = tmp_path-ne s.base_dir hash hash f.uuid vh vh in
    elim (put_blob-cases f hash data_ s vh) [
      | inl (e, _) ↦ rw e (inl refl)
      | inr (failed _ t x e) ↦ rw e (inl x.cache)
      | inr (found t x there e) ↦ rw e (inr (ap (λ l. hash ∷ l) x.cache, there))
      | inr (unsynced _ t x e) ↦ rw e (inl x.cache)
      | inr (stored t x e) ↦
          rw e (
            inr (ap (λ l. hash ∷ l) x.cache, rw (x.file path other) (rw (bytes_eq_refl path) refl)))
    ]

-- Of a store whose cached hashes are valid and have their blobs, a put under a valid hash makes
-- another such store, whichever calls of the operating system fail.
pub put_blob-IsSound :
    (f : Faults) (hash data_ : Bytes) (s : Store)
    → validate_hash hash ≡ true
    → IsSound s
    → IsSound (put_blob f hash data_ s).1
put_blob-IsSound f hash data_ s vh sound =
    let t = (put_blob f hash data_ s).1 in
    let base = put_blob-base_dir f hash data_ s vh in
    let old : All (IsKnown t) s.exists_set =
      All-map s.exists_set
        (λ k (vk, there).
          (vk, rw base (is_some-whole (put_blob-atomic f hash data_ k s vh vk) there)))
        sound in
    elim (put_blob-cache f hash data_ s vh) [
      | inl e ↦ rw e old
      | inr (e, there) ↦ rw e ((vh, rw base there), old)
    ]

-- A put that succeeds where no blob was stored the data.
pub put_blob-fresh :
    (f : Faults) (hash data_ : Bytes) (s : Store)
    → validate_hash hash ≡ true
    → IsSound s
    → s.files (blob_path s.base_dir hash) ≡ none
    → (put_blob f hash data_ s).0 ≡ ok tt
    → (put_blob f hash data_ s).1.files (blob_path s.base_dir hash) ≡ some data_
unfolding remember set_file is_some
put_blob-fresh f hash data_ s vh sound gone done =
    let path = blob_path s.base_dir hash in
    let other = tmp_path-ne s.base_dir hash hash f.uuid vh vh in
    elim (put_blob-cases f hash data_ s vh) [
      | inl (e, hit) ↦
          let (_, there) = mem_key-IsKnown s hash s.exists_set sound hit in
          (let bad : is_some none ≡ true = rw gone at there in cc)
      | inr (failed _ t x e) ↦ (let bad = rw e at done in cc)
      | inr (found t x there e) ↦
          (let bad : is_some none ≡ true = rw (x.file path other ∙ gone) at there in cc)
      | inr (unsynced _ t x e) ↦ (let bad = rw e at done in cc)
      | inr (stored t x e) ↦ rw e (rw (x.file path other) (rw (bytes_eq_refl path) refl))
    ]
