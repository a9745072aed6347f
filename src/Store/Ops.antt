-- ===== src/Store/Ops.antt =====
-- What Get, Exists and Delete say behind a Put.
use gbf_core.Base.{
  ◌≡◌, ◌≢◌, refl, sym, ◌∙◌, inl, inr, true, false, Bool-cases, Option, none, some, Option-cases,
  List, [], ◌∷◌, All, ok,
}
use gbf_core.Base.Bytes.{Bytes, bytes_eq, bytes_eq_iff, bytes_eq_refl}
use gbf_core.Store.{
  Store, Faults, validate_hash, blob_path, is_some, mem_key, delete_key, set_file, with_file,
  remember, put_blob, get, exists, delete,
}
use gbf_core.Store.Hash.{blob_path-ne}
use gbf_core.Store.Atomic.{IsKnown, IsSound, put_blob-base_dir, put_blob-fresh, mem_key-IsKnown}

get-some :
    (hash : Bytes) (t : Store) (c : Bytes)
    → validate_hash hash ≡ true
    → t.files (blob_path t.base_dir hash) ≡ some c
    → get false hash t ≡ ok c
unfolding get
get-some hash t c vh e = rw (vh, e) refl

pub put_blob-kept :
    (f : Faults) (hash data_ : Bytes) (s : Store) (c : Bytes)
    → validate_hash hash ≡ true
    → f.stat ≡ false
    → s.files (blob_path s.base_dir hash) ≡ some c
    → (put_blob f hash data_ s).1.files (blob_path s.base_dir hash)
      ≡ s.files (blob_path s.base_dir hash)
unfolding put_blob remember is_some
put_blob-kept f hash data_ s c vh readable there = elim (Bool-cases (mem_key hash s.exists_set)) [
  | inl hit ↦ rw (vh, hit) refl
  | inr miss ↦ rw (vh, miss, readable, there) there
]

-- The blob that a put leaves: the old one, and otherwise the data.
abbrev pub content_or : Bytes → Option Bytes → Bytes
content_or data_ none = data_
content_or data_ (some c) = c

-- In a store whose cached hashes have their blobs, and where the file can be examined, `Get` after
-- a `Put` that succeeds under a valid hash returns what was there under that hash before, and the
-- data if nothing was.
pub put_blob-get :
    (f : Faults) (hash data_ : Bytes) (s : Store)
    → validate_hash hash ≡ true
    → IsSound s
    → f.stat ≡ false
    → (put_blob f hash data_ s).0 ≡ ok tt
    → get false hash (put_blob f hash data_ s).1
      ≡ ok (content_or data_ (s.files (blob_path s.base_dir hash)))
unfolding is_some
put_blob-get f hash data_ s vh sound readable done =
    let base = put_blob-base_dir f hash data_ s vh in
    let path = blob_path s.base_dir hash in
    elim (Option-cases (s.files path)) [
      | inl gone ↦
          let e = put_blob-fresh f hash data_ s vh sound gone done in
          get-some hash (put_blob f hash data_ s).1 (content_or data_ (s.files path)) vh
            (rw base (e ∙ rw gone refl))
      | inr (c, there) ↦
          let e = put_blob-kept f hash data_ s c vh readable there in
          get-some hash (put_blob f hash data_ s).1 (content_or data_ (s.files path)) vh
            (rw base (e ∙ there ∙ rw there refl))
    ]

-- In a store whose cached hashes have their blobs, and where the file can be examined, `Exists` of
-- a valid hash tells whether the blob is there, and the cached hashes still have their blobs.
pub exists_lem :
    (f : Faults) (hash : Bytes) (s : Store)
    → validate_hash hash ≡ true
    → IsSound s
    → f.stat ≡ false
    → ((exists f hash s).0 ≡ ok (is_some (s.files (blob_path s.base_dir hash))))
      × IsSound (exists f hash s).1
unfolding exists remember
exists_lem f hash s vh sound readable = elim (Bool-cases (mem_key hash s.exists_set)) [
  | inl hit ↦
      (let (_, there) = mem_key-IsKnown s hash s.exists_set sound hit in
        rw (vh, hit, there) (refl, sound))
  | inr miss ↦ elim (Bool-cases (is_some (s.files (blob_path s.base_dir hash)))) [
    | inl there ↦ rw (vh, miss, readable, there) (refl, ((vh, there), sound))
    | inr gone ↦ rw (vh, miss, readable, gone) (refl, sound)
  ]
]

mem_key-delete_key : (hash : Bytes) (l : List Bytes) → mem_key hash (delete_key hash l) ≡ false
unfolding mem_key delete_key
mem_key-delete_key hash [] = refl
mem_key-delete_key hash (k ∷ l) = elim (Bool-cases (bytes_eq k hash)) [
  | inl same ↦ rw (same, mem_key-delete_key hash l)
  | inr other ↦ rw other (rw (other, mem_key-delete_key hash l))
]

delete_key-All :
    (P Q : Bytes → Type 0) (hash : Bytes) (l : List Bytes)
    → ((k : Bytes) → k ≢ hash → P k → Q k)
    → All P l
    → All Q (delete_key hash l)
unfolding delete_key
delete_key-All P Q hash [] f all = tt
delete_key-All P Q hash (k ∷ l) f (p, all) = elim (Bool-cases (bytes_eq k hash)) [
  | inl same ↦ rw same (delete_key-All P Q hash l f all)
  | inr other ↦ rw other (
    f k (λ e. let d : false ≡ true = sym other ∙ (bytes_eq_iff k hash).1 e in cc) p,
    delete_key-All P Q hash l f all,
  )
]

-- In a store whose cached hashes have their blobs, after a `Delete` of a valid hash whose file
-- could be removed the cached hashes still have their blobs, and `Exists`, where it can examine the
-- file, answers that the blob is gone.
pub delete_lem :
    (f g : Faults) (hash : Bytes) (s : Store)
    → validate_hash hash ≡ true
    → IsSound s
    → f.remove ≡ false
    → g.stat ≡ false
    → IsSound (delete f hash s).1 × ((exists g hash (delete f hash s).1).0 ≡ ok false)
unfolding delete with_file set_file exists is_some
delete_lem f g hash s vh sound removed readable =
    let path = blob_path s.base_dir hash in
    let after : Store = record s {
      files = set_file s.files path none;
      exists_set = delete_key hash s.exists_set;
    } in
    let known : All (IsKnown after) (delete_key hash s.exists_set) =
      delete_key-All (IsKnown s) (IsKnown after) hash s.exists_set
        (λ k differ (vk, there).
          (vk, rw (blob_path-ne s.base_dir hash k vh vk (λ e. differ (sym e))) there))
        sound in
    (
      rw (vh, removed) known,
      rw (vh, removed)
          (rw (mem_key-delete_key hash s.exists_set, readable, bytes_eq_refl path) refl),
    )

pub exists-missing :
    (f : Faults) (hash : Bytes) (s : Store)
    → validate_hash hash ≡ true
    → IsSound s
    → f.stat ≡ false
    → s.files (blob_path s.base_dir hash) ≡ none
    → exists f hash s ≡ (ok false, s)
unfolding exists is_some
exists-missing f hash s vh sound readable gone = elim (Bool-cases (mem_key hash s.exists_set)) [
  | inl hit ↦
      let (_, there) = mem_key-IsKnown s hash s.exists_set sound hit in
      (let bad : is_some none ≡ true = rw gone at there in cc)
  | inr miss ↦ rw (vh, miss, readable, gone) refl
]
