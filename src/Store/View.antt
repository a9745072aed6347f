-- ===== src/Store/View.antt =====
-- What the store promises: a map from hashes to contents, in which a put adds what is missing. Where the
-- directory of a blob is, the caches and the temporary files do not show in it.
use gbf_core.Base.{
  ◌≡◌, ◌≢◌, refl, sym, ap, ◌∙◌, fun_ext, inl, inr, true, false, Bool-cases, Option, none, some,
  Option-cases, if◌then◌else◌, ok, err,
}
use gbf_core.Base.Bytes.{Bytes, bytes_eq, bytes_eq_iff, bytes_eq_refl}
use gbf_core.Store.{
  not_found, Store, Faults, validate_hash, blob_path, set_file, with_file, put_blob, get, delete,
}
use gbf_core.Store.Hash.{blob_path-ne}
use gbf_core.Store.Atomic.{IsSound, put_blob-base_dir, put_blob-fresh, put_blob-atomic}
use gbf_core.Store.Ops.{put_blob-kept}

-- The abstract store and its operations.
abbrev pub BlobMap : Type 0
BlobMap = Bytes → Option Bytes

abbrev pub update : BlobMap → Bytes → Option Bytes → BlobMap
update m hash content k = if bytes_eq hash k then content else m k

abbrev pub add : BlobMap → Bytes → Bytes → BlobMap
add m hash content k = elim (m hash) [ some c ↦ m k | none ↦ update m hash (some content) k ]

add-there :
    (m : BlobMap) (hash content k : Bytes) {c : Bytes}
    → m hash ≡ some c
    → add m hash content k ≡ m k
add-there m hash content k h = rw (add, h) refl

add-missing :
    (m : BlobMap) (hash content k : Bytes)
    → m hash ≡ none
    → add m hash content k ≡ update m hash (some content) k
add-missing m hash content k h = rw (add, h) refl

-- What a store shows of itself.
unfoldable pub view : Store → BlobMap
view s k = if validate_hash k then s.files (blob_path s.base_dir k) else none

view-valid :
    (s : Store) (k : Bytes) → validate_hash k ≡ true → view s k ≡ s.files (blob_path s.base_dir k)
unfolding view
view-valid s k h = rw (view, h)

view-invalid : (s : Store) (k : Bytes) → validate_hash k ≡ false → view s k ≡ none
unfolding view
view-invalid s k h = rw (view, h)

bytes_ne : (s t : Bytes) → bytes_eq s t ≡ false → s ≢ t
bytes_ne s t h e = let f : false ≡ true = sym h ∙ (bytes_eq_iff s t).1 e in cc

module _ (f : Faults) (hash content : Bytes) (s : Store) (vh : validate_hash hash ≡ true) where
  abbrev after : Store
  after = (put_blob f hash content s).1

  view-after :
      (k : Bytes) → validate_hash k ≡ true → view after k ≡ after.files (blob_path s.base_dir k)
  view-after k vk =
      view-valid after k vk
      ∙ ap (λ b. after.files (blob_path b k)) (put_blob-base_dir f hash content s vh)

  -- No other hash is touched.
  other_kept : (k : Bytes) → bytes_eq hash k ≡ false → view after k ≡ view s k
  other_kept k differ = elim (Bool-cases (validate_hash k)) [
    | inr bad ↦ view-invalid after k bad ∙ sym (view-invalid s k bad)
    | inl vk ↦ elim (put_blob-atomic f hash content k s vh vk) [
      | inl e ↦ view-after k vk ∙ e ∙ sym (view-valid s k vk)
      | inr (same, _) ↦ absurd (bytes_ne hash k differ (sym same))
    ]
  ]

  -- A put under a valid hash that succeeds in a store whose cached hashes have their blobs, and
  -- where the file of the hash can be examined, adds the content to the map that the store shows: a
  -- content that was there stays, and no other hash is touched.
  pub view-put_blob :
      IsSound s
      → f.stat ≡ false
      → (put_blob f hash content s).0 ≡ ok tt
      → view (put_blob f hash content s).1 ≡ add (view s) hash content
  view-put_blob sound readable done = fun_ext (λ k. elim (Option-cases (view s hash)) [
    | inr (c, there) ↦
        let at : s.files (blob_path s.base_dir hash) ≡ some c =
          sym (view-valid s hash vh) ∙ there in
        let kept : view after hash ≡ view s hash =
          view-after hash vh
          ∙ put_blob-kept f hash content s c vh readable at
          ∙ sym (view-valid s hash vh) in
        (elim (Bool-cases (bytes_eq hash k)) [
          | inl same ↦ let e = (bytes_eq_iff hash k).0 same in rw (← e) kept
          | inr other ↦ other_kept k other
        ])
        ∙ sym (add-there (view s) hash content k there)
    | inl gone ↦
        let at : s.files (blob_path s.base_dir hash) ≡ none = sym (view-valid s hash vh) ∙ gone in
        let put : view after hash ≡ some content =
          view-after hash vh ∙ put_blob-fresh f hash content s vh sound at done in
        (elim (Bool-cases (bytes_eq hash k)) [
          | inl same ↦ let e = (bytes_eq_iff hash k).0 same in rw same (rw (← e) put)
          | inr other ↦ rw other (other_kept k other)
        ])
        ∙ sym (add-missing (view s) hash content k gone)
  ])

-- A deletion under a valid hash whose file could be removed takes the hash out of the map.
pub view-delete :
    (f : Faults) (hash : Bytes) (s : Store)
    → validate_hash hash ≡ true
    → f.remove ≡ false
    → view (delete f hash s).1 ≡ update (view s) hash none
unfolding delete with_file set_file view
view-delete f hash s vh removed = fun_ext (λ k. elim (Bool-cases (bytes_eq hash k)) [
  | inl same ↦
      let e = (bytes_eq_iff hash k).0 same in
      rw (delete, vh, removed, same) (rw (← e, vh, bytes_eq_refl (blob_path s.base_dir hash)) refl)
  | inr other ↦ elim (Bool-cases (validate_hash k)) [
    | inr bad ↦ rw (delete, vh, removed, other, bad) refl
    | inl vk ↦
        rw
          (
            delete,
            vh,
            removed,
            other,
            vk,
            blob_path-ne s.base_dir hash k vh vk (bytes_ne hash k other),
          )
          refl
  ]
])

-- A read of a valid hash gives what the map has.
get-view :
    (hash : Bytes) (s : Store)
    → validate_hash hash ≡ true
    → get false hash s ≡ elim (view s hash) [ none ↦ err not_found | some c ↦ ok c ]
unfolding get view
get-view hash s vh = rw (get, vh) refl
