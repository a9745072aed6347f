-- ===== src/Store/Hash.antt =====
-- Blob paths: one for each hash, and none that a temporary file has.
use gbf_core.Base.{
  ◌+◌, ◌≡◌, ◌≢◌, refl, sym, ap, ◌∙◌, ◌==◌, ==_iff, true, false, Bool-cases, inl, inr, ◌++◌, length,
  take, drop, length-append, length-take, take-append, drop-append, arith,
}
use gbf_core.Base.Bytes.{Bytes, bytes_eq, bytes_eq_iff, codes}
use gbf_core.Store.{validate_hash, blob_dir, blob_path, tmp_path}

pub length-hash : (hash : Bytes) → validate_hash hash ≡ true → length hash ≡ 64
unfolding validate_hash
length-hash hash h = elim (Bool-cases (length hash == 64)) [
  | inl e ↦ (==_iff (length hash) 64).0 e
  | inr e ↦ (let f = rw e at h in cc)
]

blob_path-valid :
    (base hash : Bytes)
    → validate_hash hash ≡ true
    → blob_path base hash ≡ blob_dir base hash ++ (codes "/" ++ (hash ++ codes ".gb"))
unfolding blob_path
blob_path-valid base hash h = rw h refl

length-blob_dir :
    (base hash : Bytes) → validate_hash hash ≡ true → length (blob_dir base hash) ≡ length base + 6
unfolding blob_dir
length-blob_dir base hash h =
    let l = length-hash hash h in
    omega (arith, l, length-append base (codes "/gb/" ++ take 2 hash), length-take 2 hash)

hash_at : Bytes → Bytes → Bytes
hash_at base path = take 64 (drop 1 (drop (length base + 6) path))

hash_at-blob_path :
    (base hash : Bytes) → validate_hash hash ≡ true → hash_at base (blob_path base hash) ≡ hash
unfolding hash_at
hash_at-blob_path base hash h =
    let e = blob_path-valid base hash h in
    let d =
      drop-append (length base + 6) (blob_dir base hash) (codes "/" ++ (hash ++ codes ".gb"))
        (length-blob_dir base hash h) in
    rw e (rw d (take-append 64 hash (codes ".gb") (length-hash hash h)))

length-blob_path :
    (base hash : Bytes)
    → validate_hash hash ≡ true
    → length (blob_path base hash) ≡ length base + 74
length-blob_path base hash h =
    let l = length-hash hash h in
    rw (blob_path-valid base hash h) (
      omega (
        arith,
        l,
        length-blob_dir base hash h,
        length-append (blob_dir base hash) (codes "/" ++ (hash ++ codes ".gb")),
        length-append hash (codes ".gb"),
      ))

bytes_ne : (s t : Bytes) → s ≢ t → bytes_eq s t ≡ false
bytes_ne s t h = elim (Bool-cases (bytes_eq s t)) [
  | inl e ↦ absurd (h ((bytes_eq_iff s t).0 e))
  | inr e ↦ e
]

-- Two hashes have two paths.
pub blob_path-ne :
    (base h k : Bytes)
    → validate_hash h ≡ true
    → validate_hash k ≡ true
    → h ≢ k
    → bytes_eq (blob_path base h) (blob_path base k) ≡ false
blob_path-ne base h k vh vk differ = bytes_ne _ _ (λ e.
    differ (sym (hash_at-blob_path base h vh) ∙ ap (hash_at base) e ∙ hash_at-blob_path base k vk))

-- A temporary file has no blob's path.
pub tmp_path-ne :
    (base h k uuid : Bytes)
    → validate_hash h ≡ true
    → validate_hash k ≡ true
    → bytes_eq (tmp_path (blob_path base h) uuid) (blob_path base k) ≡ false
unfolding tmp_path
tmp_path-ne base h k uuid vh vk = bytes_ne _ _ (λ e.
    let l = ap length e in
    absurd (
      omega (
        arith,
        l,
        length-blob_path base h vh,
        length-blob_path base k vk,
        length-append (blob_path base h) (codes "." ++ (uuid ++ codes ".tmp")),
      )))
