-- ===== src/Store/Batch.antt =====
-- ExistsBatch: the cache answers for a whole list of hashes, and the misses are examined one by one.
-- `denied` are the files that cannot be examined, `done` the misses at which the context has ended.
use gbf_core.Base.{
  ◌≡◌, inl, inr, Bool, true, not, if◌then◌else◌, Bool-cases, List, [], ◌∷◌, ◌++◌, All, Result, ok,
  err, >>=-eq-ok, guard-eq-ok, guard, ◌>>=◌, ◌>>◌, Result-cases,
}
use gbf_core.Base.Bytes.{Bytes}
use gbf_core.Store.{
  StoreError, invalid_hash, permission_denied, context_done, Store, validate_hash, blob_path,
  is_some, mem_key,
}
use gbf_core.Store.Atomic.{IsKnown, IsSound, mem_key-IsKnown}

-- The first loop: the hashes that the cache knows, and the others.
pub record Lookup : Type 0 where
  pub hits : List Bytes
  pub missing : List Bytes

unfoldable pub look_up : Store → List Bytes → Result StoreError Lookup
look_up s [] = ok (record { hits = []; missing = [] })
look_up s (h ∷ hs) = do
  guard (validate_hash h) invalid_hash
  rest ← look_up s hs
  if mem_key h s.exists_set
      then ok (record rest { hits = h ∷ rest.hits })
      else ok (record rest { missing = h ∷ rest.missing })

module _ (denied done : Bytes → Bool) where
  -- The second loop: the misses that are there.
  unfoldable pub stat_missing : Store → List Bytes → Result StoreError (List Bytes)
  stat_missing s [] = ok []
  stat_missing s (h ∷ hs) = do
    guard (not (done h)) context_done
    guard (not (denied h)) permission_denied
    found ← stat_missing s hs
    ok (if is_some (s.files (blob_path s.base_dir h)) then h ∷ found else found)

  -- `ExistsBatch`: the hashes of the result, and the store.
  unfoldable pub exists_batch : List Bytes → Store → Result StoreError (List Bytes) × Store
  exists_batch hashes s = elim (look_up s hashes) [
    | err e ↦ (err e, s)
    | ok l ↦ elim (stat_missing s l.missing) [
      | err e ↦ (err e, s)
      | ok found ↦ (ok (l.hits ++ found), record s { exists_set = found ++ s.exists_set })
    ]
  ]

  IsValid : Bytes → Type 0
  IsValid h = validate_hash h ≡ true

  look_up_lem :
      (s : Store) (hashes : List Bytes) (l : Lookup)
      → IsSound s
      → look_up s hashes ≡ ok l
      → All (IsKnown s) l.hits × All IsValid l.missing
  unfolding look_up IsValid
  look_up_lem s [] l sound h =
      let e : record { hits = []; missing = [] } ≡ l = cc in rw (← e) (tt, tt)
  look_up_lem s (k ∷ hs) l sound h =
      let (valid, h1) = guard-eq-ok (validate_hash k) invalid_hash _ h in
      let (rest, looked, h2) = >>=-eq-ok (look_up s hs) _ h1 in
      let (hits, missing) = look_up_lem s hs rest sound looked in
      elim (Bool-cases (mem_key k s.exists_set)) [
        | inl hit ↦
            let e : record rest { hits = k ∷ rest.hits } ≡ l = (let f = rw hit at h2 in cc) in
            rw (← e) ((mem_key-IsKnown s k s.exists_set sound hit, hits), missing)
        | inr miss ↦
            let e : record rest { missing = k ∷ rest.missing } ≡ l =
              (let f = rw miss at h2 in cc) in
            rw (← e) (hits, (valid, missing))
      ]

  stat_missing_lem :
      (s : Store) (hs found : List Bytes)
      → All IsValid hs
      → stat_missing s hs ≡ ok found
      → All (IsKnown s) found
  unfolding stat_missing IsValid
  stat_missing_lem s [] found all h = let e : [] ≡ found = cc in rw (← e) tt
  stat_missing_lem s (k ∷ hs) found (valid, all) h =
      let (_, h1) = guard-eq-ok (not (done k)) context_done _ h in
      let (_, h2) = guard-eq-ok (not (denied k)) permission_denied _ h1 in
      let (rest, more, h3) = >>=-eq-ok (stat_missing s hs) _ h2 in
      let known = stat_missing_lem s hs rest all more in
      elim (Bool-cases (is_some (s.files (blob_path s.base_dir k)))) [
        | inl there ↦
            let e : k ∷ rest ≡ found = (let f = rw there at h3 in cc) in
            rw (← e) ((valid, there), known)
        | inr gone ↦ let e : rest ≡ found = (let f = rw gone at h3 in cc) in rw (← e) known
      ]

  All-append : (Q : Bytes → Type 0) (xs ys : List Bytes) → All Q xs → All Q ys → All Q (xs ++ ys)
  All-append Q [] ys p q = q
  All-append Q (x ∷ xs) ys (p, ps) q = (p, All-append Q xs ys ps q)

  -- In a store whose cached hashes have their blobs, every hash that a batch which succeeds reports
  -- is valid and has its blob, and the cached hashes still have theirs.
  pub exists_batch_lem :
      (hashes found : List Bytes) (s : Store)
      → IsSound s
      → (exists_batch hashes s).0 ≡ ok found
      → All (IsKnown s) found × IsSound (exists_batch hashes s).1
  unfolding exists_batch
  exists_batch_lem hashes found s sound h = elim (Result-cases (look_up s hashes)) [
    | inr (e, bad) ↦ (let k = rw (bad, exists_batch) at h in cc)
    | inl (l, looked) ↦ elim (Result-cases (stat_missing s l.missing)) [
      | inr (e, bad) ↦ (let k = rw (looked, bad, exists_batch) at h in cc)
      | inl (more, good) ↦
          let (hits, missing) = look_up_lem s hashes l sound looked in
          let known = stat_missing_lem s l.missing more missing good in
          let e : l.hits ++ more ≡ found = (let k = rw (looked, good, exists_batch) at h in cc) in
          (
            rw (← e) (All-append (IsKnown s) l.hits more hits known),
            rw (looked, good, exists_batch) (All-append (IsKnown s) more s.exists_set known sound),
          )
    ]
  ]
