-- ===== src/Store/Tests.antt =====
-- Each theorem on the blob store at a concrete store and hash.
use gbf_core.Base.{◌≡◌, refl, ◌⊎◌, true, false, Option, none, some, [], replicate, ok, ◌∷◌, Bool}
use gbf_core.Base.Bytes.{Bytes, codes}
use gbf_core.Store.{
  Store, Faults, validate_hash, lower_hex, blob_path, is_some, put_blob, put_file, ensure_dir,
  mem_key, delete,
}
use gbf_core.Store.Atomic.{IsSound, put_blob-atomic, put_blob-IsSound}
use gbf_core.Store.Batch.{look_up, stat_missing, exists_batch}
use gbf_core.Store.View.{view, add, update, view-put_blob, view-delete}

abbrev zeros : Bytes
zeros = replicate 64 b'0'

abbrev ones : Bytes
ones = replicate 64 b'1'

zeros_valid : validate_hash zeros ≡ true
unfolding validate_hash lower_hex
zeros_valid = refl

ones_valid : validate_hash ones ≡ true
unfolding validate_hash lower_hex
ones_valid = refl

abbrev no_faults : Faults
no_faults = record {
  stat = false;
  mkdir = false;
  create = false;
  write = false;
  sync = false;
  close = false;
  rename = false;
  restat = false;
  sync_parent = false;
  remove = false;
  partial = [];
  uuid = codes "id";
}

abbrev no_files : Bytes → Option Bytes
no_files p = none

abbrev store : Store
store = record { base_dir = codes "/r"; files = no_files; dir_cache = []; exists_set = [] }

abbrev blob : Bytes
blob = codes "blob"

stored : (put_blob no_faults zeros blob store).0 ≡ ok tt
unfolding put_blob put_file ensure_dir validate_hash lower_hex mem_key is_some
stored = refl

put_blob-atomic_example :
    ((put_blob (record no_faults { rename = true }) zeros blob store).1.files
        (blob_path (codes "/r") ones)
      ≡ no_files (blob_path (codes "/r") ones))
    ⊎ ((ones ≡ zeros)
        × ((put_blob (record no_faults { rename = true }) zeros blob store).1.files
              (blob_path (codes "/r") ones)
            ≡ some blob))
put_blob-atomic_example =
    put_blob-atomic (record no_faults { rename = true }) zeros blob ones store zeros_valid
      ones_valid

put_blob-IsSound_example : IsSound (put_blob no_faults zeros blob store).1
put_blob-IsSound_example = put_blob-IsSound no_faults zeros blob store zeros_valid tt

abbrev never : Bytes → Bool
never h = false

-- A store that has every blob, which the cache does not know.
abbrev full_store : Store
full_store = record store { files = λ p. some blob }

both_reported : (exists_batch never never (zeros ∷ ones ∷ []) full_store).0 ≡ ok (zeros ∷ ones ∷ [])
unfolding exists_batch look_up stat_missing validate_hash lower_hex mem_key is_some
both_reported = refl

view-put_blob_example : view (put_blob no_faults zeros blob store).1 ≡ add (view store) zeros blob
view-put_blob_example = view-put_blob no_faults zeros blob store zeros_valid tt refl stored

view-delete_example : view (delete no_faults zeros store).1 ≡ update (view store) zeros none
view-delete_example = view-delete no_faults zeros store zeros_valid refl
