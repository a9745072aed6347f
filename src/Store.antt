-- ===== src/Store.antt =====
-- simple/local_store.go: the local blob store, over a file system that maps paths to contents.
pub mod Hash
pub mod Atomic
pub mod Ops
pub mod Batch
pub mod View
mod Tests
use gbf_core.Base.{
  ℕ, ◌+◌, leb, ltb, ◌==◌, Bool, true, false, not, ◌&&◌, ◌||◌, if◌then◌else◌, Option, none, some,
  List, [], ◌∷◌, ◌++◌, length, take, Result, ok, err,
}
use gbf_core.Base.Bytes.{Bytes, bytes_eq, codes}

pub data StoreError : Type 0 where
  invalid_hash mkdir_failed create_failed write_failed sync_failed close_failed rename_failed
        sync_parent_failed not_found permission_denied remove_failed context_done unreadable :
      StoreError

pub record Store : Type 0 where
  pub base_dir : Bytes
  pub files : Bytes → Option Bytes
  pub dir_cache : List Bytes
  pub exists_set : List Bytes

-- Which calls of the operating system fail in one operation, what a failing write leaves, and the UUID.
pub record Faults : Type 0 where
  pub stat : Bool
  pub mkdir : Bool
  pub create : Bool
  pub write : Bool
  pub sync : Bool
  pub close : Bool
  pub rename : Bool
  pub restat : Bool
  pub sync_parent : Bool
  pub remove : Bool
  pub partial : Bytes
  pub uuid : Bytes

-- `NewLocalBlobStore`
unfoldable pub new_local_blob_store : Bytes → (Bytes → Option Bytes) → Store
new_local_blob_store base files = record {
  base_dir = base;
  files = files;
  dir_cache = [];
  exists_set = [];
}

-- `validateHash`
unfoldable pub lower_hex : Bytes → Bool
lower_hex [] = true
lower_hex (c ∷ s) =
    if (ltb c b'0' || ltb b'9' c) && (ltb c b'a' || ltb b'f' c) then false else lower_hex s

unfoldable pub validate_hash : Bytes → Bool
validate_hash hash = if not (length hash == 64) then false else lower_hex hash

-- The directory of a blob, and `BlobPath`, below a base directory that is clean.
unfoldable pub blob_dir : Bytes → Bytes → Bytes
blob_dir base hash = base ++ (codes "/gb/" ++ take 2 hash)

unfoldable pub blob_path : Bytes → Bytes → Bytes
blob_path base hash =
    if not (validate_hash hash)
    then []
    else blob_dir base hash ++ (codes "/" ++ (hash ++ codes ".gb"))

unfoldable pub tmp_path : Bytes → Bytes → Bytes
tmp_path path uuid = path ++ (codes "." ++ (uuid ++ codes ".tmp"))

unfoldable pub is_some : Option Bytes → Bool
is_some none = false
is_some (some c) = true

unfoldable pub mem_key : Bytes → List Bytes → Bool
mem_key k [] = false
mem_key k (q ∷ qs) = bytes_eq q k || mem_key k qs

unfoldable pub delete_key : Bytes → List Bytes → List Bytes
delete_key k [] = []
delete_key k (q ∷ qs) = if bytes_eq q k then delete_key k qs else q ∷ delete_key k qs

unfoldable pub set_file : (Bytes → Option Bytes) → Bytes → Option Bytes → Bytes → Option Bytes
set_file files path content q = if bytes_eq path q then content else files q

unfoldable pub with_file : Store → Bytes → Option Bytes → Store
with_file s path content = record s { files = set_file s.files path content }

unfoldable pub remember : Store → Bytes → Store
remember s hash = record s { exists_set = hash ∷ s.exists_set }

-- `os.Remove(tmp)`, whose error the code drops.
unfoldable pub drop_tmp : Faults → Bytes → Store → Store
drop_tmp f tmp s = if f.remove then s else with_file s tmp none

-- `putBlob` from the creation of the temporary file on.
unfoldable pub put_file :
    Faults → Bytes → Bytes → Bytes → Bytes → Store → Result StoreError (Unit {0}) × Store
put_file f hash path tmp data_ s =
    let written = with_file s tmp (some data_) in
    let cleaned = drop_tmp f tmp written in
    let renamed = with_file (with_file written tmp none) path (some data_) in
    if f.create
    then (err create_failed, s)
    else if f.write
    then (err write_failed, drop_tmp f tmp (with_file s tmp (some f.partial)))
    else if f.sync
    then (err sync_failed, cleaned)
    else if f.close
    then (err close_failed, cleaned)
    else if f.rename
    then (if not f.restat && is_some (cleaned.files path)
        then (ok tt, remember cleaned hash)
        else (err rename_failed, cleaned))
    else if f.sync_parent
    then (err sync_parent_failed, renamed)
    else (ok tt, remember renamed hash)

-- `ensureDir`
unfoldable pub ensure_dir : Faults → Bytes → Store → Result StoreError Store
ensure_dir f dir s =
    if mem_key dir s.dir_cache
    then ok s
    else if f.mkdir
    then err mkdir_failed
    else ok (record s { dir_cache = dir ∷ s.dir_cache })

-- `putBlob`, with a writer that writes `data_`.
unfoldable pub put_blob : Faults → Bytes → Bytes → Store → Result StoreError (Unit {0}) × Store
put_blob f hash data_ s =
    let path = blob_path s.base_dir hash in
    if not (validate_hash hash)
    then (err invalid_hash, s)
    else if mem_key hash s.exists_set
    then (ok tt, s)
    else if not f.stat && is_some (s.files path)
    then (ok tt, remember s hash)
    else elim (ensure_dir f (blob_dir s.base_dir hash) s) [
      | err e ↦ (err e, s)
      | ok s' ↦ put_file f hash path (tmp_path path f.uuid) data_ s'
    ]

-- `Get`, given whether the read of a file that is there fails.
unfoldable pub get : Bool → Bytes → Store → Result StoreError Bytes
get read_fails hash s =
    if not (validate_hash hash)
    then err invalid_hash
    else elim (s.files (blob_path s.base_dir hash)) [
      | none ↦ err not_found
      | some c ↦ if read_fails then err unreadable else ok c
    ]

-- `Exists`
unfoldable pub exists : Faults → Bytes → Store → Result StoreError Bool × Store
exists f hash s =
    if not (validate_hash hash)
    then (err invalid_hash, s)
    else if mem_key hash s.exists_set
    then (ok true, s)
    else if f.stat
    then (err permission_denied, s)
    else if is_some (s.files (blob_path s.base_dir hash))
    then (ok true, remember s hash)
    else (ok false, s)

-- `Delete`
unfoldable pub delete : Faults → Bytes → Store → Result StoreError (Unit {0}) × Store
delete f hash s =
    let path = blob_path s.base_dir hash in
    if not (validate_hash hash)
    then (err invalid_hash, s)
    else if f.remove
    then (err remove_failed, s)
    else (ok tt, record (with_file s path none) { exists_set = delete_key hash s.exists_set })
