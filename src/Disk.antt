-- ===== src/Disk.antt =====
-- fsutil/fileio.go and fsutil/commit_noreplace_other.go: files written and moved into place. The disk
-- maps each path to the content of the file there; directories are not files of it. Which calls of
-- the operating system fail is a record of flags, and the UUID of a temporary name is given.
pub mod Atomic
mod Tests
use gbf_core.Base.{
  Bool, true, false, if◌then◌else◌, Option, none, some, List, [], ◌∷◌, ◌++◌, Result, ok, err,
}
use gbf_core.Base.Bytes.{Bytes, codes}
use gbf_core.Store.{set_file, tmp_path}

abbrev pub Files : Type 0
Files = Bytes → Option Bytes

pub data DiskError : Type 0 where
  mkdir_failed create_failed write_failed sync_failed close_failed rename_failed sync_parent_failed
        link_failed exists_already remove_failed read_failed not_exist :
      DiskError

-- The calls that fail, and what a failing write leaves in the file.
pub record DiskFaults : Type 0 where
  pub mkdir : Bool
  pub create : Bool
  pub write : Bool
  pub sync : Bool
  pub close : Bool
  pub rename : Bool
  pub link : Bool
  pub remove : Bool
  pub sync_parent : Bool
  pub read : Bool
  pub partial : Bytes

abbrev pub no_faults : DiskFaults
no_faults = record {
  mkdir = false;
  create = false;
  write = false;
  sync = false;
  close = false;
  rename = false;
  link = false;
  remove = false;
  sync_parent = false;
  read = false;
  partial = [];
}

-- `_ = os.Remove(path)`
unfoldable pub remove_quietly : DiskFaults → Bytes → Files → Files
remove_quietly f path files = if f.remove then files else set_file files path none

-- `os.ReadFile`
unfoldable pub read_file : DiskFaults → Bytes → Files → Result DiskError Bytes
read_file f path files = elim (files path) [
  | none ↦ err not_exist
  | some content ↦ if f.read then err read_failed else ok content
]

-- `WriteStagingFile`; a short write without an error counts as a failing write.
unfoldable pub write_staging_file :
    DiskFaults → Bytes → Bytes → Files → Result DiskError (Unit {0}) × Files
write_staging_file f path content files =
    let written = set_file files path (some content) in
    let torn = set_file files path (some f.partial) in
    if f.create
    then (err create_failed, files)
    else if f.write
    then (err write_failed, remove_quietly f path torn)
    else if f.sync
    then (err sync_failed, remove_quietly f path written)
    else if f.close
    then (err close_failed, remove_quietly f path written)
    else (ok tt, written)

-- `os.Rename` of the staged file, and what follows it in `writeFileAtomicCommon`.
unfoldable pub rename_staged :
    DiskFaults → Bytes → Bytes → Bytes → Files → Result DiskError (Unit {0}) × Files
rename_staged f tmp path content files =
    let renamed = set_file (set_file files tmp none) path (some content) in
    if f.rename
    then (err rename_failed, remove_quietly f tmp files)
    else if f.sync_parent
    then (err sync_parent_failed, renamed)
    else (ok tt, renamed)

-- `if err := WriteStagingFile(...); err != nil { return err }`, and the rest.
unfoldable pub after_staging :
    DiskFaults
    → Bytes
    → Bytes
    → Bytes
    → Result DiskError (Unit {0}) × Files
    → Result DiskError (Unit {0}) × Files
after_staging f tmp path content (err e, files) = (err e, files)
after_staging f tmp path content (ok u, files) = rename_staged f tmp path content files

-- `WriteFileAtomic`, which is `writeFileAtomicCommon`
unfoldable pub write_file_atomic :
    DiskFaults → Bytes → Bytes → Bytes → Files → Result DiskError (Unit {0}) × Files
write_file_atomic f uuid path content files =
    let tmp = tmp_path path uuid in
    if f.mkdir
    then (err mkdir_failed, files)
    else after_staging f tmp path content (write_staging_file f tmp content files)

-- `CommitFileNoReplace`: link(2) fails where `dst` exists.
unfoldable pub commit_file_no_replace :
    DiskFaults → Bytes → Bytes → Files → Result DiskError (Unit {0}) × Files
commit_file_no_replace f src dst files = elim (files src) [
  | none ↦ (err link_failed, files)
  | some content ↦
      let linked = set_file files dst (some content) in
      let moved = set_file linked src none in
      elim (files dst) [
        | some c ↦ (err exists_already, files)
        | none ↦
            if f.link
            then (err link_failed, files)
            else if f.remove
            then (err remove_failed, linked)
            else if f.sync_parent
            then (err sync_parent_failed, moved)
            else (ok tt, moved)
      ]
]
