-- ===== src/Persist/Trash.antt =====
-- Deleting and trashing manifests: renameWithFallback, moveOrDeleteOneManifest, deleteOrTrashManifest and
-- deleteOrTrashAllManifests of simple/manifest.go. Of each rename it is given which calls fail and
-- whether a failing one is a cross-device error. Directories are no files of the disk.
use gbf_core.Base.{
  ℕ, zero, suc, Bool, not, ◌&&◌, if◌then◌else◌, Option, none, some, List, [], ◌∷◌, ◌++◌, Result, ok,
  err,
}
use gbf_core.Base.Bytes.{Bytes, bytes_eq, codes}
use gbf_core.Store.{set_file, is_some}
use gbf_core.Disk.{
  Files, DiskError, mkdir_failed, create_failed, write_failed, rename_failed, remove_failed,
  read_failed, not_exist, DiskFaults, remove_quietly,
}
use gbf_core.Manifest.{Manifest}
use gbf_core.Persist.Load.{LoadError, manifest_checksum_path}
use gbf_core.Persist.Listing.{DirEntry}

pub record MoveFaults : Type 0 where
  pub disk : DiskFaults
  pub cross_device : Bool

-- The copy of `renameWithFallback`, behind a cross-device error. The target is closed last, and the
-- error of that is ignored.
unfoldable pub copy_over :
    DiskFaults → Bytes → Bytes → Bytes → Files → Result DiskError (Unit {0}) × Files
copy_over f src dst content files =
    let copied = set_file files dst (some (if f.close then f.partial else content)) in
    if f.read
    then (err read_failed, files)
    else if f.mkdir
    then (err mkdir_failed, files)
    else if f.create
    then (err create_failed, files)
    else if f.write
    then (err write_failed, remove_quietly f dst (set_file files dst (some f.partial)))
    else (ok tt, remove_quietly f src copied)

-- `renameWithFallback`
unfoldable pub rename_with_fallback :
    MoveFaults → Bytes → Bytes → Files → Result DiskError (Unit {0}) × Files
rename_with_fallback f src dst files = elim (files src) [
  | none ↦ (err not_exist, files)
  | some content ↦
      if not f.disk.rename
      then (ok tt, set_file (set_file files src none) dst (some content))
      else if not f.cross_device
      then (err rename_failed, files)
      else copy_over f.disk src dst content files
]

-- What follows the move of the manifest: its checksum file goes the same way, where there is one.
unfoldable pub move_checksum :
    MoveFaults
    → Bytes
    → Bytes
    → Result DiskError (Unit {0}) × Files
    → Result DiskError (Unit {0}) × Files
move_checksum g src dst (err e, files) = (err e, files)
move_checksum g src dst (ok u, files) =
    let moved =
      rename_with_fallback g (manifest_checksum_path src) (manifest_checksum_path dst) files in
    (ok tt, if is_some (files (manifest_checksum_path src)) then moved.1 else files)

-- `os.Remove`
unfoldable pub remove_file : DiskFaults → Bytes → Files → Result DiskError (Unit {0}) × Files
remove_file f path files = elim (files path) [
  | none ↦ (err not_exist, files)
  | some c ↦ if f.remove then (err remove_failed, files) else (ok tt, set_file files path none)
]

-- `moveOrDeleteOneManifest`, with the faults of the manifest and those of its checksum file.
unfoldable pub move_or_delete_one :
    MoveFaults → MoveFaults → Bool → Bytes → Bytes → Files → Result DiskError (Unit {0}) × Files
move_or_delete_one f g trash src dst files =
    if trash
    then move_checksum g src dst (rename_with_fallback f src dst files)
    else remove_file f.disk src (remove_quietly g.disk (manifest_checksum_path src) files)

-- The first manifest of a time and a device, by `forEachManifest`.
unfoldable pub find_matching :
    (Bytes → Result LoadError Manifest) → Bytes → Bytes → List DirEntry → Option Bytes
find_matching load timestamp device_id [] = none
find_matching load timestamp device_id (e ∷ es) =
    let rest = find_matching load timestamp device_id es in
    elim (load e.name) [
      | err x ↦ rest
      | ok m ↦
          if bytes_eq m.timestamp timestamp && bytes_eq m.device_id device_id
          then some e.name
          else rest
    ]

pub data TrashError : Type 0 where
  disk_error : DiskError → TrashError
  no_manifest no_trash_dir : TrashError

unfoldable pub of_disk : Result DiskError (Unit {0}) × Files → Result TrashError (Unit {0}) × Files
of_disk (err e, files) = (err (disk_error e), files)
of_disk (ok u, files) = (ok u, files)

unfoldable pub in_dir : Bytes → Bytes → Bytes
in_dir dir name = dir ++ (codes "/" ++ name)

-- `deleteOrTrashManifest` of a directory whose manifests are `entries`.
unfoldable pub delete_or_trash_manifest :
    MoveFaults
    → MoveFaults
    → Bool
    → (Bytes → Result LoadError Manifest)
    → Bytes
    → Bytes
    → Bytes
    → Bytes
    → List DirEntry
    → Files
    → Result TrashError (Unit {0}) × Files
delete_or_trash_manifest f g trash load src_dir dst_dir timestamp device_id entries files =
    elim (find_matching load timestamp device_id entries) [
      | none ↦ (err no_manifest, files)
      | some name ↦
          if trash && f.disk.mkdir
          then (err no_trash_dir, files)
          else of_disk
              (move_or_delete_one f g trash (in_dir src_dir name) (in_dir dst_dir name) files)
    ]

-- One step of the loop of `deleteOrTrashAllManifests`: the count so far is that of the rest.
unfoldable pub count_one : Result DiskError (Unit {0}) → ℕ → ℕ
count_one (err e) n = n
count_one (ok u) n = suc n

-- The loop: the number of manifests that were moved or deleted, and the files.
unfoldable pub move_or_delete_all :
    (Bytes → MoveFaults)
    → (Bytes → MoveFaults)
    → Bool
    → Bytes
    → Bytes
    → List Bytes
    → Files
    → ℕ × Files
move_or_delete_all f g trash src_dir dst_dir [] files = (zero, files)
move_or_delete_all f g trash src_dir dst_dir (name ∷ names) files =
    let (result, files') =
      move_or_delete_one (f name) (g name) trash (in_dir src_dir name) (in_dir dst_dir name)
        files in
    let (count, files₁) = move_or_delete_all f g trash src_dir dst_dir names files' in
    (count_one result count, files₁)
