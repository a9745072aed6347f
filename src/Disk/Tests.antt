-- ===== src/Disk/Tests.antt =====
-- Each theorem on the disk at concrete files.
use gbf_core.Base.{◌≡◌, refl, ◌⊎◌, true, none, some, Result, ok, err}
use gbf_core.Base.Bytes.{bytes_eq, codes}
use gbf_core.Store.{set_file, tmp_path}
use gbf_core.Disk.{
  Files, DiskError, DiskFaults, no_faults, write_file_atomic, commit_file_no_replace,
  write_staging_file, after_staging, remove_quietly,
}
use gbf_core.Disk.Atomic.{Same, write_file_atomic_whole}

abbrev two_files : Files
two_files =
    set_file (set_file (λ q. none) (codes "a") (some (codes "1"))) (codes "b") (some (codes "2"))

abbrev torn_write : DiskFaults
torn_write = record no_faults { write = true; remove = true; partial = codes "2" }

write_file_atomic_whole_example :
    ((e : DiskError) × (t : Files) × Same (tmp_path (codes "b") (codes "u")) two_files t
      × (write_file_atomic torn_write (codes "u") (codes "b") (codes "23") two_files ≡ (err e, t)))
    ⊎ ((r : Result DiskError (Unit {0})) × (t : Files) × Same
          (tmp_path (codes "b") (codes "u"))
          (set_file two_files (codes "b") (some (codes "23")))
          t
        × (write_file_atomic torn_write (codes "u") (codes "b") (codes "23") two_files ≡ (r, t)))
write_file_atomic_whole_example =
    write_file_atomic_whole torn_write (codes "u") (codes "b") (codes "23") two_files

-- The torn write leaves its temporary file, since removing it fails too.
torn_write_leaves :
    (write_file_atomic torn_write (codes "u") (codes "b") (codes "23") two_files).1
      (codes "b.u.tmp")
    ≡ some (codes "2")
unfolding write_file_atomic write_staging_file after_staging remove_quietly tmp_path set_file
    bytes_eq
torn_write_leaves = refl

abbrev moved : Files
moved = (commit_file_no_replace no_faults (codes "a") (codes "c") two_files).1

commit_runs : commit_file_no_replace no_faults (codes "a") (codes "c") two_files ≡ (ok tt, moved)
unfolding commit_file_no_replace set_file bytes_eq
commit_runs = refl
