-- ===== src/Persist/Migrated.antt =====
-- migrateV1Manifest of simple/manifest.go: the manifest that a migration builds.
use gbf_core.Base.{◌≡◌, refl, false, List, [], ◌∷◌, All, some}
use gbf_core.Base.Bytes.{Bytes}
use gbf_core.Base.Int64.{pos}
use gbf_core.Base.Text.{slash, has_prefix}
use gbf_core.Manifest.{Manifest, normalize_manifest_path, add_file, add_empty_dir}
use gbf_core.Manifest.Tree.{IsClosed, add_file-IsClosed, add_empty_dir-IsClosed}
use gbf_core.Manifest.Stats.{StatsAgree, add_file-StatsAgree, add_empty_dir-StatsAgree}
use gbf_core.Persist.{
  V1FileEntry, V1EmptyDir, V1Manifest, no_stats, file_of_v1, add_v1_files, add_v1_dirs,
  migrate_v1_manifest,
}

-- A path that does not begin with two slashes.
abbrev pub IsSingle : Bytes → Type 0
IsSingle path = has_prefix (normalize_manifest_path path) (slash ∷ []) ≡ false

add_v1_files-StatsAgree :
    (m : Manifest) (fs : List V1FileEntry) → StatsAgree m → StatsAgree (add_v1_files m fs)
unfolding add_v1_files
add_v1_files-StatsAgree m [] h = h
add_v1_files-StatsAgree m (f ∷ fs) h =
    add_v1_files-StatsAgree (add_file m (file_of_v1 f)) fs (add_file-StatsAgree m (file_of_v1 f) h)

add_v1_dirs-StatsAgree :
    (m : Manifest) (ds : List V1EmptyDir) → StatsAgree m → StatsAgree (add_v1_dirs m ds)
unfolding add_v1_dirs
add_v1_dirs-StatsAgree m [] h = h
add_v1_dirs-StatsAgree m (d ∷ ds) h =
    add_v1_dirs-StatsAgree (add_empty_dir m d.rel_path) ds (add_empty_dir-StatsAgree m d.rel_path h)

add_v1_files-IsClosed :
    (m : Manifest) (fs : List V1FileEntry)
    → All (λ (f : V1FileEntry). IsSingle f.path) fs
    → IsClosed m.dirs
    → IsClosed (add_v1_files m fs).dirs
unfolding add_v1_files file_of_v1
add_v1_files-IsClosed m [] all h = h
add_v1_files-IsClosed m (f ∷ fs) (one, all) h =
    add_v1_files-IsClosed (add_file m (file_of_v1 f)) fs all
      (add_file-IsClosed m (file_of_v1 f) one h)

add_v1_dirs-IsClosed :
    (m : Manifest) (ds : List V1EmptyDir)
    → All (λ (d : V1EmptyDir). IsSingle d.rel_path) ds
    → IsClosed m.dirs
    → IsClosed (add_v1_dirs m ds).dirs
unfolding add_v1_dirs
add_v1_dirs-IsClosed m [] all h = h
add_v1_dirs-IsClosed m (d ∷ ds) (one, all) h =
    add_v1_dirs-IsClosed (add_empty_dir m d.rel_path) ds all
      (add_empty_dir-IsClosed m d.rel_path one h)

-- A manifest that is migrated from a version 1 none of whose paths begins with two slashes has
-- statistics that agree with its files, and every directory that it lists is an entry of it.
pub migrate_v1_manifest-IsClosed :
    (m : Manifest) (v1 : V1Manifest)
    → All (λ (f : V1FileEntry). IsSingle f.path) v1.files
    → All (λ (d : V1EmptyDir). IsSingle d.rel_path) v1.empty_dirs
    → StatsAgree (migrate_v1_manifest m (some v1)) × IsClosed (migrate_v1_manifest m (some v1)).dirs
unfolding migrate_v1_manifest
migrate_v1_manifest-IsClosed m v1 singles dirs =
    let empty = record m { version = pos 2; dirs = []; stats = no_stats } in
    (
      add_v1_dirs-StatsAgree (add_v1_files empty v1.files) v1.empty_dirs
          (add_v1_files-StatsAgree empty v1.files (refl, refl)),
      add_v1_dirs-IsClosed (add_v1_files empty v1.files) v1.empty_dirs dirs
          (add_v1_files-IsClosed empty v1.files singles tt),
    )
