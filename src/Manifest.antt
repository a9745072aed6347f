-- ===== src/Manifest.antt =====
-- simple/manifest.go and simple/manifest_validate.go: the tree of a snapshot and what a valid one is.
-- `Dirs` is a list of its entries; a directory is never nil. Paths come behind filepath.ToSlash.
pub mod CloudId
pub mod Tree
pub mod Stats
pub mod Validate
mod Tests
use gbf_core.Base.{
  ℕ, suc, ◌+◌, ◌≤◌, ◌≡◌, leb, ltb, ◌==◌, Bool, true, false, not, ◌&&◌, ◌||◌, if◌then◌else◌, Option,
  none, some, List, [], ◌∷◌, ◌++◌, map, length, take, drop,
}
use gbf_core.Base.Bytes.{Bytes, bytes_eq, codes}
use gbf_core.Base.Int64.{ℤ, pos, add64}
use gbf_core.Base.Text.{slash, has_prefix, split, join, last_index, index}

pub record ChunkRef : Type 0 where
  pub hash : Bytes
  pub size : ℤ

pub record FileEntry : Type 0 where
  pub name : Bytes
  pub content_hash : Bytes
  pub size : ℤ
  pub mtime : Bytes
  pub mode : ℕ
  pub status : Bytes
  pub chunks : List ChunkRef

pub record Dir : Type 0 where
  pub files : List FileEntry
  pub sub_dirs : List Bytes

pub record ManifestStats : Type 0 where
  pub file_count : ℕ
  pub total_size : ℤ
  pub new_files : ℕ
  pub changed_files : ℕ
  pub unchanged_files : ℕ
  pub deleted_files : ℕ
  pub new_bytes : ℤ
  pub scan_errors : ℤ

abbrev pub Dirs : Type 0
Dirs = List (Bytes × Dir)

pub record Manifest : Type 0 where
  pub version : ℤ
  pub source_id : ℤ
  pub cloud_id : Bytes
  pub source_name : Bytes
  pub source_path : Bytes
  pub timestamp : Bytes
  pub device_id : Bytes
  pub dirs : Dirs
  pub stats : ManifestStats
  pub completeness : Bytes

abbrev pub empty_dir : Dir
empty_dir = record { files = []; sub_dirs = [] }

-- `NewManifest`, given the time
unfoldable pub new_manifest : Bytes → ℤ → Bytes → Bytes → Bytes → Bytes → Manifest
new_manifest now source_id cloud_id source_name source_path device_id = record {
  version = pos 2;
  source_id = source_id;
  cloud_id = cloud_id;
  source_name = source_name;
  source_path = source_path;
  timestamp = now;
  device_id = device_id;
  dirs = [];
  stats = record {
    file_count = 0;
    total_size = pos 0;
    new_files = 0;
    changed_files = 0;
    unchanged_files = 0;
    deleted_files = 0;
    new_bytes = pos 0;
    scan_errors = pos 0;
  };
  completeness = [];
}

-- `m.Dirs[key]`
unfoldable pub lookup : Dirs → Bytes → Option Dir
lookup [] key = none
lookup ((k, d) ∷ ds) key = if bytes_eq k key then some d else lookup ds key

unfoldable pub has_key : Dirs → Bytes → Bool
has_key [] key = false
has_key ((k, d) ∷ ds) key = bytes_eq k key || has_key ds key

-- A change of `m.Dirs[key]`, which is made first where it is missing.
unfoldable pub change : (Dir → Dir) → Dirs → Bytes → Dirs
change f [] key = (key, f empty_dir) ∷ []
change f ((k, d) ∷ ds) key = if bytes_eq k key then (k, f d) ∷ ds else (k, d) ∷ change f ds key

-- `normalizeManifestPath`
unfoldable pub normalize_manifest_path : Bytes → Bytes
normalize_manifest_path p = if has_prefix p (slash ∷ []) then drop 1 p else p

-- The split of a path at its last slash, with "" for no directory.
unfoldable pub split_path : Bytes → Bytes × Bytes
split_path p = elim (last_index p slash) [
  | some idx ↦ (take idx p, drop (suc idx) p)
  | none ↦ ([], p)
]

unfoldable pub mem_name : Bytes → List Bytes → Bool
mem_name child [] = false
mem_name child (s ∷ ss) = bytes_eq s child || mem_name child ss

unfoldable pub add_sub_dir : Bytes → Dir → Dir
add_sub_dir child d =
    if mem_name child d.sub_dirs then d else record d { sub_dirs = d.sub_dirs ++ child ∷ [] }

unfoldable pub add_entry : FileEntry → Dir → Dir
add_entry entry d = record d { files = d.files ++ entry ∷ [] }

-- The loop of `ensureParentDirs`: `before` is `parts[:i]`.
unfoldable pub ensure_parents : Dirs → List Bytes → List Bytes → Dirs
ensure_parents dirs before [] = dirs
ensure_parents dirs before (child ∷ parts) =
    ensure_parents (change (add_sub_dir child) dirs (join before)) (before ++ child ∷ []) parts

unfoldable pub ensure_parent_dirs : Dirs → Bytes → Dirs
ensure_parent_dirs dirs dir_path = ensure_parents dirs [] (split dir_path)

-- `AddFile`
unfoldable pub add_file : Manifest → FileEntry → Manifest
add_file m entry =
    let (dir, base) = split_path (normalize_manifest_path entry.name) in
    let dirs = change (add_entry (record entry { name = base })) m.dirs dir in
    record m {
      dirs = if not (bytes_eq dir []) then ensure_parent_dirs dirs dir else dirs;
      stats = record m.stats {
        file_count = suc m.stats.file_count;
        total_size = add64 m.stats.total_size entry.size;
      };
    }

-- `AddEmptyDir`
unfoldable pub add_empty_dir : Manifest → Bytes → Manifest
add_empty_dir m rel_path =
    let p = normalize_manifest_path rel_path in
    let (parent, name) = split_path p in
    let dirs = change (λ d. d) m.dirs p in
    if bytes_eq p [] then m else if bytes_eq name [] then m else record m {
      dirs =
          if not (bytes_eq parent [])
          then ensure_parent_dirs dirs p
          else change (add_sub_dir name) dirs [];
    }

-- The path of a file or of a directory in a directory.
unfoldable pub child_path : Bytes → Bytes → Bytes
child_path dir name = if bytes_eq dir [] then name else dir ++ slash ∷ name

unfoldable pub find_name : Bytes → Bytes → List FileEntry → Option FileEntry
find_name dir name [] = none
find_name dir name (f ∷ fs) =
    if bytes_eq f.name name
    then some (record f { name = child_path dir f.name })
    else find_name dir name fs

-- `FindFile`
unfoldable pub find_file : Manifest → Bytes → Option FileEntry
find_file m file_path =
    let (dir, name) = split_path file_path in
    elim (lookup m.dirs dir) [ none ↦ none | some d ↦ find_name dir name d.files ]

-- `AllFiles`
unfoldable pub all_files : Dirs → List FileEntry
all_files [] = []
all_files ((dir, d) ∷ ds) =
    map (λ (f : FileEntry). record f { name = child_path dir f.name }) d.files ++ all_files ds

-- `ManifestToAliveIndex`
unfoldable pub alive_of : FileEntry → List Bytes
alive_of f =
    if not (length f.chunks == 0)
    then map (λ (c : ChunkRef). c.hash) f.chunks
    else if not (bytes_eq f.content_hash [])
    then f.content_hash ∷ []
    else []

unfoldable pub alive_of_files : List FileEntry → List Bytes
alive_of_files [] = []
alive_of_files (f ∷ fs) = alive_of f ++ alive_of_files fs

unfoldable pub alive_hashes : Dirs → List Bytes
alive_hashes [] = []
alive_hashes ((k, d) ∷ ds) = alive_of_files d.files ++ alive_hashes ds

unfoldable pub first_segment : Bytes → Bytes × Bytes
first_segment p = elim (index p (slash ∷ [])) [ some i ↦ (take i p, drop i p) | none ↦ (p, []) ]

-- `toggleLeadingDot`
unfoldable pub toggle_leading_dot : Bytes → Bytes
toggle_leading_dot p =
    let (dir, rest) = first_segment p in
    if bytes_eq p []
    then p
    else if has_prefix dir (codes ".")
    then drop 1 dir ++ rest
    else codes "." ++ (dir ++ rest)
