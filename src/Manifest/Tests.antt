-- ===== src/Manifest/Tests.antt =====
-- Each theorem on manifests at a concrete one, built by the operations.
use gbf_core.Base.{◌%◌, ◌^◌, ◌≤◌, ◌≡◌, refl, Bool, false, [], ◌∷◌, length, All, ok}
use gbf_core.Base.Bytes.{Bytes, bytes_eq, codes}
use gbf_core.Base.Int64.{pos, to_word, add64}
use gbf_core.Base.Text.{
  slash, has_prefix, contains_byte, contains_any, split, join, last_index, index, trim_space,
  trim_left, is_space, to_upper,
}
use gbf_core.Manifest.{
  FileEntry, Dir, Manifest, has_key, change, normalize_manifest_path, split_path, mem_name,
  add_sub_dir, add_entry, ensure_parents, ensure_parent_dirs, add_file, child_path,
}
use gbf_core.Manifest.CloudId.{
  max_cloud_id_length, invalid_cloud_id_char, is_windows_reserved_name, to_slash, any_invalid,
  is_drive_path, is_listed, check_segment, check_segments, validate_cloud_id, IsSafeSegment,
  validate_cloud_id_lem,
}
use gbf_core.Manifest.Tree.{IsClosed, add_file-IsClosed}
use gbf_core.Manifest.Stats.{count_files, sum_dirs}
use gbf_core.Manifest.Validate.{
  is_restorable, validate_entry_name, validate_key_segments, chunk_sum, validate_file,
  validate_files, validate_sub_dirs, validate_dir_key, validate_dirs, validate_structure,
}
use gbf_core.Manifest.Validate.Accepted.{IsDir, validate_structure_lem}

abbrev blank : Manifest
blank = record {
  version = pos 2;
  source_id = pos 1;
  cloud_id = [];
  source_name = [];
  source_path = codes "/home";
  timestamp = [];
  device_id = codes "dev";
  dirs = [];
  stats = record {
    file_count = 0;
    total_size = pos 0;
    new_files = 0;
    changed_files = 0;
    unchanged_files = 0;
    deleted_files = 0;
    new_bytes = pos 0;
    scan_errors = pos 0;
  };
  completeness = [];
}

abbrev entry : FileEntry
entry = record {
  name = codes "/a/b/f";
  content_hash = codes "00";
  size = pos 7;
  mtime = [];
  mode = 420;
  status = codes "new";
  chunks = record { hash = codes "00"; size = pos 7 } ∷ [];
}

abbrev dir_a : Dir
dir_a = record { files = []; sub_dirs = codes "b" ∷ [] }

abbrev file_f : FileEntry
file_f = record entry { name = codes "f" }

-- The manifest with the one file.
abbrev one_file : Manifest
one_file = record blank {
  dirs =
      (codes "a/b", record { files = file_f ∷ []; sub_dirs = [] })
      ∷ ([], record { files = []; sub_dirs = codes "a" ∷ [] })
      ∷ (codes "a", dir_a)
      ∷ [];
  stats = record blank.stats { file_count = 1; total_size = pos 7 };
}

adds_one_file : add_file blank entry ≡ one_file
unfolding add_file normalize_manifest_path split_path last_index has_prefix bytes_eq change
    add_entry add_sub_dir mem_name ensure_parents ensure_parent_dirs split join add64
adds_one_file = refl

entry_is_relative : has_prefix (normalize_manifest_path (codes "/a/b/f")) (slash ∷ []) ≡ false
unfolding normalize_manifest_path has_prefix bytes_eq
entry_is_relative = refl

add_file-IsClosed_example : IsClosed (add_file blank entry).dirs
add_file-IsClosed_example = add_file-IsClosed blank entry entry_is_relative tt

one_file-IsClosed : IsClosed one_file.dirs
unfolding has_key child_path bytes_eq
one_file-IsClosed = (tt, ((refl, tt), ((refl, tt), tt)))

abbrev never : Bytes → Bool
never s = false

one_file_valid : validate_structure never never one_file ≡ ok tt
unfolding validate_structure validate_dirs validate_dir_key validate_key_segments validate_files
    validate_file validate_entry_name validate_sub_dirs chunk_sum is_restorable has_key child_path
    mem_name bytes_eq has_prefix contains_byte contains_any split add64
one_file_valid = refl

validate_structure_lem_example :
    All IsDir one_file.dirs
    × IsClosed one_file.dirs
    × (1 ≡ count_files one_file.dirs)
    × (to_word (pos 7) ≡ sum_dirs one_file.dirs % 2 ^ 64)
validate_structure_lem_example = validate_structure_lem never never one_file one_file_valid

id_valid : validate_cloud_id (codes "dev\\42") ≡ ok tt
unfolding validate_cloud_id check_segments check_segment is_windows_reserved_name is_listed to_upper
    index trim_space trim_left is_space to_slash split any_invalid invalid_cloud_id_char
    is_drive_path has_prefix bytes_eq
id_valid = refl

validate_cloud_id_lem_example :
    (length (codes "dev\\42") ≤ max_cloud_id_length)
    × (has_prefix (codes "dev\\42") (codes "/") ≡ false)
    × (any_invalid (codes "dev\\42") ≡ false)
    × All IsSafeSegment (split (to_slash (codes "dev\\42")))
validate_cloud_id_lem_example = validate_cloud_id_lem (codes "dev\\42") id_valid
