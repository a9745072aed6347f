-- ===== src/Manifest/Validate.antt =====
-- simple/manifest_validate.go. `is_abs` is filepath.IsAbs of the platform and `is_rfc3339` the success of
-- time.Parse with that layout. A `*Manifest` or `*FileEntry` is never nil.
pub mod Accepted
use gbf_core.Base.{
  ℕ, zero, suc, ◌+◌, ◌-◌, ◌%◌, ◌^◌, ◌≤◌, ◌<◌, ◌≡◌, ◌≢◌, refl, sym, ap, ◌∙◌, inl, inr, ltb, leb,
  ◌==◌, ==_iff, Bool, true, false, not, ◌&&◌, ◌||◌, if◌then◌else◌, Bool-cases, List, [], ◌∷◌, ◌++◌,
  length, All, arith, Option, none, some, Result, ok, err, guard, ◌>>=◌, ◌>>◌, >>=-eq-ok, guard-ok,
  guard-eq-ok, Result-cases, leb→le,
}
use gbf_core.Base.Bytes.{Bytes, bytes_eq, bytes_eq_iff, codes}
use gbf_core.Base.Int64.{ℤ, pos, negsuc, ltℤ, is_negative, is_positive, to_word, of_word, add64}
use gbf_core.Base.Text.{slash, has_prefix, contains_byte, contains_any, split, trim_space}
use gbf_core.Manifest.{
  ChunkRef, FileEntry, Dir, ManifestStats, Dirs, Manifest, has_key, child_path, mem_name,
}
use gbf_core.Manifest.CloudId.{validate_cloud_id}

pub data ManifestError : Type 0 where
  bad_version bad_source_id no_source_path no_device_id bad_timestamp bad_cloud_id bad_hash
        absolute_path not_normalized empty_segment dot_segment colon_segment empty_name
        separator_in_name dot_name duplicate_name negative_size negative_chunk_size
        chunk_sum_differs dangling_sub_dir file_count_differs total_size_differs :
      ManifestError

-- `IsRestorable`
unfoldable pub is_restorable : FileEntry → Bool
is_restorable f =
    if bytes_eq f.status (codes "locked") || bytes_eq f.status (codes "error")
    then false
    else not (bytes_eq f.content_hash [])

abbrev pub snapshot_complete : Bytes
snapshot_complete = codes "complete"

abbrev pub snapshot_incomplete : Bytes
snapshot_incomplete = codes "incomplete"

unfoldable pub any_failed : List FileEntry → Bool
any_failed [] = false
any_failed (f ∷ fs) =
    if bytes_eq f.status (codes "locked") || bytes_eq f.status (codes "error")
    then true
    else any_failed fs

unfoldable pub any_failed_dir : Dirs → Bool
any_failed_dir [] = false
any_failed_dir ((k, d) ∷ ds) = if any_failed d.files then true else any_failed_dir ds

-- `DeriveCompleteness`
unfoldable pub derive_completeness : Manifest → Bytes
derive_completeness m =
    if is_positive m.stats.scan_errors
    then snapshot_incomplete
    else if any_failed_dir m.dirs
    then snapshot_incomplete
    else snapshot_complete

-- `EffectiveCompleteness`
unfoldable pub effective_completeness : Manifest → Bytes
effective_completeness m =
    if not (bytes_eq m.completeness []) then m.completeness else derive_completeness m

-- `IsComplete`
unfoldable pub is_complete : Manifest → Bool
is_complete m = bytes_eq (effective_completeness m) snapshot_complete

-- `isSHA256Hex`
unfoldable pub is_hex : Bytes → Bool
is_hex [] = true
is_hex (c ∷ s) =
    if (ltb c b'0' || ltb b'9' c) && (ltb c b'a' || ltb b'f' c) && (ltb c b'A' || ltb b'F' c)
    then false
    else is_hex s

unfoldable pub is_sha256_hex : Bytes → Bool
is_sha256_hex s = if not (length s == 64) then false else is_hex s

-- `validateManifestEntryName`
unfoldable pub validate_entry_name : Bytes → Result ManifestError (Unit {0})
validate_entry_name name = do
  guard (not (bytes_eq name [])) empty_name
  guard (not (contains_any name (codes "/\\"))) separator_in_name
  guard (not (bytes_eq name (codes ".") || bytes_eq name (codes ".."))) dot_name

unfoldable pub validate_key_segments : List Bytes → Result ManifestError (Unit {0})
validate_key_segments [] = ok tt
validate_key_segments (seg ∷ segs) = do
  guard (not (bytes_eq seg [])) empty_segment
  guard (not (bytes_eq seg (codes ".") || bytes_eq seg (codes ".."))) dot_segment
  guard (not (contains_byte seg b':')) colon_segment
  validate_key_segments segs

-- The loop over the chunks of a file: their sum.
unfoldable pub chunk_sum : ℤ → List ChunkRef → Result ManifestError ℤ
chunk_sum acc [] = ok acc
chunk_sum acc (c ∷ cs) = do
  guard (not (is_negative c.size)) negative_chunk_size
  chunk_sum (add64 acc c.size) cs

-- `fileCount` and `totalSize`
pub record Totals : Type 0 where
  pub file_count : ℕ
  pub total_size : ℤ

unfoldable pub validate_file : FileEntry → Result ManifestError (Unit {0})
validate_file f = do
  guard (not (is_negative f.size)) negative_size
  sum ← chunk_sum (pos 0) f.chunks
  guard (not (not (length f.chunks == 0) && is_restorable f && not (to_word sum == to_word f.size)))
      chunk_sum_differs

unfoldable pub validate_files : List Bytes → Totals → List FileEntry → Result ManifestError Totals
validate_files seen acc [] = ok acc
validate_files seen acc (f ∷ fs) = do
  validate_entry_name f.name
  guard (not (mem_name f.name seen)) duplicate_name
  validate_file f
  validate_files (f.name ∷ seen)
      (record { file_count = suc acc.file_count; total_size = add64 acc.total_size f.size }) fs

unfoldable pub validate_sub_dirs : Dirs → Bytes → List Bytes → Result ManifestError (Unit {0})
validate_sub_dirs dirs dir [] = ok tt
validate_sub_dirs dirs dir (s ∷ ss) = do
  validate_entry_name s
  guard (has_key dirs (child_path dir s)) dangling_sub_dir
  validate_sub_dirs dirs dir ss

unfoldable pub validate_chunk_hashes : List ChunkRef → Result ManifestError (Unit {0})
validate_chunk_hashes [] = ok tt
validate_chunk_hashes (c ∷ cs) = do guard (is_sha256_hex c.hash) bad_hash; validate_chunk_hashes cs

unfoldable pub validate_hashes : List FileEntry → Result ManifestError (Unit {0})
validate_hashes [] = ok tt
validate_hashes (f ∷ fs) = do
  guard (not (not (bytes_eq f.content_hash []) && not (is_sha256_hex f.content_hash))) bad_hash
  validate_chunk_hashes f.chunks
  validate_hashes fs

unfoldable pub validate_all_hashes : Dirs → Result ManifestError (Unit {0})
validate_all_hashes [] = ok tt
validate_all_hashes ((k, d) ∷ ds) = do validate_hashes d.files; validate_all_hashes ds

module _ (is_abs : Bytes → Bool) (is_rfc3339 : Bytes → Bool) where
  -- `validateManifestDirKey`
  unfoldable pub validate_dir_key : Bytes → Result ManifestError (Unit {0})
  validate_dir_key [] = ok tt
  validate_dir_key (c ∷ key) = do
    guard (not (has_prefix (c ∷ key) (slash ∷ []))) absolute_path
    guard (not (contains_byte (c ∷ key) b'\\' || is_abs (c ∷ key))) not_normalized
    validate_key_segments (split (c ∷ key))

  -- The loop over the directories: `dirs` is the whole map.
  unfoldable pub validate_dirs : Dirs → Totals → Dirs → Result ManifestError Totals
  validate_dirs dirs acc [] = ok acc
  validate_dirs dirs acc ((k, d) ∷ ds) = do
    validate_dir_key k
    acc' ← validate_files [] acc d.files
    validate_sub_dirs dirs k d.sub_dirs
    validate_dirs dirs acc' ds

  -- `ValidateStructure`
  unfoldable pub validate_structure : Manifest → Result ManifestError (Unit {0})
  validate_structure m = do
    t ← validate_dirs m.dirs (record { file_count = 0; total_size = pos 0 }) m.dirs
    guard (m.stats.file_count == t.file_count) file_count_differs
    guard (to_word m.stats.total_size == to_word t.total_size) total_size_differs

  unfoldable pub check_optional_id : Bytes → Result ManifestError (Unit {0})
  check_optional_id [] = ok tt
  check_optional_id (c ∷ id) = elim (validate_cloud_id (c ∷ id)) [
    | ok u ↦ ok u
    | err _ ↦ err bad_cloud_id
  ]

  -- `Validate`
  unfoldable pub validate : Manifest → Result ManifestError (Unit {0})
  validate m = do
    guard (not (ltℤ m.version (pos 2))) bad_version
    guard (is_positive m.source_id) bad_source_id
    guard (not (bytes_eq (trim_space m.source_path) [])) no_source_path
    guard (not (bytes_eq (trim_space m.device_id) [])) no_device_id
    guard (bytes_eq m.timestamp [] || is_rfc3339 m.timestamp) bad_timestamp
    check_optional_id m.cloud_id
    validate_structure m
    validate_all_hashes m.dirs
