-- ===== src/Persist/Tests.antt =====
-- Manifests and registries on a concrete disk, with toy codecs.
use gbf_core.Base.{
  ◌≡◌, refl, ap, inl, Bool, true, false, Option, none, some, List, [], ◌∷◌, ◌++◌, All, Result, ok,
  err, drop, length, replicate, arith, le→leb, ℕ, if◌then◌else◌,
}
use mathlib.Core.List.{Memᴰ}
use gbf_core.Base.Bytes.{Bytes, bytes_eq, codes}
use gbf_core.Base.Int64.{ℤ, pos, ltℤ}
use gbf_core.Crypto.Toy.{toy, toy-IsAead, toy_zstd, iv, key}
use gbf_core.Blob.{zstd_magic, is_compressed}
use gbf_core.Store.{set_file, tmp_path, is_some}
use gbf_core.Disk.{
  Files, DiskError, DiskFaults, no_faults, commit_file_no_replace, remove_quietly,
  write_staging_file, write_file_atomic, rename_staged, after_staging, read_file,
}
use gbf_core.Manifest.{Manifest, normalize_manifest_path}
use gbf_core.Manifest.Tree.{IsClosed}
use gbf_core.Manifest.Stats.{StatsAgree}
use gbf_core.Manifest.Validate.{validate_structure, validate_dirs}
use gbf_core.Manifest.CloudId.{
  validate_cloud_id, is_drive_path, any_invalid, invalid_cloud_id_char, check_segments,
  check_segment, to_slash, is_listed, is_windows_reserved_name, manifest_path_key,
}
use gbf_core.Base.Text.{
  has_prefix, split, trim_space, contains_any, contains_byte, has_suffix, contains, index,
  last_index, is_space, to_upper, trim_left,
}
use gbf_core.Persist.{
  Codec, IsCodec, is_gbr_envelope, strip_gbr_envelope, gbr_envelope, V1FileEntry, V1EmptyDir,
  V1Manifest, no_stats, migrate_v1_manifest,
}
use gbf_core.Persist.Load.{LoadError, load_manifest}
use gbf_core.Persist.Save.{
  SaveError, save_manifest, prepare, or_error, save_cloud_id, after_stage, candidate,
  commit_attempts, is_exist, manifest_dir, manifest_file_path, save_time, seal_manifest, settle,
  trim_suffix,
}
use gbf_core.Persist.Saved.{Keeps}
use gbf_core.Persist.Saved.Opens.{first_path}
use gbf_core.Persist.Saved.RoundTrip.{save_manifest-Keeps, load_manifest-save_manifest}
use gbf_core.Persist.Load.{
  verify_manifest_checksum, load_manifest_from_data, open_envelope, open_encrypted, open_compressed,
  check_structure, migrate_old, read_error,
}
use gbf_core.Persist.Accepted.{IsVerified, load_manifest-ok}
use gbf_core.Persist.Registry.{
  SourceRegistry, RegistryError, registry_path, save_source_registry, load_source_registry,
  list_source_registries, source_registries_dir, encode_source_registry, stamped, stamp,
}
use gbf_core.Persist.Registries.{load_source_registry-save_source_registry}
use gbf_core.Persist.Listing.{
  DirEntry, Candidate, candidates, manifest_files, load_latest_manifest,
  parse_manifest_filename_timestamp, or_zero, only_manifests, manifest_dir_entries,
  is_manifest_file, before_underscore, strip_extension, names_of, try_load, sort, insert, newer,
  differ, greater,
}
use gbf_core.Persist.Newest.{IsPassed, load_latest_manifest-newest, load_latest_manifest-found}
use gbf_core.Persist.Migrated.{migrate_v1_manifest-IsClosed}
use gbf_core.Persist.Kept.{IsMoved, rename_with_fallback-IsMoved}
use gbf_core.Persist.Trash.{MoveFaults, rename_with_fallback}

abbrev toy_sha : Bytes → Bytes
toy_sha p = replicate 32 7

-- Values are written as nothing, and read as the one value of a run.
abbrev toy_codec : {Value : Type 0} → Value → Codec Value
toy_codec v = record {
  sha = toy_sha;
  hex = λ p. p;
  compress = λ p. zstd_magic ++ p;
  decompress = λ p. some (drop 4 p);
  marshal = λ w. [];
  unmarshal = λ p. some v;
}

toy_codec-IsCodec : {Value : Type 0} → (v : Value) → IsCodec (toy_codec v) v
unfolding is_compressed bytes_eq
toy_codec-IsCodec v = record {
  length-sha = λ p. refl;
  is_compressed-compress = λ p. rw (le→leb 4 (length (zstd_magic ++ p)) (omega arith)) refl;
  decompress-compress = λ p. refl;
  unmarshal-marshal = refl;
}

abbrev manifest : Manifest
manifest = record {
  version = pos 2;
  source_id = pos 1;
  cloud_id = codes "c";
  source_name = [];
  source_path = codes "/home";
  timestamp = [];
  device_id = codes "d";
  dirs = [];
  stats = no_stats;
  completeness = [];
}

abbrev no_file : Files
no_file p = none

abbrev never : Bytes → Bool
never p = false

abbrev decimal : ℤ → Bytes
decimal n = codes "1"

abbrev no_time : Bytes → Option ℤ
no_time p = none

abbrev same_key : Bytes → Bytes
same_key k = key

abbrev no_suffix : ℕ → Option Bytes
no_suffix n = none

abbrev calm : ℕ → DiskFaults
calm n = no_faults

abbrev run : Result SaveError Bytes × Files
run =
    save_manifest (toy_codec manifest) toy toy_zstd same_key never never decimal no_time no_faults
      calm no_suffix (pos 1) (some iv) (codes "u") (codes "m") [] manifest no_file

save_manifest-Keeps_example :
    Keeps
      (tmp_path
        (first_path
          (toy_codec manifest)
          toy
          toy_zstd
          same_key
          never
          never
          decimal
          no_time
          (pos 1)
          (codes "m")
          manifest)
        (codes "u"))
      no_file
      run.1
save_manifest-Keeps_example =
    save_manifest-Keeps (toy_codec manifest) toy toy_zstd same_key never never decimal no_time
      no_faults calm no_suffix (pos 1) (some iv) (codes "u") (codes "m") [] manifest no_file

abbrev name : Bytes
name = codes "m/manifests/c/1_d.json.zst"

saved_run : run.0 ≡ ok name
unfolding save_manifest prepare or_error validate_structure validate_dirs validate_cloud_id bytes_eq
    save_cloud_id has_prefix is_drive_path any_invalid invalid_cloud_id_char check_segments split
    to_slash check_segment trim_space contains_any contains_byte has_suffix index is_space to_upper
    trim_left commit_file_no_replace remove_quietly write_staging_file is_listed
    is_windows_reserved_name manifest_path_key after_stage candidate commit_attempts is_exist
    manifest_dir manifest_file_path save_time seal_manifest settle trim_suffix gbr_envelope set_file
    tmp_path is_some
saved_run = refl

saved_pair : run ≡ (ok name, run.1)
saved_pair = ap (λ (r : Result SaveError Bytes). (r, run.1)) saved_run

load_manifest-save_manifest_example :
    (no_file name ≡ none)
    × (load_manifest (toy_codec manifest) (λ p. none) never never none no_faults name run.1
        ≡ ok manifest)
load_manifest-save_manifest_example =
    load_manifest-save_manifest (toy_codec manifest) toy toy_zstd same_key never never decimal
      no_time no_faults calm no_suffix (pos 1) (some iv) (codes "u") (codes "m") [] manifest no_file
      toy-IsAead (toy_codec-IsCodec manifest) (λ p. none) none no_faults refl refl refl (inl refl)
      refl refl saved_pair

abbrev v1 : V1Manifest
v1 = record {
  files =
      record {
        path = codes "a/f";
        content_hash = codes "00";
        size = pos 7;
        mtime = [];
        mode = 420;
        status = [];
        chunks = [];
      }
      ∷ [];
  empty_dirs = record { rel_path = codes "b/e"; name = codes "e" } ∷ [];
}

migrate_v1_manifest-IsClosed_example :
    StatsAgree (migrate_v1_manifest manifest (some v1))
    × IsClosed (migrate_v1_manifest manifest (some v1)).dirs
unfolding normalize_manifest_path bytes_eq has_prefix
migrate_v1_manifest-IsClosed_example =
    migrate_v1_manifest-IsClosed manifest v1 (refl, tt) (refl, tt)

abbrev torn_move : MoveFaults
torn_move = record { disk = record no_faults { rename = true; write = true }; cross_device = true }

abbrev one_file : Files
one_file = set_file no_file (codes "a") (some (codes "text"))

at_a : one_file (codes "a") ≡ some (codes "text")
unfolding set_file bytes_eq
at_a = refl

rename_with_fallback-IsMoved_example :
    IsMoved torn_move
      (codes "a")
      (codes "b")
      (codes "text")
      (rename_with_fallback torn_move (codes "a") (codes "b") one_file)
unfolding bytes_eq
rename_with_fallback-IsMoved_example =
    rename_with_fallback-IsMoved torn_move (codes "a") (codes "b") (codes "text") one_file refl refl
      at_a

-- The same manifest in a file, as it is saved without a key.
abbrev content : Bytes
content = gbr_envelope toy_sha (zstd_magic ++ [])

abbrev on_disk : Files
on_disk p = some content

abbrev loaded : Result LoadError Manifest
loaded = load_manifest (toy_codec manifest) (λ p. none) never never none no_faults name on_disk

loads : loaded ≡ ok manifest
unfolding load_manifest verify_manifest_checksum load_manifest_from_data open_envelope
    open_encrypted open_compressed check_structure migrate_old read_error read_file
    validate_structure validate_dirs is_gbr_envelope strip_gbr_envelope gbr_envelope is_compressed
    bytes_eq
loads = refl

load_manifest-ok_example :
    (validate_structure never never manifest ≡ ok tt)
    × ((c : Bytes) × (on_disk name ≡ some c)
        × IsVerified (toy_codec manifest) (λ p. none) never never none name c on_disk)
load_manifest-ok_example =
    load_manifest-ok (toy_codec manifest) (λ p. none) never never none no_faults name on_disk loads

-- A registry without a version, and the same with version 1.
abbrev registry : SourceRegistry
registry = record {
  schema_version = pos 0;
  cloud_id = codes "c";
  name = [];
  path = [];
  device_id = codes "d";
  hostname = [];
  os = [];
  pins = [];
  notes = [];
  snapshots = [];
  settings = none;
  last_snapshot = [];
  snapshot_count = pos 0;
  created_at = [];
}

abbrev registry_one : SourceRegistry
registry_one = record registry { schema_version = pos 1 }

abbrev registry_run : Result RegistryError (Unit {0}) × Files
registry_run =
    save_source_registry (toy_codec registry_one) no_faults (codes "u") (codes "m") registry no_file

registry_saved : registry_run.0 ≡ ok tt
unfolding save_source_registry gbf_core.Persist.Registry.or_error validate_cloud_id bytes_eq
    has_prefix is_drive_path any_invalid invalid_cloud_id_char check_segments split to_slash
    check_segment trim_space contains_any contains_byte has_suffix index is_space to_upper trim_left
    write_file_atomic rename_staged after_staging remove_quietly write_staging_file is_listed
    is_windows_reserved_name set_file tmp_path is_some
registry_saved = refl

load_source_registry-save_source_registry_example :
    load_source_registry (toy_codec registry_one) no_faults (codes "m") (codes "c") registry_run.1
    ≡ ok registry_one
unfolding stamped stamp
load_source_registry-save_source_registry_example =
    load_source_registry-save_source_registry (toy_codec registry_one) no_faults no_faults
      (codes "u") (codes "m") registry (toy_codec-IsCodec registry_one) no_file (inl refl) refl
      (ap (λ (r : Result RegistryError (Unit {0})). (r, registry_run.1)) registry_saved)

-- Two manifests in a directory: the newer one does not load.
abbrev seconds : Bytes → Option ℤ
seconds p = some (pos (length p))

abbrev text_of : ℤ → Bytes
text_of n = if ltℤ n (pos 2) then codes "a" else codes "bb"

abbrev loads_old : Bytes → Result LoadError Manifest
loads_old p =
    if bytes_eq p (codes "1_d.json.zst") then ok manifest else err gbf_core.Persist.Load.bad_json

abbrev entries : List DirEntry
entries =
    record { name = codes "22_d.json.zst"; is_dir = false; mod_nano = none }
    ∷ record { name = codes "1_d.json.zst"; is_dir = false; mod_nano = none }
    ∷ []

abbrev old : Candidate
old = record { name = codes "1_d.json.zst"; unix_sec = pos 1; mod_nano = pos 0 }

load_latest_manifest-found_example :
    (m : Manifest) × (load_latest_manifest seconds text_of seconds decimal loads_old (ok entries)
      ≡ ok m)
unfolding candidates manifest_files only_manifests manifest_dir_entries is_manifest_file
    parse_manifest_filename_timestamp or_zero before_underscore strip_extension contains has_suffix
    has_prefix bytes_eq index last_index
load_latest_manifest-found_example =
    load_latest_manifest-found seconds text_of seconds decimal loads_old entries old
      (Memᴰ.tail (Memᴰ.head refl)) refl

latest_is_old :
    load_latest_manifest seconds text_of seconds decimal loads_old (ok entries) ≡ ok manifest
unfolding load_latest_manifest try_load sort insert names_of candidates manifest_files
    only_manifests manifest_dir_entries is_manifest_file parse_manifest_filename_timestamp or_zero
    before_underscore strip_extension contains newer differ greater has_suffix has_prefix bytes_eq
    index last_index
latest_is_old = refl

load_latest_manifest-newest_example :
    (c : Candidate) × (loads_old c.name ≡ ok manifest)
    × ((es : List DirEntry) × (◌≡◌ {A = Result DiskError (List DirEntry)} (ok entries) (ok es))
        × Memᴰ c (candidates seconds text_of seconds decimal (manifest_files es))
        × All
            (IsPassed loads_old c)
            (candidates seconds text_of seconds decimal (manifest_files es)))
load_latest_manifest-newest_example =
    load_latest_manifest-newest seconds text_of seconds decimal loads_old (ok entries) latest_is_old
