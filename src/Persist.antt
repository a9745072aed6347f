-- ===== src/Persist.antt =====
-- simple/manifest.go: manifests and source registries as files. The checksum envelope GBR1, the legacy
-- checksum file, and reading a manifest with its migration from version 1.
pub mod Load
pub mod Migrated
pub mod Accepted
pub mod Envelope
pub mod Save
pub mod Saved
pub mod Registry
pub mod Registries
pub mod Listing
pub mod Newest
pub mod Trash
pub mod Kept
mod Tests
use gbf_core.Base.{
  ℕ, ◌≡◌, leb, Bool, true, false, not, ◌&&◌, if◌then◌else◌, Option, none, some, List, [], ◌∷◌, ◌++◌,
  length, take, drop, Result, ok, err, guard, or_fail, ◌>>=◌, ◌>>◌,
}
use gbf_core.Base.Bytes.{Bytes, bytes_eq, codes}
use gbf_core.Base.Int64.{ℤ, pos, ltℤ}
use gbf_core.Base.Text.{trim_space, to_lower}
use gbf_core.Crypto.Format.{gkm1_magic, magic_size}
use gbf_core.Blob.{is_compressed}
use gbf_core.Disk.{Files, DiskError, not_exist, DiskFaults, read_file}
use gbf_core.Manifest.{
  ChunkRef, FileEntry, ManifestStats, Manifest, new_manifest, add_file, add_empty_dir,
}
use gbf_core.Manifest.Validate.{ManifestError, validate_structure}

-- What the code takes from other packages: SHA-256 and its hexadecimal text, the zstd encoder and the
-- decoder under the limit for manifests, and JSON of the values of type `Value`.
pub record Codec (Value : Type 0) : Type 0 where
  pub sha : Bytes → Bytes
  pub hex : Bytes → Bytes
  pub compress : Bytes → Bytes
  pub decompress : Bytes → Option Bytes
  pub marshal : Value → Bytes
  pub unmarshal : Bytes → Option Value

-- What those packages document: a hash has 32 bytes, a compressed text begins with the magic number of
-- zstd and decompresses to itself, and the value `v` is read as it was written.
pub record IsCodec {Value : Type 0} (c : Codec Value) (v : Value) : Type 0 where
  pub length-sha : (p : Bytes) → length (c.sha p) ≡ 32
  pub is_compressed-compress : (p : Bytes) → is_compressed (c.compress p) ≡ true
  pub decompress-compress : (p : Bytes) → c.decompress (c.compress p) ≡ some p
  pub unmarshal-marshal : c.unmarshal (c.marshal v) ≡ some v

abbrev pub registry_envelope_magic : Bytes
registry_envelope_magic = codes "GBR1"

abbrev pub registry_envelope_header_size : ℕ
registry_envelope_header_size = 36

-- `isGBREnvelope`
unfoldable pub is_gbr_envelope : Bytes → Bool
is_gbr_envelope content =
    leb registry_envelope_header_size (length content)
    && bytes_eq (take 4 content) registry_envelope_magic

-- The test of the checksum in `stripGBREnvelope`, and in `DecodeSourceRegistry`.
unfoldable pub strip_gbr_envelope : (Bytes → Bytes) → Bytes → Option Bytes
strip_gbr_envelope sha content =
    let payload = drop registry_envelope_header_size content in
    if not (bytes_eq (take 32 (drop 4 content)) (sha payload)) then none else some payload

-- How `SaveManifestWithKey` and `EncodeSourceRegistry` build an envelope.
unfoldable pub gbr_envelope : (Bytes → Bytes) → Bytes → Bytes
gbr_envelope sha compressed = registry_envelope_magic ++ (sha compressed ++ compressed)

-- The types of version 1 inside `migrateV1Manifest`.
pub record V1FileEntry : Type 0 where
  pub path : Bytes
  pub content_hash : Bytes
  pub size : ℤ
  pub mtime : Bytes
  pub mode : ℕ
  pub status : Bytes
  pub chunks : List ChunkRef

pub record V1EmptyDir : Type 0 where
  pub rel_path : Bytes
  pub name : Bytes

pub record V1Manifest : Type 0 where
  pub files : List V1FileEntry
  pub empty_dirs : List V1EmptyDir

-- `ManifestStats{}`
abbrev pub no_stats : ManifestStats
no_stats = record {
  file_count = 0;
  total_size = pos 0;
  new_files = 0;
  changed_files = 0;
  unchanged_files = 0;
  deleted_files = 0;
  new_bytes = pos 0;
  scan_errors = pos 0;
}

unfoldable pub file_of_v1 : V1FileEntry → FileEntry
file_of_v1 f = record {
  name = f.path;
  content_hash = f.content_hash;
  size = f.size;
  mtime = f.mtime;
  mode = f.mode;
  status = f.status;
  chunks = f.chunks;
}

-- The two loops of `migrateV1Manifest`.
unfoldable pub add_v1_files : Manifest → List V1FileEntry → Manifest
add_v1_files m [] = m
add_v1_files m (f ∷ fs) = add_v1_files (add_file m (file_of_v1 f)) fs

unfoldable pub add_v1_dirs : Manifest → List V1EmptyDir → Manifest
add_v1_dirs m [] = m
add_v1_dirs m (d ∷ ds) = add_v1_dirs (add_empty_dir m d.rel_path) ds

-- `migrateV1Manifest`, given what reading `raw` as version 1 gave.
unfoldable pub migrate_v1_manifest : Manifest → Option V1Manifest → Manifest
migrate_v1_manifest m none = m
migrate_v1_manifest m (some v1) =
    let empty = record m { version = pos 2; dirs = []; stats = no_stats } in
    add_v1_dirs (add_v1_files empty v1.files) v1.empty_dirs
