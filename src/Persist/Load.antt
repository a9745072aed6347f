-- ===== src/Persist/Load.antt =====
-- LoadManifest and LoadManifestFromData of simple/manifest.go. `hook` is the registered
-- ManifestDecryptHook; a legacy manifest has its checksum in a file beside it.
use gbf_core.Base.{
  leb, Bool, ◌&&◌, if◌then◌else◌, Option, none, some, ◌++◌, length, take, Result, ok, err, guard,
  or_fail, ◌>>=◌, ◌>>◌,
}
use gbf_core.Base.Bytes.{Bytes, bytes_eq, codes}
use gbf_core.Base.Int64.{pos, ltℤ}
use gbf_core.Base.Text.{trim_space, to_lower}
use gbf_core.Crypto.Format.{gkm1_magic, magic_size}
use gbf_core.Blob.{is_compressed}
use gbf_core.Disk.{Files, DiskError, not_exist, DiskFaults, read_file}
use gbf_core.Manifest.{Manifest}
use gbf_core.Manifest.Validate.{ManifestError, validate_structure}
use gbf_core.Persist.{Codec, is_gbr_envelope, strip_gbr_envelope, V1Manifest, migrate_v1_manifest}

pub data LoadError : Type 0 where
  unreadable : DiskError → LoadError
  checksum_missing checksum_mismatch envelope_mismatch no_hook decrypt_failed decompress_failed
        bad_json :
      LoadError
  invalid : ManifestError → LoadError

-- `manifestChecksumPath`
unfoldable pub manifest_checksum_path : Bytes → Bytes
manifest_checksum_path path = path ++ codes ".sha256"

unfoldable pub checksum_error : DiskError → LoadError
checksum_error not_exist = checksum_missing
checksum_error e = unreadable e

unfoldable pub read_error : Result DiskError Bytes → Result LoadError Bytes
read_error (err e) = err (unreadable e)
read_error (ok content) = ok content

-- `if m.Version < 2 { migrateV1Manifest(&m, data) }`
unfoldable pub migrate_old : Manifest → Option V1Manifest → Manifest
migrate_old m v1 = if ltℤ m.version (pos 2) then migrate_v1_manifest m v1 else m

module _ (c : Codec Manifest) (unmarshal_v1 : Bytes → Option V1Manifest)
    (is_abs is_rfc3339 : Bytes → Bool) (hook : Option (Bytes → Option Bytes)) where
  unfoldable pub open_envelope : Bytes → Result LoadError Bytes
  open_envelope content =
      if is_gbr_envelope content
      then or_fail (strip_gbr_envelope c.sha content) envelope_mismatch
      else ok content

  unfoldable pub run_hook : Option (Bytes → Option Bytes) → Bytes → Result LoadError Bytes
  run_hook none content = err no_hook
  run_hook (some h) content = or_fail (h content) decrypt_failed

  unfoldable pub open_encrypted : Bytes → Result LoadError Bytes
  open_encrypted content =
      if leb magic_size (length content) && bytes_eq (take magic_size content) gkm1_magic
      then run_hook hook content
      else ok content

  unfoldable pub open_compressed : Bytes → Result LoadError Bytes
  open_compressed content =
      if is_compressed content then or_fail (c.decompress content) decompress_failed else ok content

  unfoldable pub check_structure : Manifest → Result LoadError Manifest
  check_structure m = elim (validate_structure is_abs is_rfc3339 m) [
    | err e ↦ err (invalid e)
    | ok u ↦ ok m
  ]

  -- `LoadManifestFromData`
  unfoldable pub load_manifest_from_data : Bytes → Result LoadError Manifest
  load_manifest_from_data content = do
    sealed ← open_envelope content
    packed ← open_encrypted sealed
    json ← open_compressed packed
    m ← or_fail (c.unmarshal json) bad_json
    check_structure (migrate_old m (unmarshal_v1 json))

  unfoldable pub compare_checksum : Bytes → Result DiskError Bytes → Result LoadError (Unit {0})
  compare_checksum content (err e) = err (checksum_error e)
  compare_checksum content (ok expected) =
      guard (bytes_eq (to_lower (trim_space expected)) (c.hex (c.sha content))) checksum_mismatch

  -- `verifyManifestChecksum`, with the path of `manifestChecksumPath`.
  unfoldable pub verify_manifest_checksum :
      DiskFaults → Bytes → Bytes → Files → Result LoadError (Unit {0})
  verify_manifest_checksum f path content files =
      compare_checksum content (read_file f (manifest_checksum_path path) files)

  -- `LoadManifest`; the path that it stores in the manifest is its argument.
  unfoldable pub load_manifest : DiskFaults → Bytes → Files → Result LoadError Manifest
  load_manifest f path files = do
    content ← read_error (read_file f path files)
    if is_gbr_envelope content then ok tt else verify_manifest_checksum f path content files
    load_manifest_from_data content
