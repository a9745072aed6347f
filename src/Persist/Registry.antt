-- ===== src/Persist/Registry.antt =====
-- The source registries of simple/manifest.go. JSON reads and writes the whole record.
use gbf_core.Base.{
  zero, ltb, Bool, not, ◌&&◌, if◌then◌else◌, Option, List, [], ◌∷◌, ◌++◌, length, take, Result, ok,
  err, ◌>>=◌, ◌>>◌, guard, or_fail,
}
use gbf_core.Base.Bytes.{Bytes, bytes_eq, codes}
use gbf_core.Base.Int64.{ℤ, pos, ltℤ}
use gbf_core.Base.Text.{has_suffix}
use gbf_core.Blob.{is_compressed}
use gbf_core.Disk.{Files, DiskError, DiskFaults, read_file, write_file_atomic}
use gbf_core.Manifest.CloudId.{CloudIdError, validate_cloud_id}
use gbf_core.Persist.{
  Codec, registry_envelope_magic, registry_envelope_header_size, is_gbr_envelope,
  strip_gbr_envelope, gbr_envelope,
}
use gbf_core.Persist.Save.{json_zst, trim_suffix}

pub record RegistryPin : Type 0 where
  pub repo_path : Bytes
  pub snapshot_time : ℤ
  pub note : Bytes
  pub created_at : ℤ

pub record RegistryNote : Type 0 where
  pub repo_path : Bytes
  pub snapshot_time : ℤ
  pub content : Bytes
  pub pushed_files : Bytes
  pub source : Bytes
  pub created_at : ℤ
  pub author_device_id : Bytes
  pub author_name : Bytes

pub record RegistrySettings : Type 0 where
  pub schedule : Bytes
  pub schedule_config : Bytes
  pub retention : Bytes
  pub retention_custom : Bytes
  pub excludes : List Bytes
  pub enable_ai : Bool
  pub watch_mode : Bytes

pub record RegistrySnapshot : Type 0 where
  pub timestamp : Bytes
  pub file_count : ℤ
  pub total_size : ℤ

pub record SourceRegistry : Type 0 where
  pub schema_version : ℤ
  pub cloud_id : Bytes
  pub name : Bytes
  pub path : Bytes
  pub device_id : Bytes
  pub hostname : Bytes
  pub os : Bytes
  pub pins : List RegistryPin
  pub notes : List RegistryNote
  pub snapshots : List RegistrySnapshot
  pub settings : Option RegistrySettings
  pub last_snapshot : Bytes
  pub snapshot_count : ℤ
  pub created_at : Bytes

pub data RegistryError : Type 0 where
  bad_registry_id : CloudIdError → RegistryError
  mkdir_failed checksum_mismatch decompress_failed bad_json unsupported_version identity_mismatch :
      RegistryError
  write_failed read_failed : DiskError → RegistryError

-- `SourceRegistrySchemaVersion`
abbrev pub source_registry_schema_version : ℤ
source_registry_schema_version = pos 1

-- `if reg.SchemaVersion == 0 { reg.SchemaVersion = SourceRegistrySchemaVersion }`
unfoldable pub stamp : ℤ → ℤ
stamp (pos zero) = source_registry_schema_version
stamp v = v

unfoldable pub stamped : SourceRegistry → SourceRegistry
stamped reg = record reg { schema_version = stamp reg.schema_version }

-- `sourceRegistriesDir`, and the path of a registry below it.
unfoldable pub source_registries_dir : Bytes → Bytes
source_registries_dir meta = meta ++ codes "/manifests/_sources"

unfoldable pub registry_path : Bytes → Bytes → Bytes
registry_path meta cloud_id = source_registries_dir meta ++ (codes "/" ++ (cloud_id ++ json_zst))

unfoldable pub or_error {κ} :
    {Fail : Type 0} {Value : Type κ}
    → (Fail → RegistryError)
    → Result Fail Value
    → Result RegistryError Value
or_error wrap (err e) = err (wrap e)
or_error wrap (ok v) = ok v

-- The tests of the version in `DecodeSourceRegistry`.
unfoldable pub check_version : SourceRegistry → Result RegistryError SourceRegistry
check_version reg =
    if ltℤ source_registry_schema_version reg.schema_version
    then err unsupported_version
    else ok (stamped reg)

-- One step of the walk of `ListSourceRegistries`: the registries and the failures so far.
unfoldable pub record_load :
    Bytes
    → Result RegistryError SourceRegistry
    → List SourceRegistry × List (Bytes × RegistryError)
    → List SourceRegistry × List (Bytes × RegistryError)
record_load cloud_id (err e) (regs, failures) = (regs, (cloud_id, e) ∷ failures)
record_load cloud_id (ok reg) (regs, failures) = (reg ∷ regs, failures)

module _ (c : Codec SourceRegistry) where
  -- `EncodeSourceRegistry`
  unfoldable pub encode_source_registry : SourceRegistry → Bytes
  encode_source_registry reg = gbr_envelope c.sha (c.compress (c.marshal (stamped reg)))

  -- The test of the envelope in `DecodeSourceRegistry`, which wants a payload that is not empty.
  unfoldable pub open_registry : Bytes → Result RegistryError Bytes
  open_registry content =
      if ltb registry_envelope_header_size (length content)
        && bytes_eq (take 4 content) registry_envelope_magic
      then or_fail (strip_gbr_envelope c.sha content) checksum_mismatch
      else ok content

  unfoldable pub unpack : Bytes → Result RegistryError Bytes
  unpack content =
      if is_compressed content then or_fail (c.decompress content) decompress_failed else ok content

  -- `DecodeSourceRegistry`
  unfoldable pub decode_source_registry : Bytes → Result RegistryError SourceRegistry
  decode_source_registry content = do
    sealed ← open_registry content
    json ← unpack sealed
    reg ← or_fail (c.unmarshal json) bad_json
    check_version reg

  -- `SaveSourceRegistry`
  unfoldable pub save_source_registry :
      DiskFaults → Bytes → Bytes → SourceRegistry → Files → Result RegistryError (Unit {0}) × Files
  save_source_registry f uuid meta reg files =
      let (written, files') =
        write_file_atomic f uuid (registry_path meta reg.cloud_id) (encode_source_registry reg)
          files in
      elim (validate_cloud_id reg.cloud_id) [
        | err e ↦ (err (bad_registry_id e), files)
        | ok u ↦
            if f.mkdir then (err mkdir_failed, files) else (or_error write_failed written, files')
      ]

  -- `LoadSourceRegistry`
  unfoldable pub load_source_registry :
      DiskFaults → Bytes → Bytes → Files → Result RegistryError SourceRegistry
  load_source_registry f meta cloud_id files = do
    or_error bad_registry_id (validate_cloud_id cloud_id)
    content ← or_error read_failed (read_file f (registry_path meta cloud_id) files)
    reg ← decode_source_registry content
    guard (bytes_eq reg.cloud_id cloud_id) identity_mismatch
    ok reg

  -- `LoadTrashSourceRegistry`
  unfoldable pub load_trash_source_registry :
      DiskFaults → Bytes → Bytes → Files → Result RegistryError SourceRegistry
  load_trash_source_registry f meta cloud_id files = do
    or_error bad_registry_id (validate_cloud_id cloud_id)
    content ←
        or_error read_failed
          (read_file f (meta ++ (codes "/trash/_sources/" ++ (cloud_id ++ json_zst))) files)
    if is_gbr_envelope content
        then decode_source_registry content
        else (unpack content >>= λ json. or_fail (c.unmarshal json) bad_json)

  -- `ListSourceRegistries`, given the paths of the files below the directory in the order of the
  -- walk, relative to it.
  unfoldable pub list_source_registries :
      DiskFaults → Bytes → Files → List Bytes → List SourceRegistry × List (Bytes × RegistryError)
  list_source_registries f meta files [] = ([], [])
  list_source_registries f meta files (rel ∷ rels) =
      let rest = list_source_registries f meta files rels in
      let cloud_id = trim_suffix rel json_zst in
      if not (has_suffix rel json_zst)
      then rest
      else record_load cloud_id (load_source_registry f meta cloud_id files) rest
