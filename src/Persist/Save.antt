-- ===== src/Persist/Save.antt =====
-- SaveManifestWithKey and ManifestFilePath of simple/manifest.go. A directory is no file of the disk, and
-- the ids were validated, so joining clean paths puts a slash between them. The faults of the staging,
-- those of each attempt to commit, and the randomness of each suffix are given.
use gbf_core.Base.{
  ℕ, zero, suc, ◌-◌, ◌==◌, Bool, true, false, not, [], if◌then◌else◌, Option, none, some, ◌++◌,
  length, take, Result, ok, err, ◌>>=◌, ◌>>◌, guard,
}
use gbf_core.Base.Bytes.{Bytes, bytes_eq, codes}
use gbf_core.Base.Int64.{ℤ}
use gbf_core.Base.Text.{has_suffix}
use gbf_core.Crypto.Format.{CryptoError}
use gbf_core.Crypto.Aead.{Aead, Zstd}
use gbf_core.Crypto.Envelope.{encrypt_manifest}
use gbf_core.Disk.{
  Files, DiskError, exists_already, DiskFaults, remove_quietly, write_staging_file,
  commit_file_no_replace,
}
use gbf_core.Store.{tmp_path}
use gbf_core.Manifest.{Manifest}
use gbf_core.Manifest.CloudId.{CloudIdError, validate_cloud_id, manifest_path_key}
use gbf_core.Manifest.Validate.{ManifestError, validate_structure}
use gbf_core.Persist.{Codec, gbr_envelope}

pub data SaveError : Type 0 where
  bad_structure : ManifestError → SaveError
  bad_cloud_id bad_device_id : CloudIdError → SaveError
  encrypt_failed : CryptoError → SaveError
  stage_failed commit_failed : DiskError → SaveError
  mkdir_failed suffix_failed no_free_name : SaveError

unfoldable pub or_error {κ} :
    {Fail : Type 0} {Value : Type κ}
    → (Fail → SaveError)
    → Result Fail Value
    → Result SaveError Value
or_error wrap (err e) = err (wrap e)
or_error wrap (ok v) = ok v

-- `errors.Is(err, os.ErrExist)`
unfoldable pub is_exist : DiskError → Bool
is_exist exists_already = true
is_exist e = false

abbrev pub json_zst : Bytes
json_zst = codes ".json.zst"

-- strings.TrimSuffix
unfoldable pub trim_suffix : Bytes → Bytes → Bytes
trim_suffix s suffix = if has_suffix s suffix then take (length s - length suffix) s else s

-- `ManifestDir`
unfoldable pub manifest_dir : Bytes → Bytes → Bytes
manifest_dir meta cloud_id = meta ++ (codes "/manifests/" ++ cloud_id)

-- `ManifestFilePath`; `decimal` is the format %d.
unfoldable pub manifest_file_path : (ℤ → Bytes) → Bytes → Bytes → ℤ → Bytes → Bytes
manifest_file_path decimal meta cloud_id ts device_id =
    manifest_dir meta cloud_id
    ++ (codes "/" ++ (decimal ts ++ (codes "_" ++ (device_id ++ json_zst))))

-- The name that the n-th attempt tries, where the read of its suffix succeeds.
unfoldable pub candidate : (Bytes → Bytes) → (ℕ → Option Bytes) → Bytes → ℕ → Option Bytes
candidate hex rands path zero = some path
candidate hex rands path (suc n) = elim (rands (suc n)) [
  | none ↦ none
  | some b ↦ some (trim_suffix path json_zst ++ (codes "_" ++ (hex b ++ json_zst)))
]

-- What follows one commit: `rest` is the next attempt.
unfoldable pub settle :
    DiskFaults
    → Bytes
    → Bytes
    → Result SaveError Bytes × Files
    → Result DiskError (Unit {0}) × Files
    → Result SaveError Bytes × Files
settle f staging name rest (ok u, files) = (ok name, files)
settle f staging name rest (err e, files) =
    if is_exist e then rest else (err (commit_failed e), remove_quietly f staging files)

-- The loop of attempts, with n of the eight left.
unfoldable pub commit_attempts :
    (Bytes → Bytes)
    → (ℕ → DiskFaults)
    → (ℕ → Option Bytes)
    → Bytes
    → Bytes
    → ℕ
    → ℕ
    → Files
    → Result SaveError Bytes × Files
commit_attempts hex g rands staging path zero attempt files =
    elim (candidate hex rands path attempt) [
      | none ↦ (err suffix_failed, remove_quietly (g attempt) staging files)
      | some name ↦ (err no_free_name, remove_quietly (g attempt) staging files)
    ]
commit_attempts hex g rands staging path (suc n) attempt files =
    let rest = commit_attempts hex g rands staging path n (suc attempt) files in
    elim (candidate hex rands path attempt) [
      | none ↦ (err suffix_failed, remove_quietly (g attempt) staging files)
      | some name ↦
          settle (g attempt) staging name rest
            (commit_file_no_replace (g attempt) staging name files)
    ]

-- `WriteStagingFile`, and the commits when it succeeds.
unfoldable pub after_stage :
    (Bytes → Bytes)
    → (ℕ → DiskFaults)
    → (ℕ → Option Bytes)
    → Bytes
    → Bytes
    → Result DiskError (Unit {0}) × Files
    → Result SaveError Bytes × Files
after_stage hex g rands staging path (err e, files) = (err (stage_failed e), files)
after_stage hex g rands staging path (ok u, files) =
    commit_attempts hex g rands staging path 8 0 files

module _ (c : Codec Manifest) (a : Aead) (z : Zstd) (derive : Bytes → Bytes)
    (is_abs is_rfc3339 : Bytes → Bool) (decimal : ℤ → Bytes) (parse_time : Bytes → Option ℤ) where
  -- The compressed manifest, encrypted when there is a key: `read` is the randomness of its IV.
  unfoldable pub seal_manifest : Option Bytes → Bytes → Manifest → Result SaveError Bytes
  seal_manifest read key m =
      let compressed = c.compress (c.marshal m) in
      if length key == 0
      then ok compressed
      else or_error encrypt_failed (encrypt_manifest a z derive read compressed key)

  unfoldable pub save_time : ℤ → Manifest → ℤ
  save_time now m = elim (parse_time m.timestamp) [ none ↦ now | some ts ↦ ts ]

  unfoldable pub save_cloud_id : Manifest → Bytes
  save_cloud_id m =
      if bytes_eq m.cloud_id []
      then manifest_path_key m.device_id (decimal m.source_id)
      else m.cloud_id

  -- What is written, and under which name: the code before the first write.
  unfoldable pub prepare :
      Bool → ℤ → Option Bytes → Bytes → Bytes → Manifest → Result SaveError (Bytes × Bytes)
  prepare mkdir_fails now read meta key m = do
    or_error bad_structure (validate_structure is_abs is_rfc3339 m)
    or_error bad_cloud_id (validate_cloud_id (save_cloud_id m))
    or_error bad_device_id (validate_cloud_id m.device_id)
    guard (not mkdir_fails) mkdir_failed
    sealed ← seal_manifest read key m
    ok (
      manifest_file_path decimal meta (save_cloud_id m) (save_time now m) m.device_id,
      gbr_envelope c.sha sealed,
    )

  -- `SaveManifestWithKey`
  unfoldable pub save_manifest :
      DiskFaults
      → (ℕ → DiskFaults)
      → (ℕ → Option Bytes)
      → ℤ
      → Option Bytes
      → Bytes
      → Bytes
      → Bytes
      → Manifest
      → Files
      → Result SaveError Bytes × Files
  save_manifest f g rands now read uuid meta key m files =
      elim (prepare f.mkdir now read meta key m) [
        | err e ↦ (err e, files)
        | ok (path, envelope) ↦
            after_stage c.hex g rands (tmp_path path uuid) path
              (write_staging_file f (tmp_path path uuid) envelope files)
      ]
