-- ===== src/Persist/Accepted.antt =====
-- What a manifest that was loaded is known to be.
use gbf_core.Base.{
  ◌≡◌, refl, ◌⊎◌, inl, inr, Bool, Bool-cases, Option, some, ◌++◌, Result, ok, err, Result-cases,
  guard-ok, or_fail, or_fail-ok, >>=-eq-ok, if◌then◌else◌,
}
use gbf_core.Base.Bytes.{Bytes, bytes_eq_iff, codes}
use gbf_core.Base.Text.{to_lower, trim_space}
use gbf_core.Disk.{Files, DiskError, DiskFaults, read_file}
use gbf_core.Disk.Atomic.{read_file-ok}
use gbf_core.Manifest.{Manifest}
use gbf_core.Manifest.Validate.{validate_structure}
use gbf_core.Persist.{Codec, is_gbr_envelope, gbr_envelope, V1Manifest}
use gbf_core.Persist.Envelope.{strip_gbr_envelope-some}
use gbf_core.Persist.Load.{
  LoadError, envelope_mismatch, checksum_mismatch, bad_json, open_envelope, open_encrypted,
  open_compressed, check_structure, load_manifest_from_data, verify_manifest_checksum,
  compare_checksum, manifest_checksum_path, read_error, load_manifest,
}

read_error-ok :
    (r : Result DiskError Bytes) {content : Bytes} → read_error r ≡ ok content → r ≡ ok content
unfolding read_error
read_error-ok (err e) h = cc
read_error-ok (ok d) h = cc

module _ (c : Codec Manifest) (unmarshal_v1 : Bytes → Option V1Manifest)
    (is_abs is_rfc3339 : Bytes → Bool) (hook : Option (Bytes → Option Bytes)) where
  check_structure-ok :
      (n : Manifest) {m : Manifest}
      → check_structure c unmarshal_v1 is_abs is_rfc3339 hook n ≡ ok m
      → validate_structure is_abs is_rfc3339 m ≡ ok tt
  unfolding check_structure
  check_structure-ok n {m} h = elim (Result-cases (validate_structure is_abs is_rfc3339 n)) [
    | inr (e, r) ↦ absurd (let x = rw (check_structure, r) at h in cc)
    | inl (u, r) ↦
        let x : ◌≡◌ {A = Result LoadError Manifest} (ok n) (ok m) = rw (check_structure, r) at h in
        let same : n ≡ m = cc in rw (← same) r
  ]

  -- How its checksum is verified: inside the file, or by the file beside it.
  abbrev pub IsVerified : Bytes → Bytes → Files → Type 0
  IsVerified path content files =
      ((p : Bytes) × (content ≡ gbr_envelope c.sha p))
      ⊎ ((sum : Bytes) × (files (path ++ codes ".sha256") ≡ some sum)
          × (to_lower (trim_space sum) ≡ c.hex (c.sha content)))

  pub load_manifest_from_data-ok :
      (content : Bytes) {m : Manifest}
      → load_manifest_from_data c unmarshal_v1 is_abs is_rfc3339 hook content ≡ ok m
      → (validate_structure is_abs is_rfc3339 m ≡ ok tt)
        × ((sealed : Bytes) × (open_envelope c unmarshal_v1 is_abs is_rfc3339 hook content
              ≡ ok sealed))
  unfolding load_manifest_from_data
  load_manifest_from_data-ok content h =
      let (sealed, s, h1) =
        >>=-eq-ok (open_envelope c unmarshal_v1 is_abs is_rfc3339 hook content) _ h in
      let (packed, _, h2) =
        >>=-eq-ok (open_encrypted c unmarshal_v1 is_abs is_rfc3339 hook sealed) _ h1 in
      let (json, _, h3) =
        >>=-eq-ok (open_compressed c unmarshal_v1 is_abs is_rfc3339 hook packed) _ h2 in
      let (n, _, h4) = >>=-eq-ok (or_fail (c.unmarshal json) bad_json) _ h3 in
      (check_structure-ok _ h4, (sealed, s))

  compare_checksum-ok :
      (content : Bytes) (r : Result DiskError Bytes)
      → compare_checksum c unmarshal_v1 is_abs is_rfc3339 hook content r ≡ ok tt
      → (sum : Bytes) × (r ≡ ok sum) × (to_lower (trim_space sum) ≡ c.hex (c.sha content))
  unfolding compare_checksum
  compare_checksum-ok content (err e) h = cc
  compare_checksum-ok content (ok sum) h = (
    sum,
    refl,
    (bytes_eq_iff (to_lower (trim_space sum)) (c.hex (c.sha content))).0
        (guard-ok _ checksum_mismatch h),
  )

  -- The two ways in which the checksum of a file is checked.
  verified :
      (f : DiskFaults) (path content : Bytes) (files : Files) {m : Manifest}
      → (if is_gbr_envelope content
          then ok tt
          else verify_manifest_checksum c unmarshal_v1 is_abs is_rfc3339 hook f path content files)
        ≡ ok tt
      → load_manifest_from_data c unmarshal_v1 is_abs is_rfc3339 hook content ≡ ok m
      → IsVerified path content files
  unfolding verify_manifest_checksum manifest_checksum_path open_envelope
  verified f path content files h loaded = elim (Bool-cases (is_gbr_envelope content)) [
    | inl inside ↦
        let (valid, (sealed, opened)) = load_manifest_from_data-ok content loaded in
        let x = rw (open_envelope, inside) at opened in
        inl (
          sealed,
          strip_gbr_envelope-some c.sha content sealed inside (or_fail-ok _ envelope_mismatch x),
        )
    | inr beside ↦
        let (sum, r, e) = compare_checksum-ok content _ (rw beside at h) in
        inr (sum, read_file-ok f (path ++ codes ".sha256") files r, e)
  ]

  -- A manifest that is loaded from a file has passed the validation of its structure, and the
  -- checksum of the file was verified: the file is the envelope of its payload, or the file beside
  -- it holds the hash of its content up to spaces around it and upper case.
  pub load_manifest-ok :
      (f : DiskFaults) (path : Bytes) (files : Files) {m : Manifest}
      → load_manifest c unmarshal_v1 is_abs is_rfc3339 hook f path files ≡ ok m
      → (validate_structure is_abs is_rfc3339 m ≡ ok tt)
        × ((content : Bytes) × (files path ≡ some content) × IsVerified path content files)
  unfolding load_manifest
  load_manifest-ok f path files h =
      let (content, r, h1) = >>=-eq-ok (read_error (read_file f path files)) _ h in
      let (u, checked, h2) =
        >>=-eq-ok
          (if is_gbr_envelope content
            then ok tt
            else verify_manifest_checksum c unmarshal_v1 is_abs is_rfc3339 hook f path content
                files)
          _ h1 in
      (
        (load_manifest_from_data-ok content h2).0,
        (
          content,
          read_file-ok f path files (read_error-ok _ r),
          verified f path content files checked h2,
        ),
      )
