-- ===== src/Persist/Saved/Opens.antt =====
-- What a save writes opens to the manifest.
use gbf_core.Base.{
  ◌==◌, ◌&&◌, leb, ◌≡◌, sym, ap, ◌∙◌, ◌⊎◌, inl, inr, Bool, true, false, not, Bool-cases, Option,
  none, some, ◌++◌, Result, ok, err, >>=-eq-ok, guard-eq-ok, length, take, if◌then◌else◌, &&-true,
  or_fail, le→leb, arith, ok-injective,
}
use gbf_core.Base.Bytes.{Bytes, bytes_eq, bytes_eq_iff}
use gbf_core.Base.Int64.{ℤ, pos, ltℤ}
use gbf_core.Crypto.Format.{cipher_failed, rand_failed, gkm1_magic, magic_size, iv_size}
use gbf_core.Crypto.Aead.{Aead, IsAead, Zstd}
use gbf_core.Crypto.Envelope.{encrypt_manifest, decrypt_manifest, decrypt_manifest-encrypt_manifest}
use gbf_core.Blob.{is_compressed, zstd_magic}
use gbf_core.Store.{set_file}
use gbf_core.Disk.{Files, DiskFaults, read_file}
use gbf_core.Disk.Atomic.{set_file-hit, set_file-miss}
use gbf_core.Manifest.{Manifest}
use gbf_core.Manifest.CloudId.{validate_cloud_id}
use gbf_core.Manifest.Validate.{validate_structure}
use gbf_core.Persist.{Codec, IsCodec, gbr_envelope, V1Manifest, migrate_v1_manifest}
use gbf_core.Persist.Envelope.{is_gbr_envelope-gbr_envelope, strip_gbr_envelope-gbr_envelope}
use gbf_core.Persist.Load.{
  open_envelope, open_encrypted, open_compressed, run_hook, check_structure,
  load_manifest_from_data, load_manifest, read_error, migrate_old,
}
use gbf_core.Persist.Save.{
  SaveError, bad_structure, bad_cloud_id, bad_device_id, mkdir_failed, encrypt_failed, or_error,
  manifest_file_path, seal_manifest, save_time, save_cloud_id, prepare,
}
use gbf_core.Persist.Saved.{Committed}

pub some-inj : {A : Type 0} {u v : A} → ◌≡◌ {A = Option A} (some u) (some v) → u ≡ v
some-inj h = cc

pub or_error-ok :
    {Fail Value : Type 0} (wrap : Fail → SaveError) (r : Result Fail Value) {v : Value}
    → or_error wrap r ≡ ok v
    → r ≡ ok v
unfolding or_error
or_error-ok wrap (err e) h = cc
or_error-ok wrap (ok w) h = cc

-- A decrypt hook that opens what DecryptManifest opens under the key.
abbrev pub IsHookFor :
    Aead → Zstd → (Bytes → Bytes) → Bytes → Option (Bytes → Option Bytes) → Type 0
IsHookFor a z derive key hook =
    (run : Bytes → Option Bytes) × (hook ≡ some run)
    × ((blob p : Bytes) → decrypt_manifest a z derive blob key ≡ ok p → run blob ≡ some p)

-- The test for an encrypted manifest.
abbrev is_gkm1 : Bytes → Bool
is_gkm1 content = leb magic_size (length content) && bytes_eq (take magic_size content) gkm1_magic

not_gkm1_of_zstd : (p : Bytes) → is_compressed p ≡ true → is_gkm1 p ≡ false
unfolding is_compressed bytes_eq
not_gkm1_of_zstd p h =
    let e : take 4 p ≡ zstd_magic = (bytes_eq_iff (take 4 p) zstd_magic).0 (&&-true _ _ h).1 in
    elim (Bool-cases (is_gkm1 p)) [
      | inr other ↦ other
      | inl same ↦
          let x : false ≡ true =
            ap (λ (u : Bytes). bytes_eq u gkm1_magic) (sym e) ∙ (&&-true _ _ same).1 in
          absurd (let y = x in cc)
    ]

gkm1_of_encrypted :
    (a : Aead) (z : Zstd) (derive : Bytes → Bytes) (read : Option Bytes) (p key : Bytes)
    {blob : Bytes}
    → encrypt_manifest a z derive read p key ≡ ok blob
    → is_gkm1 blob ≡ true
unfolding encrypt_manifest bytes_eq
gkm1_of_encrypted a z derive read p key h =
    let (k, h1) = guard-eq-ok (a.key_ok (derive key)) cipher_failed _ h in
    let (iv, _, h2) = >>=-eq-ok (or_fail read rand_failed) _ h1 in
    let e = ok-injective h2 in
    rw (← e) (rw (le→leb 4 (length (gkm1_magic ++ (iv ++ a.seal (derive key) iv p))) (omega arith)))

-- A name taken from a disk with a staged file was free before, and holds what was staged.
pub Committed-at :
    (tmp content p : Bytes) (files : Files) {t : Files}
    → Committed tmp p (set_file files tmp (some content)) t
    → (files p ≡ none) × (t p ≡ some content)
Committed-at tmp content p files {t} (d, staged, free, moved) =
    let e : d ≡ content = some-inj (sym staged ∙ set_file-hit files tmp (some content)) in
    elim (Bool-cases (bytes_eq tmp p)) [
      | inl same ↦
          let q : tmp ≡ p = (bytes_eq_iff tmp p).0 same in
          absurd (
            let x : some content ≡ none =
              sym (set_file-hit files tmp (some content))
              ∙ ap (set_file files tmp (some content)) q
              ∙ free in
            cc)
      | inr other ↦ (
        sym (set_file-miss files tmp p (some content) other) ∙ free,
        ap (λ (s : Files). s p) moved
            ∙ set_file-miss _ tmp p none other
            ∙ set_file-hit _ p (some d)
            ∙ ap some e,
      )
    ]

module _ (c : Codec Manifest) (a : Aead) (z : Zstd) (derive : Bytes → Bytes)
    (is_abs is_rfc3339 : Bytes → Bool) (decimal : ℤ → Bytes) (parse_time : Bytes → Option ℤ) where
  -- The name that a save tries first.
  abbrev pub first_path : ℤ → Bytes → Manifest → Bytes
  first_path now meta m =
      manifest_file_path decimal meta
        (save_cloud_id c a z derive is_abs is_rfc3339 decimal parse_time m)
        (save_time c a z derive is_abs is_rfc3339 decimal parse_time now m) m.device_id

  pub prepare-ok :
      (b : Bool) (now : ℤ) (read : Option Bytes) (meta key : Bytes) (m : Manifest)
      {path envelope : Bytes}
      → prepare c a z derive is_abs is_rfc3339 decimal parse_time b now read meta key m
        ≡ ok (path, envelope)
      → (sealed : Bytes) × (path ≡ first_path now meta m)
        × (validate_structure is_abs is_rfc3339 m ≡ ok tt)
        × (seal_manifest c a z derive is_abs is_rfc3339 decimal parse_time read key m ≡ ok sealed)
        × (envelope ≡ gbr_envelope c.sha sealed)
  unfolding prepare
  prepare-ok b now read meta key m {path} {envelope} h =
      let (u, valid, h1) =
        >>=-eq-ok (or_error bad_structure (validate_structure is_abs is_rfc3339 m)) _ h in
      let (v, _, h2) =
        >>=-eq-ok
          (or_error bad_cloud_id
            (validate_cloud_id (save_cloud_id c a z derive is_abs is_rfc3339 decimal parse_time m)))
          _ h1 in
      let (w, _, h3) = >>=-eq-ok (or_error bad_device_id (validate_cloud_id m.device_id)) _ h2 in
      let (made, h4) = guard-eq-ok (not b) mkdir_failed _ h3 in
      let (sealed, s, h5) =
        >>=-eq-ok (seal_manifest c a z derive is_abs is_rfc3339 decimal parse_time read key m) _
          h4 in
      let e : (first_path now meta m, gbr_envelope c.sha sealed) ≡ (path, envelope) =
        ok-injective h5 in
      (sealed, sym (ap (λ o. o.0) e), or_error-ok bad_structure _ valid, s, sym (ap (λ o. o.1) e))

  -- How a manifest is opened that was sealed without a key, or with one that the hook knows.
  pub seal_manifest-opens :
      (m : Manifest) (law : IsAead a) (codec : IsCodec c m)
      (unmarshal_v1 : Bytes → Option V1Manifest) (hook : Option (Bytes → Option Bytes))
      (read : Option Bytes) (key : Bytes) {iv sealed : Bytes}
      → read ≡ some iv
      → length iv ≡ iv_size
      → a.key_ok (derive key) ≡ true
      → ((length key == 0) ≡ true) ⊎ IsHookFor a z derive key hook
      → seal_manifest c a z derive is_abs is_rfc3339 decimal parse_time read key m ≡ ok sealed
      → open_encrypted c unmarshal_v1 is_abs is_rfc3339 hook sealed ≡ ok (c.compress (c.marshal m))
  unfolding seal_manifest open_encrypted run_hook
  seal_manifest-opens m law codec unmarshal_v1 hook read key {iv} {sealed} ri li ki known h =
      let packed = c.compress (c.marshal m) in
      elim (Bool-cases (length key == 0)) [
        | inl none_ ↦
            let e : packed ≡ sealed = ok-injective (rw (seal_manifest, none_) at h) in
            rw (← e) (
              rw (
                open_encrypted,
                not_gkm1_of_zstd packed (codec.is_compressed-compress (c.marshal m)),
              ))
        | inr keyed ↦
            let x = or_error-ok encrypt_failed _ (rw (seal_manifest, keyed) at h) in
            let (blob, enc, dec, _) =
              decrypt_manifest-encrypt_manifest a z derive law iv packed key li ki in
            let e : sealed ≡ blob =
              ok-injective
                (sym x ∙ (ap (λ r. encrypt_manifest a z derive r packed key) ri ∙ enc)) in
            elim known [
              | inl blank ↦ absurd (let y = sym blank ∙ keyed in cc)
              | inr (run, hooked, opens) ↦ rw e (
                  rw (
                    open_encrypted,
                    gkm1_of_encrypted a z derive (some iv) packed key enc,
                    hooked,
                    run_hook,
                    opens blob packed dec,
                  ))
            ]
      ]

  -- The envelope of a sealed manifest opens to that manifest.
  pub load_manifest_from_data-gbr_envelope :
      (m : Manifest) (codec : IsCodec c m) (unmarshal_v1 : Bytes → Option V1Manifest)
      (hook : Option (Bytes → Option Bytes)) (sealed : Bytes)
      → ltℤ m.version (pos 2) ≡ false
      → validate_structure is_abs is_rfc3339 m ≡ ok tt
      → open_encrypted c unmarshal_v1 is_abs is_rfc3339 hook sealed ≡ ok (c.compress (c.marshal m))
      → load_manifest_from_data c unmarshal_v1 is_abs is_rfc3339 hook (gbr_envelope c.sha sealed)
        ≡ ok m
  unfolding load_manifest_from_data open_envelope open_compressed check_structure migrate_old
  load_manifest_from_data-gbr_envelope m codec unmarshal_v1 hook sealed v2 valid opens =
      let kept : migrate_old m (unmarshal_v1 (c.marshal m)) ≡ m =
        ap (λ b. if b then migrate_v1_manifest m (unmarshal_v1 (c.marshal m)) else m) v2 in
      rw
        (
          load_manifest_from_data,
          open_envelope,
          is_gbr_envelope-gbr_envelope c.sha codec.length-sha sealed,
          strip_gbr_envelope-gbr_envelope c.sha codec.length-sha sealed,
          opens,
          open_compressed,
          codec.is_compressed-compress (c.marshal m),
          codec.decompress-compress (c.marshal m),
          codec.unmarshal-marshal,
        )
        (ap (check_structure c unmarshal_v1 is_abs is_rfc3339 hook) kept
          ∙ rw (check_structure, valid))

  pub load_manifest-gbr_envelope :
      (m : Manifest) (codec : IsCodec c m) (unmarshal_v1 : Bytes → Option V1Manifest)
      (hook : Option (Bytes → Option Bytes)) (r : DiskFaults) (sealed : Bytes) (p : Bytes)
      (t : Files)
      → r.read ≡ false
      → t p ≡ some (gbr_envelope c.sha sealed)
      → load_manifest_from_data c unmarshal_v1 is_abs is_rfc3339 hook (gbr_envelope c.sha sealed)
        ≡ ok m
      → load_manifest c unmarshal_v1 is_abs is_rfc3339 hook r p t ≡ ok m
  unfolding load_manifest read_error read_file
  load_manifest-gbr_envelope m codec unmarshal_v1 hook r sealed p t readable at loaded = rw (
    load_manifest,
    read_file,
    at,
    readable,
    read_error,
    is_gbr_envelope-gbr_envelope c.sha codec.length-sha sealed,
    loaded,
  )
