-- ===== src/Persist/Saved/RoundTrip.antt =====
-- Saving a manifest keeps every file there is, and what it saves loads again.
use gbf_core.Base.{
  ℕ, ◌==◌, ◌≡◌, ap, ◌∙◌, ◌⊎◌, inl, inr, Bool, true, false, Option, none, some, Result, ok,
  Result-cases, length,
}
use gbf_core.Base.Bytes.{Bytes, bytes_eq}
use gbf_core.Base.Int64.{ℤ, pos, ltℤ}
use gbf_core.Crypto.Format.{iv_size}
use gbf_core.Crypto.Aead.{Aead, IsAead, Zstd}
use gbf_core.Store.{set_file, tmp_path}
use gbf_core.Disk.{Files, DiskFaults}
use gbf_core.Disk.Atomic.{set_file-miss, staging_cases}
use gbf_core.Manifest.{Manifest}
use gbf_core.Persist.{Codec, IsCodec, V1Manifest}
use gbf_core.Persist.Load.{load_manifest}
use gbf_core.Persist.Save.{SaveError, after_stage, prepare, save_manifest}
use gbf_core.Persist.Saved.{Keeps, commit_attempts-Keeps, commit_attempts-ok}
use gbf_core.Persist.Saved.Opens.{
  first_path, prepare-ok, Committed-at, seal_manifest-opens, load_manifest_from_data-gbr_envelope,
  load_manifest-gbr_envelope, IsHookFor,
}

module _ (c : Codec Manifest) (a : Aead) (z : Zstd) (derive : Bytes → Bytes)
    (is_abs is_rfc3339 : Bytes → Bool) (decimal : ℤ → Bytes) (parse_time : Bytes → Option ℤ) where
  module _ (f : DiskFaults) (g : ℕ → DiskFaults) (rands : ℕ → Option Bytes) (now : ℤ)
      (read : Option Bytes) (uuid meta key : Bytes) (m : Manifest) (files : Files) where
    abbrev pub saved : Result SaveError Bytes × Files
    saved =
        save_manifest c a z derive is_abs is_rfc3339 decimal parse_time f g rands now read uuid meta
          key m files

    -- Whatever fails, and whichever names are taken, a save keeps every file that stands anywhere
    -- but at the name of its own staging file.
    pub save_manifest-Keeps :
        Keeps
          (tmp_path (first_path c a z derive is_abs is_rfc3339 decimal parse_time now meta m) uuid)
          files
          saved.1
    unfolding save_manifest after_stage
    save_manifest-Keeps q content ne h =
        elim (Result-cases
          (prepare c a z derive is_abs is_rfc3339 decimal parse_time f.mkdir now read meta key m)) [
            | inr (e, r) ↦ rw (save_manifest, r) h
            | inl ((path, envelope), r) ↦
                let (_, named, _, _, _) =
                  prepare-ok c a z derive is_abs is_rfc3339 decimal parse_time f.mkdir now read meta
                    key m r in
                let ne' : bytes_eq (tmp_path path uuid) q ≡ false = rw (← named) at ne in
                elim (staging_cases f (tmp_path path uuid) envelope files) [
                  | inl (e, t, same, w) ↦ rw (save_manifest, r, w, after_stage) (same q ne' ∙ h)
                  | inr w ↦
                      rw (save_manifest, r, w, after_stage)
                        (commit_attempts-Keeps c.hex g rands (tmp_path path uuid) path 8 0
                          (set_file files (tmp_path path uuid) (some envelope)) q content ne'
                          (set_file-miss files (tmp_path path uuid) q (some envelope) ne' ∙ h))
                ]
          ]

    -- With a cipher and codecs that give back what they took, a decrypt hook for the key where
    -- there is one, an IV of twelve bytes and a manifest of version 2 or later, a save that
    -- succeeds and a read that does not fail: the save took a name where no file stood, and the
    -- file there loads as the same manifest.
    pub load_manifest-save_manifest :
        (law : IsAead a) (codec : IsCodec c m) (unmarshal_v1 : Bytes → Option V1Manifest)
        (hook : Option (Bytes → Option Bytes)) (r : DiskFaults) {iv p : Bytes} {t : Files}
        → read ≡ some iv
        → length iv ≡ iv_size
        → a.key_ok (derive key) ≡ true
        → ((length key == 0) ≡ true) ⊎ IsHookFor a z derive key hook
        → ltℤ m.version (pos 2) ≡ false
        → r.read ≡ false
        → saved ≡ (ok p, t)
        → (files p ≡ none) × (load_manifest c unmarshal_v1 is_abs is_rfc3339 hook r p t ≡ ok m)
    unfolding save_manifest after_stage
    load_manifest-save_manifest law codec unmarshal_v1 hook r {iv} {p} {t} ri li ki known v2
          readable h =
        elim (Result-cases
          (prepare c a z derive is_abs is_rfc3339 decimal parse_time f.mkdir now read meta key m)) [
            | inr (e, x) ↦ absurd (let y = rw (save_manifest, x) at h in cc)
            | inl ((path, envelope), x) ↦
                let (sealed, named, valid, s, env) =
                  prepare-ok c a z derive is_abs is_rfc3339 decimal parse_time f.mkdir now read meta
                    key m x in
                let tmp = tmp_path path uuid in
                elim (staging_cases f tmp envelope files) [
                  | inl (e, u, same, w) ↦
                      absurd (let y = rw (save_manifest, x, w, after_stage) at h in cc)
                  | inr w ↦
                      let y = rw (save_manifest, x, w, after_stage) at h in
                      let (free, at) = Committed-at tmp envelope p files (
                        commit_attempts-ok c.hex g rands tmp path 8 0
                          (set_file files tmp (some envelope)) y) in
                      (
                        free,
                        load_manifest-gbr_envelope c a z derive is_abs is_rfc3339 decimal parse_time
                            m codec unmarshal_v1 hook r sealed p t readable (at ∙ ap some env)
                            (load_manifest_from_data-gbr_envelope c a z derive is_abs is_rfc3339
                              decimal parse_time m codec unmarshal_v1 hook sealed v2 valid
                              (seal_manifest-opens c a z derive is_abs is_rfc3339 decimal parse_time
                                m law codec unmarshal_v1 hook read key ri li ki known s)),
                      )
                ]
          ]
