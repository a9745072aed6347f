-- ===== src/Persist/Saved.antt =====
-- The attempts of SaveManifestWithKey to commit a manifest, and the files after them.
pub mod Opens
pub mod RoundTrip
use gbf_core.Base.{
  ℕ, zero, suc, ◌≡◌, refl, sym, ap, ◌∙◌, ◌⊎◌, inl, inr, Bool, true, false, Bool-cases, Option, none,
  some, Option-cases, ◌++◌, Result, ok, err, Result-cases, ◌>>=◌, >>=-eq-ok, length,
}
use gbf_core.Base.Bytes.{Bytes, bytes_eq, bytes_eq_iff}
use gbf_core.Base.Int64.{ℤ}
use gbf_core.Crypto.Aead.{Aead, Zstd}
use gbf_core.Store.{set_file, tmp_path}
use gbf_core.Disk.{
  Files, DiskError, DiskFaults, remove_quietly, write_staging_file, commit_file_no_replace,
}
use gbf_core.Disk.Atomic.{
  set_file-hit, set_file-miss, Same, set_file-Same, remove_quietly-Same, staging_cases,
  commit_file_no_replace-ok, commit_file_no_replace_keeps,
}
use gbf_core.Manifest.{Manifest}
use gbf_core.Persist.{Codec}
use gbf_core.Persist.Save.{
  SaveError, is_exist, candidate, settle, commit_attempts, after_stage, prepare, save_manifest,
}

-- Every file but the one at `tmp` is kept.
abbrev pub Keeps : Bytes → Files → Files → Type 0
Keeps tmp files files' =
    (q content : Bytes) → bytes_eq tmp q ≡ false → files q ≡ some content → files' q ≡ some content

remove_quietly-Keeps :
    (f : DiskFaults) (tmp : Bytes) (s t : Files)
    → Keeps tmp s t
    → Keeps tmp s (remove_quietly f tmp t)
remove_quietly-Keeps f tmp s t k q content ne h =
    remove_quietly-Same f tmp t t (λ p x. refl) q ne ∙ k q content ne h

commit-Keeps :
    (f : DiskFaults) (tmp name : Bytes) (files : Files)
    → Keeps tmp files (commit_file_no_replace f tmp name files).1
commit-Keeps f tmp name files q content ne h = elim (Bool-cases (bytes_eq name q)) [
  | inr other ↦ commit_file_no_replace_keeps f tmp name files q ne (inl other) ∙ h
  | inl same ↦
      let e : files name ≡ some content = ap files ((bytes_eq_iff name q).0 same) ∙ h in
      commit_file_no_replace_keeps f tmp name files q ne (inr (content, e)) ∙ h
]

settle-Keeps :
    (f : DiskFaults) (tmp name : Bytes) (rest : Result SaveError Bytes × Files)
    (r : Result DiskError (Unit {0}) × Files) (s : Files)
    → Keeps tmp s rest.1
    → Keeps tmp s r.1
    → Keeps tmp s (settle f tmp name rest r).1
unfolding settle
settle-Keeps f tmp name rest (ok u, t) s a b = b
settle-Keeps f tmp name rest (err e, t) s a b = elim (Bool-cases (is_exist e)) [
  | inl exists ↦ rw exists a
  | inr other ↦ rw other (remove_quietly-Keeps f tmp s t b)
]

-- A commit that succeeded took a name that was free, and moved the staged file there.
abbrev pub Committed : Bytes → Bytes → Files → Files → Type 0
Committed tmp name files t =
    (content : Bytes) × (files tmp ≡ some content)
    × (files name ≡ none)
    × (t ≡ set_file (set_file files name (some content)) tmp none)

module _ (hex : Bytes → Bytes) (g : ℕ → DiskFaults) (rands : ℕ → Option Bytes)
    (tmp path : Bytes) where
  commit_attempts-Keeps :
      (n attempt : ℕ) (files : Files)
      → Keeps tmp files (commit_attempts hex g rands tmp path n attempt files).1
  unfolding commit_attempts
  commit_attempts-Keeps zero attempt files =
      let k = remove_quietly-Keeps (g attempt) tmp files files (λ q d x h. h) in
      elim (Option-cases (candidate hex rands path attempt)) [
        | inl e ↦ rw (commit_attempts, e) k
        | inr (name, e) ↦ rw (commit_attempts, e) k
      ]
  commit_attempts-Keeps (suc n) attempt files =
      elim (Option-cases (candidate hex rands path attempt)) [
        | inl e ↦
            rw (commit_attempts, e)
              (remove_quietly-Keeps (g attempt) tmp files files (λ q d x h. h))
        | inr (name, e) ↦
            rw (commit_attempts, e)
              (settle-Keeps (g attempt) tmp name _
                (commit_file_no_replace (g attempt) tmp name files) files
                (commit_attempts-Keeps n (suc attempt) files)
                (commit-Keeps (g attempt) tmp name files))
      ]

  settle-ok :
      (f : DiskFaults) (name p : Bytes) (rest : Result SaveError Bytes × Files)
      (r : Result DiskError (Unit {0}) × Files) (files : Files) {t : Files}
      → ((u : Files) → r ≡ (ok tt, u) → Committed tmp name files u)
      → (rest ≡ (ok p, t) → Committed tmp p files t)
      → settle f tmp name rest r ≡ (ok p, t)
      → Committed tmp p files t
  unfolding settle
  settle-ok f name p rest (ok tt, u) files {t} now later h =
      let e : u ≡ t = ap (λ o. o.1) h in
      let same : ◌≡◌ {A = Result SaveError Bytes} (ok name) (ok p) = ap (λ o. o.0) h in
      let q : name ≡ p = cc in rw (← e, ← q) (now u refl)
  settle-ok f name p rest (err e, u) files {t} now later h = elim (Bool-cases (is_exist e)) [
    | inl exists ↦ later (rw (settle, exists) at h)
    | inr other ↦ absurd (let x = rw (settle, other) at h in cc)
  ]

  commit_attempts-ok :
      (n attempt : ℕ) (files : Files) {p : Bytes} {t : Files}
      → commit_attempts hex g rands tmp path n attempt files ≡ (ok p, t)
      → Committed tmp p files t
  unfolding commit_attempts
  commit_attempts-ok zero attempt files h = elim (Option-cases (candidate hex rands path attempt)) [
    | inl e ↦ absurd (let x = rw (commit_attempts, e) at h in cc)
    | inr (name, e) ↦ absurd (let x = rw (commit_attempts, e) at h in cc)
  ]
  commit_attempts-ok (suc n) attempt files {p} h =
      elim (Option-cases (candidate hex rands path attempt)) [
        | inl e ↦ absurd (let x = rw (commit_attempts, e) at h in cc)
        | inr (name, e) ↦
            settle-ok (g attempt) name p _ (commit_file_no_replace (g attempt) tmp name files) files
              (λ u r. commit_file_no_replace-ok (g attempt) tmp name files r)
              (commit_attempts-ok n (suc attempt) files) (rw (commit_attempts, e) at h)
      ]
