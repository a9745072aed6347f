-- ===== src/Disk/Atomic.antt =====
-- A file is written whole or not at all, and a commit never replaces a file.
use gbf_core.Base.{
  ◌≡◌, ◌≢◌, refl, sym, ap, ◌∙◌, ◌⊎◌, inl, inr, false, Bool-cases, Option, none, some, ◌++◌,
  Option-cases, Result, ok, err, length, length-append, arith, ◌+◌,
}
use gbf_core.Base.Bytes.{Bytes, bytes_eq, bytes_eq_iff, bytes_eq_refl, codes}
use gbf_core.Store.{set_file, tmp_path}
use gbf_core.Disk.{
  Files, DiskError, mkdir_failed, create_failed, write_failed, sync_failed, close_failed,
  rename_failed, sync_parent_failed, exists_already, DiskFaults, remove_quietly, read_file,
  write_staging_file, rename_staged, after_staging, write_file_atomic, commit_file_no_replace,
  no_faults,
}

pub set_file-hit : (files : Files) (p : Bytes) (c : Option Bytes) → set_file files p c p ≡ c
unfolding set_file
set_file-hit files p c = rw (bytes_eq_refl p)

pub set_file-miss :
    (files : Files) (p q : Bytes) (c : Option Bytes)
    → bytes_eq p q ≡ false
    → set_file files p c q ≡ files q
unfolding set_file
set_file-miss files p q c h = rw h

longer_ne : (p t : Bytes) → length t ≢ 0 → bytes_eq (p ++ t) p ≡ false
longer_ne p t n = elim (Bool-cases (bytes_eq (p ++ t) p)) [
  | inr other ↦ other
  | inl same ↦
      let l : length (p ++ t) ≡ length p = ap length ((bytes_eq_iff (p ++ t) p).0 same) in
      let m : length (p ++ t) ≡ length p + length t = length-append p t in
      absurd (n (omega (arith, l, m)))
]

pub read_file-ok :
    (f : DiskFaults) (p : Bytes) (files : Files) {content : Bytes}
    → read_file f p files ≡ ok content
    → files p ≡ some content
unfolding read_file
read_file-ok f p files h = elim (Option-cases (files p)) [
  | inl e ↦ absurd (let x = rw (read_file, e) at h in cc)
  | inr (d, e) ↦ elim (Bool-cases f.read) [
    | inl bad ↦ absurd (let x = rw (read_file, e, bad) at h in cc)
    | inr good ↦ let x = rw (read_file, e, good) at h in e ∙ cc
  ]
]

pub read_file_present :
    (p content : Bytes) (files : Files)
    → files p ≡ some content
    → read_file no_faults p files ≡ ok content
unfolding read_file
read_file_present p content files h = rw (read_file, h)

-- The temporary name of a path is another path.
pub tmp_path-fresh : (path uuid : Bytes) → bytes_eq (tmp_path path uuid) path ≡ false
unfolding tmp_path
tmp_path-fresh path uuid = longer_ne path (codes "." ++ (uuid ++ codes ".tmp")) (λ h. omega arith)

-- What stands at every path but `tmp` after a step: what stood there before.
abbrev pub Same : Bytes → Files → Files → Type 0
Same tmp files files' = (q : Bytes) → bytes_eq tmp q ≡ false → files' q ≡ files q

pub set_file-Same :
    (tmp : Bytes) (c : Option Bytes) (s t : Files) → Same tmp s t → Same tmp s (set_file t tmp c)
set_file-Same tmp c s t x q h = set_file-miss t tmp q c h ∙ x q h

pub remove_quietly-Same :
    (f : DiskFaults) (tmp : Bytes) (s t : Files)
    → Same tmp s t
    → Same tmp s (remove_quietly f tmp t)
unfolding remove_quietly
remove_quietly-Same f tmp s t x = elim (Bool-cases f.remove) [
  | inl bad ↦ rw bad x
  | inr good ↦ rw good (set_file-Same tmp none s t x)
]

-- How the writing of the staging file ends.
pub staging_cases :
    (f : DiskFaults) (tmp content : Bytes) (files : Files)
    → ((e : DiskError) × (t : Files) × Same tmp files t
        × (write_staging_file f tmp content files ≡ (err e, t)))
      ⊎ (write_staging_file f tmp content files ≡ (ok tt, set_file files tmp (some content)))
unfolding write_staging_file
staging_cases f tmp content files =
    let w = set_file-Same tmp (some content) files files (λ q h. refl) in
    let torn = set_file-Same tmp (some f.partial) files files (λ q h. refl) in
    let clean = remove_quietly-Same f tmp files (set_file files tmp (some content)) w in
    elim (Bool-cases f.create) [
      | inl c ↦ inl (create_failed, files, λ q h. refl, rw c)
      | inr c ↦ elim (Bool-cases f.write) [
        | inl x ↦ inl (
          write_failed,
          remove_quietly f tmp (set_file files tmp (some f.partial)),
          remove_quietly-Same f tmp files (set_file files tmp (some f.partial)) torn,
          rw (c, x),
        )
        | inr x ↦ elim (Bool-cases f.sync) [
          | inl y ↦ inl (sync_failed, _, clean, rw (c, x, y))
          | inr y ↦ elim (Bool-cases f.close) [
            | inl z ↦ inl (close_failed, _, clean, rw (c, x, y, z))
            | inr z ↦ inr (rw (c, x, y, z))
          ]
        ]
      ]
    ]

-- How the staged file is moved: it is not, or the path holds the content.
rename_cases :
    (f : DiskFaults) (tmp path content : Bytes) (files t : Files)
    → Same tmp files t
    → ((u : Files) × Same tmp files u
        × (rename_staged f tmp path content t ≡ (err rename_failed, u)))
      ⊎ ((r : Result DiskError (Unit {0})) × (u : Files) × Same tmp
            (set_file files path (some content))
            u
          × (rename_staged f tmp path content t ≡ (r, u)))
unfolding rename_staged set_file
rename_cases f tmp path content files t x =
    let moved : Same tmp (set_file files path (some content))
        (set_file (set_file t tmp none) path (some content)) =
      λ q h. rw h (rw (x q h) refl) in
    elim (Bool-cases f.rename) [
      | inl bad ↦ inl (remove_quietly f tmp t, remove_quietly-Same f tmp files t x, rw bad)
      | inr good ↦ elim (Bool-cases f.sync_parent) [
        | inl bad ↦ inr (err sync_parent_failed, _, moved, rw (good, bad))
        | inr fine ↦ inr (ok tt, _, moved, rw (good, fine))
      ]
    ]

-- Whatever call of the operating system fails, a write leaves every path but its temporary name as
-- it was and returns an error, or leaves them as they were with the content at the path.
pub write_file_atomic_whole :
    (f : DiskFaults) (uuid path content : Bytes) (files : Files)
    → ((e : DiskError) × (t : Files) × Same (tmp_path path uuid) files t
        × (write_file_atomic f uuid path content files ≡ (err e, t)))
      ⊎ ((r : Result DiskError (Unit {0})) × (t : Files) × Same
            (tmp_path path uuid)
            (set_file files path (some content))
            t
          × (write_file_atomic f uuid path content files ≡ (r, t)))
unfolding write_file_atomic after_staging
write_file_atomic_whole f uuid path content files =
    let tmp = tmp_path path uuid in
    elim (Bool-cases f.mkdir) [
      | inl bad ↦ inl (mkdir_failed, files, λ q h. refl, rw bad)
      | inr good ↦ elim (staging_cases f tmp content files) [
        | inl (e, t, same, r) ↦ inl (e, t, same, rw (r, good))
        | inr r ↦
            elim (rename_cases f tmp path content files (set_file files tmp (some content))
              (set_file-Same tmp (some content) files files (λ q h. refl))) [
                | inl (u, same, e) ↦ inl (rename_failed, u, same, rw (r, e, good))
                | inr (w, u, same, e) ↦ inr (w, u, same, rw (r, e, good))
              ]
      ]
    ]

-- A write that succeeds leaves the content at the path and every other path but its temporary name
-- as it was.
pub write_file_atomic-ok :
    (f : DiskFaults) (uuid path content : Bytes) (files : Files) {t : Files}
    → write_file_atomic f uuid path content files ≡ (ok tt, t)
    → (t path ≡ some content) × Same (tmp_path path uuid) (set_file files path (some content)) t
write_file_atomic-ok f uuid path content files {t} h =
    elim (write_file_atomic_whole f uuid path content files) [
      | inl (e, u, same, r) ↦ absurd (let c : (err e, u) ≡ (ok tt, t) = sym r ∙ h in cc)
      | inr (w, u, same, r) ↦
          let e : u ≡ t = ap (λ o. o.1) (sym r ∙ h) in
          let at : u path ≡ some content =
            same path (tmp_path-fresh path uuid) ∙ set_file-hit files path (some content) in
          rw (← e) (at, same)
    ]

-- Without a fault a write succeeds and removes its temporary file.
pub write_file_atomic_clean :
    (uuid path content : Bytes) (files : Files)
    → write_file_atomic no_faults uuid path content files ≡ (
      ok tt,
      set_file
          (set_file (set_file files (tmp_path path uuid) (some content)) (tmp_path path uuid) none)
          path
          (some content),
    )
unfolding write_file_atomic after_staging write_staging_file rename_staged
write_file_atomic_clean uuid path content files = refl

-- A commit onto a path that holds a file says so and changes nothing.
pub commit_file_no_replace_taken :
    (f : DiskFaults) (src dst : Bytes) (files : Files) {c d : Bytes}
    → files src ≡ some d
    → files dst ≡ some c
    → commit_file_no_replace f src dst files ≡ (err exists_already, files)
unfolding commit_file_no_replace
commit_file_no_replace_taken f src dst files s t = rw (commit_file_no_replace, s, t)

-- A commit that succeeds has moved the content of the source to a path that held no file, and left
-- every other path as it was.
pub commit_file_no_replace-ok :
    (f : DiskFaults) (src dst : Bytes) (files : Files) {t : Files}
    → commit_file_no_replace f src dst files ≡ (ok tt, t)
    → (content : Bytes) × (files src ≡ some content)
      × (files dst ≡ none)
      × (t ≡ set_file (set_file files dst (some content)) src none)
unfolding commit_file_no_replace
commit_file_no_replace-ok f src dst files {t} h = elim (Option-cases (files src)) [
  | inl e ↦ absurd (let x = rw (commit_file_no_replace, e) at h in cc)
  | inr (content, e) ↦ elim (Option-cases (files dst)) [
    | inr (c, taken) ↦ absurd (let x = rw (commit_file_no_replace, e, taken) at h in cc)
    | inl free ↦ elim (Bool-cases f.link) [
      | inl bad ↦ absurd (let x = rw (commit_file_no_replace, e, free, bad) at h in cc)
      | inr linked ↦ elim (Bool-cases f.remove) [
        | inl bad ↦ absurd (let x = rw (commit_file_no_replace, e, free, linked, bad) at h in cc)
        | inr removed ↦ elim (Bool-cases f.sync_parent) [
          | inl bad ↦
              absurd (let x = rw (commit_file_no_replace, e, free, linked, removed, bad) at h in cc)
          | inr synced ↦
              let x = rw (commit_file_no_replace, e, free, linked, removed, synced) at h in
              (content, e, free, sym (ap (λ o. o.1) x))
        ]
      ]
    ]
  ]
]

-- Whatever call fails, a commit keeps a file that stands at the target, and every path but the two.
pub commit_file_no_replace_keeps :
    (f : DiskFaults) (src dst : Bytes) (files : Files) (q : Bytes)
    → bytes_eq src q ≡ false
    → (bytes_eq dst q ≡ false) ⊎ ((c : Bytes) × (files dst ≡ some c))
    → (commit_file_no_replace f src dst files).1 q ≡ files q
unfolding commit_file_no_replace
commit_file_no_replace_keeps f src dst files q ne where_ = elim (Option-cases (files src)) [
  | inl e ↦ rw (commit_file_no_replace, e)
  | inr (content, e) ↦ elim (Option-cases (files dst)) [
    | inr (c, taken) ↦ rw (commit_file_no_replace, e, taken)
    | inl free ↦ elim where_ [
      | inr (c, taken) ↦ absurd (let x = sym free ∙ taken in cc)
      | inl other ↦
          let linked = set_file-miss files dst q (some content) other in
          let moved = set_file-miss (set_file files dst (some content)) src q none ne ∙ linked in
          elim (Bool-cases f.link) [
            | inl bad ↦ rw (commit_file_no_replace, e, free, bad)
            | inr fine ↦ elim (Bool-cases f.remove) [
              | inl bad ↦ rw (commit_file_no_replace, e, free, fine, bad) linked
              | inr gone ↦ elim (Bool-cases f.sync_parent) [
                | inl bad ↦ rw (commit_file_no_replace, e, free, fine, gone, bad) moved
                | inr good ↦ rw (commit_file_no_replace, e, free, fine, gone, good) moved
              ]
            ]
          ]
    ]
  ]
]
