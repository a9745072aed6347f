-- ===== src/Persist/Kept.antt =====
-- renameWithFallback of simple/manifest.go: where a file is after a move.
use gbf_core.Base.{
  ◌≡◌, refl, sym, ap, ◌∙◌, inl, inr, Bool, true, false, not, Bool-cases, subst, Option, none, some,
  if◌then◌else◌, Result, ok, err,
}
use gbf_core.Base.Bytes.{Bytes, bytes_eq}
use gbf_core.Store.{set_file}
use gbf_core.Disk.{
  Files, DiskError, rename_failed, read_failed, mkdir_failed, create_failed, write_failed,
  not_exist, DiskFaults, remove_quietly,
}
use gbf_core.Disk.Atomic.{set_file-hit, set_file-miss, remove_quietly-Same}
use gbf_core.Persist.Trash.{MoveFaults, copy_over, rename_with_fallback}

abbrev Outcome : Type 0
Outcome = Result DiskError (Unit {0}) × Files

-- How a move of a content ends. It fails, and the content is where it was. Or it succeeds, and the
-- content is at the target. Or it succeeds across devices although the close of the copy failed,
-- and what was written until then is at the target.
pub data IsMoved (f : MoveFaults) (src dst content : Bytes)
    (out : Result DiskError (Unit {0}) × Files) : Type 0 where
  stayed :
      (e : DiskError) → out.0 ≡ err e → out.1 src ≡ some content → IsMoved f src dst content out
  arrived : out.0 ≡ ok tt → out.1 dst ≡ some content → IsMoved f src dst content out
  torn :
      f.cross_device ≡ true
      → f.disk.close ≡ true
      → out.0 ≡ ok tt
      → out.1 dst ≡ some f.disk.partial
      → IsMoved f src dst content out

-- Removing a file, which may fail, changes nothing else.
remove_quietly-miss :
    (f : DiskFaults) (p q : Bytes) (files : Files)
    → bytes_eq p q ≡ false
    → remove_quietly f p files q ≡ files q
remove_quietly-miss f p q files ne = remove_quietly-Same f p files files (λ r h. refl) q ne

copy_over-cases :
    (f : DiskFaults) (src dst content : Bytes) (files : Files) (P : Outcome → Type 0)
    → ((e : DiskError) → P (err e, files))
    → P (err write_failed, remove_quietly f dst (set_file files dst (some f.partial)))
    → (f.close ≡ true → P (ok tt, remove_quietly f src (set_file files dst (some f.partial))))
    → P (ok tt, remove_quietly f src (set_file files dst (some content)))
    → P (copy_over f src dst content files)
unfolding copy_over remove_quietly
copy_over-cases f src dst content files P same cut unclosed copied = elim (Bool-cases f.read) [
  | inl b ↦ rw (copy_over, b) (same read_failed)
  | inr b ↦ elim (Bool-cases f.mkdir) [
    | inl c ↦ rw (copy_over, b, c) (same mkdir_failed)
    | inr c ↦ elim (Bool-cases f.create) [
      | inl d ↦ rw (copy_over, b, c, d) (same create_failed)
      | inr d ↦ elim (Bool-cases f.write) [
        | inl e ↦ rw (copy_over, b, c, d, e) cut
        | inr e ↦ elim (Bool-cases f.close) [
          | inl g ↦ rw (copy_over, b, c, d, e, g) (unclosed g)
          | inr g ↦ rw (copy_over, b, c, d, e, g) copied
        ]
      ]
    ]
  ]
]

-- The two ways of a move: the rename succeeds, or what happens depends on its error.
renamed :
    (f : MoveFaults) (src dst content : Bytes) (files : Files)
    → files src ≡ some content
    → f.disk.rename ≡ false
    → rename_with_fallback f src dst files
      ≡ (ok tt, set_file (set_file files src none) dst (some content))
unfolding rename_with_fallback
renamed f src dst content files at moved = rw (rename_with_fallback, at, moved)

abbrev fallback : MoveFaults → Bytes → Bytes → Bytes → Files → Outcome
fallback f src dst content files =
    if not f.cross_device
    then (err rename_failed, files)
    else copy_over f.disk src dst content files

fallen_back :
    (f : MoveFaults) (src dst content : Bytes) (files : Files)
    → files src ≡ some content
    → f.disk.rename ≡ true
    → rename_with_fallback f src dst files ≡ fallback f src dst content files
unfolding rename_with_fallback
fallen_back f src dst content files at stuck =
    ap
      (λ (o : Option Bytes). elim o [
        | none ↦ (err not_exist, files)
        | some c ↦
            if not f.disk.rename
            then (ok tt, set_file (set_file files src none) dst (some c))
            else fallback f src dst c files
      ])
      at
    ∙ ap
        (λ (b : Bool).
          if not b
          then (ok tt, set_file (set_file files src none) dst (some content))
          else fallback f src dst content files)
        stuck

fallback-cases :
    (f : MoveFaults) (src dst content : Bytes) (files : Files) (P : Outcome → Type 0)
    → P (err rename_failed, files)
    → (f.cross_device ≡ true → P (copy_over f.disk src dst content files))
    → P (fallback f src dst content files)
fallback-cases f src dst content files P same copied = elim (Bool-cases f.cross_device) [
  | inl cross ↦
      subst
        (λ (b : Bool).
          P (if not b then (err rename_failed, files) else copy_over f.disk src dst content files))
        (sym cross) (copied cross)
  | inr one ↦
      subst
        (λ (b : Bool).
          P (if not b then (err rename_failed, files) else copy_over f.disk src dst content files))
        (sym one) same
]

module _ (f : MoveFaults) (src dst content : Bytes) (files : Files) (sd : bytes_eq src dst ≡ false)
    (ds : bytes_eq dst src ≡ false) (at : files src ≡ some content) where
  -- What is at the target when the source has been removed.
  copied :
      (written : Bytes)
      → remove_quietly f.disk src (set_file files dst (some written)) dst ≡ some written
  copied written =
      remove_quietly-miss f.disk src dst (set_file files dst (some written)) sd
      ∙ set_file-hit files dst (some written)

  copy_over-IsMoved :
      f.cross_device ≡ true → IsMoved f src dst content (copy_over f.disk src dst content files)
  copy_over-IsMoved cross =
      copy_over-cases f.disk src dst content files (IsMoved f src dst content)
        (λ e. IsMoved.stayed e refl at)
        (IsMoved.stayed write_failed refl (
          remove_quietly-miss f.disk dst src (set_file files dst (some f.disk.partial)) ds
          ∙ set_file-miss files dst src (some f.disk.partial) ds
          ∙ at))
        (λ g. IsMoved.torn cross g refl (copied f.disk.partial))
        (IsMoved.arrived refl (copied content))

  -- Whichever calls fail, moving a file to another path ends in one of three ways: it fails and the
  -- file is where it was; it succeeds and the content is at the target; or it succeeds across
  -- devices although the close of the copy failed, and what was written until then is at the
  -- target.
  pub rename_with_fallback-IsMoved :
      IsMoved f src dst content (rename_with_fallback f src dst files)
  unfolding rename_with_fallback
  rename_with_fallback-IsMoved = elim (Bool-cases f.disk.rename) [
    | inr moved ↦
        subst (IsMoved f src dst content) (sym (renamed f src dst content files at moved))
          (IsMoved.arrived refl (set_file-hit (set_file files src none) dst (some content)))
    | inl stuck ↦
        subst (IsMoved f src dst content) (sym (fallen_back f src dst content files at stuck)) (
          fallback-cases f src dst content files (IsMoved f src dst content)
            (IsMoved.stayed rename_failed refl at) copy_over-IsMoved)
  ]
