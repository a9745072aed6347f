-- ===== src/Manifest/Validate/Accepted.antt =====
-- What ValidateStructure promises of a manifest that it accepts.
use gbf_core.Base.{
  ℕ, ◌+◌, ◌%◌, ◌^◌, ◌<◌, ◌≡◌, ◌≢◌, refl, sym, ◌∙◌, ◌==◌, ==_iff, ◌↔◌, inl, inr, Bool, true, false,
  not, ◌||◌, Bool-cases, List, [], ◌∷◌, length, All, arith, ok, >>=-eq-ok, guard-ok, guard-eq-ok,
  not-true, ||-false,
}
use gbf_core.Base.Bytes.{Bytes, bytes_eq, bytes_eq_iff, codes}
use gbf_core.Base.Int64.{ℤ, pos, is_negative, is_positive, to_word, add64}
use gbf_core.Base.Text.{contains_any}
use gbf_core.Manifest.{FileEntry, Dir, Dirs, Manifest, has_key, child_path, mem_name}
use gbf_core.Manifest.Tree.{IsClosed}
use gbf_core.Manifest.Stats.{count_files, sum_sizes, sum_dirs, word_of_word}
use gbf_core.Manifest.Validate.{
  empty_name, separator_in_name, dot_name, duplicate_name, negative_size, dangling_sub_dir,
  file_count_differs, total_size_differs, validate_entry_name, Totals, any_failed, any_failed_dir,
  is_complete, effective_completeness, derive_completeness, validate_file, validate_files,
  validate_sub_dirs, validate_dir_key, validate_dirs, validate_structure,
}

-- A name that is one segment and stays in its directory.
abbrev pub IsEntryName : Bytes → Type 0
IsEntryName name =
    (name ≢ [])
    × (name ≢ codes ".")
    × (name ≢ codes "..")
    × (contains_any name (codes "/\\") ≡ false)

bytes_ne : (s t : Bytes) → bytes_eq s t ≡ false → s ≢ t
bytes_ne s t h e = let f : false ≡ true = sym h ∙ (bytes_eq_iff s t).1 e in cc

either_failed :
    (s : Bytes)
    → s ≢ codes "locked"
    → s ≢ codes "error"
    → (bytes_eq s (codes "locked") || bytes_eq s (codes "error")) ≡ true
    → ⊥
either_failed s locked error h = elim (Bool-cases (bytes_eq s (codes "locked"))) [
  | inl l ↦ locked ((bytes_eq_iff s (codes "locked")).0 l)
  | inr l ↦ error ((bytes_eq_iff s (codes "error")).0 (rw l at h))
]

validate_entry_name-IsEntryName :
    (name : Bytes) → validate_entry_name name ≡ ok tt → IsEntryName name
unfolding validate_entry_name
validate_entry_name-IsEntryName name h =
    let (full, h1) = guard-eq-ok (not (bytes_eq name [])) empty_name _ h in
    let (single, h2) = guard-eq-ok (not (contains_any name (codes "/\\"))) separator_in_name _ h1 in
    let (dot, dots) = ||-false _ _ (not-true _ (guard-ok _ dot_name h2)) in
    (bytes_ne _ _ (not-true _ full), bytes_ne _ _ dot, bytes_ne _ _ dots, not-true _ single)

-- Names that differ from each other and from those seen.
abbrev pub AreDistinct : List Bytes → List FileEntry → Type 0
AreDistinct seen [] = Unit
AreDistinct seen (f ∷ fs) = (mem_name f.name seen ≡ false) × AreDistinct (f.name ∷ seen) fs

abbrev pub IsFile : FileEntry → Type 0
IsFile f = IsEntryName f.name × (is_negative f.size ≡ false)

abbrev Adds : Totals → ℕ → ℕ → Totals → Type 0
Adds acc n z t =
    (t.file_count ≡ acc.file_count + n)
    × (to_word t.total_size ≡ (to_word acc.total_size + z) % 2 ^ 64)

word-lt : (z : ℤ) → to_word z < 2 ^ 64
word-lt z = ground arith

word_of_add64 : (a b : ℤ) → to_word (add64 a b) ≡ (to_word a + to_word b) % 2 ^ 64
unfolding add64
word_of_add64 a b = word_of_word ((to_word a + to_word b) % 2 ^ 64) (omega arith)

validate_file-size : (f : FileEntry) → validate_file f ≡ ok tt → is_negative f.size ≡ false
unfolding validate_file
validate_file-size f h = not-true _ (guard-eq-ok (not (is_negative f.size)) negative_size _ h).0

validate_files_lem :
    (seen : List Bytes) (acc t : Totals) (fs : List FileEntry)
    → validate_files seen acc fs ≡ ok t
    → All IsFile fs × AreDistinct seen fs × Adds acc (length fs) (sum_sizes fs) t
unfolding validate_files
validate_files_lem seen acc t [] h =
    let e : acc ≡ t = cc in
    let w = word-lt acc.total_size in (tt, tt, rw (← e) (omega arith, omega arith))
validate_files_lem seen acc t (f ∷ fs) h =
    let (_, name, h1) = >>=-eq-ok (validate_entry_name f.name) _ h in
    let (fresh, h2) = guard-eq-ok (not (mem_name f.name seen)) duplicate_name _ h1 in
    let (_, file, h3) = >>=-eq-ok (validate_file f) _ h2 in
    let (all, distinct, (n, z)) = validate_files_lem (f.name ∷ seen) _ t fs h3 in
    let w = word_of_add64 acc.total_size f.size in
    (
      ((validate_entry_name-IsEntryName f.name name, validate_file-size f file), all),
      (not-true _ fresh, distinct),
      (omega (arith, n), omega (arith, z, w)),
    )

validate_sub_dirs_lem :
    (dirs : Dirs) (dir : Bytes) (ss : List Bytes)
    → validate_sub_dirs dirs dir ss ≡ ok tt
    → All IsEntryName ss × All (λ s. has_key dirs (child_path dir s) ≡ true) ss
unfolding validate_sub_dirs
validate_sub_dirs_lem dirs dir [] h = (tt, tt)
validate_sub_dirs_lem dirs dir (s ∷ ss) h =
    let (_, name, h1) = >>=-eq-ok (validate_entry_name s) _ h in
    let (there, h2) = guard-eq-ok (has_key dirs (child_path dir s)) dangling_sub_dir _ h1 in
    let (names, all) = validate_sub_dirs_lem dirs dir ss h2 in
    ((validate_entry_name-IsEntryName s name, names), (there, all))

-- What is accepted of one directory.
abbrev pub IsDir : Bytes × Dir → Type 0
IsDir (k, d) = All IsFile d.files × AreDistinct [] d.files × All IsEntryName d.sub_dirs

-- A file that was neither locked nor failed.
abbrev pub IsRead : FileEntry → Type 0
IsRead f = (f.status ≢ codes "locked") × (f.status ≢ codes "error")

any_failed_iff : (fs : List FileEntry) → (any_failed fs ≡ false) ↔ All IsRead fs
unfolding any_failed
any_failed_iff [] = (λ _. tt, λ _. refl)
any_failed_iff (f ∷ fs) =
    let (there, back) = any_failed_iff fs in
    elim (Bool-cases (bytes_eq f.status (codes "locked") || bytes_eq f.status (codes "error"))) [
      | inl failed ↦
          rw failed
            (λ h. cc, λ ((locked, error), _). absurd (either_failed f.status locked error failed))
      | inr read ↦
          let (a, b) = ||-false (bytes_eq f.status (codes "locked")) _ read in
          rw read (λ h. ((bytes_ne _ _ a, bytes_ne _ _ b), there h), λ (_, all). back all)
    ]

any_failed_dir_iff :
    (ds : Dirs) → (any_failed_dir ds ≡ false) ↔ All (λ (e : Bytes × Dir). All IsRead e.1.files) ds
unfolding any_failed_dir
any_failed_dir_iff [] = (λ _. tt, λ _. refl)
any_failed_dir_iff ((k, d) ∷ ds) =
    let (there, back) = any_failed_dir_iff ds in
    let (one, none_) = any_failed_iff d.files in
    elim (Bool-cases (any_failed d.files)) [
      | inl failed ↦
          rw failed (λ h. cc, λ (all, _). let e : true ≡ false = sym failed ∙ none_ all in cc)
      | inr read ↦ rw read (λ h. (one read, there h), λ (_, all). back all)
    ]

-- A manifest without an explicit state is complete exactly when no scan error was counted and no
-- file is locked or failed.
pub is_complete_iff :
    (m : Manifest)
    → m.completeness ≡ []
    → (is_complete m ≡ true) ↔ (
        (is_positive m.stats.scan_errors ≡ false)
        × All (λ (e : Bytes × Dir). All IsRead e.1.files) m.dirs)
unfolding is_complete effective_completeness derive_completeness bytes_eq
is_complete_iff m blank =
    let (there, back) = any_failed_dir_iff m.dirs in
    elim (Bool-cases (is_positive m.stats.scan_errors)) [
      | inl scan ↦ rw (blank, scan) (λ h. cc, λ (h, _). cc)
      | inr clean ↦ elim (Bool-cases (any_failed_dir m.dirs)) [
        | inl failed ↦
            rw (blank, clean, failed)
              (λ h. cc, λ (_, all). let e : true ≡ false = sym failed ∙ back all in cc)
        | inr read ↦ rw (blank, clean, read) (λ h. (refl, there read), λ _. refl)
      ]
    ]

module _ (is_abs : Bytes → Bool) (is_rfc3339 : Bytes → Bool) where
  validate_dirs_lem :
      (dirs : Dirs) (acc t : Totals) (ds : Dirs)
      → validate_dirs is_abs is_rfc3339 dirs acc ds ≡ ok t
      → All IsDir ds
        × All
            (λ (e : Bytes × Dir). All (λ s. has_key dirs (child_path e.0 s) ≡ true) e.1.sub_dirs)
            ds
        × Adds acc (count_files ds) (sum_dirs ds) t
  unfolding validate_dirs
  validate_dirs_lem dirs acc t [] h =
      let e : acc ≡ t = cc in
      let w = word-lt acc.total_size in (tt, tt, rw (← e) (omega arith, omega arith))
  validate_dirs_lem dirs acc t ((k, d) ∷ ds) h =
      let (_, _, h1) = >>=-eq-ok (validate_dir_key is_abs is_rfc3339 k) _ h in
      let (t1, files, h2) = >>=-eq-ok (validate_files [] acc d.files) _ h1 in
      let (_, subs, h3) = >>=-eq-ok (validate_sub_dirs dirs k d.sub_dirs) _ h2 in
      let (all, distinct, (n1, z1)) = validate_files_lem [] acc t1 d.files files in
      let (names, listed) = validate_sub_dirs_lem dirs k d.sub_dirs subs in
      let (rest, closed, (n2, z2)) = validate_dirs_lem dirs t1 t ds h3 in
      (
        ((all, distinct, names), rest),
        (listed, closed),
        (omega (arith, n1, n2), omega (arith, z1, z2)),
      )

  -- In a manifest whose structure is accepted, every listed directory is an entry, the files of a
  -- directory have different names, all names are single segments other than `.` and `..`, no size
  -- is negative, and the statistics are the number of files and the sum of their sizes modulo 2^64.
  pub validate_structure_lem :
      (m : Manifest)
      → validate_structure is_abs is_rfc3339 m ≡ ok tt
      → All IsDir m.dirs
        × IsClosed m.dirs
        × (m.stats.file_count ≡ count_files m.dirs)
        × (to_word m.stats.total_size ≡ sum_dirs m.dirs % 2 ^ 64)
  unfolding validate_structure
  validate_structure_lem m h =
      let (t, dirs, h1) =
        >>=-eq-ok
          (validate_dirs is_abs is_rfc3339 m.dirs (record { file_count = 0; total_size = pos 0 })
            m.dirs)
          _ h in
      let (count, h2) = guard-eq-ok (m.stats.file_count == t.file_count) file_count_differs _ h1 in
      let total =
        guard-ok (to_word m.stats.total_size == to_word t.total_size) total_size_differs h2 in
      let (all, closed, (n, z)) = validate_dirs_lem m.dirs _ t m.dirs dirs in
      (
        all,
        closed,
        omega (arith, (==_iff m.stats.file_count t.file_count).0 count, n),
        omega (arith, (==_iff (to_word m.stats.total_size) (to_word t.total_size)).0 total, z),
      )
