-- ===== src/Manifest/Stats.antt =====
-- The statistics of a manifest: what they count, and that AddFile keeps them true.
use gbf_core.Base.{
  ℕ, ◌+◌, ◌%◌, ◌^◌, ◌<◌, ◌≡◌, refl, sym, ap, ◌∙◌, inl, inr, not, if◌then◌else◌, Bool-cases, List,
  [], ◌∷◌, ◌++◌, length, length-append, arith,
}
use gbf_core.Base.Bytes.{Bytes, bytes_eq}
use gbf_core.Base.Int64.{ℤ, to_word, of_word, add64}
use gbf_core.Base.Text.{split, join}
use gbf_core.Manifest.{
  FileEntry, Dir, Dirs, Manifest, empty_dir, change, normalize_manifest_path, split_path, mem_name,
  add_sub_dir, add_entry, ensure_parents, ensure_parent_dirs, add_file, add_empty_dir,
}

-- The number of files, and the sum of their sizes as an int64 keeps it.
abbrev pub count_files : Dirs → ℕ
count_files [] = 0
count_files ((k, d) ∷ ds) = length d.files + count_files ds

abbrev pub sum_sizes : List FileEntry → ℕ
sum_sizes [] = 0
sum_sizes (f ∷ fs) = to_word f.size + sum_sizes fs

abbrev pub sum_dirs : Dirs → ℕ
sum_dirs [] = 0
sum_dirs ((k, d) ∷ ds) = sum_sizes d.files + sum_dirs ds

abbrev pub StatsAgree : Manifest → Type 0
StatsAgree m =
    (m.stats.file_count ≡ count_files m.dirs)
    × (m.stats.total_size ≡ of_word (sum_dirs m.dirs % 2 ^ 64))

sum_sizes-append :
    (xs : List FileEntry) (f : FileEntry) → sum_sizes (xs ++ f ∷ []) ≡ sum_sizes xs + to_word f.size
sum_sizes-append [] f = omega arith
sum_sizes-append (x ∷ xs) f = omega (arith, sum_sizes-append xs f)

pub word_of_word : (u : ℕ) → u < 2 ^ 64 → to_word (of_word u) ≡ u
word_of_word u h = ground arith

pub add64-sum :
    (n : ℕ) (z : ℤ) → add64 (of_word (n % 2 ^ 64)) z ≡ of_word ((n + to_word z) % 2 ^ 64)
unfolding add64
add64-sum n z = ap of_word (rw (word_of_word (n % 2 ^ 64) (omega arith)) (omega arith))

-- A change that adds n files of sizes z to a directory.
change-counts :
    (f : Dir → Dir) (dirs : Dirs) (key : Bytes) (n z : ℕ)
    → ((d : Dir)
        → (length (f d).files ≡ length d.files + n)
          × (sum_sizes (f d).files ≡ sum_sizes d.files + z))
    → (count_files (change f dirs key) ≡ count_files dirs + n)
      × (sum_dirs (change f dirs key) ≡ sum_dirs dirs + z)
unfolding change
change-counts f [] key n z step =
    let (a, b) = step empty_dir in (omega (arith, a), omega (arith, b))
change-counts f ((k, d) ∷ ds) key n z step =
    let (a, b) = step d in
    let (a', b') = change-counts f ds key n z step in
    elim (Bool-cases (bytes_eq k key)) [
      | inl same ↦ rw same (omega (arith, a), omega (arith, b))
      | inr other ↦ rw other (omega (arith, a'), omega (arith, b'))
    ]

add_sub_dir-files : (child : Bytes) (d : Dir) → (add_sub_dir child d).files ≡ d.files
unfolding add_sub_dir
add_sub_dir-files child d = elim (Bool-cases (mem_name child d.sub_dirs)) [
  | inl listed ↦ rw listed refl
  | inr fresh ↦ rw fresh refl
]

listing-counts :
    (child : Bytes) (dirs : Dirs) (key : Bytes)
    → (count_files (change (add_sub_dir child) dirs key) ≡ count_files dirs)
      × (sum_dirs (change (add_sub_dir child) dirs key) ≡ sum_dirs dirs)
listing-counts child dirs key =
    let (a, b) =
      change-counts (add_sub_dir child) dirs key 0 0
        (λ d. let e = add_sub_dir-files child d in (rw e (omega arith), rw e (omega arith))) in
    (omega (arith, a), omega (arith, b))

ensure_parents-counts :
    (dirs : Dirs) (before parts : List Bytes)
    → (count_files (ensure_parents dirs before parts) ≡ count_files dirs)
      × (sum_dirs (ensure_parents dirs before parts) ≡ sum_dirs dirs)
unfolding ensure_parents
ensure_parents-counts dirs before [] = (refl, refl)
ensure_parents-counts dirs before (child ∷ parts) =
    let (a, b) = listing-counts child dirs (join before) in
    let (a', b') =
      ensure_parents-counts (change (add_sub_dir child) dirs (join before)) (before ++ child ∷ [])
        parts in
    (a' ∙ a, b' ∙ b)

with_parents-counts :
    (dirs : Dirs) (dir : Bytes)
    → let after = if not (bytes_eq dir []) then ensure_parent_dirs dirs dir else dirs in
      (count_files after ≡ count_files dirs) × (sum_dirs after ≡ sum_dirs dirs)
unfolding ensure_parent_dirs
with_parents-counts dirs dir = elim (Bool-cases (bytes_eq dir [])) [
  | inl top ↦ rw top (refl, refl)
  | inr below ↦ rw below (ensure_parents-counts dirs [] (split dir))
]

-- If the statistics are the number of files and the int64 sum of their sizes, they still are after
-- a file of any path and size is added, also where the sum wraps.
pub add_file-StatsAgree :
    (m : Manifest) (entry : FileEntry) → StatsAgree m → StatsAgree (add_file m entry)
unfolding add_file add_entry
add_file-StatsAgree m entry (count, total) =
    let (dir, base) = split_path (normalize_manifest_path entry.name) in
    let f = add_entry (record entry { name = base }) in
    let (a, b) =
      change-counts f m.dirs dir 1 (to_word entry.size)
        (λ d. (length-append d.files _, sum_sizes-append d.files _)) in
    let (a', b') = with_parents-counts (change f m.dirs dir) dir in
    (
      omega (arith, count, a, a'),
      ap (λ t. add64 t entry.size) total
          ∙ add64-sum (sum_dirs m.dirs) entry.size
          ∙ ap (λ (n : ℕ). of_word (n % 2 ^ 64)) (sym (b' ∙ b)),
    )

-- An empty directory changes neither the files nor the statistics.
pub add_empty_dir-StatsAgree :
    (m : Manifest) (path : Bytes) → StatsAgree m → StatsAgree (add_empty_dir m path)
unfolding add_empty_dir ensure_parent_dirs
add_empty_dir-StatsAgree m path (count, total) =
    let p = normalize_manifest_path path in
    let dirs = change (λ d. d) m.dirs p in
    let (a, b) = change-counts (λ d. d) m.dirs p 0 0 (λ d. (omega arith, omega arith)) in
    let counts : (d : Dirs)
        → (count_files d ≡ count_files dirs)
        → (sum_dirs d ≡ sum_dirs dirs)
        → StatsAgree (record m { dirs = d }) =
      λ d x y. (
        omega (arith, count, a, x),
        total
            ∙ ap (λ (n : ℕ). of_word (n % 2 ^ 64))
                (let e : sum_dirs m.dirs ≡ sum_dirs d = omega (arith, b, y) in e),
      ) in
    elim (Bool-cases (bytes_eq p [])) [
      | inl blank ↦ rw blank (count, total)
      | inr full ↦ elim (Bool-cases (bytes_eq (split_path p).1 [])) [
        | inl unnamed ↦ rw (full, unnamed) (count, total)
        | inr named ↦ elim (Bool-cases (bytes_eq (split_path p).0 [])) [
          | inl top ↦
              let (x, y) = listing-counts (split_path p).1 dirs [] in
              rw (full, named, top) (counts (change (add_sub_dir (split_path p).1) dirs []) x y)
          | inr below ↦
              let (x, y) = ensure_parents-counts dirs [] (split p) in
              rw (full, named, below) (counts (ensure_parent_dirs dirs p) x y)
        ]
      ]
    ]
