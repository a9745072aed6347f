-- ===== src/Manifest/Tree.antt =====
-- AddFile and AddEmptyDir keep the tree closed and its statistics true.
use gbf_core.Base.{
  ℕ, suc, ◌≡◌, refl, sym, ap, ◌∙◌, ◌⊎◌, inl, inr, ◌==◌, true, false, not, if◌then◌else◌, Bool-cases,
  List, [], ◌∷◌, ◌++◌, append_assoc, append-nil, take, Option-cases, All, All-map, arith, ==_iff,
  none, some,
}
use gbf_core.Base.Bytes.{Bytes, bytes_eq, bytes_eq_iff, bytes_eq_refl}
use gbf_core.Base.Text.{slash, split, join, last_index, has_prefix}
use gbf_core.Manifest.{
  FileEntry, Dir, Dirs, Manifest, empty_dir, has_key, change, normalize_manifest_path, split_path,
  mem_name, add_sub_dir, add_entry, ensure_parents, ensure_parent_dirs, add_file, add_empty_dir,
  child_path,
}

-- Every listed directory is an entry, or is `pending`.
abbrev pub Listed : Dirs → Bytes → Bytes × Dir → Type 0
Listed dirs pending (k, d) =
    All (λ s. (has_key dirs (child_path k s) ≡ true) ⊎ (child_path k s ≡ pending)) d.sub_dirs

abbrev pub ClosedBut : Dirs → Bytes → Type 0
ClosedBut dirs pending = All (Listed dirs pending) dirs

-- Every listed directory is an entry: the tree has no dangling link.
abbrev pub IsClosed : Dirs → Type 0
IsClosed dirs =
    All (λ (e : Bytes × Dir). All (λ s. has_key dirs (child_path e.0 s) ≡ true) e.1.sub_dirs) dirs

All-append {ℓ κ} :
    {A : Type ℓ} (P : A → Type κ) (xs ys : List A) → All P xs → All P ys → All P (xs ++ ys)
All-append P [] ys p q = q
All-append P (x ∷ xs) ys (p, ps) q = (p, All-append P xs ys ps q)

change-has_key :
    (f : Dir → Dir) (dirs : Dirs) (key : Bytes) → has_key (change f dirs key) key ≡ true
unfolding change has_key
change-has_key f [] key = rw (bytes_eq_refl key) refl
change-has_key f ((k, d) ∷ ds) key = elim (Bool-cases (bytes_eq k key)) [
  | inl same ↦ rw same (rw same refl)
  | inr other ↦ rw other (rw (other, change-has_key f ds key) refl)
]

change-keeps :
    (f : Dir → Dir) (dirs : Dirs) (key other : Bytes)
    → has_key dirs other ≡ true
    → has_key (change f dirs key) other ≡ true
unfolding change has_key
change-keeps f [] key other h = cc
change-keeps f ((k, d) ∷ ds) key other h = elim (Bool-cases (bytes_eq k key)) [
  | inl same ↦ rw same h
  | inr differ ↦ rw differ (elim (Bool-cases (bytes_eq k other)) [
    | inl here ↦ rw here refl
    | inr there ↦ rw (there, change-keeps f ds key other (rw there at h)) refl
  ])
]

-- What holds of each entry holds after a change that keeps it.
change-All {κ} :
    (P : Bytes × Dir → Type κ) (f : Dir → Dir) (dirs : Dirs) (key : Bytes)
    → ((d : Dir) → P (key, d) → P (key, f d))
    → P (key, f empty_dir)
    → All P dirs
    → All P (change f dirs key)
unfolding change
change-All P f [] key step fresh all = (fresh, tt)
change-All P f ((k, d) ∷ ds) key step fresh (p, all) = elim (Bool-cases (bytes_eq k key)) [
  | inl same ↦ let e = (bytes_eq_iff k key).0 same in rw same (rw e (step d (rw (← e) p)), all)
  | inr other ↦ rw other (p, change-All P f ds key step fresh all)
]

-- A change that lists no more than `child` leaves `child` pending at most.
change-ClosedBut :
    (f : Dir → Dir) (dirs : Dirs) (key next : Bytes)
    → ((P : Bytes → Type 0) (d : Dir)
        → (P next)
        → All (λ s. P (child_path key s)) d.sub_dirs
        → All (λ s. P (child_path key s)) (f d).sub_dirs)
    → ClosedBut dirs key
    → ClosedBut (change f dirs key) next
change-ClosedBut f dirs key next step closed =
    let P : Bytes → Type 0 = λ c. (has_key (change f dirs key) c ≡ true) ⊎ (c ≡ next) in
    let now : All (Listed (change f dirs key) next) dirs =
      All-map dirs
        (λ e. All-map e.1.sub_dirs (λ s h. elim h [
          | inl there ↦ inl (change-keeps f dirs key _ there)
          | inr k ↦ inl (ap (has_key (change f dirs key)) k ∙ change-has_key f dirs key)
        ]))
        closed in
    change-All (Listed (change f dirs key) next) f dirs key (λ d. step P d (inr refl))
      (step P empty_dir (inr refl) tt) now

add_sub_dir-All :
    (P : Bytes → Type 0) (child : Bytes) (d : Dir)
    → P child
    → All P d.sub_dirs
    → All P (add_sub_dir child d).sub_dirs
unfolding add_sub_dir
add_sub_dir-All P child d p all = elim (Bool-cases (mem_name child d.sub_dirs)) [
  | inl listed ↦ rw listed all
  | inr fresh ↦ rw fresh (All-append P d.sub_dirs (child ∷ []) all (p, tt))
]

-- A pending directory that is there closes the tree.
close : (dirs : Dirs) (key : Bytes) → has_key dirs key ≡ true → ClosedBut dirs key → IsClosed dirs
close dirs key there closed =
    All-map dirs
      (λ e.
        All-map e.1.sub_dirs (λ s h. elim h [ inl t ↦ t | inr k ↦ ap (has_key dirs) k ∙ there ]))
      closed

open_ : (dirs : Dirs) (key : Bytes) → IsClosed dirs → ClosedBut dirs key
open_ dirs key closed = All-map dirs (λ e. All-map e.1.sub_dirs (λ s h. inl h)) closed

join-snoc :
    (first : Bytes) (more : List Bytes) (child : Bytes)
    → join ((first ∷ more) ++ child ∷ []) ≡ join (first ∷ more) ++ slash ∷ child
unfolding join
join-snoc first [] child = refl
join-snoc first (m ∷ more) child =
    rw (join-snoc m more child) (sym (append_assoc first (slash ∷ join (m ∷ more)) (slash ∷ child)))

join-full :
    (c : ℕ) (first : Bytes) (more : List Bytes) → bytes_eq (join ((c ∷ first) ∷ more)) [] ≡ false
unfolding join bytes_eq
join-full c first [] = refl
join-full c first (m ∷ more) = refl

join-child :
    (c : ℕ) (first : Bytes) (more : List Bytes) (child : Bytes)
    → child_path (join ((c ∷ first) ∷ more)) child ≡ join (((c ∷ first) ∷ more) ++ child ∷ [])
unfolding child_path
join-child c first more child = rw (join-full c first more) (sym (join-snoc (c ∷ first) more child))

step-ClosedBut :
    (dirs : Dirs) (key child next : Bytes)
    → child_path key child ≡ next
    → ClosedBut dirs key
    → ClosedBut (change (add_sub_dir child) dirs key) next
step-ClosedBut dirs key child next e closed =
    change-ClosedBut (add_sub_dir child) dirs key next
      (λ P d p all. add_sub_dir-All (λ s. P (child_path key s)) child d (rw e p) all) closed

-- The loop from its second turn on.
ensure_parents-IsClosed :
    (dirs : Dirs) (c : ℕ) (first : Bytes) (more parts : List Bytes)
    → ClosedBut dirs (join ((c ∷ first) ∷ more))
    → has_key dirs (join (((c ∷ first) ∷ more) ++ parts)) ≡ true
    → IsClosed (ensure_parents dirs ((c ∷ first) ∷ more) parts)
unfolding ensure_parents
ensure_parents-IsClosed dirs c first more [] closed there =
    close dirs (join ((c ∷ first) ∷ more))
      (ap (λ (l : List Bytes). has_key dirs (join l)) (sym (append-nil ((c ∷ first) ∷ more)))
        ∙ there)
      closed
ensure_parents-IsClosed dirs c first more (child ∷ parts) closed there =
    let key = join ((c ∷ first) ∷ more) in
    ensure_parents-IsClosed (change (add_sub_dir child) dirs key) c first (more ++ child ∷ []) parts
      (step-ClosedBut dirs key child _ (join-child c first more child) closed)
      (change-keeps (add_sub_dir child) dirs key _ (
        ap (λ (l : List Bytes). has_key dirs (join ((c ∷ first) ∷ l)))
          (append_assoc more (child ∷ []) parts)
        ∙ there))

split-∷ : (s : Bytes) → (p : Bytes) × (ps : List Bytes) × (split s ≡ p ∷ ps)
unfolding split
split-∷ [] = ([], [], refl)
split-∷ (c ∷ s) = elim (Bool-cases (c == slash)) [
  | inl cut ↦ rw cut ([], split s, refl)
  | inr on ↦ let (p, ps, e) = split-∷ s in rw on (rw e (c ∷ p, ps, refl))
]

split-first :
    (c : ℕ) (s : Bytes)
    → (c == slash) ≡ false
    → (t : Bytes) × (ts : List Bytes) × (split (c ∷ s) ≡ (c ∷ t) ∷ ts)
unfolding split
split-first c s h = let (p, ps, e) = split-∷ s in rw h (rw e (p, ps, refl))

join-∷ : (c : ℕ) (p : Bytes) (ps : List Bytes) → join ((c ∷ p) ∷ ps) ≡ c ∷ join (p ∷ ps)
unfolding join
join-∷ c p [] = refl
join-∷ c p (q ∷ ps) = refl

join-nil : join ([] ∷ []) ≡ []
unfolding join
join-nil = refl

join-slash : (p : Bytes) (ps : List Bytes) → join ([] ∷ (p ∷ ps)) ≡ slash ∷ join (p ∷ ps)
unfolding join
join-slash p ps = refl

join-split : (s : Bytes) → join (split s) ≡ s
unfolding split
join-split [] = join-nil
join-split (c ∷ s) =
    let (p, ps, e) = split-∷ s in
    let rest : join (p ∷ ps) ≡ s = ap join (sym e) ∙ join-split s in
    elim (Bool-cases (c == slash)) [
      | inl cut ↦ rw cut (
          rw e (
            join-slash p ps
            ∙ ap (λ t. slash ∷ t) rest
            ∙ ap (λ d. d ∷ s) (sym ((==_iff c slash).0 cut))))
      | inr on ↦ rw on (rw e (join-∷ c p ps ∙ ap (λ t. c ∷ t) rest))
    ]

child_path-root : (name : Bytes) → child_path [] name ≡ name
unfolding child_path bytes_eq
child_path-root name = refl

-- The directories above an entry are made and listed, and the tree is closed again.
ensure_parent_dirs-IsClosed :
    (dirs : Dirs) (c : ℕ) (s : Bytes)
    → (c == slash) ≡ false
    → IsClosed dirs
    → has_key dirs (c ∷ s) ≡ true
    → IsClosed (ensure_parent_dirs dirs (c ∷ s))
unfolding ensure_parent_dirs ensure_parents join
ensure_parent_dirs-IsClosed dirs c s h closed there =
    let (t, ts, e) = split-first c s h in
    let whole : join ((c ∷ t) ∷ ts) ≡ c ∷ s = ap join (sym e) ∙ join-split (c ∷ s) in
    rw e (
      ensure_parents-IsClosed (change (add_sub_dir (c ∷ t)) dirs []) c t [] ts
        (step-ClosedBut dirs [] (c ∷ t) (c ∷ t) (child_path-root (c ∷ t)) (open_ dirs [] closed))
        (change-keeps (add_sub_dir (c ∷ t)) dirs [] _ (ap (has_key dirs) whole ∙ there)))

-- The directory of a path that is not absolute.
data Place (p : Bytes) : Type 0 where
  at_root : (split_path p).0 ≡ [] → (split_path p).1 ≡ p → Place p
  below : (c : ℕ) (t : Bytes) → (c == slash) ≡ false → (split_path p).0 ≡ c ∷ t → Place p

first_byte : (c : ℕ) (s : Bytes) → has_prefix (c ∷ s) (slash ∷ []) ≡ false → (c == slash) ≡ false
unfolding has_prefix bytes_eq
first_byte c s h = ground arith

last_index-nil : last_index [] slash ≡ none
unfolding last_index
last_index-nil = refl

last_index-none :
    (c : ℕ) (s : Bytes)
    → last_index s slash ≡ none
    → (c == slash) ≡ false
    → last_index (c ∷ s) slash ≡ none
unfolding last_index
last_index-none c s e h = rw (e, h) refl

last_index-some :
    (c : ℕ) (s : Bytes) (i : ℕ)
    → last_index s slash ≡ some i
    → last_index (c ∷ s) slash ≡ some (suc i)
unfolding last_index
last_index-some c s i e = rw e refl

place : (p : Bytes) → has_prefix p (slash ∷ []) ≡ false → Place p
unfolding split_path
place [] h = let e = last_index-nil in at_root (rw (e, split_path) refl) (rw (e, split_path) refl)
place (c ∷ s) h =
    let differ = first_byte c s h in
    elim (Option-cases (last_index s slash)) [
      | inl none_ ↦
          (let e = last_index-none c s none_ differ in
            at_root (rw (e, split_path) refl) (rw (e, split_path) refl))
      | inr (i, found) ↦
          (let e = last_index-some c s i found in
            below c (take i s) differ (rw (e, split_path) refl))
    ]

-- A change of a directory that lists nothing more.
change-IsClosed :
    (f : Dir → Dir) (dirs : Dirs) (key : Bytes)
    → ((d : Dir) → (f d).sub_dirs ≡ d.sub_dirs)
    → IsClosed dirs
    → IsClosed (change f dirs key)
change-IsClosed f dirs key same closed =
    close (change f dirs key) key (change-has_key f dirs key)
      (change-ClosedBut f dirs key key (λ P d p all. rw (same d) all) (open_ dirs key closed))

-- The directory that the entry is put in, with the directories above it.
with_parents-IsClosed :
    (dirs : Dirs) (p : Bytes)
    → Place p
    → IsClosed dirs
    → has_key dirs (split_path p).0 ≡ true
    → IsClosed (
        if not (bytes_eq (split_path p).0 [])
        then ensure_parent_dirs dirs (split_path p).0
        else dirs)
unfolding bytes_eq
with_parents-IsClosed dirs p (at_root e _) closed there = rw e closed
with_parents-IsClosed dirs p (below c t h e) closed there =
    rw e (ensure_parent_dirs-IsClosed dirs c t h closed (rw e at there))

-- In a manifest where every listed directory is an entry, adding a file whose path does not begin
-- with two slashes keeps every listed directory an entry.
pub add_file-IsClosed :
    (m : Manifest) (entry : FileEntry)
    → has_prefix (normalize_manifest_path entry.name) (slash ∷ []) ≡ false
    → IsClosed m.dirs
    → IsClosed (add_file m entry).dirs
unfolding add_file add_entry
add_file-IsClosed m entry h closed =
    let p = normalize_manifest_path entry.name in
    let f = add_entry (record entry { name = (split_path p).1 }) in
    with_parents-IsClosed (change f m.dirs (split_path p).0) p (place p h)
      (change-IsClosed f m.dirs (split_path p).0 (λ d. refl) closed)
      (change-has_key f m.dirs (split_path p).0)

at_root-IsClosed :
    (dirs : Dirs) (p : Bytes)
    → IsClosed dirs
    → has_key dirs p ≡ true
    → IsClosed (change (add_sub_dir p) dirs [])
at_root-IsClosed dirs p closed there =
    close (change (add_sub_dir p) dirs []) p (change-keeps (add_sub_dir p) dirs [] p there)
      (step-ClosedBut dirs [] p p (child_path-root p) (open_ dirs [] closed))

with_listing-IsClosed :
    (dirs : Dirs) (p : Bytes)
    → has_prefix p (slash ∷ []) ≡ false
    → (bytes_eq p [] ≡ false)
    → IsClosed dirs
    → has_key dirs p ≡ true
    → IsClosed (
        if not (bytes_eq (split_path p).0 [])
        then ensure_parent_dirs dirs p
        else change (add_sub_dir (split_path p).1) dirs [])
unfolding bytes_eq
with_listing-IsClosed dirs [] h full closed there = cc
with_listing-IsClosed dirs (c ∷ s) h full closed there = elim (place (c ∷ s) h) [
  | at_root e name ↦ rw (e, name) (at_root-IsClosed dirs (c ∷ s) closed there)
  | below d t _ e ↦ rw e (ensure_parent_dirs-IsClosed dirs c s (first_byte c s h) closed there)
]

-- In a manifest where every listed directory is an entry, adding an empty directory whose path does
-- not begin with two slashes keeps every listed directory an entry.
pub add_empty_dir-IsClosed :
    (m : Manifest) (path : Bytes)
    → has_prefix (normalize_manifest_path path) (slash ∷ []) ≡ false
    → IsClosed m.dirs
    → IsClosed (add_empty_dir m path).dirs
unfolding add_empty_dir
add_empty_dir-IsClosed m path h closed =
    let p = normalize_manifest_path path in
    let dirs = change (λ d. d) m.dirs p in
    elim (Bool-cases (bytes_eq p [])) [
      | inl blank ↦ rw blank closed
      | inr full ↦ elim (Bool-cases (bytes_eq (split_path p).1 [])) [
        | inl unnamed ↦ rw (full, unnamed) closed
        | inr named ↦
            rw (full, named)
              (with_listing-IsClosed dirs p h full
                (change-IsClosed (λ d. d) m.dirs p (λ d. refl) closed)
                (change-has_key (λ d. d) m.dirs p))
      ]
    ]
