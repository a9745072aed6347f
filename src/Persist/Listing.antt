-- ===== src/Persist/Listing.antt =====
-- Finding the manifests of a source: isManifestFile, readManifestFiles, ManifestExistsByTimestamp,
-- LoadManifestByTimestamp, ParseManifestFilenameTimestamp and LoadLatestManifest of simple/manifest.go.
-- What os.ReadDir gives is an argument, and `load` is LoadManifest of a file of the directory.
use gbf_core.Base.{
  ltb, ◌==◌, Bool, true, false, not, ◌||◌, if◌then◌else◌, Option, none, some, List, [], ◌∷◌, ◌++◌,
  length, take, Result, ok, err,
}
use gbf_core.Base.Bytes.{Bytes, codes}
use gbf_core.Base.Int64.{ℤ, pos, ltℤ}
use gbf_core.Base.Text.{contains, has_suffix, has_prefix, last_index, index}
use gbf_core.Disk.{DiskError, not_exist, DiskFaults, Files}
use gbf_core.Manifest.{Manifest}
use gbf_core.Persist.{Codec, V1Manifest}
use gbf_core.Persist.Load.{LoadError, load_manifest}

-- `isManifestFile`
unfoldable pub is_manifest_file : Bytes → Bool
is_manifest_file name =
    if contains name (codes ".alive.")
    then false
    else has_suffix name (codes ".json.zst") || has_suffix name (codes ".json")

-- An entry of a directory, with its time of modification where it can be read.
pub record DirEntry : Type 0 where
  pub name : Bytes
  pub is_dir : Bool
  pub mod_nano : Option ℤ

-- `readManifestDirEntries` and `readManifestFiles` of a directory that was read.
unfoldable pub manifest_dir_entries : List DirEntry → List DirEntry
manifest_dir_entries [] = []
manifest_dir_entries (e ∷ es) =
    let rest = manifest_dir_entries es in if e.is_dir then rest else e ∷ rest

unfoldable pub only_manifests : List DirEntry → List DirEntry
only_manifests [] = []
only_manifests (e ∷ es) =
    let rest = only_manifests es in if is_manifest_file e.name then e ∷ rest else rest

unfoldable pub manifest_files : List DirEntry → List DirEntry
manifest_files es = only_manifests (manifest_dir_entries es)

pub data FindError : Type 0 where
  manifest_not_found dir_unreadable bad_timestamp : FindError
  load_failed : LoadError → FindError

-- `LoadManifest(filepath.Join(dir, name))`
unfoldable pub load_in :
    Codec Manifest
    → (Bytes → Option V1Manifest)
    → (Bytes → Bool)
    → (Bytes → Bool)
    → Option (Bytes → Option Bytes)
    → DiskFaults
    → Bytes
    → Files
    → Bytes
    → Result LoadError Manifest
load_in c unmarshal_v1 is_abs is_rfc3339 hook f dir files name =
    load_manifest c unmarshal_v1 is_abs is_rfc3339 hook f (dir ++ (codes "/" ++ name)) files

-- `firstErr` behind one more failure.
unfoldable pub keep_first : Option LoadError → LoadError → Option LoadError
keep_first none e = some e
keep_first (some d) e = some d

-- The loop over the candidates: the first that loads.
unfoldable pub try_load :
    (Bytes → Result LoadError Manifest) → Option LoadError → List Bytes → Result FindError Manifest
try_load load none [] = err manifest_not_found
try_load load (some e) [] = err (load_failed e)
try_load load first (name ∷ names) = elim (load name) [
  | ok m ↦ ok m
  | err e ↦ try_load load (keep_first first e) names
]

-- The names with a prefix.
unfoldable pub with_prefix : Bytes → List DirEntry → List Bytes
with_prefix prefix [] = []
with_prefix prefix (e ∷ es) =
    let rest = with_prefix prefix es in if has_prefix e.name prefix then e.name ∷ rest else rest

-- What a failure of os.ReadDir is reported as.
unfoldable pub find_error : DiskError → FindError
find_error not_exist = manifest_not_found
find_error e = dir_unreadable

-- `candidate` of `LoadLatestManifest`
pub record Candidate : Type 0 where
  pub name : Bytes
  pub unix_sec : ℤ
  pub mod_nano : ℤ

-- `a != b` of int64 numbers, and `a > b` of strings.
unfoldable pub differ : ℤ → ℤ → Bool
differ a b = ltℤ a b || ltℤ b a

unfoldable pub greater : Bytes → Bytes → Bool
greater [] t = false
greater (c ∷ s) [] = true
greater (c ∷ s) (d ∷ t) = let rest = greater s t in if c == d then rest else ltb d c

-- The order of the candidates: newest first.
unfoldable pub newer : Candidate → Candidate → Bool
newer a b =
    if differ a.unix_sec b.unix_sec
    then ltℤ b.unix_sec a.unix_sec
    else if differ a.mod_nano b.mod_nano
    then ltℤ b.mod_nano a.mod_nano
    else greater a.name b.name

-- sort.Slice in that order, which is total on distinct names, so that every sort gives one result.
unfoldable pub insert : Candidate → List Candidate → List Candidate
insert x [] = x ∷ []
insert x (y ∷ ys) = let rest = insert x ys in if newer x y then x ∷ (y ∷ ys) else y ∷ rest

unfoldable pub sort : List Candidate → List Candidate
sort [] = []
sort (x ∷ xs) = insert x (sort xs)

unfoldable pub names_of : List Candidate → List Bytes
names_of [] = []
names_of (c ∷ cs) = c.name ∷ names_of cs

-- The part before the last dot, unless the dot stands first.
unfoldable pub strip_extension : Bytes → Bytes
strip_extension name = elim (last_index name b'.') [
  | none ↦ name
  | some idx ↦ if ltb 0 idx then take idx name else name
]

-- `parts[0]` of a split at the first underscore
unfoldable pub before_underscore : Bytes → Bytes
before_underscore name = elim (index name (codes "_")) [ none ↦ name | some i ↦ take i name ]

-- `parse_int` is strconv.ParseInt, `format` the text of a Unix time as RFC 3339, `parse_time` the Unix
-- time of such a text, and `decimal` the format %d.
module _ (parse_int : Bytes → Option ℤ) (format : ℤ → Bytes) (parse_time : Bytes → Option ℤ)
    (decimal : ℤ → Bytes) where
  -- `ParseManifestFilenameTimestamp`
  unfoldable pub parse_manifest_filename_timestamp : Bytes → Option Bytes
  parse_manifest_filename_timestamp filename =
      elim (parse_int (before_underscore (strip_extension (strip_extension filename)))) [
        | none ↦ none
        | some unix_sec ↦ some (format unix_sec)
      ]

  unfoldable pub or_zero : Option ℤ → ℤ
  or_zero none = pos 0
  or_zero (some v) = v

  -- The loop of `LoadLatestManifest` that collects the candidates.
  unfoldable pub candidates : List DirEntry → List Candidate
  candidates [] = []
  candidates (e ∷ es) =
      let rest = candidates es in
      elim (parse_manifest_filename_timestamp e.name) [
        | none ↦ rest
        | some ts ↦
            record {
              name = e.name;
              unix_sec = or_zero (parse_time ts);
              mod_nano = or_zero e.mod_nano;
            }
            ∷ rest
      ]

  -- `LoadLatestManifest`
  unfoldable pub load_latest_manifest :
      (Bytes → Result LoadError Manifest)
      → Result DiskError (List DirEntry)
      → Result FindError Manifest
  load_latest_manifest load (err e) = err (find_error e)
  load_latest_manifest load (ok entries) =
      try_load load none (names_of (sort (candidates (manifest_files entries))))

  -- `ManifestExistsByTimestamp`
  unfoldable pub manifest_exists_by_timestamp : ℤ → Result DiskError (List DirEntry) → Bool
  manifest_exists_by_timestamp unix_sec (err e) = false
  manifest_exists_by_timestamp unix_sec (ok entries) =
      not (length (with_prefix (decimal unix_sec ++ codes "_") (manifest_files entries)) == 0)

  -- `LoadManifestByTimestamp`
  unfoldable pub load_manifest_by_timestamp :
      (Bytes → Result LoadError Manifest)
      → Bytes
      → Result DiskError (List DirEntry)
      → Result FindError Manifest
  load_manifest_by_timestamp load timestamp listing = elim (parse_time timestamp) [
    | none ↦ err bad_timestamp
    | some ts ↦ elim listing [
      | err e ↦ err (find_error e)
      | ok entries ↦
          try_load load none (with_prefix (decimal ts ++ codes "_") (manifest_files entries))
    ]
  ]
