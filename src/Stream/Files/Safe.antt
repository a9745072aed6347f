-- ===== src/Stream/Files/Safe.antt =====
-- DownloadBlobToFile of simple/stream.go: the files after a download.
use gbf_core.Base.{
  ◌≡◌, refl, ◌⊎◌, inl, inr, Bool, Bool-cases, Option, none, some, Result, ok, err, Result-cases,
  ok-injective,
}
use gbf_core.Base.Bytes.{Bytes, bytes_eq, bytes_eq_iff}
use gbf_core.Crypto.Aead.{Aead, Zstd}
use gbf_core.Crypto.Encrypt.{Cryptor}
use gbf_core.Store.{Store, set_file, tmp_path}
use gbf_core.Disk.{Files, DiskFaults, remove_quietly}
use gbf_core.Disk.Atomic.{Same, set_file-Same, remove_quietly-Same}
use gbf_core.Stream.Files.{
  TransferError, mkdir_failed, create_failed, write_failed, sync_failed, close_failed,
  rename_failed, checked, write_stream, write_buffered, download_blob_to_file,
}

Same-refl : (tmp : Bytes) (files : Files) → Same tmp files files
Same-refl tmp files q h = refl

moved-Same :
    (tmp target : Bytes) (c : Option Bytes) (files : Files)
    → Same tmp (set_file files target c) (set_file (set_file files tmp none) target c)
unfolding set_file
moved-Same tmp target c files q h = rw h refl

module _ (sha256_hex : Bytes → Bytes) (a : Aead) (z : Zstd) where
  -- How a download ends: with an error, when nothing but the temporary name has changed, or with the
  -- target holding a content of the hash, and every other path but the temporary name as it was.
  abbrev pub IsDownload :
      Bytes → Bytes → Bytes → Files → Result TransferError (Unit {0}) × Files → Type 0
  IsDownload hash tmp target files out =
      ((x : TransferError) × (t : Files) × Same tmp files t × (out ≡ (err x, t)))
      ⊎ ((p : Bytes) × (t : Files) × (sha256_hex p ≡ hash)
          × Same tmp (set_file files target (some p)) t
          × (out ≡ (ok tt, t)))

  checked-ok :
      (hash : Bytes) (r : Result TransferError Bytes) {p : Bytes}
      → checked sha256_hex a z hash r ≡ ok p
      → sha256_hex p ≡ hash
  unfolding checked
  checked-ok hash (err x) h = cc
  checked-ok hash (ok q) {p} h = elim (Bool-cases (bytes_eq (sha256_hex q) hash)) [
    | inr other ↦ absurd (let x = rw (checked, other) at h in cc)
    | inl same ↦
        let e : q ≡ p = ok-injective (rw (checked, same) at h) in
        rw (← e) ((bytes_eq_iff (sha256_hex q) hash).0 same)
  ]

  module _ (t : DiskFaults) (hash tmp target : Bytes) (files : Files) where
    torn-Same : (c : Option Bytes) → Same tmp files (remove_quietly t tmp (set_file files tmp c))
    torn-Same c =
        remove_quietly-Same t tmp files (set_file files tmp c)
          (set_file-Same tmp c files files (Same-refl tmp files))

    write_stream-IsDownload :
        (plain : Result TransferError Bytes)
        → ((p : Bytes) → plain ≡ ok p → sha256_hex p ≡ hash)
        → IsDownload hash tmp target files (write_stream sha256_hex a z t tmp target plain files)
    unfolding write_stream remove_quietly
    write_stream-IsDownload plain good = elim (Bool-cases t.mkdir) [
      | inl b ↦ inl (mkdir_failed, files, Same-refl tmp files, rw (write_stream, b))
      | inr b ↦ elim (Bool-cases t.create) [
        | inl c ↦ inl (create_failed, files, Same-refl tmp files, rw (write_stream, b, c))
        | inr c ↦ elim (Bool-cases t.write) [
          | inl d ↦ inl (write_failed, _, torn-Same (some t.partial), rw (write_stream, b, c, d))
          | inr d ↦ elim (Result-cases plain) [
            | inr (x, e) ↦ inl (x, _, torn-Same (some t.partial), rw (write_stream, b, c, d, e))
            | inl (p, e) ↦ elim (Bool-cases t.sync) [
              | inl g ↦
                  inl (sync_failed, _, torn-Same (some t.partial), rw (write_stream, b, c, d, e, g))
              | inr g ↦ elim (Bool-cases t.close) [
                | inl h ↦ inl (
                  close_failed,
                  _,
                  torn-Same (some t.partial),
                  rw (write_stream, b, c, d, e, g, h),
                )
                | inr h ↦ elim (Bool-cases t.rename) [
                  | inl i ↦
                      inl (
                        rename_failed,
                        _,
                        torn-Same (some p),
                        rw (write_stream, b, c, d, e, g, h, i),
                      )
                  | inr i ↦ inr (
                    p,
                    _,
                    good p e,
                    moved-Same tmp target (some p) files,
                    rw (write_stream, b, c, d, e, g, h, i),
                  )
                ]
              ]
            ]
          ]
        ]
      ]
    ]

    write_buffered-IsDownload :
        (plain : Result TransferError Bytes)
        → ((p : Bytes) → plain ≡ ok p → sha256_hex p ≡ hash)
        → IsDownload hash tmp target files (write_buffered sha256_hex a z t tmp target plain files)
    unfolding write_buffered
    write_buffered-IsDownload plain good = elim (Result-cases plain) [
      | inr (x, e) ↦ inl (x, files, Same-refl tmp files, rw (write_buffered, e))
      | inl (p, e) ↦ elim (Bool-cases t.mkdir) [
        | inl b ↦ inl (mkdir_failed, files, Same-refl tmp files, rw (write_buffered, e, b))
        | inr b ↦ elim (Bool-cases t.create) [
          | inl c ↦ inl (create_failed, files, Same-refl tmp files, rw (write_buffered, e, b, c))
          | inr c ↦ elim (Bool-cases t.write) [
            | inl d ↦ inl (
              write_failed,
              _,
              set_file-Same tmp (some t.partial) files files (Same-refl tmp files),
              rw (write_buffered, e, b, c, d),
            )
            | inr d ↦ elim (Bool-cases t.rename) [
              | inl i ↦ inl (
                rename_failed,
                _,
                set_file-Same tmp (some p) files files (Same-refl tmp files),
                rw (write_buffered, e, b, c, d, i),
              )
              | inr i ↦ inr (
                p,
                _,
                good p e,
                moved-Same tmp target (some p) files,
                rw (write_buffered, e, b, c, d, i),
              )
            ]
          ]
        ]
      ]
    ]

  -- Whatever the store gives, whatever the blob holds and whatever fails on the disk: a download
  -- that succeeds leaves a content of the hash at the target, one that fails leaves the target as
  -- it was, and neither changes any other path but its temporary name.
  pub download_blob_to_file-IsDownload :
      (t : DiskFaults) (uuid : Bytes) (d : Cryptor) (stream : Option (Bytes × Bool))
      (hash target : Bytes) (s : Store) (files : Files)
      → IsDownload hash
          (tmp_path target uuid)
          target
          files
          (download_blob_to_file sha256_hex a z t uuid d stream hash target s files)
  unfolding download_blob_to_file
  download_blob_to_file-IsDownload t uuid d none hash target s files =
      write_buffered-IsDownload t hash (tmp_path target uuid) target files _
        (λ p h. checked-ok hash _ h)
  download_blob_to_file-IsDownload t uuid d (some (blob, broken)) hash target s files =
      write_stream-IsDownload t hash (tmp_path target uuid) target files _
        (λ p h. checked-ok hash _ h)
