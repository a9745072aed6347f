-- ===== src/Stream/Files.antt =====
-- UploadBlobFromPath and DownloadBlobToFile of simple/stream.go, over the local store. `sha256_hex` is the
-- hexadecimal SHA-256, and a file that is uploaded is its content, its size when it was examined, and
-- whether reading it ends in an error. The temporary file of an upload is the value that is written to
-- it; the faults of the disk say which of its calls fail. Mode bits are left out.
pub mod Safe
pub mod Whole
use gbf_core.Base.{
  ℕ, ◌+◌, ◌-◌, ltb, leb, Bool, true, false, not, ◌&&◌, ◌||◌, if◌then◌else◌, Option, none, some, [],
  length, take, Result, ok, err, guard, ◌>>=◌, ◌>>◌,
}
use gbf_core.Base.Bytes.{Bytes, bytes_eq}
use gbf_core.Crypto.Format.{CryptoError, max_blob_size, magic_size, iv_size, tag_size}
use gbf_core.Crypto.Aead.{Aead, Zstd, Rand}
use gbf_core.Crypto.Encrypt.{Cryptor, encrypt}
use gbf_core.Crypto.Decrypt.{decrypt}
use gbf_core.Store.{StoreError, Store, Faults, put_blob, get, exists, set_file, tmp_path}
use gbf_core.Disk.{Files, DiskFaults, remove_quietly}
use gbf_core.Blob.{is_compressed}
use gbf_core.Stream.Encode.{stored_form, encrypt_file_to_writer}
use gbf_core.Stream.Decode.{decrypt_stream_to_file}

pub data TransferError : Type 0 where
  store_error : StoreError → TransferError
  crypto_error : CryptoError → TransferError
  read_failed grew_past_chunk_size content_changed tmp_failed decompress_failed hash_mismatch
        mkdir_failed create_failed write_failed sync_failed close_failed rename_failed :
      TransferError

pub record Source : Type 0 where
  pub content : Bytes
  pub size : ℕ
  pub broken : Bool
  pub incompressible : Bool

-- `smallLimit`
abbrev pub small_limit : ℕ
small_limit = max_blob_size - (magic_size + iv_size + tag_size)

-- `knownHash != "" && knownHash != contentHash`
unfoldable pub differs : Bytes → Bytes → Bool
differs known hash = not (bytes_eq known []) && not (bytes_eq known hash)

-- The end of an upload: `store.Exists`, and the put of a blob that is missing.
unfoldable pub put_missing :
    Faults
    → Bytes
    → Result TransferError Bytes
    → Result StoreError Bool × Store
    → Result TransferError Bytes × Store
put_missing g hash blob (err x, s) = (err (store_error x), s)
put_missing g hash blob (ok true, s) = (ok hash, s)
put_missing g hash (err x) (ok false, s) = (err x, s)
put_missing g hash (ok content) (ok false, s) =
    let (result, t) = put_blob g hash content s in
    elim result [ err x ↦ (err (store_error x), t) | ok _ ↦ (ok hash, t) ]

unfoldable pub of_crypto : Result CryptoError Bytes → Result TransferError Bytes
of_crypto (err x) = err (crypto_error x)
of_crypto (ok p) = ok p

module _ (sha256_hex : Bytes → Bytes) (a : Aead) (z : Zstd) where
  -- What a small file is read as.
  unfoldable pub read_small : Source → Bytes → Result TransferError Bytes
  read_small src known = do
    guard (not (src.broken && ltb (length src.content) (small_limit + 1))) TransferError.read_failed
    let content = take (small_limit + 1) src.content
    guard (leb (length content) small_limit) grew_past_chunk_size
    guard (not (differs known (sha256_hex content))) content_changed
    ok content

  -- The file of less than one chunk.
  unfoldable pub upload_small :
      Rand
      → ℕ
      → Cryptor
      → Faults
      → Faults
      → Source
      → Bytes
      → Store
      → Result TransferError Bytes × Store
  upload_small rand fuel e f g src known s = elim (read_small src known) [
    | err x ↦ (err x, s)
    | ok content ↦
        let stored = (stored_form z (not src.incompressible) content).0 in
        let hash = sha256_hex content in
        put_missing g hash (of_crypto (encrypt a rand e fuel stored)) (exists f hash s)
  ]

  -- The large file, encrypted into a temporary file before anything is asked of the store: the blob
  -- and the hash of what was read.
  unfoldable pub encrypt_to_tmp :
      DiskFaults → Rand → Cryptor → Source → Bytes → Result TransferError (Bytes × Bytes)
  encrypt_to_tmp t rand e src known = do
    guard (not (t.create || t.write)) tmp_failed
    made ←
        elim (encrypt_file_to_writer a z rand e src.broken (not src.incompressible) src.content
          src.size) [ err x ↦ err (crypto_error x) | ok pair ↦ ok pair ]
    guard (not (differs known (sha256_hex made.1))) content_changed
    guard (not (t.sync || t.close || t.read)) tmp_failed
    ok (made.0, sha256_hex made.1)

  unfoldable pub upload_large :
      DiskFaults
      → Rand
      → Cryptor
      → Faults
      → Faults
      → Source
      → Bytes
      → Store
      → Result TransferError Bytes × Store
  upload_large t rand e f g src known s = elim (encrypt_to_tmp t rand e src known) [
    | err x ↦ (err x, s)
    | ok made ↦ put_missing g made.1 (ok made.0) (exists f made.1 s)
  ]

  unfoldable pub upload_file :
      DiskFaults
      → Rand
      → ℕ
      → Cryptor
      → Faults
      → Faults
      → Source
      → Bytes
      → Store
      → Result TransferError Bytes × Store
  upload_file t rand fuel e f g src known s =
      if ltb src.size e.chunk_size
      then upload_small rand fuel e f g src known s
      else upload_large t rand e f g src known s

  -- `UploadBlobFromPath`: `k` are the faults of the first `Exists`, `opened` is the success of
  -- opening and examining the file.
  unfoldable pub upload_blob_from_path :
      DiskFaults
      → Rand
      → ℕ
      → Cryptor
      → Faults
      → Faults
      → Faults
      → Bool
      → Source
      → Bytes
      → Store
      → Result TransferError Bytes × Store
  upload_blob_from_path t rand fuel e k f g opened src known s =
      let (there, s') = exists k known s in
      let rest = λ (s₁ : Store).
        if opened
        then upload_file t rand fuel e f g src known s₁
        else (err TransferError.read_failed, s₁) in
      if bytes_eq known [] then rest s else elim there [
        | err x ↦ (err (store_error x), s')
        | ok true ↦ (ok known, s')
        | ok false ↦ rest s'
      ]

  -- What a download writes, checked against the hash: `read` is the plaintext.
  unfoldable pub checked : Bytes → Result TransferError Bytes → Result TransferError Bytes
  checked hash (err x) = err x
  checked hash (ok p) = if not (bytes_eq (sha256_hex p) hash) then err hash_mismatch else ok p

  unfoldable pub inflate_whole : Bytes → Result TransferError Bytes
  inflate_whole p =
      if is_compressed p
      then elim (z.decompress p) [ none ↦ err decompress_failed | some q ↦ ok q ]
      else ok p

  -- The download into a file behind `GetStream`: the deferred removal of the temporary file finds
  -- none after the rename.
  unfoldable pub write_stream :
      DiskFaults
      → Bytes
      → Bytes
      → Result TransferError Bytes
      → Files
      → Result TransferError (Unit {0}) × Files
  write_stream t tmp target plain files =
      let torn = remove_quietly t tmp (set_file files tmp (some t.partial)) in
      if t.mkdir
      then (err mkdir_failed, files)
      else if t.create
      then (err create_failed, files)
      else if t.write
      then (err write_failed, torn)
      else elim plain [
        | err x ↦ (err x, torn)
        | ok p ↦
            if t.sync
            then (err sync_failed, torn)
            else if t.close
            then (err close_failed, torn)
            else if t.rename
            then (err rename_failed, remove_quietly t tmp (set_file files tmp (some p)))
            else (ok tt, set_file (set_file files tmp none) target (some p))
      ]

  -- The download behind `Get`, which leaves its temporary file when the rename fails.
  unfoldable pub write_buffered :
      DiskFaults
      → Bytes
      → Bytes
      → Result TransferError Bytes
      → Files
      → Result TransferError (Unit {0}) × Files
  write_buffered t tmp target plain files = elim plain [
    | err x ↦ (err x, files)
    | ok p ↦
        if t.mkdir
        then (err mkdir_failed, files)
        else if t.create
        then (err create_failed, files)
        else if t.write
        then (err write_failed, set_file files tmp (some t.partial))
        else if t.rename
        then (err rename_failed, set_file files tmp (some p))
        else (ok tt, set_file (set_file files tmp none) target (some p))
  ]

  unfoldable pub open_buffered : Cryptor → Result StoreError Bytes → Result TransferError Bytes
  open_buffered d (err x) = err (store_error x)
  open_buffered d (ok ciphertext) = elim (decrypt a z d ciphertext) [
    | err x ↦ err (crypto_error x)
    | ok p ↦ inflate_whole p
  ]

  -- `DownloadBlobToFile`: `stream` is what `GetStream` gives, and whether the stream breaks off.
  unfoldable pub download_blob_to_file :
      DiskFaults
      → Bytes
      → Cryptor
      → Option (Bytes × Bool)
      → Bytes
      → Bytes
      → Store
      → Files
      → Result TransferError (Unit {0}) × Files
  download_blob_to_file t uuid d none hash target s files =
      write_buffered t (tmp_path target uuid) target
        (checked hash (open_buffered d (get t.read hash s))) files
  download_blob_to_file t uuid d (some (blob, broken)) hash target s files =
      write_stream t (tmp_path target uuid) target
        (checked hash (of_crypto (decrypt_stream_to_file a z d broken blob))) files
