-- ===== src/Blob.antt =====
-- simple/hash.go: blobs by the hash of their plaintext, over the store and the formats. `sha256_hex` is
-- SHA256Bytes, `decompress` the Decompress of the default zstd compressor.
pub mod RoundTrip
mod Tests
use gbf_core.Base.{
  ℕ, leb, Bool, true, false, not, ◌&&◌, if◌then◌else◌, Option, none, some, List, [], ◌∷◌, length,
  take, Result, ok, err,
}
use gbf_core.Base.Bytes.{Bytes, bytes_eq}
use gbf_core.Crypto.Format.{CryptoError}
use gbf_core.Crypto.Aead.{Aead, Zstd, Rand}
use gbf_core.Crypto.Encrypt.{Cryptor, encrypt}
use gbf_core.Crypto.Decrypt.{decrypt}
use gbf_core.Store.{StoreError, Store, Faults, put_blob, get, exists}

pub data BlobError : Type 0 where
  store_error : StoreError → BlobError
  crypto_error : CryptoError → BlobError
  decompress_error hash_mismatch : BlobError

-- zstdMagic and `IsCompressed` of compress/zstd.go
abbrev pub zstd_magic : Bytes
zstd_magic = 40 ∷ 181 ∷ 47 ∷ 253 ∷ []

unfoldable pub is_compressed : Bytes → Bool
is_compressed data_ = leb 4 (length data_) && bytes_eq (take 4 data_) zstd_magic

module _ (sha256_hex : Bytes → Bytes) (a : Aead) (z : Zstd) where
  -- The put of `UploadBlob`, and its result.
  unfoldable pub put_ciphertext :
      Faults → Bytes → Result CryptoError Bytes → Store → Result BlobError Bytes × Store
  put_ciphertext f hash (err e) s = (err (crypto_error e), s)
  put_ciphertext f hash (ok ciphertext) s =
      let (result, t) = put_blob f hash ciphertext s in
      elim result [ err e ↦ (err (store_error e), t) | ok _ ↦ (ok hash, t) ]

  -- `UploadBlob`: the faults of its `Exists` and of its `Put`.
  unfoldable pub upload_blob :
      Rand → ℕ → Cryptor → Faults → Faults → Bytes → Store → Result BlobError Bytes × Store
  upload_blob rand fuel e f g plaintext s =
      let hash = sha256_hex plaintext in
      let (there, t) = exists f hash s in
      elim there [
        | err x ↦ (err (store_error x), t)
        | ok true ↦ (ok hash, t)
        | ok false ↦ put_ciphertext g hash (encrypt a rand e fuel plaintext) t
      ]

  -- The check at the end of `DownloadBlob`.
  unfoldable pub verify : Bytes → Bytes → Result BlobError Bytes
  verify hash plaintext =
      if not (bytes_eq (sha256_hex plaintext) hash) then err hash_mismatch else ok plaintext

  unfoldable pub open_plaintext : Bytes → Bytes → Result BlobError Bytes
  unfolding verify
  open_plaintext hash plaintext =
      if is_compressed plaintext
      then elim (z.decompress plaintext) [ none ↦ err decompress_error | some p ↦ verify hash p ]
      else verify hash plaintext

  -- `DownloadBlob`
  unfoldable pub download_blob : Cryptor → Bool → Bytes → Store → Result BlobError Bytes
  download_blob d read_fails hash s = elim (get read_fails hash s) [
    | err x ↦ err (store_error x)
    | ok ciphertext ↦ elim (decrypt a z d ciphertext) [
      | err x ↦ err (crypto_error x)
      | ok plaintext ↦ open_plaintext hash plaintext
    ]
  ]
