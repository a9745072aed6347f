-- ===== src/Blob/RoundTrip.antt =====
-- What a download gives back of an upload, and of which texts it does not.
use gbf_core.Base.{
  ℕ, ◌*◌, ◌≤◌, ◌<◌, ◌≡◌, refl, ap, ◌∙◌, inl, inr, Bool, true, false, none, some, length, take,
  Result, ok, err, Result-cases,
}
use gbf_core.Base.Bytes.{Bytes, bytes_eq, bytes_eq_refl}
use gbf_core.Crypto.Format.{is_chunk_count, chunk_count_size, max_uint32}
use gbf_core.Crypto.Aead.{Aead, IsAead, Zstd, Rand, IsRand}
use gbf_core.Crypto.Encrypt.{Cryptor}
use gbf_core.Crypto.Decrypt.{decrypt}
use gbf_core.Crypto.RoundTrip.Whole.{IsCryptor, decrypt-encrypt}
use gbf_core.Store.{StoreError, Store, Faults, validate_hash, blob_path, put_blob, get}
use gbf_core.Store.Atomic.{IsSound}
use gbf_core.Store.Ops.{put_blob-get, exists-missing}
use gbf_core.Blob.{
  hash_mismatch, is_compressed, put_ciphertext, upload_blob, verify, open_plaintext, download_blob,
}

module _ (sha256_hex : Bytes → Bytes) (a : Aead) (law : IsAead a) (z : Zstd) (rand : Rand)
    (r : IsRand rand) (e : Cryptor) (v : IsCryptor a e) where
  put_ciphertext-get :
      (g : Faults) (hash blob : Bytes) (s : Store)
      → validate_hash hash ≡ true
      → IsSound s
      → g.stat ≡ false
      → s.files (blob_path s.base_dir hash) ≡ none
      → (put_ciphertext sha256_hex a z g hash (ok blob) s).0 ≡ ok hash
      → get false hash (put_ciphertext sha256_hex a z g hash (ok blob) s).1 ≡ ok blob
  unfolding put_ciphertext
  put_ciphertext-get g hash blob s vh sound readable gone done =
      elim (Result-cases (put_blob g hash blob s).0) [
        | inr (x, bad) ↦ (let k = rw (bad, put_ciphertext) at done in cc)
        | inl (_, good) ↦
            let e1 : put_ciphertext sha256_hex a z g hash (ok blob) s
                ≡ (ok hash, (put_blob g hash blob s).1) =
              rw (good, put_ciphertext) refl in
            rw e1 (put_blob-get g hash blob s vh sound readable good ∙ rw gone refl)
      ]

  -- A first upload that succeeds leaves a blob that decrypts to the text.
  uploaded :
      (f g : Faults) (fuel m : ℕ) (p : Bytes) (s : Store)
      → m < fuel
      → is_chunk_count (take chunk_count_size (r m).0) ≡ false
      → length p ≤ max_uint32 * e.chunk_size
      → validate_hash (sha256_hex p) ≡ true
      → IsSound s
      → f.stat ≡ false
      → g.stat ≡ false
      → s.files (blob_path s.base_dir (sha256_hex p)) ≡ none
      → (upload_blob sha256_hex a z rand fuel e f g p s).0 ≡ ok (sha256_hex p)
      → (blob : Bytes) × (get false
            (sha256_hex p)
            (upload_blob sha256_hex a z rand fuel e f g p s).1
          ≡ ok blob)
        × (decrypt a z e blob ≡ ok p)
  unfolding upload_blob
  uploaded f g fuel m p s lt iv fits vh sound hf hg gone done =
      let (blob, sealed, opened) = decrypt-encrypt a law z rand r e v fuel m p lt iv fits in
      let missing = exists-missing f (sha256_hex p) s vh sound hf gone in
      let e1 : upload_blob sha256_hex a z rand fuel e f g p s
          ≡ put_ciphertext sha256_hex a z g (sha256_hex p) (ok blob) s =
        rw (missing, sealed, upload_blob)
          (ap
            (λ (x : Result StoreError Bool × Store).
              put_ciphertext sha256_hex a z g (sha256_hex p) (ok blob) x.1)
            missing) in
      (
        blob,
        rw e1 (put_ciphertext-get g (sha256_hex p) blob s vh sound hg gone (rw e1 at done)),
        opened,
      )

  download :
      (hash blob p : Bytes) (s : Store)
      → get false hash s ≡ ok blob
      → decrypt a z e blob ≡ ok p
      → download_blob sha256_hex a z e false hash s ≡ open_plaintext sha256_hex a z hash p
  unfolding download_blob
  download hash blob p s got opened = rw (got, opened, download_blob) refl

  -- With a cipher that opens what it sealed and adds one tag, a key that the cipher takes, a chunk
  -- size between 1 and 64 MiB, a text of at most 2^32 - 1 chunks whose hash is a valid one, reads
  -- of randomness that all give an IV, among the first `fuel` of them one that does not look like a
  -- chunk count, a store whose cached hashes have their blobs, where the file can be examined and
  -- is not there, an `UploadBlob` that succeeds and a download whose read of the blob does not
  -- fail: if the text does not begin with the magic of zstd, `DownloadBlob` by its hash returns it.
  pub download_blob-upload_blob :
      (f g : Faults) (fuel m : ℕ) (p : Bytes) (s : Store)
      → m < fuel
      → is_chunk_count (take chunk_count_size (r m).0) ≡ false
      → length p ≤ max_uint32 * e.chunk_size
      → validate_hash (sha256_hex p) ≡ true
      → IsSound s
      → f.stat ≡ false
      → g.stat ≡ false
      → s.files (blob_path s.base_dir (sha256_hex p)) ≡ none
      → (upload_blob sha256_hex a z rand fuel e f g p s).0 ≡ ok (sha256_hex p)
      → is_compressed p ≡ false
      → download_blob sha256_hex a z e false
          (sha256_hex p)
          (upload_blob sha256_hex a z rand fuel e f g p s).1
        ≡ ok p
  unfolding open_plaintext verify
  download_blob-upload_blob f g fuel m p s lt iv fits vh sound hf hg gone done plain =
      let (blob, got, opened) = uploaded f g fuel m p s lt iv fits vh sound hf hg gone done in
      download (sha256_hex p) blob p (upload_blob sha256_hex a z rand fuel e f g p s).1 got opened
      ∙ rw plain (rw (bytes_eq_refl (sha256_hex p)) refl)

  -- With a cipher that opens what it sealed and adds one tag, a key that the cipher takes, a chunk
  -- size between 1 and 64 MiB, a text of at most 2^32 - 1 chunks whose hash is a valid one, reads
  -- of randomness that all give an IV, among the first `fuel` of them one that does not look like a
  -- chunk count, a store whose cached hashes have their blobs, where the file can be examined and
  -- is not there, an `UploadBlob` that succeeds and a download whose read of the blob does not
  -- fail: if the text begins with the magic of zstd and decompresses to one with another hash,
  -- `DownloadBlob` by its hash fails with a hash mismatch.
  pub download_blob_zstd :
      (f g : Faults) (fuel m : ℕ) (p q : Bytes) (s : Store)
      → m < fuel
      → is_chunk_count (take chunk_count_size (r m).0) ≡ false
      → length p ≤ max_uint32 * e.chunk_size
      → validate_hash (sha256_hex p) ≡ true
      → IsSound s
      → f.stat ≡ false
      → g.stat ≡ false
      → s.files (blob_path s.base_dir (sha256_hex p)) ≡ none
      → (upload_blob sha256_hex a z rand fuel e f g p s).0 ≡ ok (sha256_hex p)
      → is_compressed p ≡ true
      → z.decompress p ≡ some q
      → bytes_eq (sha256_hex q) (sha256_hex p) ≡ false
      → download_blob sha256_hex a z e false
          (sha256_hex p)
          (upload_blob sha256_hex a z rand fuel e f g p s).1
        ≡ err hash_mismatch
  unfolding open_plaintext verify
  download_blob_zstd f g fuel m p q s lt iv fits vh sound hf hg gone done packed unpacked differ =
      let (blob, got, opened) = uploaded f g fuel m p s lt iv fits vh sound hf hg gone done in
      download (sha256_hex p) blob p (upload_blob sha256_hex a z rand fuel e f g p s).1 got opened
      ∙ rw (packed, unpacked, differ) refl
