-- ===== src/Crypto/Envelope.antt =====
-- The GKM1 manifest envelope: EncryptManifest, DecryptManifest and DecryptIfEncrypted.
use gbf_core.Base.{
  ◌≡◌, ◌∙◌, leb, ltb, ◌==◌, le→leb, le→ltb, if◌then◌else◌, true, not, ◌&&◌, Option, some, ◌++◌,
  length, take, drop, Result, ok, err, guard, or_fail, ◌>>=◌, ◌>>◌, arith,
}
use gbf_core.Base.Bytes.{Bytes, bytes_eq}
use gbf_core.Crypto.Format.{
  CryptoError, not_gkm1, cipher_failed, rand_failed, invalid_magic, key_required, gkm1_magic,
  magic_size, iv_size, default_chunk_size,
}
use gbf_core.Crypto.Aead.{Aead, IsAead, Zstd}
use gbf_core.Crypto.Encrypt.{Cryptor}
use gbf_core.Crypto.Decrypt.{decrypt_small, decrypt, is_encrypted_blob}
use gbf_core.Crypto.RoundTrip.Blob.{decrypt_small-seal}

-- `derive` is DeriveMetadataKey, HKDF-SHA256 under the purpose salt.
module _ (a : Aead) (z : Zstd) (derive : Bytes → Bytes) where
  -- `read` is the outcome of the one read of randomness.
  unfoldable pub encrypt_manifest : Option Bytes → Bytes → Bytes → Result CryptoError Bytes
  encrypt_manifest read plaintext key = do
    guard (a.key_ok (derive key)) cipher_failed
    iv ← or_fail read rand_failed
    ok (gkm1_magic ++ (iv ++ a.seal (derive key) iv plaintext))

  abbrev pub manifest_cryptor : Bytes → Cryptor
  manifest_cryptor key = record { key = key; chunk_size = default_chunk_size }

  -- The result under the derived key, or otherwise whatever the raw key gives.
  unfoldable pub or_legacy :
      Result CryptoError Bytes → Result CryptoError Bytes → Result CryptoError Bytes
  or_legacy (ok p) legacy = ok p
  or_legacy (err e) legacy = legacy

  unfoldable pub decrypt_manifest : Bytes → Bytes → Result CryptoError Bytes
  unfolding or_legacy
  decrypt_manifest buf key = do
    guard (leb magic_size (length buf) && bytes_eq (take magic_size buf) gkm1_magic) not_gkm1
    let payload = drop magic_size buf
    or_legacy (decrypt_small a z (manifest_cryptor (derive key)) payload)
        (decrypt_small a z (manifest_cryptor key) payload)

  unfoldable pub decrypt_if_encrypted : Bytes → Bytes → Result CryptoError Bytes
  decrypt_if_encrypted buf key =
      if ltb (length buf) magic_size
      then ok buf
      else if bytes_eq (take magic_size buf) gkm1_magic
      then decrypt_manifest buf key
      else if not (is_encrypted_blob buf)
      then err invalid_magic
      else if length key == 0
      then err key_required
      else decrypt a z (manifest_cryptor key) buf

  decrypt_manifest-gkm1 :
      (payload key : Bytes)
      → decrypt_manifest (gkm1_magic ++ payload) key
        ≡ or_legacy
            (decrypt_small a z (manifest_cryptor (derive key)) payload)
            (decrypt_small a z (manifest_cryptor key) payload)
  unfolding decrypt_manifest bytes_eq
  decrypt_manifest-gkm1 payload key = rw (le→leb 4 (length (gkm1_magic ++ payload)) (omega arith))

  decrypt_if_encrypted-gkm1 :
      (payload key : Bytes)
      → decrypt_if_encrypted (gkm1_magic ++ payload) key
        ≡ decrypt_manifest (gkm1_magic ++ payload) key
  unfolding decrypt_if_encrypted bytes_eq
  decrypt_if_encrypted-gkm1 payload key =
      rw (le→ltb (length (gkm1_magic ++ payload)) 4 (omega arith))

  -- With a cipher that opens what it sealed and adds one tag, an IV of twelve bytes and a derived
  -- key that the cipher takes, a manifest is sealed, and both `DecryptManifest` and
  -- `DecryptIfEncrypted` give it back.
  pub decrypt_manifest-encrypt_manifest :
      (law : IsAead a) (iv p key : Bytes)
      → length iv ≡ iv_size
      → a.key_ok (derive key) ≡ true
      → (blob : Bytes) × (encrypt_manifest (some iv) p key ≡ ok blob)
        × (decrypt_manifest blob key ≡ ok p)
        × (decrypt_if_encrypted blob key ≡ ok p)
  unfolding encrypt_manifest or_legacy
  decrypt_manifest-encrypt_manifest law iv p key hi k =
      let payload = iv ++ a.seal (derive key) iv p in
      let opened : decrypt_manifest (gkm1_magic ++ payload) key ≡ ok p =
        decrypt_manifest-gkm1 payload key
        ∙ rw (decrypt_small-seal a z (manifest_cryptor (derive key)) law iv p k hi) in
      (gkm1_magic ++ payload, rw k, opened, decrypt_if_encrypted-gkm1 payload key ∙ opened)

  -- With a cipher that opens what it sealed and adds one tag, a manifest sealed under the raw key,
  -- which the cipher takes, with an IV of twelve bytes, is read if the derived key does not open
  -- it.
  pub decrypt_manifest_legacy :
      (law : IsAead a) (iv p key : Bytes) {e : CryptoError}
      → length iv ≡ iv_size
      → a.key_ok key ≡ true
      → decrypt_small a z (manifest_cryptor (derive key)) (iv ++ a.seal key iv p) ≡ err e
      → decrypt_manifest (gkm1_magic ++ (iv ++ a.seal key iv p)) key ≡ ok p
  unfolding or_legacy
  decrypt_manifest_legacy law iv p key hi k refused =
      decrypt_manifest-gkm1 (iv ++ a.seal key iv p) key
      ∙ rw (refused, decrypt_small-seal a z (manifest_cryptor key) law iv p k hi)
