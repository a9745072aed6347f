-- ===== src/Keys/RoundTrip.antt =====
-- A master key wrapped by a password comes back under that password.
use gbf_core.Base.{
  ◌+◌, ◌≡◌, true, some, ◌++◌, length, length-append, take-append, drop-append, le→ltb, le→leb,
  arith, ok,
}
use gbf_core.Base.Bytes.{Bytes, bytes_eq}
use gbf_core.Crypto.Format.{iv_size}
use gbf_core.Crypto.Aead.{Aead, IsAead}
use gbf_core.Keys.{
  KeyCodec, salt_size, gek1_prefix, gek1, is_gek1, protection_of, encode_gek1_key_file,
  decrypt_gek1_master_key, unlock_gek1_key_file, unlock_content,
}

pub is_gek1-prefix : (t : Bytes) → is_gek1 (gek1_prefix ++ t) ≡ true
unfolding is_gek1 bytes_eq
is_gek1-prefix t = rw (le→leb 4 (length (gek1_prefix ++ t)) (omega arith))

module _ (a : Aead) (c : KeyCodec) (law : IsAead a) where
  decrypt_gek1_master_key-seal :
      (salt nonce key password : Bytes)
      → a.key_ok (c.derive password salt) ≡ true
      → length nonce ≡ iv_size
      → decrypt_gek1_master_key a c salt
          (nonce ++ a.seal (c.derive password salt) nonce key)
          password
        ≡ ok key
  unfolding decrypt_gek1_master_key
  decrypt_gek1_master_key-seal salt nonce key password k n =
      let sealed = a.seal (c.derive password salt) nonce key in
      let l : length (nonce ++ sealed) ≡ length nonce + length sealed =
        length-append nonce sealed in
      let s : length sealed ≡ length key + 16 =
        law.length-seal (c.derive password salt) nonce key in
      rw (
        k,
        le→ltb (length (nonce ++ sealed)) 28 (omega (arith, l, s, n)),
        take-append 12 nonce sealed n,
        drop-append 12 nonce sealed n,
        law.unseal-seal (c.derive password salt) nonce key,
      )

  -- With a cipher that opens what it sealed and adds one tag, and that takes the key derived from
  -- the password, a salt of 32 bytes and a nonce of 12, a key file is written, is told to be GEK1,
  -- and unlocks to the master key under the same password.
  pub unlock_content-encode_gek1_key_file :
      (salt nonce key password : Bytes)
      → a.key_ok (c.derive password salt) ≡ true
      → length salt ≡ salt_size
      → length nonce ≡ iv_size
      → (content : Bytes) × (encode_gek1_key_file a c (some salt) (some nonce) key password
          ≡ ok content)
        × (protection_of c (ok content) ≡ ok gek1)
        × (unlock_content a c content password ≡ ok key)
  unfolding encode_gek1_key_file unlock_content unlock_gek1_key_file protection_of
  unlock_content-encode_gek1_key_file salt nonce key password k s n =
      let tail = nonce ++ a.seal (c.derive password salt) nonce key in
      let l : length (salt ++ tail) ≡ length salt + length tail = length-append salt tail in
      (
        gek1_prefix ++ (salt ++ tail),
        rw k,
        rw (is_gek1-prefix (salt ++ tail)),
        rw (
          is_gek1-prefix (salt ++ tail),
          le→ltb (length (gek1_prefix ++ (salt ++ tail))) 36 (omega (arith, l, s)),
          take-append 32 salt tail s,
          drop-append 32 salt tail s,
          decrypt_gek1_master_key-seal salt nonce key password k n,
        ),
      )
