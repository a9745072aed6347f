-- ===== src/Crypto/Encrypt.antt =====
-- Encryptor, Encrypt, newSmallBlobIV, encryptSmall, encryptLarge and encryptLargeV3.
use gbf_core.Base.{
  ℕ, zero, suc, ◌+◌, ◌-◌, ◌*◌, ◌/◌, ◌%◌, ◌^◌, ltb, leb, if◌then◌else◌, none, some, ◌∷◌, ◌++◌,
  length, take, drop, Result, ok, err, guard, or_fail, ◌>>=◌, ◌>>◌,
}
use gbf_core.Base.Bytes.{Bytes, put_uint32}
use gbf_core.Base.Int64.{ℤ, pos, negsuc}
use gbf_core.Crypto.Format.{
  magic_gb1, chunk_count_size, max_chunk_count, max_uint32, default_chunk_size, is_chunk_count,
  CryptoError, cipher_failed, rand_failed, chunk_count_overflow, out_of_fuel,
}
use gbf_core.Crypto.Aead.{Aead, Rand}
use gbf_core.Crypto.Header.{encode_gb3_header}

-- The struct Encryptor, and the struct Decryptor, which has the same fields.
pub record Cryptor : Type 0 where
  pub key : Bytes
  pub chunk_size : ℕ

-- `NewEncryptor` and `NewDecryptor`
unfoldable pub new_cryptor : Bytes → ℤ → Cryptor
new_cryptor key (pos zero) = record { key = key; chunk_size = default_chunk_size }
new_cryptor key (pos (suc n)) = record { key = key; chunk_size = suc n }
new_cryptor key (negsuc n) = record { key = key; chunk_size = default_chunk_size }

-- `newSmallBlobIV`: the reads from the n-th on, until one does not look like a chunk count.
unfoldable pub new_small_blob_iv : ℕ → Rand → ℕ → Result CryptoError Bytes
new_small_blob_iv zero rand n = err out_of_fuel
new_small_blob_iv (suc fuel) rand n =
    let retry = new_small_blob_iv fuel rand (suc n) in
    elim (rand n) [
      | none ↦ err rand_failed
      | some iv ↦ if is_chunk_count (take chunk_count_size iv) then retry else ok iv
    ]

-- `plaintext[start:end]`
unfoldable pub chunk_at : Bytes → ℕ → ℕ → Bytes
chunk_at plaintext size i =
    let start = i * size in
    let end = if ltb (length plaintext) (start + size) then length plaintext else start + size in
    take (end - start) (drop start plaintext)

-- How one chunk is written behind what stands there: IV and ciphertext, and in GB3 the stored size
-- and a zero flags byte before them.
unfoldable pub frame_gb1 : Bytes → Bytes → Bytes
frame_gb1 iv encrypted = iv ++ encrypted

unfoldable pub frame_gb3 : Bytes → Bytes → Bytes
frame_gb3 iv encrypted = put_uint32 (length encrypted % 2 ^ 32) ++ 0 ∷ (iv ++ encrypted)

unfoldable pub chunk_count_for : ℕ → ℕ → ℕ
chunk_count_for len size = (len + size - 1) / size

module _ (a : Aead) (rand : Rand) (e : Cryptor) where
  -- The chunk loop of both encoders, with n chunks left from the i-th on.
  unfoldable pub seal_chunks :
      (Bytes → Bytes → Bytes) → Bytes → ℕ → ℕ → Bytes → Result CryptoError Bytes
  seal_chunks frame plaintext zero i out = ok out
  seal_chunks frame plaintext (suc n) i out = do
    iv ← or_fail (rand i) rand_failed
    let encrypted = a.seal e.key iv (chunk_at plaintext e.chunk_size i)
    seal_chunks frame plaintext n (suc i) (out ++ frame iv encrypted)

  unfoldable pub encrypt_small : ℕ → Bytes → Result CryptoError Bytes
  encrypt_small fuel plaintext = do
    guard (a.key_ok e.key) cipher_failed
    iv ← new_small_blob_iv fuel rand 0
    ok (magic_gb1 ++ (iv ++ a.seal e.key iv plaintext))

  unfoldable pub encrypt_large_v3 : Bytes → Result CryptoError Bytes
  encrypt_large_v3 plaintext = do
    let count = chunk_count_for (length plaintext) e.chunk_size
    guard (leb count max_uint32) chunk_count_overflow
    guard (a.key_ok e.key) cipher_failed
    seal_chunks frame_gb3 plaintext count 0
        (encode_gb3_header 0 0 (e.chunk_size % 2 ^ 32) (length plaintext % 2 ^ 64))

  unfoldable pub encrypt_large_v1 : Bytes → ℕ → Result CryptoError Bytes
  encrypt_large_v1 plaintext count = do
    guard (a.key_ok e.key) cipher_failed
    seal_chunks frame_gb1 plaintext count 0 (magic_gb1 ++ put_uint32 count)

  unfoldable pub encrypt_large : Bytes → Result CryptoError Bytes
  encrypt_large plaintext =
      let count = chunk_count_for (length plaintext) e.chunk_size in
      if leb max_chunk_count count
      then encrypt_large_v3 plaintext
      else encrypt_large_v1 plaintext count

  unfoldable pub encrypt : ℕ → Bytes → Result CryptoError Bytes
  encrypt fuel plaintext =
      if ltb (length plaintext) e.chunk_size
      then encrypt_small fuel plaintext
      else encrypt_large plaintext
