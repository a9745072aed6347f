-- ===== src/Crypto/Aead.antt =====
-- What the code takes from other packages: AES-GCM of crypto/cipher, zstd behind
-- compress.ZstdCompressor, HKDF, and crypto/rand. Each is a parameter of the model.
use gbf_core.Base.{ℕ, ◌+◌, ◌≡◌, Bool, Option, some, length}
use gbf_core.Base.Bytes.{Bytes}
use gbf_core.Crypto.Format.{tag_size, iv_size}

-- `key_ok` is the success of aes.NewCipher (cipher.NewGCM never fails on an AES block); `seal` and
-- `unseal` are gcm.Seal and gcm.Open with no associated data: key, IV, text.
pub record Aead : Type 0 where
  pub key_ok : Bytes → Bool
  pub seal : Bytes → Bytes → Bytes → Bytes
  pub unseal : Bytes → Bytes → Bytes → Option Bytes

-- What GCM documents: a sealed text opens to itself and is one tag longer.
pub record IsAead (a : Aead) : Type 0 where
  pub unseal-seal : (k iv p : Bytes) → a.unseal k iv (a.seal k iv p) ≡ some p
  pub length-seal : (k iv p : Bytes) → length (a.seal k iv p) ≡ length p + tag_size

pub record Zstd : Type 0 where
  pub compress : Bytes → Bytes
  pub decompress : Bytes → Option Bytes

-- The outcome of the n-th read of one IV from crypto/rand.
abbrev pub Rand : Type 0
Rand = ℕ → Option Bytes

-- Every read succeeds with `iv_size` bytes.
abbrev pub IsRand : Rand → Type 0
IsRand rand = (n : ℕ) → (iv : Bytes) × (rand n ≡ some iv) × (length iv ≡ iv_size)
