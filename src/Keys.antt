-- ===== src/Keys.antt =====
-- simple/keys.go: the key file of a repository, its password-wrapped form GEK1 and its legacy JSON form.
pub mod RoundTrip
pub mod Migrate
mod Tests
use gbf_core.Base.{
  ℕ, ◌+◌, leb, ltb, Bool, true, false, not, ◌&&◌, if◌then◌else◌, Option, none, some, List, [], ◌∷◌,
  ◌++◌, length, take, drop, Result, ok, err, guard, or_fail, ◌>>=◌, ◌>>◌,
}
use gbf_core.Base.Int64.{ℤ, pos}
use gbf_core.Base.Bytes.{Bytes, bytes_eq, codes}
use gbf_core.Crypto.Format.{iv_size, tag_size}
use gbf_core.Crypto.Aead.{Aead}
use gbf_core.Disk.{Files, DiskError, not_exist, DiskFaults, read_file, write_file_atomic}

pub data KeyError : Type 0 where
  rand_failed cipher_failed file_too_short key_too_short wrong_password unsupported_format
        password_required bad_json empty_key bad_base64 empty_password already_gek1
        nothing_to_migrate verification_differs :
      KeyError
  write_failed : DiskError → KeyError
  read_failed : DiskError → KeyError
  verification_failed : KeyError → KeyError

abbrev pub salt_size : ℕ
salt_size = 32

-- The four bytes that `EncodeGEK1KeyFile` writes: the last one is the number 1.
abbrev pub gek1_prefix : Bytes
gek1_prefix = b'G' ∷ b'E' ∷ b'K' ∷ 1 ∷ []

-- `KeyFilePath`, below a clean repository root; `MetaDir` is its directory .ginkgo-backup.
unfoldable pub key_file_path : Bytes → Bytes
key_file_path root = root ++ codes "/.ginkgo-backup/repo.key"

-- `len(data) >= 4 && data[0] == 'G' && …`
unfoldable pub is_gek1 : Bytes → Bool
is_gek1 content = leb 4 (length content) && bytes_eq (take 4 content) gek1_prefix

-- `KeyFileData`
pub record KeyFileData : Type 0 where
  pub version : ℤ
  pub algorithm : Bytes
  pub key : Bytes
  pub salt : Bytes

-- What `KeyFileProtectionMode` reports.
pub data Protection : Type 0 where
  gek1 legacy_plaintext no_protection : Protection

-- What the code takes from other packages: argon2.IDKey with the constants of the source, reading
-- JSON and base64.
pub record KeyCodec : Type 0 where
  pub derive : Bytes → Bytes → Bytes
  pub parse : Bytes → Option KeyFileData
  pub decode : Bytes → Option Bytes

-- An error of the disk as an error of this component.
unfoldable pub lift {ℓ} :
    {Value : Type ℓ} → (DiskError → KeyError) → Result DiskError Value → Result KeyError Value
lift wrap (err e) = err (wrap e)
lift wrap (ok v) = ok v

-- `DecodeKey`
unfoldable pub decode_key : KeyCodec → KeyFileData → Result KeyError Bytes
decode_key c kf = do
  guard (not (bytes_eq kf.key [])) empty_key
  or_fail (c.decode kf.key) bad_base64

-- `KeyFileProtectionMode`, from what reading the file gave.
unfoldable pub protection_of : KeyCodec → Result DiskError Bytes → Result KeyError Protection
protection_of c (err not_exist) = ok no_protection
protection_of c (err e) = err (read_failed e)
protection_of c (ok content) =
    if is_gek1 content
    then ok gek1
    else elim (c.parse content) [ none ↦ err bad_json | some kf ↦ ok legacy_plaintext ]

-- The two tests of the mode in `MigrateKeyFileToGEK1`.
unfoldable pub require_legacy : Protection → Result KeyError (Unit {0})
require_legacy gek1 = err already_gek1
require_legacy no_protection = err nothing_to_migrate
require_legacy legacy_plaintext = ok tt

-- `LoadKeyFile`
unfoldable pub load_key_file : KeyCodec → DiskFaults → Bytes → Files → Result KeyError KeyFileData
load_key_file c f root files = do
  content ← lift read_failed (read_file f (key_file_path root) files)
  guard (not (is_gek1 content)) password_required
  or_fail (c.parse content) bad_json

-- What `MigrateKeyFileToGEK1` does when the file is written: `unlocked` is what the new file gives.
unfoldable pub verify_migration : Bytes → Result KeyError Bytes → Result KeyError (Unit {0})
verify_migration master_key (err e) = err (verification_failed e)
verify_migration master_key (ok unlocked) =
    guard (bytes_eq unlocked master_key) verification_differs

-- Which calls fail in each step of a migration: reading the mode, loading the key, saving the new
-- file, and reading it again.
pub record MigrationFaults : Type 0 where
  pub mode : DiskFaults
  pub load : DiskFaults
  pub save : DiskFaults
  pub verify : DiskFaults

module _ (a : Aead) (c : KeyCodec) where
  -- `EncodeGEK1KeyFile`, given the reads of the salt and of the nonce.
  unfoldable pub encode_gek1_key_file :
      Option Bytes → Option Bytes → Bytes → Bytes → Result KeyError Bytes
  encode_gek1_key_file salt_read nonce_read master_key password = do
    salt ← or_fail salt_read rand_failed
    let enc_key = c.derive password salt
    guard (a.key_ok enc_key) cipher_failed
    nonce ← or_fail nonce_read rand_failed
    ok (gek1_prefix ++ (salt ++ (nonce ++ a.seal enc_key nonce master_key)))

  -- `DecryptGEK1MasterKey`
  unfoldable pub decrypt_gek1_master_key : Bytes → Bytes → Bytes → Result KeyError Bytes
  decrypt_gek1_master_key salt encrypted_key password = do
    let enc_key = c.derive password salt
    guard (a.key_ok enc_key) cipher_failed
    guard (not (ltb (length encrypted_key) (iv_size + tag_size))) key_too_short
    or_fail (a.unseal enc_key (take iv_size encrypted_key) (drop iv_size encrypted_key))
        wrong_password

  -- `unlockGEK1KeyFile`
  unfoldable pub unlock_gek1_key_file : Bytes → Bytes → Result KeyError Bytes
  unlock_gek1_key_file content password = do
    guard (not (ltb (length content) (4 + salt_size))) file_too_short
    decrypt_gek1_master_key (take salt_size (drop 4 content)) (drop (4 + salt_size) content)
        password

  -- `UnlockRepoWithPassword`, from what the file holds.
  unfoldable pub unlock_content : Bytes → Bytes → Result KeyError Bytes
  unlock_content content password =
      if is_gek1 content then unlock_gek1_key_file content password else err unsupported_format

  unfoldable pub unlock_repo : DiskFaults → Bytes → Bytes → Files → Result KeyError Bytes
  unlock_repo f root password files = do
    content ← lift read_failed (read_file f (key_file_path root) files)
    unlock_content content password

  -- `SaveGEK1KeyFile`, given the randomness and the UUID of the temporary file.
  unfoldable pub save_gek1_key_file :
      DiskFaults
      → Bytes
      → Option Bytes
      → Option Bytes
      → Bytes
      → Bytes
      → Bytes
      → Files
      → Result KeyError (Unit {0}) × Files
  save_gek1_key_file f uuid salt_read nonce_read root master_key password files =
      elim (encode_gek1_key_file salt_read nonce_read master_key password) [
        | err e ↦ (err e, files)
        | ok content ↦
            let (r, files') = write_file_atomic f uuid (key_file_path root) content files in
            (lift write_failed r, files')
      ]

  -- The checks of `MigrateKeyFileToGEK1` before it writes: the master key.
  unfoldable pub migration_key :
      DiskFaults → DiskFaults → Bytes → Bytes → Files → Result KeyError Bytes
  migration_key f g root password files = do
    guard (not (bytes_eq password [])) empty_password
    mode ← protection_of c (read_file f (key_file_path root) files)
    require_legacy mode
    kf ← load_key_file c g root files
    decode_key c kf

  unfoldable pub verify_saved :
      DiskFaults
      → Bytes
      → Bytes
      → Bytes
      → Result KeyError (Unit {0}) × Files
      → Result KeyError (Unit {0}) × Files
  verify_saved f root password master_key (err e, files) = (err e, files)
  verify_saved f root password master_key (ok u, files) =
      (verify_migration master_key (unlock_repo f root password files), files)

  -- `MigrateKeyFileToGEK1`, given the faults of each of its steps.
  unfoldable pub migrate_key_file :
      MigrationFaults
      → Bytes
      → Option Bytes
      → Option Bytes
      → Bytes
      → Bytes
      → Files
      → Result KeyError (Unit {0}) × Files
  migrate_key_file f uuid salt_read nonce_read root password files =
      elim (migration_key f.mode f.load root password files) [
        | err e ↦ (err e, files)
        | ok master_key ↦
            verify_saved f.verify root password master_key
              (save_gek1_key_file f.save uuid salt_read nonce_read root master_key password files)
      ]
