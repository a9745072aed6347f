-- ===== src/Keys/Tests.antt =====
-- Each theorem on key files at a concrete repository, with a toy cipher.
use gbf_core.Base.{◌≡◌, refl, ◌⊎◌, true, false, none, some, [], replicate, ok}
use gbf_core.Base.Int64.{pos}
use gbf_core.Base.Bytes.{Bytes, bytes_eq, codes}
use gbf_core.Crypto.Toy.{toy, toy-IsAead, iv, key}
use gbf_core.Store.{set_file}
use gbf_core.Disk.{Files, no_faults}
use gbf_core.Keys.{
  MigrationFaults, KeyCodec, gek1, is_gek1, key_file_path, protection_of, encode_gek1_key_file,
  unlock_content, migrate_key_file,
}
use gbf_core.Keys.RoundTrip.{unlock_content-encode_gek1_key_file}
use gbf_core.Keys.Migrate.{
  HoldsKey, no_migration_faults, migrate_key_file-keeps, migrate_key_file_succeeds,
}

-- A JSON file that holds its key as it is, and a derivation that takes the salt for the key.
abbrev codec : KeyCodec
codec = record {
  derive = λ password salt. salt;
  parse = λ content. some (record { version = pos 1; algorithm = []; key = content; salt = [] });
  decode = λ text. some text;
}

abbrev salt : Bytes
salt = replicate 32 9

abbrev root : Bytes
root = codes "/r"

abbrev password : Bytes
password = codes "pw"

abbrev legacy_files : Files
legacy_files = set_file (λ q. none) (key_file_path root) (some key)

-- The new file is written, and cannot be read again.
abbrev unverified : MigrationFaults
unverified = record no_migration_faults { verify = record no_faults { read = true } }

unlock_content-encode_gek1_key_file_example :
    (content : Bytes) × (encode_gek1_key_file toy codec (some salt) (some iv) key password
      ≡ ok content)
    × (protection_of codec (ok content) ≡ ok gek1)
    × (unlock_content toy codec content password ≡ ok key)
unlock_content-encode_gek1_key_file_example =
    unlock_content-encode_gek1_key_file toy codec toy-IsAead salt iv key password refl refl refl

legacy : legacy_files (key_file_path root) ≡ some key
unfolding set_file key_file_path bytes_eq
legacy = refl

not_gek1 : is_gek1 key ≡ false
unfolding is_gek1 bytes_eq
not_gek1 = refl

key_full : bytes_eq key [] ≡ false
unfolding bytes_eq
key_full = refl

password_full : bytes_eq password [] ≡ false
unfolding bytes_eq
password_full = refl

migrate_key_file_succeeds_example :
    (migrate_key_file toy codec no_migration_faults
      (codes "u")
      (some salt)
      (some iv)
      root
      password
      legacy_files).0
    ≡ ok tt
migrate_key_file_succeeds_example =
    migrate_key_file_succeeds toy codec toy-IsAead (codes "u") salt iv root password legacy_files
      key key (record { version = pos 1; algorithm = []; key = key; salt = [] }) password_full
      key_full legacy not_gek1 refl refl refl refl refl

migrate_key_file-keeps_example :
    let t =
      (migrate_key_file toy codec unverified
        (codes "u")
        (some salt)
        (some iv)
        root
        password
        legacy_files).1 in
    (t (key_file_path root) ≡ legacy_files (key_file_path root))
    ⊎ ((k content : Bytes) × HoldsKey codec root k legacy_files
        × (t (key_file_path root) ≡ some content)
        × (unlock_content toy codec content password ≡ ok k))
migrate_key_file-keeps_example =
    migrate_key_file-keeps toy codec unverified root password legacy_files toy-IsAead (codes "u")
      salt iv refl refl refl
