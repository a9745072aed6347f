-- ===== src/Keys/Migrate.antt =====
-- Migrating a legacy key file keeps the master key.
use gbf_core.Base.{
  ◌≡◌, refl, ap, ◌∙◌, ◌⊎◌, inl, inr, true, false, not, Option, none, some, [], length, Result, ok,
  err, Result-cases, ◌>>=◌, >>=-eq-ok, guard-eq-ok, guard-ok, or_fail-ok, not-true,
}
use gbf_core.Base.Bytes.{Bytes, bytes_eq, bytes_eq_iff, bytes_eq_refl}
use gbf_core.Crypto.Format.{iv_size}
use gbf_core.Crypto.Aead.{Aead, IsAead}
use gbf_core.Store.{set_file, tmp_path}
use gbf_core.Disk.{Files, DiskError, DiskFaults, read_file, no_faults}
use gbf_core.Disk.Atomic.{
  read_file-ok, read_file_present, write_file_atomic_whole, write_file_atomic_clean, set_file-hit,
  tmp_path-fresh,
}
use gbf_core.Keys.{
  KeyError, MigrationFaults, KeyCodec, KeyFileData, require_legacy, salt_size, is_gek1,
  key_file_path, protection_of, lift, unlock_content, unlock_repo, save_gek1_key_file,
  migration_key, migrate_key_file, verify_migration, verify_saved, decode_key, load_key_file,
  empty_password, bad_json, bad_base64, empty_key, verification_differs, password_required,
  read_failed, write_failed,
}
use gbf_core.Keys.RoundTrip.{unlock_content-encode_gek1_key_file}

-- The key that the legacy key file of a repository holds.
abbrev pub HoldsKey : KeyCodec → Bytes → Bytes → Files → Type 0
HoldsKey c root key files =
    (content : Bytes) × (kf : KeyFileData) × (files (key_file_path root) ≡ some content)
    × (is_gek1 content ≡ false)
    × (c.parse content ≡ some kf)
    × (c.decode kf.key ≡ some key)

lift-ok :
    {A : Type 0} (w : DiskError → KeyError) (r : Result DiskError A) {v : A}
    → lift w r ≡ ok v
    → r ≡ ok v
unfolding lift
lift-ok w (err e) h = cc
lift-ok w (ok u) h = cc

load_key_file-ok :
    (c : KeyCodec) (f : DiskFaults) (root : Bytes) (files : Files) {kf : KeyFileData}
    → load_key_file c f root files ≡ ok kf
    → (content : Bytes) × (files (key_file_path root) ≡ some content)
      × (is_gek1 content ≡ false)
      × (c.parse content ≡ some kf)
unfolding load_key_file
load_key_file-ok c f root files h =
    let (content, read, h1) =
      >>=-eq-ok (lift read_failed (read_file f (key_file_path root) files)) _ h in
    let (plain, h2) = guard-eq-ok (not (is_gek1 content)) password_required _ h1 in
    (
      content,
      read_file-ok f (key_file_path root) files (lift-ok read_failed _ read),
      not-true _ plain,
      or_fail-ok _ bad_json h2,
    )

decode_key-ok :
    (c : KeyCodec) (kf : KeyFileData) {key : Bytes}
    → decode_key c kf ≡ ok key
    → c.decode kf.key ≡ some key
unfolding decode_key
decode_key-ok c kf h = or_fail-ok _ bad_base64 (guard-eq-ok _ empty_key _ h).1

verify_migration-ok :
    (key : Bytes) (r : Result KeyError Bytes) → verify_migration key r ≡ ok tt → r ≡ ok key
unfolding verify_migration
verify_migration-ok key (err e) h = cc
verify_migration-ok key (ok unlocked) h =
    ap ok ((bytes_eq_iff unlocked key).0 (guard-ok _ verification_differs h))

module _ (a : Aead) (c : KeyCodec) (f : MigrationFaults) (root password : Bytes)
    (files : Files) where
  -- The checks of a migration pass only on a legacy key file, of which they give the key.
  pub migration_key-HoldsKey :
      {key : Bytes}
      → migration_key a c f.mode f.load root password files ≡ ok key
      → HoldsKey c root key files
  unfolding migration_key
  migration_key-HoldsKey {key} h =
      let (full, h1) = guard-eq-ok _ empty_password _ h in
      let (mode, m, h2) =
        >>=-eq-ok (protection_of c (read_file f.mode (key_file_path root) files)) _ h1 in
      let (u, legacy, h3) =
        >>=-eq-ok (require_legacy mode) (λ _. load_key_file c f.load root files >>= decode_key c)
          h2 in
      let (kf, loaded, h4) = >>=-eq-ok (load_key_file c f.load root files) (decode_key c) h3 in
      let (content, at, plain, parsed) = load_key_file-ok c f.load root files loaded in
      (content, kf, at, plain, parsed, decode_key-ok c kf h4)

  verify_saved-ok :
      (key : Bytes) (r : Result KeyError (Unit {0}) × Files) {t : Files}
      → verify_saved a c f.verify root password key r ≡ (ok tt, t)
      → unlock_repo a c f.verify root password t ≡ ok key
  unfolding verify_saved
  verify_saved-ok key (err e, s) h = cc
  verify_saved-ok key (ok u, s) {t} h =
      let e : s ≡ t = ap (λ o. o.1) h in rw e at (verify_migration-ok key _ (ap (λ o. o.0) h))

  verify_saved-files :
      (key : Bytes) (r : Result KeyError (Unit {0})) (t : Files)
      → (verify_saved a c f.verify root password key (r, t)).1 (key_file_path root)
        ≡ t (key_file_path root)
  unfolding verify_saved
  verify_saved-files key (err e) t = refl
  verify_saved-files key (ok u) t = refl

  -- A migration that succeeds took the key of a legacy key file, and the new file unlocks to the
  -- same key under the password, whatever the cipher, the derivation and the codecs do.
  pub migrate_key_file-ok :
      (uuid : Bytes) (salt_read nonce_read : Option Bytes) {t : Files}
      → migrate_key_file a c f uuid salt_read nonce_read root password files ≡ (ok tt, t)
      → (key : Bytes) × HoldsKey c root key files
        × (unlock_repo a c f.verify root password t ≡ ok key)
  unfolding migrate_key_file
  migrate_key_file-ok uuid salt_read nonce_read {t} h =
      elim (Result-cases (migration_key a c f.mode f.load root password files)) [
        | inr (e, r) ↦ absurd (let x = rw (migrate_key_file, r) at h in cc)
        | inl (key, r) ↦
            let x = rw (migrate_key_file, r) at h in
            (key, migration_key-HoldsKey r, verify_saved-ok key _ x)
      ]

  -- Whichever calls of the disk fail, in whichever step, the key file is afterwards as it was, or
  -- it was a legacy key file and now unlocks to the same master key under the password. The cipher
  -- opens what it sealed, adds one tag and takes the derived key; the salt has 32 bytes and the
  -- nonce 12.
  pub migrate_key_file-keeps :
      (law : IsAead a) (uuid salt nonce : Bytes)
      → a.key_ok (c.derive password salt) ≡ true
      → length salt ≡ salt_size
      → length nonce ≡ iv_size
      → let t = (migrate_key_file a c f uuid (some salt) (some nonce) root password files).1 in
        (t (key_file_path root) ≡ files (key_file_path root))
        ⊎ ((key content : Bytes) × HoldsKey c root key files
            × (t (key_file_path root) ≡ some content)
            × (unlock_content a c content password ≡ ok key))
  unfolding migrate_key_file save_gek1_key_file
  migrate_key_file-keeps law uuid salt nonce k s n =
      let path = key_file_path root in
      let other = tmp_path-fresh path uuid in
      elim (Result-cases (migration_key a c f.mode f.load root password files)) [
        | inr (e, r) ↦ inl (rw (migrate_key_file, r))
        | inl (key, r) ↦
            let (content, enc, mode, opens) =
              unlock_content-encode_gek1_key_file a c law salt nonce key password k s n in
            elim (write_file_atomic_whole f.save uuid path content files) [
              | inl (e, t, same, w) ↦ inl (
                  rw (migrate_key_file, r, save_gek1_key_file, enc, w)
                    (verify_saved-files key (lift write_failed (err e)) t ∙ same path other))
              | inr (res, t, same, w) ↦
                  let at : t path ≡ some content =
                    same path other ∙ set_file-hit files path (some content) in
                  inr (
                    key,
                    content,
                    migration_key-HoldsKey r,
                    rw (migrate_key_file, r, save_gek1_key_file, enc, w)
                        (verify_saved-files key (lift write_failed res) t ∙ at),
                    opens,
                  )
            ]
      ]

abbrev pub no_migration_faults : MigrationFaults
no_migration_faults = record {
  mode = no_faults;
  load = no_faults;
  save = no_faults;
  verify = no_faults;
}

-- Without a fault of the disk, a legacy key file whose key is not empty is migrated under a
-- password that is not empty: the cipher opens what it sealed, adds one tag and takes the derived
-- key; the salt has 32 bytes and the nonce 12.
pub migrate_key_file_succeeds :
    (a : Aead) (c : KeyCodec) (law : IsAead a) (uuid salt nonce root password : Bytes)
    (files : Files) (key content : Bytes) (kf : KeyFileData)
    → bytes_eq password [] ≡ false
    → bytes_eq kf.key [] ≡ false
    → files (key_file_path root) ≡ some content
    → is_gek1 content ≡ false
    → c.parse content ≡ some kf
    → c.decode kf.key ≡ some key
    → a.key_ok (c.derive password salt) ≡ true
    → length salt ≡ salt_size
    → length nonce ≡ iv_size
    → (migrate_key_file a c no_migration_faults uuid (some salt) (some nonce) root password files).0
      ≡ ok tt
unfolding migrate_key_file migration_key save_gek1_key_file lift verify_saved load_key_file
    decode_key read_file protection_of unlock_repo verify_migration require_legacy
migrate_key_file_succeeds a c law uuid salt nonce root password files key content kf pw kk at plain
      parsed decoded k s n =
    let path = key_file_path root in
    let (sealed, enc, mode, opens) =
      unlock_content-encode_gek1_key_file a c law salt nonce key password k s n in
    let read = read_file_present path content files at in
    let passed : migration_key a c no_faults no_faults root password files ≡ ok key =
      rw (migration_key, pw, read, protection_of, plain, parsed, decode_key, kk, decoded) in
    let t =
      set_file
        (set_file (set_file files (tmp_path path uuid) (some sealed)) (tmp_path path uuid) none)
        path (some sealed) in
    let unlocked : unlock_repo a c no_faults root password t ≡ ok key = rw (
      unlock_repo,
      read_file_present path sealed t (set_file-hit _ path (some sealed)),
      lift,
      opens,
    ) in
    rw (
      migrate_key_file,
      passed,
      save_gek1_key_file,
      enc,
      write_file_atomic_clean uuid path sealed files,
      lift,
      verify_saved,
      unlocked,
      verify_migration,
      bytes_eq_refl key,
    )
