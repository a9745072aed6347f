-- ===== src/Blob/Tests.antt =====
-- An upload and its download, of a text and of a zstd file, with a toy hash of two values.
use gbf_core.Base.{
  ◌≡◌, refl, leb, true, false, if◌then◌else◌, Option, none, some, [], ◌++◌, length, take, drop,
  replicate, ok, err, arith,
}
use gbf_core.Base.Bytes.{Bytes, bytes_eq, codes, uint32}
use gbf_core.Crypto.Format.{is_chunk_count, chunk_count_size}
use gbf_core.Crypto.Aead.{Zstd}
use gbf_core.Crypto.Encrypt.{Cryptor, encrypt, encrypt_small, new_small_blob_iv}
use gbf_core.Crypto.RoundTrip.Whole.{IsCryptor}
use gbf_core.Crypto.Toy.{toy, toy-IsAead, iv, toy_rand, toy_rand-IsRand, key}
use gbf_core.Store.{
  Store, Faults, validate_hash, lower_hex, put_blob, put_file, ensure_dir, mem_key, is_some, exists,
}
use gbf_core.Blob.{
  zstd_magic, is_compressed, put_ciphertext, upload_blob, download_blob, hash_mismatch,
}
use gbf_core.Blob.RoundTrip.{download_blob-upload_blob, download_blob_zstd}

abbrev toy_sha : Bytes → Bytes
toy_sha p = replicate 64 (if leb 6 (length p) then b'1' else b'0')

abbrev small_cryptor : Cryptor
small_cryptor = record { key = key; chunk_size = 64 }

small_cryptor-IsCryptor : IsCryptor toy small_cryptor
small_cryptor-IsCryptor = record { key_ok = refl; size_pos = omega arith; size_le = omega arith }

-- A decompressor that drops the magic.
abbrev unpack : Zstd
unpack = record { compress = λ p. zstd_magic ++ p; decompress = λ p. some (drop 4 p) }

abbrev calm : Faults
calm = record {
  stat = false;
  mkdir = false;
  create = false;
  write = false;
  sync = false;
  close = false;
  rename = false;
  restat = false;
  sync_parent = false;
  remove = false;
  partial = [];
  uuid = codes "id";
}

abbrev nothing : Bytes → Option Bytes
nothing p = none

abbrev empty_store : Store
empty_store = record { base_dir = codes "/r"; files = nothing; dir_cache = []; exists_set = [] }

abbrev note : Bytes
note = codes "some text"

-- A zstd file: the magic and five bytes.
abbrev archive : Bytes
archive = zstd_magic ++ codes "abcde"

plain_iv : is_chunk_count (take chunk_count_size iv) ≡ false
unfolding is_chunk_count uint32
plain_iv = refl

ones_hash : validate_hash (replicate 64 b'1') ≡ true
unfolding validate_hash lower_hex
ones_hash = refl

note_plain : is_compressed note ≡ false
unfolding is_compressed bytes_eq
note_plain = refl

archive_packed : is_compressed archive ≡ true
unfolding is_compressed bytes_eq
archive_packed = refl

hashes_differ : bytes_eq (toy_sha (codes "abcde")) (toy_sha archive) ≡ false
unfolding bytes_eq
hashes_differ = refl

note_uploads :
    (upload_blob toy_sha toy unpack toy_rand 1 small_cryptor calm calm note empty_store).0
    ≡ ok (toy_sha note)
unfolding upload_blob put_ciphertext exists put_blob put_file ensure_dir validate_hash lower_hex
    mem_key is_some encrypt encrypt_small new_small_blob_iv is_chunk_count uint32
note_uploads = refl

archive_uploads :
    (upload_blob toy_sha toy unpack toy_rand 1 small_cryptor calm calm archive empty_store).0
    ≡ ok (toy_sha archive)
unfolding upload_blob put_ciphertext exists put_blob put_file ensure_dir validate_hash lower_hex
    mem_key is_some encrypt encrypt_small new_small_blob_iv is_chunk_count uint32
archive_uploads = refl

download_blob-upload_blob_example :
    download_blob toy_sha toy unpack small_cryptor false
      (toy_sha note)
      (upload_blob toy_sha toy unpack toy_rand 1 small_cryptor calm calm note empty_store).1
    ≡ ok note
download_blob-upload_blob_example =
    download_blob-upload_blob toy_sha toy toy-IsAead unpack toy_rand toy_rand-IsRand small_cryptor
      small_cryptor-IsCryptor calm calm 1 0 note empty_store (omega arith) plain_iv (omega arith)
      ones_hash tt refl refl refl note_uploads note_plain

-- The archive was uploaded, and cannot be downloaded.
download_blob_zstd_example :
    download_blob toy_sha toy unpack small_cryptor false
      (toy_sha archive)
      (upload_blob toy_sha toy unpack toy_rand 1 small_cryptor calm calm archive empty_store).1
    ≡ err hash_mismatch
download_blob_zstd_example =
    download_blob_zstd toy_sha toy toy-IsAead unpack toy_rand toy_rand-IsRand small_cryptor
      small_cryptor-IsCryptor calm calm 1 0 archive (codes "abcde") empty_store (omega arith)
      plain_iv (omega arith) ones_hash tt refl refl refl archive_uploads archive_packed refl
      hashes_differ
