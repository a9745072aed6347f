-- ===== src/Stream/Tests.antt =====
-- A file of several chunks through the streaming code, with the toy cipher.
use gbf_core.Base.{
  ◌≡◌, refl, false, true, Option, none, some, [], ◌++◌, ok, replicate, arith, length,
}
use gbf_core.Base.Bytes.{Bytes, bytes_eq, codes, uint32, put_uint32}
use gbf_core.Crypto.Toy.{
  toy, toy-IsAead, toy_zstd, iv, toy_rand, toy_rand-IsRand, cryptor, cryptor-IsCryptor,
}
use gbf_core.Crypto.Format.{magic_gb1}
use gbf_core.Crypto.Decrypt.{decrypt_large, open_chunks, finish}
use gbf_core.Store.{Store, Faults, tmp_path}
use gbf_core.Disk.{no_faults}
use gbf_core.Stream.Encode.{encrypt_file_to_writer}
use gbf_core.Stream.Decode.{decrypt_stream_to_file}
use gbf_core.Stream.RoundTrip.{decrypt_stream_to_file-encrypt_file_to_writer}
use gbf_core.Stream.Buffered.{gb1, decrypt_stream_to_file-IsLarge}
use gbf_core.Stream.Files.{Source, download_blob_to_file}
use gbf_core.Stream.Files.Safe.{IsDownload, download_blob_to_file-IsDownload}

abbrev text : Bytes
text = codes "a file"

decrypt_stream_to_file-encrypt_file_to_writer_example :
    (blob : Bytes) × (encrypt_file_to_writer toy toy_zstd toy_rand cryptor false true text
        (length text)
      ≡ ok (blob, text))
    × (decrypt_stream_to_file toy toy_zstd cryptor false blob ≡ ok text)
decrypt_stream_to_file-encrypt_file_to_writer_example =
    decrypt_stream_to_file-encrypt_file_to_writer toy toy-IsAead toy_zstd (λ p. refl) toy_rand
      toy_rand-IsRand cryptor cryptor-IsCryptor true text (omega arith) (omega arith) (omega arith)

abbrev small : Bytes
small = iv ++ (text ++ replicate 16 7)

abbrev no_file : Bytes → Option Bytes
no_file p = none

abbrev tag_key : Bytes
tag_key = replicate 16 7

abbrev two_chunks : Bytes
two_chunks = put_uint32 2 ++ (iv ++ (codes "a fi" ++ tag_key) ++ iv ++ (codes "le" ++ tag_key))

two_chunks_open : decrypt_large toy toy_zstd cryptor two_chunks ≡ ok text
unfolding decrypt_large open_chunks finish uint32 put_uint32 bytes_eq
two_chunks_open = refl

decrypt_stream_to_file-IsLarge_example :
    decrypt_stream_to_file toy toy_zstd cryptor false (magic_gb1 ++ two_chunks) ≡ ok text
decrypt_stream_to_file-IsLarge_example =
    decrypt_stream_to_file-IsLarge toy toy_zstd cryptor text (magic_gb1 ++ two_chunks)
      (gb1 two_chunks two_chunks_open)

-- A toy hash.
abbrev toy_sha : Bytes → Bytes
toy_sha p = replicate 64 b'0'

abbrev zeros : Bytes
zeros = replicate 64 b'0'

abbrev store : Store
store = record { base_dir = codes "/r"; files = no_file; dir_cache = []; exists_set = [] }

abbrev calm : Faults
calm = record {
  stat = false;
  mkdir = false;
  create = false;
  write = false;
  sync = false;
  close = false;
  rename = false;
  restat = false;
  sync_parent = false;
  remove = false;
  partial = [];
  uuid = codes "id";
}

download_blob_to_file-IsDownload_example :
    IsDownload toy_sha toy toy_zstd zeros
      (tmp_path (codes "/out") (codes "u"))
      (codes "/out")
      no_file
      (download_blob_to_file toy_sha toy toy_zstd no_faults
        (codes "u")
        cryptor
        (some (magic_gb1 ++ two_chunks, false))
        zeros
        (codes "/out")
        store
        no_file)
download_blob_to_file-IsDownload_example =
    download_blob_to_file-IsDownload toy_sha toy toy_zstd no_faults (codes "u") cryptor
      (some (magic_gb1 ++ two_chunks, false)) zeros (codes "/out") store no_file

abbrev file : Source
file = record { content = text; size = length text; broken = false; incompressible = true }
