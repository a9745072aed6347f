-- ===== src/Crypto/Tests.antt =====
-- Runs of the blob formats, and each theorem at a concrete input, with the toy cipher.
use gbf_core.Base.{
  ◌-◌, ◌^◌, ◌≤◌, ◌≡◌, refl, true, false, some, [], ◌∷◌, ◌++◌, length, take, replicate, ok, err,
  arith,
}
use gbf_core.Base.Bytes.{Bytes, bytes_eq, codes, uint32}
use gbf_core.Crypto.Format.{
  iv_size, gb3_header_size, trailing_data, decrypt_failed, is_chunk_count, chunk_count_size,
}
use gbf_core.Crypto.Toy.{
  toy_tag, toy, toy-IsAead, toy_zstd, iv, toy_rand, toy_rand-IsRand, key, cryptor,
  cryptor-IsCryptor,
}
use gbf_core.Crypto.Header.{
  chunk_count, encode_gb3_header, read_gb3_header, check_gb3_header, parse_gb3_header,
}
use gbf_core.Crypto.Header.Bounds.{header_of, IsGb3, parse-IsGb3}
use gbf_core.Crypto.Encrypt.{new_small_blob_iv, encrypt_large_v3, encrypt}
use gbf_core.Crypto.Decrypt.{is_encrypted_blob, decrypt_small, decrypt_large, open_chunks, decrypt}
use gbf_core.Crypto.RoundTrip.Blob.{new_small_blob_iv-found}
use gbf_core.Crypto.RoundTrip.Whole.{decrypt-encrypt, decrypt-encrypt_large_v3_append}
use gbf_core.Crypto.Safety.{decrypt_wrapped_header}
use gbf_core.Crypto.Envelope.{
  encrypt_manifest, manifest_cryptor, decrypt_manifest, decrypt_if_encrypted,
  decrypt_manifest-encrypt_manifest,
}

abbrev text : Bytes
text = codes "nine char"

iv_plain : is_chunk_count (take chunk_count_size iv) ≡ false
unfolding is_chunk_count uint32
iv_plain = refl

-- Three chunks.
decrypt-encrypt_example :
    (blob : Bytes) × (encrypt toy toy_rand cryptor 1 text ≡ ok blob)
    × (decrypt toy toy_zstd cryptor blob ≡ ok text)
decrypt-encrypt_example =
    decrypt-encrypt toy toy-IsAead toy_zstd toy_rand toy_rand-IsRand cryptor cryptor-IsCryptor 1 0
      text (omega arith) iv_plain (omega arith)

decrypt-encrypt_large_v3_append_example :
    (blob : Bytes) × (encrypt_large_v3 toy toy_rand cryptor text ≡ ok blob)
    × (decrypt toy toy_zstd cryptor (blob ++ 0 ∷ []) ≡ err trailing_data)
decrypt-encrypt_large_v3_append_example =
    decrypt-encrypt_large_v3_append toy toy-IsAead toy_zstd toy_rand toy_rand-IsRand cryptor
      cryptor-IsCryptor text (0 ∷ []) (λ e. cc) (omega arith)

abbrev header : Bytes
header = encode_gb3_header 0 0 4 9

header_parses : parse_gb3_header header ≡ ok (header_of 0 0 4 9)
unfolding parse_gb3_header encode_gb3_header read_gb3_header check_gb3_header chunk_count bytes_eq
header_parses = refl

parse-IsGb3_example :
    IsGb3 (header_of 0 0 4 9)
    × (read_gb3_header header ≡ header_of 0 0 4 9)
    × (gb3_header_size ≤ length header)
parse-IsGb3_example = parse-IsGb3 header (header_of 0 0 4 9) header_parses

new_small_blob_iv-found_example :
    (found : Bytes) × (new_small_blob_iv 2 toy_rand 0 ≡ ok found)
    × (length found ≡ iv_size)
    × (is_chunk_count (take chunk_count_size found) ≡ false)
new_small_blob_iv-found_example =
    new_small_blob_iv-found 2 0 1 toy_rand toy_rand-IsRand (omega arith) (omega arith) iv_plain

text_unknown : is_encrypted_blob text ≡ false
unfolding is_encrypted_blob bytes_eq
text_unknown = refl

-- An IV that reads as one chunk.
abbrev counting_iv : Bytes
counting_iv = 0 ∷ 0 ∷ 0 ∷ 1 ∷ replicate 8 0

counting_iv_counts : is_chunk_count (take chunk_count_size counting_iv) ≡ true
unfolding is_chunk_count uint32
counting_iv_counts = refl

chunks_refused :
    decrypt_large toy toy_zstd cryptor (counting_iv ++ (text ++ toy_tag key)) ≡ err decrypt_failed
unfolding decrypt_large open_chunks uint32 bytes_eq
chunks_refused = refl

decrypt_wrapped_header_example :
    (parse_gb3_header (encode_gb3_header 0 0 4 (2 ^ 64 - 1)) ≡ ok (header_of 0 0 4 (2 ^ 64 - 1)))
    × (chunk_count (header_of 0 0 4 (2 ^ 64 - 1)) ≡ 0)
    × (decrypt toy toy_zstd cryptor (encode_gb3_header 0 0 4 (2 ^ 64 - 1)) ≡ ok [])
decrypt_wrapped_header_example =
    decrypt_wrapped_header toy toy_zstd cryptor 4 (2 ^ 64 - 1) refl (omega arith) (omega arith)
      (omega arith)

abbrev derive : Bytes → Bytes
derive k = replicate 32 9

decrypt_manifest-encrypt_manifest_example :
    (blob : Bytes) × (encrypt_manifest toy toy_zstd derive (some iv) text key ≡ ok blob)
    × (decrypt_manifest toy toy_zstd derive blob key ≡ ok text)
    × (decrypt_if_encrypted toy toy_zstd derive blob key ≡ ok text)
decrypt_manifest-encrypt_manifest_example =
    decrypt_manifest-encrypt_manifest toy toy_zstd derive toy-IsAead iv text key refl refl

derived_refused :
    decrypt_small toy toy_zstd
      (manifest_cryptor toy toy_zstd derive (derive key))
      (iv ++ (text ++ toy_tag key))
    ≡ err decrypt_failed
unfolding decrypt_small bytes_eq
derived_refused = refl
