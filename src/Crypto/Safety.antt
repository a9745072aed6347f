-- ===== src/Crypto/Safety.antt =====
-- What `Decrypt` does with bytes that `Encrypt` did not write.
use gbf_core.Base.{
  ℕ, zero, suc, ◌+◌, ◌^◌, ◌≤◌, ◌<◌, ◌≡◌, ◌≢◌, refl, ap, ◌∙◌, leb, ltb, Bool-cases, if◌then◌else◌,
  true, false, none, some, inl, inr, [], ◌++◌, append-nil, length, take, drop, take_all, drop_all,
  lt→ltb, length-append, take-append_le, length-take, ok, err, arith, leb→le, lt_of_leb-false,
}
use gbf_core.Base.Bytes.{Bytes, uint32}
use gbf_core.Crypto.Format.{
  CryptoError, panic, data_too_short, invalid_magic, blob_too_large, read_failed, magic_gb1,
  iv_size, chunk_count_size, is_chunk_count, max_gb3_chunk_size, max_blob_size, magic_size,
  gb3_header_size,
}
use gbf_core.Crypto.Aead.{Aead, IsAead, Zstd}
use gbf_core.Crypto.Header.{encode_gb3_header, chunk_count, check_gb3_header, parse_gb3_header}
use gbf_core.Crypto.Header.Bounds.{
  header_of, check-ok, parse-encode_append, chunk_count_wraps, length-encode,
}
use gbf_core.Crypto.Encrypt.{Cryptor}
use gbf_core.Crypto.Decrypt.{
  is_panic, or_else, finish, is_encrypted_blob, open_chunks, open_framed, decrypt, decrypt_gb1,
  decrypt_large, decrypt_large_v3, decrypt_stream,
}
use gbf_core.Crypto.RoundTrip.Blob.{decrypt-gb1, decrypt-gb3, decrypt_small-seal, header-IsGb3}

module _ (a : Aead) (z : Zstd) (d : Cryptor) where
  open_chunks-ne-panic :
      (n : ℕ) (buf plaintext : Bytes) → open_chunks a z d n buf plaintext ≢ err panic
  unfolding open_chunks finish
  open_chunks-ne-panic zero buf plaintext = ground arith
  open_chunks-ne-panic (suc n) buf plaintext = grind (arith, open_chunks-ne-panic n)

  decrypt_large-ne-panic :
      (buf : Bytes) → chunk_count_size ≤ length buf → decrypt_large a z d buf ≢ err panic
  unfolding decrypt_large
  decrypt_large-ne-panic buf h =
      ground (arith, open_chunks-ne-panic (uint32 buf) (drop chunk_count_size buf) [])

  -- The second reading is taken where the first is refused without a panic.
  or_else-second : (e : CryptoError) (p : Bytes) → e ≢ panic → or_else (err e) (ok p) ≡ ok p
  unfolding or_else is_panic
  or_else-second e p h = ground arith

  -- Bytes that `IsEncryptedBlob` does not know are refused by `Decrypt`, as too short below four
  -- bytes and for their magic otherwise.
  pub decrypt-unknown :
      (blob : Bytes)
      → is_encrypted_blob blob ≡ false
      → decrypt a z d blob
        ≡ (if ltb (length blob) magic_size then err data_too_short else err invalid_magic)
  unfolding decrypt is_encrypted_blob
  decrypt-unknown blob h = ground arith

  -- With a cipher that opens what it sealed and adds one tag and a key that it takes, a small blob
  -- whose IV of twelve bytes looks like a chunk count, and whose reading in chunks is refused,
  -- decrypts to the text that was sealed.
  pub decrypt_legacy_small :
      (law : IsAead a) (iv p : Bytes) {e : CryptoError}
      → a.key_ok d.key ≡ true
      → length iv ≡ iv_size
      → is_chunk_count (take chunk_count_size iv) ≡ true
      → decrypt_large a z d (iv ++ a.seal d.key iv p) ≡ err e
      → decrypt a z d (magic_gb1 ++ (iv ++ a.seal d.key iv p)) ≡ ok p
  unfolding decrypt_gb1
  decrypt_legacy_small law iv p {e} k hi hc refused =
      let sealed = a.seal d.key iv p in
      let calm : decrypt_large a z d (iv ++ sealed) ≢ err panic =
        decrypt_large-ne-panic (iv ++ sealed) (omega (arith, length-append iv sealed)) in
      decrypt-gb1 a z d (iv ++ sealed)
      ∙ rw (
        lt→ltb 4 (length (iv ++ sealed)) (omega (arith, length-append iv sealed)),
        take-append_le chunk_count_size iv sealed (omega arith),
        hc,
        refused,
        decrypt_small-seal a z d law iv p k hi,
        or_else-second e p (λ q. calm (refused ∙ ap err q)),
      )

  -- With a key that the cipher takes, a GB3 header with a chunk size of at most 64 MiB and a
  -- plaintext size within one chunk of 2^64 is accepted, its chunk count wraps to zero, and the
  -- blob that consists of it alone decrypts to the empty text.
  pub decrypt_wrapped_header :
      (size len : ℕ)
      → a.key_ok d.key ≡ true
      → size ≤ max_gb3_chunk_size
      → len < 2 ^ 64
      → 2 ^ 64 < len + size
      → (parse_gb3_header (encode_gb3_header 0 0 size len) ≡ ok (header_of 0 0 size len))
        × (chunk_count (header_of 0 0 size len) ≡ 0)
        × (decrypt a z d (encode_gb3_header 0 0 size len) ≡ ok [])
  unfolding decrypt_large_v3 open_framed finish encode_gb3_header
  decrypt_wrapped_header size len k up hl wraps =
      let h = header_of 0 0 size len in
      let none_left : chunk_count h ≡ 0 = chunk_count_wraps h hl (omega arith) wraps in
      let accepted : check_gb3_header h ≡ ok h =
        check-ok h (header-IsGb3 size len (omega arith) up (rw none_left (omega arith))) in
      let parsed : parse_gb3_header (encode_gb3_header 0 0 size len) ≡ ok h =
        rw append-nil at (parse-encode_append 0 0 size len [] (omega arith) hl) ∙ accepted in
      (
        parsed,
        none_left,
        rw append-nil at (decrypt-gb3 a z d 0 0 size len [])
            ∙ rw
                (
                  parsed,
                  k,
                  none_left,
                  drop_all gb3_header_size (encode_gb3_header 0 0 size len)
                      (omega (arith, length-encode 0 0 size len)),
                )
                refl,
      )

  -- `DecryptStream` decrypts what the reader holds if that is at most MaxBlobSize bytes, refuses it
  -- otherwise, and fails where the reader does.
  pub decrypt_stream_lem :
      (content : Bytes)
      → (decrypt_stream a z d (some content) ≡ (
          if leb (length content) max_blob_size then decrypt a z d content else err blob_too_large))
        × (decrypt_stream a z d none ≡ err read_failed)
  unfolding decrypt_stream
  decrypt_stream_lem content = elim (Bool-cases (leb (length content) max_blob_size)) [
    | inl fits ↦
        (rw (take_all (max_blob_size + 1) content (omega (arith, leb→le _ _ fits)), fits), refl)
    | inr long ↦
        let full : length (take (max_blob_size + 1) content) ≡ max_blob_size + 1 =
          omega (arith, length-take (max_blob_size + 1) content, lt_of_leb-false _ _ long) in
        (rw (full, long), refl)
  ]
