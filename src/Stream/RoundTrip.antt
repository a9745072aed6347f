-- ===== src/Stream/RoundTrip.antt =====
-- The streaming encoder of simple/stream.go followed by the streaming decoder.
use gbf_core.Base.{
  ℕ, ◌*◌, ◌%◌, ◌^◌, ◌≤◌, ◌<◌, leb, lt_of_leb-false, ◌≡◌, refl, inl, inr, Bool, true, false, ◌||◌,
  Bool-cases, if◌then◌else◌, [], ◌++◌, length, ok, arith,
}
use gbf_core.Base.Bytes.{Bytes, put_uint32}
use gbf_core.Crypto.Format.{max_chunk_count, max_uint32, default_chunk_size, magic_gb1, magic_gb2}
use gbf_core.Crypto.Aead.{Aead, IsAead, Zstd, Rand, IsRand}
use gbf_core.Crypto.Header.{encode_gb3_header}
use gbf_core.Crypto.Encrypt.{Cryptor, chunk_count_for}
use gbf_core.Crypto.RoundTrip.Chunks.{ivs_of, chunk_count_for_bounds}
use gbf_core.Crypto.RoundTrip.Whole.{IsCryptor}
use gbf_core.Stream.Encode.{stream_header, encrypt_file_to_writer}
use gbf_core.Stream.Encoded.{IsZstd, stream_body, stream_seal-stream_body}
use gbf_core.Stream.Body.{gb1-body, gb2-body, gb3-body}
use gbf_core.Stream.Decode.{decrypt_stream_to_file}

either : (b : Bool) {c : Bool} → c ≡ true → (b || c) ≡ true
either true h = refl
either false h = h

flag_le : (b : Bool) → (if b then 1 else 0) ≤ 1
flag_le true = omega arith
flag_le false = omega arith

small_count : (n : ℕ) → n < max_chunk_count → n % 2 ^ 32 ≡ n
small_count n h = omega arith

module _ (a : Aead) (law : IsAead a) (z : Zstd) (zlaw : IsZstd z) (rand : Rand) (r : IsRand rand)
    (e : Cryptor) (v : IsCryptor a e) (try_compress : Bool) (p : Bytes) where
  abbrev pub Returns : Bytes → Type 0
  Returns blob =
      (encrypt_file_to_writer a z rand e false try_compress p (length p) ≡ ok (blob, p))
      × (decrypt_stream_to_file a z e false blob ≡ ok p)

  written :
      (framed : Bool) (header : Bytes)
      → (try_compress || leb max_chunk_count (chunk_count_for (length p) e.chunk_size)) ≡ framed
      → stream_header try_compress e.chunk_size (length p) (chunk_count_for (length p) e.chunk_size)
        ≡ header
      → encrypt_file_to_writer a z rand e false try_compress p (length p)
        ≡ ok (
          header
              ++ stream_body a law z zlaw e try_compress framed
                  (ivs_of rand r)
                  (chunk_count_for (length p) e.chunk_size)
                  0
                  p,
          p,
        )
  unfolding encrypt_file_to_writer
  written framed header f h =
      let n = chunk_count_for (length p) e.chunk_size in
      let (lo, up) = chunk_count_for_bounds (length p) e.chunk_size v.size_pos in
      rw (encrypt_file_to_writer, v.key_ok, f, h)
        (stream_seal-stream_body a law z zlaw e rand r try_compress framed n 0 p header []
          v.size_pos lo)

  as_gb3 :
      (f : ℕ)
      → (if try_compress then 1 else 0) ≡ f
      → f ≤ 1
      → leb max_chunk_count (chunk_count_for (length p) e.chunk_size) ≡ true
      → length p ≤ max_uint32 * e.chunk_size
      → (blob : Bytes) × Returns blob
  unfolding stream_header
  as_gb3 f hf small many fits =
      let size : e.chunk_size % 2 ^ 32 ≡ e.chunk_size = omega (arith, v.size_le) in
      let len : length p % 2 ^ 64 ≡ length p = omega (arith, v.size_le) in
      let header : stream_header try_compress e.chunk_size (length p)
            (chunk_count_for (length p) e.chunk_size)
          ≡ encode_gb3_header f f e.chunk_size (length p) =
        rw (stream_header, many, hf, size, len) in
      let framed : (try_compress || leb max_chunk_count (chunk_count_for (length p) e.chunk_size))
          ≡ true =
        either try_compress many in
      (
        _,
        (
          written true (encode_gb3_header f f e.chunk_size (length p)) framed header,
          gb3-body a law z zlaw e v false try_compress (ivs_of rand r) p f (λ j. (r j).2) small
              fits,
        ),
      )

-- A file of fewer chunks than the legacy formats count.
as_counted :
    (a : Aead) (law : IsAead a) (z : Zstd) (zlaw : IsZstd z) (rand : Rand) (r : IsRand rand)
    (e : Cryptor) (v : IsCryptor a e) (try_compress : Bool) (p : Bytes)
    → leb max_chunk_count (chunk_count_for (length p) e.chunk_size) ≡ false
    → 0 < length p
    → e.chunk_size ≤ default_chunk_size
    → (blob : Bytes) × Returns a law z zlaw rand r e v try_compress p blob
unfolding stream_header
as_counted a law z zlaw rand r e v true p few pos size =
    let n = chunk_count_for (length p) e.chunk_size in
    let below = lt_of_leb-false max_chunk_count n few in
    (
      _,
      (
        written a law z zlaw rand r e v true p true (magic_gb2 ++ put_uint32 n) refl
            (rw (stream_header, few, small_count n below)),
        gb2-body a law z zlaw e v false (ivs_of rand r) p n (λ j. (r j).2) refl pos below size,
      ),
    )
as_counted a law z zlaw rand r e v false p few pos size =
    let n = chunk_count_for (length p) e.chunk_size in
    let below = lt_of_leb-false max_chunk_count n few in
    (
      _,
      (
        written a law z zlaw rand r e v false p false (magic_gb1 ++ put_uint32 n) few
            (rw (stream_header, few, small_count n below)),
        gb1-body a law z zlaw e v (ivs_of rand r) p n (λ j. (r j).2) refl pos below,
      ),
    )

-- With a cipher that opens what it sealed and adds one tag, a decompressor that gives back what the
-- compressor took, a key that the cipher takes, a chunk size from 1 to the default one, reads of
-- randomness that all give an IV, and a file that is not empty, keeps its size and has at most 2^32
-- - 1 chunks: with and without a compressor, the streaming encoder hashes exactly the file, and
-- what it writes the streaming decoder turns back into the file.
pub decrypt_stream_to_file-encrypt_file_to_writer :
    (a : Aead) (law : IsAead a) (z : Zstd) (zlaw : IsZstd z) (rand : Rand) (r : IsRand rand)
    (e : Cryptor) (v : IsCryptor a e) (try_compress : Bool) (p : Bytes)
    → 0 < length p
    → length p ≤ max_uint32 * e.chunk_size
    → e.chunk_size ≤ default_chunk_size
    → (blob : Bytes) × (encrypt_file_to_writer a z rand e false try_compress p (length p)
        ≡ ok (blob, p))
      × (decrypt_stream_to_file a z e false blob ≡ ok p)
unfolding stream_header
decrypt_stream_to_file-encrypt_file_to_writer a law z zlaw rand r e v try_compress p pos fits size =
    elim (Bool-cases (leb max_chunk_count (chunk_count_for (length p) e.chunk_size))) [
      | inl many ↦
          let (blob, (made, opened)) =
            as_gb3 a law z zlaw rand r e v try_compress p _ refl (flag_le try_compress) many fits in
          (blob, made, opened)
      | inr few ↦
          let (blob, (made, opened)) =
            as_counted a law z zlaw rand r e v try_compress p few pos size in
          (blob, made, opened)
    ]
