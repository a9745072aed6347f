-- ===== src/Stream/Body.antt =====
-- The streaming decoder on the chunks that the streaming encoder writes, format by format.
use gbf_core.Base.{
  ℕ, zero, suc, ◌+◌, ◌-◌, ◌*◌, ◌≤◌, ◌<◌, leb, le→ltb, leb→le, le→leb, lt_of_leb-false, ◌==◌, ◌≡◌,
  refl, sym, ap, ◌∙◌, inl, inr, Bool, true, false, ◌||◌, Bool-cases, some, [], ◌++◌, append-nil,
  append_assoc, length, length-append, length-take, length-drop, take, drop, take-append,
  drop-append, take-append-drop, take_all, drop_all, ok, if◌then◌else◌, arith, length-zero,
}
use gbf_core.Base.Bytes.{Bytes, bytes_eq, put_uint32, uint32, uint32-put_uint32, length-put_uint32}
use gbf_core.Crypto.Format.{
  magic_gb1, magic_gb2, magic_gb3, iv_size, tag_size, max_chunk_count, max_uint32,
  default_chunk_size, max_stored_size, is_chunk_count,
}
use gbf_core.Crypto.Aead.{Aead, IsAead, Zstd}
use gbf_core.Crypto.Header.{encode_gb3_header, parse_gb3_header, chunk_count}
use gbf_core.Crypto.Header.Bounds.{
  IsGb3, header_of, parse-encode_append, check-ok, length-encode, chunk_count-exact,
}
use gbf_core.Crypto.Encrypt.{Cryptor, chunk_count_for}
use gbf_core.Crypto.Decrypt.{compressed_v2, compressed_v3}
use gbf_core.Crypto.RoundTrip.Chunks.{
  chunk_count_for_bounds, chunk_count_for-le, chunk_count_for-pos,
}
use gbf_core.Crypto.RoundTrip.Whole.{IsCryptor}
use gbf_core.Stream.Encode.{stored_form, stream_frame}
use gbf_core.Stream.Encoded.{
  IsZstd, stream_body, stream_framed-stream_body, stream_body_stop, stream_body-zero,
  stream_body_more, full_take,
}
use gbf_core.Stream.Decode.{
  padded, stream_chunks, decrypt_gb1_stream, decrypt_gb2_stream, decrypt_gb3_stream,
  decrypt_stream_to_file,
}

flags_v2 : (b : Bool) → compressed_v2 (if b then 1 else 0) ≡ b
unfolding compressed_v2
flags_v2 true = ground arith
flags_v2 false = ground arith

flags_v3 : (b : Bool) → compressed_v3 (if b then 1 else 0) ≡ b
unfolding compressed_v3
flags_v3 true = refl
flags_v3 false = refl

stream_header-IsGb3 :
    (flag size len : ℕ)
    → flag ≤ 1
    → 0 < size
    → size ≤ 64 * 1024 * 1024
    → chunk_count (header_of flag flag size len) ≤ max_uint32
    → IsGb3 (header_of flag flag size len)
stream_header-IsGb3 flag size len small pos up count = record {
  version = refl;
  hash_alg = refl;
  encryption_alg = refl;
  chunking_alg = refl;
  compression_alg = small;
  chunk_size_pos = pos;
  chunk_size_le = up;
  chunk_count_le = count;
}

-- The header of GB3 as the stream decoder reassembles it.
reassembled :
    (flag size len : ℕ) (rest : Bytes)
    → (magic_gb3 ++ take 20 (drop 4 (encode_gb3_header flag flag size len ++ rest))
        ≡ encode_gb3_header flag flag size len ++ [])
      × (drop 20 (drop 4 (encode_gb3_header flag flag size len ++ rest)) ≡ rest)
      × (take 4 (encode_gb3_header flag flag size len ++ rest) ≡ magic_gb3)
unfolding encode_gb3_header
reassembled flag size len rest = (refl, refl, refl)

is_chunk_count-put_uint32 :
    (n : ℕ) → 0 < n → n < max_chunk_count → is_chunk_count (put_uint32 n ++ []) ≡ true
unfolding is_chunk_count uint32 put_uint32
is_chunk_count-put_uint32 n pos few = ground arith

invalid_count : (n : ℕ) → 0 < n → n < max_chunk_count → (n == 0 || leb max_chunk_count n) ≡ false
invalid_count n pos few = ground arith

module _ (a : Aead) (law : IsAead a) (z : Zstd) (zlaw : IsZstd z) (e : Cryptor)
    (v : IsCryptor a e) where
  -- A GB3 blob behind its header.
  pub gb3-body :
      (broken try_compress : Bool) (ivs : ℕ → Bytes) (p : Bytes) (flag : ℕ)
      → ((j : ℕ) → length (ivs j) ≡ iv_size)
      → flag ≤ 1
      → length p ≤ max_uint32 * e.chunk_size
      → decrypt_stream_to_file a z e broken (
          encode_gb3_header flag flag e.chunk_size (length p)
          ++ stream_body a law z zlaw e try_compress true ivs
              (chunk_count_for (length p) e.chunk_size)
              0
              p)
        ≡ ok p
  unfolding decrypt_stream_to_file decrypt_gb3_stream bytes_eq chunk_count_for
  gb3-body broken try_compress ivs p flag hi small fits =
      let n = chunk_count_for (length p) e.chunk_size in
      let body = stream_body a law z zlaw e try_compress true ivs n 0 p in
      let head = encode_gb3_header flag flag e.chunk_size (length p) in
      let header = header_of flag flag e.chunk_size (length p) in
      let (whole, left, magic) = reassembled flag e.chunk_size (length p) body in
      let (lo, up) = chunk_count_for_bounds (length p) e.chunk_size v.size_pos in
      let few = chunk_count_for-le (length p) e.chunk_size max_uint32 v.size_pos fits in
      let counted : chunk_count header ≡ n =
        chunk_count-exact header v.size_pos (omega (arith, v.size_le)) in
      let parsed : parse_gb3_header (magic_gb3 ++ take 20 (drop 4 (head ++ body))) ≡ ok header =
        ap parse_gb3_header whole
        ∙ parse-encode_append flag flag e.chunk_size (length p) [] (omega (arith, v.size_le))
            (omega (arith, v.size_le))
        ∙ check-ok header (
            stream_header-IsGb3 flag e.chunk_size (length p) small v.size_pos v.size_le
              (omega (arith, few, counted))) in
      let l : length (head ++ body) ≡ 24 + length body =
        length-append head body
        ∙ ap (λ k. k + length body) (length-encode flag flag e.chunk_size (length p)) in
      rw
        (
          decrypt_stream_to_file,
          le→leb 4 (length (head ++ body)) (omega (arith, l)),
          magic,
          decrypt_gb3_stream,
          le→leb 20 (length (drop 4 (head ++ body)))
              (omega (arith, l, length-drop 4 (head ++ body))),
          parsed,
          v.key_ok,
          left,
          counted,
        )
        (stream_framed-stream_body a law z zlaw e compressed_v3 (e.chunk_size + tag_size + 1024)
          flags_v3 (omega arith) (omega (arith, v.size_le)) broken try_compress ivs n 0 p [] hi lo
          up)

  -- A GB2 blob behind its magic.
  pub gb2-body :
      (broken : Bool) (ivs : ℕ → Bytes) (p : Bytes) (n : ℕ)
      → ((j : ℕ) → length (ivs j) ≡ iv_size)
      → n ≡ chunk_count_for (length p) e.chunk_size
      → 0 < length p
      → n < max_chunk_count
      → e.chunk_size ≤ default_chunk_size
      → decrypt_stream_to_file a z e broken
          ((magic_gb2 ++ put_uint32 n) ++ stream_body a law z zlaw e true true ivs n 0 p)
        ≡ ok p
  unfolding decrypt_stream_to_file decrypt_gb2_stream bytes_eq put_uint32
  gb2-body broken ivs p n hi hn pos few size =
      let body = stream_body a law z zlaw e true true ivs n 0 p in
      let (lo, up) = chunk_count_for_bounds (length p) e.chunk_size v.size_pos in
      let some_ = chunk_count_for-pos (length p) e.chunk_size v.size_pos pos in
      let valid : (n == 0 || leb max_chunk_count n) ≡ false =
        invalid_count n (omega (arith, hn, some_)) few in
      rw
        (
          decrypt_stream_to_file,
          le→leb 4 (length ((magic_gb2 ++ put_uint32 n) ++ body)) (omega arith),
          decrypt_gb2_stream,
          le→leb 4 (length (put_uint32 n ++ body)) (omega arith),
          uint32-put_uint32 n body (omega (arith, few)),
          valid,
          v.key_ok,
        )
        (stream_framed-stream_body a law z zlaw e compressed_v2 max_stored_size flags_v2
          (omega (arith, size)) (omega arith) broken true ivs n 0 p [] hi (rw hn lo) (rw hn up))

  plain_frame :
      (iv chunk : Bytes)
      → stream_frame false
          (stored_form z false chunk).1
          iv
          (a.seal e.key iv (stored_form z false chunk).0)
        ≡ iv ++ a.seal e.key iv chunk
  unfolding stream_frame stored_form
  plain_frame iv chunk = refl

  body_nil : (ivs : ℕ → Bytes) (n i : ℕ) → stream_body a law z zlaw e false false ivs n i [] ≡ []
  body_nil ivs zero i = stream_body-zero a law z zlaw e false false ivs i []
  body_nil ivs (suc n) i =
      let l = length-take {A = ℕ} e.chunk_size [] in
      stream_body_stop a law z zlaw e false false ivs n i [] (ground (arith, l))

  -- A sealed chunk ends where the next begins, or the stream does.
  chunk_cut :
      (ivs : ℕ → Bytes) (n i : ℕ) (src enc : Bytes)
      → length enc ≡ length (take e.chunk_size src) + tag_size
      → let body = stream_body a law z zlaw e false false ivs n i (drop e.chunk_size src) in
        (take (e.chunk_size + tag_size) (enc ++ body) ≡ enc)
        × (drop (e.chunk_size + tag_size) (enc ++ body) ≡ body)
  chunk_cut ivs n i src enc h =
      let s = e.chunk_size in
      let l = length-take s src in
      elim (Bool-cases (leb s (length src))) [
        | inl full ↦
            let m = leb→le s (length src) full in
            (
              take-append (s + 16) enc _ (omega (arith, h, l, m)),
              drop-append (s + 16) enc _ (omega (arith, h, l, m)),
            )
        | inr short ↦
            let m = lt_of_leb-false s (length src) short in
            let nothing : drop s src ≡ [] = drop_all s src (omega (arith, m)) in
            rw (nothing, body_nil ivs n i, append-nil enc)
              (
                take_all (s + 16) enc (omega (arith, h, l, m)),
                drop_all (s + 16) enc (omega (arith, h, l, m)),
              )
      ]

  stream_chunks-step :
      (count_buf : Bytes) (n : ℕ) (first : Bool) (iv enc chunk rest dst : Bytes)
      → length iv ≡ iv_size
      → take (e.chunk_size + tag_size) (enc ++ rest) ≡ enc
      → drop (e.chunk_size + tag_size) (enc ++ rest) ≡ rest
      → a.unseal e.key iv enc ≡ some chunk
      → stream_chunks a z e false count_buf (suc n) first (iv ++ (enc ++ rest)) dst
        ≡ stream_chunks a z e false count_buf n false rest (dst ++ chunk)
  unfolding stream_chunks
  stream_chunks-step count_buf n first iv enc chunk rest dst hi cut left hu =
      let behind = drop-append iv_size iv (enc ++ rest) hi in
      let after : drop (e.chunk_size + tag_size) (drop iv_size (iv ++ (enc ++ rest))) ≡ rest =
        ap (drop (e.chunk_size + tag_size)) behind ∙ left in
      rw
        (
          le→leb iv_size (length (iv ++ (enc ++ rest)))
              (omega (arith, hi, length-append iv (enc ++ rest))),
          take-append iv_size iv (enc ++ rest) hi,
          behind,
          cut,
          hu,
        )
        (ap (λ (s : Bytes). stream_chunks a z e false count_buf n false s (dst ++ chunk)) after)

  stream_chunks-zero :
      (count_buf : Bytes) (first : Bool) (src dst : Bytes)
      → stream_chunks a z e false count_buf zero first src dst ≡ ok dst
  unfolding stream_chunks
  stream_chunks-zero count_buf first src dst = refl

  -- The chunk loop of GB1 takes what the encoder wrote.
  stream_chunks-stream_body :
      (count_buf : Bytes) (first : Bool) (ivs : ℕ → Bytes) (n i : ℕ) (src dst : Bytes)
      → ((j : ℕ) → length (ivs j) ≡ iv_size)
      → length src ≤ n * e.chunk_size
      → n * e.chunk_size < length src + e.chunk_size
      → stream_chunks a z e false count_buf n first
          (stream_body a law z zlaw e false false ivs n i src)
          dst
        ≡ ok (dst ++ src)
  stream_chunks-stream_body count_buf first ivs zero i src dst hi lo up =
      let nothing : src ≡ [] = length-zero src (omega arith) in
      stream_chunks-zero count_buf first (stream_body a law z zlaw e false false ivs zero i src) dst
      ∙ ap ok (sym (append-nil dst) ∙ ap (◌++◌ dst) (sym nothing))
  stream_chunks-stream_body count_buf first ivs (suc n) i src dst hi lo up =
      let s = e.chunk_size in
      let chunk = take s src in
      let rest = drop s src in
      let enc = a.seal e.key (ivs i) chunk in
      let body = stream_body a law z zlaw e false false ivs n (suc i) rest in
      let more : (length chunk == 0) ≡ false =
        full_take a law z zlaw e s src (omega (arith, lo, up)) (omega (arith, lo, up)) in
      let (cut, left) = chunk_cut ivs n (suc i) src enc (law.length-seal e.key (ivs i) chunk) in
      let next =
        stream_chunks-stream_body count_buf false ivs n (suc i) rest (dst ++ chunk) hi
          (omega (arith, lo, length-drop s src)) (omega (arith, up, length-drop s src)) in
      rw
        (
          stream_body_more a law z zlaw e false false ivs n i src more,
          plain_frame (ivs i) chunk,
          append_assoc (ivs i) enc body,
        )
        (stream_chunks-step count_buf n first (ivs i) enc chunk body dst (hi i) cut left
            (law.unseal-seal e.key (ivs i) chunk)
          ∙ next
          ∙ ap ok (append_assoc dst chunk rest ∙ ap (◌++◌ dst) (take-append-drop s src)))

  pub gb1-body :
      (ivs : ℕ → Bytes) (p : Bytes) (n : ℕ)
      → ((j : ℕ) → length (ivs j) ≡ iv_size)
      → n ≡ chunk_count_for (length p) e.chunk_size
      → 0 < length p
      → n < max_chunk_count
      → decrypt_stream_to_file a z e false
          ((magic_gb1 ++ put_uint32 n) ++ stream_body a law z zlaw e false false ivs n 0 p)
        ≡ ok p
  unfolding decrypt_stream_to_file decrypt_gb1_stream bytes_eq padded
  gb1-body ivs p n hi hn pos few =
      let body = stream_body a law z zlaw e false false ivs n 0 p in
      let (lo, up) = chunk_count_for_bounds (length p) e.chunk_size v.size_pos in
      let some_ = chunk_count_for-pos (length p) e.chunk_size v.size_pos pos in
      let l : length (put_uint32 n) ≡ 4 = length-put_uint32 n in
      let m : length (put_uint32 n ++ body) ≡ length (put_uint32 n) + length body =
        length-append (put_uint32 n) body in
      let none_missing : 4 - length (put_uint32 n ++ body) ≡ 0 = omega (arith, l, m) in
      let read : uint32 (put_uint32 n ++ []) ≡ n = uint32-put_uint32 n [] (omega (arith, few)) in
      let count : is_chunk_count (put_uint32 n ++ []) ≡ true =
        is_chunk_count-put_uint32 n (omega (arith, hn, some_)) few in
      rw
        (
          decrypt_stream_to_file,
          le→leb 4 (length ((magic_gb1 ++ put_uint32 n) ++ body)) (omega arith),
          decrypt_gb1_stream,
          le→ltb (length (put_uint32 n ++ body)) 4 (omega (arith, l, m)),
          padded,
          take-append 4 (put_uint32 n) body l,
          none_missing,
          count,
          read,
          v.key_ok,
          drop-append 4 (put_uint32 n) body l,
        )
        (stream_chunks-stream_body (put_uint32 n ++ []) true ivs n 0 p [] hi (rw hn lo) (rw hn up))
