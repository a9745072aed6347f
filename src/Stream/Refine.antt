-- ===== src/Stream/Refine.antt =====
-- The streaming decoders give what the buffered ones give.
use gbf_core.Base.{
  ℕ, zero, suc, ◌≤◌, ◌+◌, ◌-◌, ltb, leb, ◌==◌, leb→le, le→leb, ltb→lt, le→ltb, ◌≡◌, refl, sym, ap,
  ◌∙◌, inl, inr, Bool, true, false, not, ◌||◌, Bool-cases, some, [], ◌∷◌, ◌++◌, length, take, drop,
  length-take, take_all, drop_all, get_or, ok, guard-eq-ok, or_fail, or_fail-ok, ok-injective,
  >>=-eq-ok, if◌then◌else◌, arith,
}
use gbf_core.Base.Bytes.{Bytes, bytes_eq, uint16, uint32, uint64}
use gbf_core.Crypto.Format.{
  magic_gb3, tag_size, max_chunk_count, max_stored_size, is_chunk_count, CryptoError,
}
use gbf_core.Crypto.Aead.{Aead, Zstd}
use gbf_core.Crypto.Header.{
  Gb3Header, chunk_count, read_gb3_header, check_gb3_header, parse_gb3_header,
}
use gbf_core.Crypto.Encrypt.{Cryptor}
use gbf_core.Crypto.Decrypt.{
  inflate, compressed_v2, compressed_v3, finish, open_chunks, open_framed, decrypt_large,
  decrypt_large_v2, decrypt_large_v3,
}
use gbf_core.Stream.Decode.{
  padded, stream_chunks, stream_framed, decrypt_gb1_stream, decrypt_gb2_stream, decrypt_gb3_stream,
}

finish-ok : (rest plaintext : Bytes) {p : Bytes} → finish rest plaintext ≡ ok p → plaintext ≡ p
unfolding finish
finish-ok rest plaintext h = elim (Bool-cases (length rest == 0)) [
  | inl done ↦ ok-injective (rw (finish, done) at h)
  | inr left ↦ absurd (let x = rw (finish, left) at h in cc)
]

is_chunk_count_lem :
    (b0 b1 b2 b3 : ℕ) (rest : Bytes)
    → not (
        uint32 (b0 ∷ b1 ∷ b2 ∷ b3 ∷ rest) == 0
        || leb max_chunk_count (uint32 (b0 ∷ b1 ∷ b2 ∷ b3 ∷ rest)))
      ≡ true
    → is_chunk_count (b0 ∷ b1 ∷ b2 ∷ b3 ∷ []) ≡ true
unfolding is_chunk_count uint32
is_chunk_count_lem b0 b1 b2 b3 rest h = ground arith

padded-four :
    (b0 b1 b2 b3 : ℕ) (rest : Bytes) → padded 4 (b0 ∷ b1 ∷ b2 ∷ b3 ∷ rest) ≡ b0 ∷ b1 ∷ b2 ∷ b3 ∷ []
unfolding padded
padded-four b0 b1 b2 b3 rest =
    let e : 4 - length (b0 ∷ b1 ∷ b2 ∷ b3 ∷ rest) ≡ 0 = omega arith in rw e refl

uint32-four :
    (b0 b1 b2 b3 : ℕ) (rest : Bytes)
    → uint32 (b0 ∷ b1 ∷ b2 ∷ b3 ∷ rest) ≡ uint32 (b0 ∷ b1 ∷ b2 ∷ b3 ∷ [])
unfolding uint32
uint32-four b0 b1 b2 b3 rest = refl

four :
    (n : ℕ) (s : Bytes)
    → n + 4 ≤ length s
    → (b0 b1 b2 b3 : ℕ) × (rest : Bytes) × (s ≡ b0 ∷ b1 ∷ b2 ∷ b3 ∷ rest) × (n ≤ length rest)
four n [] h = absurd (omega arith)
four n (b0 ∷ []) h = absurd (omega arith)
four n (b0 ∷ b1 ∷ []) h = absurd (omega arith)
four n (b0 ∷ b1 ∷ b2 ∷ []) h = absurd (omega arith)
four n (b0 ∷ b1 ∷ b2 ∷ b3 ∷ rest) h = (b0, b1, b2, b3, rest, refl, omega arith)

read_twenty :
    (a0 a1 a2 a3 b0 b1 b2 b3 c0 c1 c2 c3 d0 d1 d2 d3 e0 e1 e2 e3 : ℕ) (rest : Bytes)
    → read_gb3_header (
        magic_gb3
        ++ (a0 ∷ a1 ∷ a2 ∷ a3 ∷ b0 ∷ b1 ∷ b2 ∷ b3 ∷ c0 ∷ c1 ∷ c2 ∷ c3 ∷ d0 ∷ d1 ∷ d2 ∷ d3 ∷ e0 ∷ e1
            ∷ e2 ∷ e3 ∷ rest))
      ≡ read_gb3_header (
          magic_gb3
          ++ (a0 ∷ a1 ∷ a2 ∷ a3 ∷ b0 ∷ b1 ∷ b2 ∷ b3 ∷ c0 ∷ c1 ∷ c2 ∷ c3 ∷ d0 ∷ d1 ∷ d2 ∷ d3 ∷ e0
              ∷ e1 ∷ e2 ∷ e3 ∷ []))
unfolding read_gb3_header uint16 uint32 uint64
read_twenty a0 a1 a2 a3 b0 b1 b2 b3 c0 c1 c2 c3 d0 d1 d2 d3 e0 e1 e2 e3 rest = refl

-- The header is read from its 24 bytes.
read_gb3_header-take :
    (s : Bytes)
    → 20 ≤ length s
    → read_gb3_header (magic_gb3 ++ s) ≡ read_gb3_header (magic_gb3 ++ take 20 s)
read_gb3_header-take s h =
    let (a0, a1, a2, a3, s1, q1, h1) = four 16 s h in
    let (b0, b1, b2, b3, s2, q2, h2) = four 12 s1 h1 in
    let (c0, c1, c2, c3, s3, q3, h3) = four 8 s2 h2 in
    let (d0, d1, d2, d3, s4, q4, h4) = four 4 s3 h3 in
    let (e0, e1, e2, e3, s5, q5, h5) = four 0 s4 h4 in
    let e : s
        ≡ a0 ∷ a1 ∷ a2 ∷ a3 ∷ b0 ∷ b1 ∷ b2 ∷ b3 ∷ c0 ∷ c1 ∷ c2 ∷ c3 ∷ d0 ∷ d1 ∷ d2 ∷ d3 ∷ e0 ∷ e1
          ∷ e2 ∷ e3 ∷ s5 =
      q1
      ∙ ap (λ (t : Bytes). a0 ∷ a1 ∷ a2 ∷ a3 ∷ t) q2
      ∙ ap (λ (t : Bytes). a0 ∷ a1 ∷ a2 ∷ a3 ∷ b0 ∷ b1 ∷ b2 ∷ b3 ∷ t) q3
      ∙ ap (λ (t : Bytes). a0 ∷ a1 ∷ a2 ∷ a3 ∷ b0 ∷ b1 ∷ b2 ∷ b3 ∷ c0 ∷ c1 ∷ c2 ∷ c3 ∷ t) q4
      ∙ ap
          (λ (t : Bytes).
            a0 ∷ a1 ∷ a2 ∷ a3 ∷ b0 ∷ b1 ∷ b2 ∷ b3 ∷ c0 ∷ c1 ∷ c2 ∷ c3 ∷ d0 ∷ d1 ∷ d2 ∷ d3 ∷ t)
          q5 in
    rw e (read_twenty a0 a1 a2 a3 b0 b1 b2 b3 c0 c1 c2 c3 d0 d1 d2 d3 e0 e1 e2 e3 s5)

parse_gb3_header-take :
    (s : Bytes) (header : Gb3Header)
    → 20 ≤ length s
    → parse_gb3_header (magic_gb3 ++ s) ≡ ok header
    → parse_gb3_header (magic_gb3 ++ take 20 s) ≡ ok header
unfolding parse_gb3_header bytes_eq
parse_gb3_header-take s header h parsed =
    let (long, p1) =
      guard-eq-ok (leb 24 (length (magic_gb3 ++ s))) CryptoError.header_too_short _ parsed in
    let (_, p2) = guard-eq-ok (leb 24 (length (magic_gb3 ++ s))) CryptoError.panic _ p1 in
    let l : length (take 20 s) ≡ 20 = omega (arith, length-take 20 s) in
    rw (parse_gb3_header, le→leb 24 (length (magic_gb3 ++ take 20 s)) (omega (arith, l)))
      (ap check_gb3_header (sym (read_gb3_header-take s h)) ∙ p2)

module _ (a : Aead) (z : Zstd) (d : Cryptor) where
  -- A buffered loop that succeeds used the blob up; the streaming loop takes the same steps.
  stream_framed-open_framed :
      (broken : Bool) (is_set : ℕ → Bool) (max n : ℕ) (buf plaintext : Bytes) {p : Bytes}
      → open_framed a z d is_set max n buf plaintext ≡ ok p
      → stream_framed a z d broken is_set max n buf plaintext ≡ ok p
  unfolding open_framed stream_framed
  stream_framed-open_framed broken is_set max zero buf plaintext h =
      ap ok (finish-ok buf plaintext h)
  stream_framed-open_framed broken is_set max (suc n) buf plaintext h =
      let framed = drop 5 buf in
      let rest = drop 12 framed in
      let size = uint32 buf in
      let (g1, h1) = guard-eq-ok (leb 5 (length buf)) CryptoError.missing_size_header _ h in
      let (_, h1') = guard-eq-ok (leb 5 (length buf)) CryptoError.panic _ h1 in
      let (g2, h2) = guard-eq-ok (leb size max) CryptoError.stored_size_exceeded _ h1' in
      let (g3, h3) = guard-eq-ok (leb 12 (length framed)) CryptoError.missing_iv _ h2 in
      let (_, h3') = guard-eq-ok (leb 12 (length framed)) CryptoError.panic _ h3 in
      let (g4, h4') = guard-eq-ok (leb size (length rest)) CryptoError.missing_ciphertext _ h3' in
      let (_, h4) = guard-eq-ok (leb size (length rest)) CryptoError.panic _ h4' in
      let (decrypted, u, h5) =
        >>=-eq-ok
          (or_fail (a.unseal d.key (take 12 framed) (take size rest)) CryptoError.decrypt_failed) _
          h4 in
      let (inflated, x, h6) = >>=-eq-ok (inflate a z d (is_set (get_or buf 4 0)) decrypted) _ h5 in
      rw (stream_framed, g1, g2, g3, g4, u, x)
        (stream_framed-open_framed broken is_set max n (drop size rest) (plaintext ++ inflated) h6)

  take_end :
      (estimated : ℕ) (rest : Bytes)
      → let chunk_end = if ltb (length rest) estimated then length rest else estimated in
        (take chunk_end rest ≡ take estimated rest) × (drop chunk_end rest ≡ drop estimated rest)
  take_end estimated rest = elim (Bool-cases (ltb (length rest) estimated)) [
    | inr long ↦ rw long (refl, refl)
    | inl short ↦
        let le = ltb→lt (length rest) estimated short in
        rw short (
          take_all (length rest) rest (omega arith)
              ∙ sym (take_all estimated rest (omega (arith, le))),
          drop_all (length rest) rest (omega arith)
              ∙ sym (drop_all estimated rest (omega (arith, le))),
        )
  ]

  stream_chunks-open_chunks :
      (count_buf : Bytes) (n : ℕ) (first : Bool) (buf plaintext : Bytes) {p : Bytes}
      → open_chunks a z d n buf plaintext ≡ ok p
      → stream_chunks a z d false count_buf n first buf plaintext ≡ ok p
  unfolding open_chunks stream_chunks
  stream_chunks-open_chunks count_buf zero first buf plaintext h = ap ok (finish-ok buf plaintext h)
  stream_chunks-open_chunks count_buf (suc n) first buf plaintext {p} h =
      let rest = drop 12 buf in
      let estimated = d.chunk_size + tag_size in
      let (same, left) = take_end estimated rest in
      let (g1, h0) = guard-eq-ok (leb 12 (length buf)) CryptoError.missing_iv _ h in
      let (_, h0') = guard-eq-ok (leb 12 (length buf)) CryptoError.panic _ h0 in
      let (_, h1) =
        guard-eq-ok
          (leb (if ltb (length rest) estimated then length rest else estimated) (length rest))
          CryptoError.panic _ h0' in
      let (decrypted, u, h2) =
        >>=-eq-ok
          (or_fail
            (a.unseal d.key (take 12 buf)
              (take (if ltb (length rest) estimated then length rest else estimated) rest))
            CryptoError.decrypt_failed)
          _ h1 in
      let opened : a.unseal d.key (take 12 buf) (take estimated rest) ≡ some decrypted =
        ap (a.unseal d.key (take 12 buf)) (sym same) ∙ or_fail-ok _ CryptoError.decrypt_failed u in
      let next : open_chunks a z d n (drop estimated rest) (plaintext ++ decrypted) ≡ ok p =
        ap (λ b. open_chunks a z d n b (plaintext ++ decrypted)) (sym left) ∙ h2 in
      rw (stream_chunks, g1, opened)
        (stream_chunks-open_chunks count_buf n false (drop estimated rest) (plaintext ++ decrypted)
          next)

  pub decrypt_gb2_stream-decrypt_large_v2 :
      (broken : Bool) (buf : Bytes) {p : Bytes}
      → decrypt_large_v2 a z d buf ≡ ok p
      → decrypt_gb2_stream a z d broken buf ≡ ok p
  unfolding decrypt_large_v2 decrypt_gb2_stream
  decrypt_gb2_stream-decrypt_large_v2 broken buf h =
      let (g1, h1) = guard-eq-ok (leb 4 (length buf)) CryptoError.data_too_short _ h in
      let (_, h1') = guard-eq-ok (leb 4 (length buf)) CryptoError.panic _ h1 in
      let (g2, h2) =
        guard-eq-ok (not (uint32 buf == 0 || leb max_chunk_count (uint32 buf)))
          CryptoError.invalid_chunk_count _ h1' in
      let (g3, h3) = guard-eq-ok (a.key_ok d.key) CryptoError.cipher_failed _ h2 in
      rw (decrypt_gb2_stream, g1, g2, g3)
        (stream_framed-open_framed broken compressed_v2 max_stored_size (uint32 buf) (drop 4 buf) []
          h3)

  pub decrypt_gb1_stream-decrypt_large :
      (buf : Bytes) {p : Bytes}
      → decrypt_large a z d buf ≡ ok p
      → decrypt_gb1_stream a z d false buf ≡ ok p
  unfolding decrypt_large decrypt_gb1_stream
  decrypt_gb1_stream-decrypt_large [] h = cc
  decrypt_gb1_stream-decrypt_large (b0 ∷ []) h = cc
  decrypt_gb1_stream-decrypt_large (b0 ∷ b1 ∷ []) h = cc
  decrypt_gb1_stream-decrypt_large (b0 ∷ b1 ∷ b2 ∷ []) h = cc
  decrypt_gb1_stream-decrypt_large (b0 ∷ b1 ∷ b2 ∷ b3 ∷ rest) {p} h =
      let buf = b0 ∷ b1 ∷ b2 ∷ b3 ∷ rest in
      let (g1, h1) = guard-eq-ok (leb 4 (length buf)) CryptoError.panic _ h in
      let (g2, h2) =
        guard-eq-ok (not (uint32 buf == 0 || leb max_chunk_count (uint32 buf)))
          CryptoError.invalid_chunk_count _ h1 in
      let (g3, h3) = guard-eq-ok (a.key_ok d.key) CryptoError.cipher_failed _ h2 in
      rw
        (
          decrypt_gb1_stream,
          le→ltb (length buf) 4 (omega arith),
          padded-four b0 b1 b2 b3 rest,
          is_chunk_count_lem b0 b1 b2 b3 rest g2,
          g3,
          ← uint32-four b0 b1 b2 b3 rest,
        )
        (stream_chunks-open_chunks (b0 ∷ b1 ∷ b2 ∷ b3 ∷ []) (uint32 buf) true rest [] h3)

  pub decrypt_gb3_stream-decrypt_large_v3 :
      (broken : Bool) (rest : Bytes) {p : Bytes}
      → decrypt_large_v3 a z d (magic_gb3 ++ rest) ≡ ok p
      → decrypt_gb3_stream a z d broken rest ≡ ok p
  unfolding decrypt_large_v3 decrypt_gb3_stream parse_gb3_header bytes_eq
  decrypt_gb3_stream-decrypt_large_v3 broken rest h =
      let (header, parsed, h1) = >>=-eq-ok (parse_gb3_header (magic_gb3 ++ rest)) _ h in
      let (_, h1') = guard-eq-ok (leb 24 (length (magic_gb3 ++ rest))) CryptoError.panic _ h1 in
      let (g2, h2) = guard-eq-ok (a.key_ok d.key) CryptoError.cipher_failed _ h1' in
      let (long, p1) =
        guard-eq-ok (leb 24 (length (magic_gb3 ++ rest))) CryptoError.header_too_short _ parsed in
      let enough : 20 ≤ length rest = omega (arith, leb→le 24 (length (magic_gb3 ++ rest)) long) in
      let short : parse_gb3_header (magic_gb3 ++ take 20 rest) ≡ ok header =
        parse_gb3_header-take rest header enough parsed in
      rw (decrypt_gb3_stream, le→leb 20 (length rest) enough, g2, short)
        (stream_framed-open_framed broken compressed_v3 (header.chunk_size + tag_size + 1024)
          (chunk_count header) (drop 20 rest) [] h2)
