-- ===== src/Crypto/Toy.antt =====
-- A toy cipher for test runs: its tag is sixteen times the first byte of the key.
use gbf_core.Base.{
  ◌+◌, ◌-◌, ◌≡◌, refl, ltb, ◌==◌, le→ltb, if◌then◌else◌, none, some, ◌++◌, length, get_or, take,
  drop, replicate, length-append, take-append, drop-append, arith,
}
use gbf_core.Base.Bytes.{Bytes, bytes_eq, bytes_eq_refl}
use gbf_core.Crypto.Aead.{Aead, IsAead, Zstd, Rand, IsRand}
use gbf_core.Crypto.Encrypt.{Cryptor}
use gbf_core.Crypto.RoundTrip.Whole.{IsCryptor}

abbrev pub toy_tag : Bytes → Bytes
toy_tag k = replicate 16 (get_or k 0 0)

abbrev pub toy : Aead
toy = record {
  key_ok = λ k. length k == 32;
  seal = λ k iv p. p ++ toy_tag k;
  unseal = λ k iv c.
      if ltb (length c) 16
      then none
      else if bytes_eq (drop (length c - 16) c) (toy_tag k)
      then some (take (length c - 16) c)
      else none;
}

pub toy-IsAead : IsAead toy
toy-IsAead = record {
  unseal-seal = λ k iv p.
      let l : length (p ++ toy_tag k) ≡ length p + 16 = length-append p (toy_tag k) in
      let n : length p ≡ length (p ++ toy_tag k) - 16 = omega (arith, l) in
      rw (le→ltb (length (p ++ toy_tag k)) 16 (omega (arith, l))) (
        rw (drop-append (length (p ++ toy_tag k) - 16) p (toy_tag k) n) (
          rw (
            bytes_eq_refl (toy_tag k),
            take-append (length (p ++ toy_tag k) - 16) p (toy_tag k) n,
          )));
  length-seal = λ k iv p. length-append p (toy_tag k);
}

abbrev pub toy_zstd : Zstd
toy_zstd = record { compress = λ p. p; decompress = λ p. some p }

abbrev pub iv : Bytes
iv = replicate 12 255

abbrev pub toy_rand : Rand
toy_rand n = some iv

abbrev pub toy_rand-IsRand : IsRand toy_rand
toy_rand-IsRand n = (iv, refl, refl)

abbrev pub key : Bytes
key = replicate 32 7

abbrev pub cryptor : Cryptor
cryptor = record { key = key; chunk_size = 4 }

pub cryptor-IsCryptor : IsCryptor toy cryptor
cryptor-IsCryptor = record { key_ok = refl; size_pos = omega arith; size_le = omega arith }
