-- ===== src/Stream/Buffered.antt =====
-- The streaming decoder agrees with the buffered one on large blobs and on small ones.
use gbf_core.Base.{le→leb, ◌≡◌, false, ◌++◌, length, ok, arith}
use gbf_core.Base.Bytes.{Bytes, bytes_eq}
use gbf_core.Crypto.Format.{magic_gb1, magic_gb2, magic_gb3}
use gbf_core.Crypto.Aead.{Aead, Zstd}
use gbf_core.Crypto.Encrypt.{Cryptor}
use gbf_core.Crypto.Decrypt.{decrypt_large, decrypt_large_v2, decrypt_large_v3}
use gbf_core.Stream.Decode.{decrypt_stream_to_file}
use gbf_core.Stream.Refine.{
  decrypt_gb1_stream-decrypt_large, decrypt_gb2_stream-decrypt_large_v2,
  decrypt_gb3_stream-decrypt_large_v3,
}

-- A large blob of one of the three formats, with what the buffered decoder of its format gives.
pub data IsLarge (a : Aead) (z : Zstd) (d : Cryptor) (p : Bytes) : Bytes → Type 0 where
  gb1 : (buf : Bytes) → decrypt_large a z d buf ≡ ok p → IsLarge a z d p (magic_gb1 ++ buf)
  gb2 : (buf : Bytes) → decrypt_large_v2 a z d buf ≡ ok p → IsLarge a z d p (magic_gb2 ++ buf)
  gb3 :
      (buf : Bytes)
      → decrypt_large_v3 a z d (magic_gb3 ++ buf) ≡ ok p
      → IsLarge a z d p (magic_gb3 ++ buf)

module _ (a : Aead) (z : Zstd) (d : Cryptor) where
  -- Whatever large blob the buffered decoder of its format opens, the streaming decoder opens to
  -- the same plaintext.
  pub decrypt_stream_to_file-IsLarge :
      (p : Bytes) (blob : Bytes)
      → IsLarge a z d p blob
      → decrypt_stream_to_file a z d false blob ≡ ok p
  unfolding decrypt_stream_to_file bytes_eq
  decrypt_stream_to_file-IsLarge p blob (gb1 buf h) =
      rw (decrypt_stream_to_file, le→leb 4 (length (magic_gb1 ++ buf)) (omega arith))
        (decrypt_gb1_stream-decrypt_large a z d buf h)
  decrypt_stream_to_file-IsLarge p blob (gb2 buf h) =
      rw (decrypt_stream_to_file, le→leb 4 (length (magic_gb2 ++ buf)) (omega arith))
        (decrypt_gb2_stream-decrypt_large_v2 a z d false buf h)
  decrypt_stream_to_file-IsLarge p blob (gb3 buf h) =
      rw (decrypt_stream_to_file, le→leb 4 (length (magic_gb3 ++ buf)) (omega arith))
        (decrypt_gb3_stream-decrypt_large_v3 a z d false buf h)
