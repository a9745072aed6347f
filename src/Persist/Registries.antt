-- ===== src/Persist/Registries.antt =====
-- A source registry that is saved loads again under its own id, and a listing drops none.
use gbf_core.Base.{
  zero, suc, ◌+◌, ltb, lt→ltb, ltb→lt, leb→le, ◌≡◌, refl, sym, ap, ◌∙◌, ◌⊎◌, inl, inr, true, false,
  &&-true, Bool-cases, some, List, [], ◌∷◌, ◌++◌, length, length-append, Result, ok, err,
  Result-cases, >>=-eq-ok, guard-eq-ok, or_fail, ok-injective, if◌then◌else◌, arith,
}
use mathlib.Core.List.{Memᴰ}
use gbf_core.Base.Bytes.{Bytes, bytes_eq, bytes_eq_iff, bytes_eq_refl}
use gbf_core.Base.Int64.{ℤ, pos, negsuc, ltℤ}
use gbf_core.Base.Text.{has_suffix}
use gbf_core.Blob.{is_compressed}
use gbf_core.Disk.{Files, DiskFaults, read_file, write_file_atomic}
use gbf_core.Disk.Atomic.{write_file_atomic-ok}
use gbf_core.Manifest.CloudId.{validate_cloud_id}
use gbf_core.Persist.{Codec, IsCodec, gbr_envelope}
use gbf_core.Persist.Envelope.{strip_gbr_envelope-gbr_envelope}
use gbf_core.Persist.Save.{json_zst, trim_suffix}
use gbf_core.Persist.Registry.{
  SourceRegistry, RegistryError, bad_registry_id, mkdir_failed, bad_json, unsupported_version,
  identity_mismatch, read_failed, write_failed, stamp, stamped, registry_path, or_error,
  encode_source_registry, open_registry, unpack, check_version, decode_source_registry,
  save_source_registry, load_source_registry, record_load, list_source_registries,
}

or_error-ok :
    {Fail Value : Type 0} (wrap : Fail → RegistryError) (r : Result Fail Value) {v : Value}
    → or_error wrap r ≡ ok v
    → r ≡ ok v
unfolding or_error
or_error-ok wrap (err e) h = cc
or_error-ok wrap (ok w) h = cc

-- A text that begins with the magic number of zstd is not empty.
compressed_full : (p : Bytes) → is_compressed p ≡ true → ltb 0 (length p) ≡ true
unfolding is_compressed
compressed_full p h =
    lt→ltb 0 (length p) (let l = leb→le 4 (length p) (&&-true _ _ h).0 in omega (arith, l))

pair : {A B : Type 0} {p : A × B} {x : A} {y : B} → p.0 ≡ x → p.1 ≡ y → p ≡ (x, y)
pair e f = λ i. (e i, f i)

stamp-ltℤ : (v : ℤ) → ltℤ (pos 1) v ≡ false → ltℤ (pos 1) (stamp v) ≡ false
unfolding stamp
stamp-ltℤ (pos zero) h = refl
stamp-ltℤ (pos (suc n)) h = h
stamp-ltℤ (negsuc n) h = h

check_version-ok :
    (n : SourceRegistry) {reg : SourceRegistry}
    → check_version n ≡ ok reg
    → ltℤ (pos 1) reg.schema_version ≡ false
unfolding check_version stamped
check_version-ok n {reg} h = elim (Bool-cases (ltℤ (pos 1) n.schema_version)) [
  | inl newer ↦ absurd (
      let x : err unsupported_version ≡ ok reg =
        ap (λ b. if b then err unsupported_version else ok (stamped n)) (sym newer) ∙ h in
      cc)
  | inr known ↦
      let x : ok (stamped n) ≡ ok reg =
        ap (λ b. if b then err unsupported_version else ok (stamped n)) (sym known) ∙ h in
      rw (← ok-injective x) (stamp-ltℤ n.schema_version known)
]

module _ (c : Codec SourceRegistry) where
  open_registry-gbr_envelope :
      {v : SourceRegistry} (codec : IsCodec c v) (p : Bytes)
      → open_registry c (gbr_envelope c.sha (c.compress p)) ≡ ok (c.compress p)
  unfolding open_registry gbr_envelope bytes_eq
  open_registry-gbr_envelope codec p =
      let packed = c.compress p in
      let full = compressed_full packed (codec.is_compressed-compress p) in
      let l : length (c.sha packed ++ packed) ≡ length (c.sha packed) + length packed =
        length-append (c.sha packed) packed in
      let long : ltb 36 (length (gbr_envelope c.sha packed)) ≡ true =
        lt→ltb 36 _
          (let n = codec.length-sha packed in omega (arith, l, n, ltb→lt 0 (length packed) full)) in
      rw (open_registry, long, strip_gbr_envelope-gbr_envelope c.sha codec.length-sha packed)

  -- With codecs that give back what they took, a registry without a version or of version 1 decodes
  -- from what it is encoded to, with version 1.
  pub decode_source_registry-encode_source_registry :
      (reg : SourceRegistry) (codec : IsCodec c (stamped reg))
      → (reg.schema_version ≡ pos 0) ⊎ (reg.schema_version ≡ pos 1)
      → decode_source_registry c (encode_source_registry c reg)
        ≡ ok (record reg { schema_version = pos 1 })
  unfolding decode_source_registry encode_source_registry unpack stamped stamp check_version
  decode_source_registry-encode_source_registry reg codec old =
      let one : stamped reg ≡ record reg { schema_version = pos 1 } = elim old [
        | inl zero_ ↦ ap (λ v. record reg { schema_version = stamp v }) zero_
        | inr one_ ↦ ap (λ v. record reg { schema_version = stamp v }) one_
      ] in
      rw
        (
          decode_source_registry,
          encode_source_registry,
          open_registry-gbr_envelope codec (c.marshal (stamped reg)),
          unpack,
          codec.is_compressed-compress (c.marshal (stamped reg)),
          codec.decompress-compress (c.marshal (stamped reg)),
          codec.unmarshal-marshal,
        )
        (ap check_version one)

  load_source_registry-saved :
      (r : DiskFaults) (meta id content : Bytes) (t : Files) (reg : SourceRegistry)
      → r.read ≡ false
      → validate_cloud_id id ≡ ok tt
      → t (registry_path meta id) ≡ some content
      → decode_source_registry c content ≡ ok reg
      → reg.cloud_id ≡ id
      → load_source_registry c r meta id t ≡ ok reg
  unfolding load_source_registry or_error read_file
  load_source_registry-saved r meta id content t reg readable valid at decoded named = rw (
    load_source_registry,
    valid,
    or_error,
    read_file,
    at,
    readable,
    decoded,
    named,
    bytes_eq_refl id,
  )

  -- With codecs that give back what they took, saving a registry without a version or of version 1
  -- that succeeds makes it load under its id, where the file can be read, with version 1, whatever
  -- stood there.
  pub load_source_registry-save_source_registry :
      (f r : DiskFaults) (uuid meta : Bytes) (reg : SourceRegistry)
      (codec : IsCodec c (stamped reg)) (files : Files) {t : Files}
      → (reg.schema_version ≡ pos 0) ⊎ (reg.schema_version ≡ pos 1)
      → r.read ≡ false
      → save_source_registry c f uuid meta reg files ≡ (ok tt, t)
      → load_source_registry c r meta reg.cloud_id t ≡ ok (record reg { schema_version = pos 1 })
  unfolding save_source_registry
  load_source_registry-save_source_registry f r uuid meta reg codec files {t} old readable h =
      elim (Result-cases (validate_cloud_id reg.cloud_id)) [
        | inr (e, x) ↦ absurd (let y = rw (save_source_registry, x) at h in cc)
        | inl (tt, x) ↦ elim (Bool-cases f.mkdir) [
          | inl bad ↦ absurd (let y = rw (save_source_registry, x, bad) at h in cc)
          | inr made ↦
              let path = registry_path meta reg.cloud_id in
              let written = write_file_atomic f uuid path (encode_source_registry c reg) files in
              let y : (or_error write_failed written.0, written.1) ≡ (ok tt, t) =
                ap
                  (λ b.
                    if b
                    then (err mkdir_failed, files)
                    else (or_error write_failed written.0, written.1))
                  (sym made)
                ∙ rw (save_source_registry, x) at h in
              let done : written ≡ (ok tt, t) =
                pair (or_error-ok write_failed written.0 (ap (λ o. o.0) y)) (ap (λ o. o.1) y) in
              let (at, _) =
                write_file_atomic-ok f uuid path (encode_source_registry c reg) files done in
              load_source_registry-saved r meta reg.cloud_id _ t _ readable x at
                (decode_source_registry-encode_source_registry reg codec old) refl
        ]
      ]

  -- A registry that loads has the id that it is loaded under, and version 1 or less.
  pub load_source_registry-ok :
      (f : DiskFaults) (meta id : Bytes) (files : Files) {reg : SourceRegistry}
      → load_source_registry c f meta id files ≡ ok reg
      → (reg.cloud_id ≡ id) × (ltℤ (pos 1) reg.schema_version ≡ false)
  unfolding load_source_registry decode_source_registry
  load_source_registry-ok f meta id files h =
      let (_, _, h1) = >>=-eq-ok (or_error bad_registry_id (validate_cloud_id id)) _ h in
      let (content, _, h2) =
        >>=-eq-ok (or_error read_failed (read_file f (registry_path meta id) files)) _ h1 in
      let (r, decoded, h3) = >>=-eq-ok (decode_source_registry c content) _ h2 in
      let (same, h4) = guard-eq-ok (bytes_eq r.cloud_id id) identity_mismatch _ h3 in
      let e = ok-injective h4 in
      let (_, _, d1) = >>=-eq-ok (open_registry c content) _ decoded in
      let (json, _, d2) = >>=-eq-ok (unpack c _) _ d1 in
      let (reg', _, d3) = >>=-eq-ok (or_fail (c.unmarshal json) bad_json) _ d2 in
      rw (← e) ((bytes_eq_iff r.cloud_id id).0 same, check_version-ok reg' d3)

  record_load-kept :
      (id : Bytes) (r : Result RegistryError SourceRegistry)
      (rest : List SourceRegistry × List (Bytes × RegistryError))
      → ((x : SourceRegistry) → Memᴰ x rest.0 → Memᴰ x (record_load id r rest).0)
        × ((x : Bytes × RegistryError) → Memᴰ x rest.1 → Memᴰ x (record_load id r rest).1)
  unfolding record_load
  record_load-kept id (err e) (regs, failures) = (λ x h. h, λ x h. Memᴰ.tail h)
  record_load-kept id (ok reg) (regs, failures) = (λ x h. Memᴰ.tail h, λ x h. h)

  -- How a file of a listing comes out of it.
  abbrev pub Listed : DiskFaults → Bytes → Files → List Bytes → Bytes → Type 0
  Listed f meta files rels id =
      ((reg : SourceRegistry) × (load_source_registry c f meta id files ≡ ok reg)
        × Memᴰ reg (list_source_registries c f meta files rels).0)
      ⊎ ((e : RegistryError) × (load_source_registry c f meta id files ≡ err e)
          × Memᴰ (id, e) (list_source_registries c f meta files rels).1)

  record_load-Listed :
      (f : DiskFaults) (meta : Bytes) (files : Files) (id : Bytes)
      (r : Result RegistryError SourceRegistry)
      (rest : List SourceRegistry × List (Bytes × RegistryError))
      → load_source_registry c f meta id files ≡ r
      → ((reg : SourceRegistry) × (load_source_registry c f meta id files ≡ ok reg)
          × Memᴰ reg (record_load id r rest).0)
        ⊎ ((e : RegistryError) × (load_source_registry c f meta id files ≡ err e)
            × Memᴰ (id, e) (record_load id r rest).1)
  unfolding record_load
  record_load-Listed f meta files id (err e) (regs, failures) h = inr (e, h, Memᴰ.head refl)
  record_load-Listed f meta files id (ok reg) (regs, failures) h = inl (reg, h, Memᴰ.head refl)

  -- Every registry file that the walk finds is among the registries of the listing, or among its
  -- failures with the error of its loading.
  pub list_source_registries-Listed :
      (f : DiskFaults) (meta : Bytes) (files : Files) (rels : List Bytes) (rel : Bytes)
      → Memᴰ rel rels
      → has_suffix rel json_zst ≡ true
      → Listed f meta files rels (trim_suffix rel json_zst)
  unfolding list_source_registries
  list_source_registries-Listed f meta files [] rel m suffix = elim m [ ]
  list_source_registries-Listed f meta files (r ∷ rels) rel (Memᴰ.head e) suffix =
      let id = trim_suffix r json_zst in
      let named : has_suffix r json_zst ≡ true = rw e at suffix in
      let there =
        record_load-Listed f meta files id (load_source_registry c f meta id files)
          (list_source_registries c f meta files rels) refl in
      rw (list_source_registries, e, named) there
  list_source_registries-Listed f meta files (r ∷ rels) rel (Memᴰ.tail m) suffix =
      let id = trim_suffix r json_zst in
      let rest = list_source_registries c f meta files rels in
      let step = record_load-kept id (load_source_registry c f meta id files) rest in
      let known = list_source_registries-Listed f meta files rels rel m suffix in
      elim (Bool-cases (has_suffix r json_zst)) [
        | inr other ↦ rw (list_source_registries, other) known
        | inl named ↦ elim known [
          | inl (reg, l, x) ↦ inl (reg, l, rw (list_source_registries, named) (step.0 reg x))
          | inr (e, l, x) ↦
              inr
                (e, l, rw (list_source_registries, named) (step.1 (trim_suffix rel json_zst, e) x))
        ]
      ]
