-- ===== src/Piv/Pivman/RoundTrip.antt =====
-- Reading back what `to_value` (crates/ckman-core/src/piv.rs) writes, over any TLV codec.
use canokey_manager.Prelude.{
  ℕ, zero, suc, ◌<◌, ◌≡◌, ◌≢◌, refl, ap, sym, ◌∙◌, true, false, Option, none, some, List, [], ◌∷◌,
  ◌++◌, arith, ==_refl, Bool-cases, ◌/◌, ◌%◌, if◌then◌else◌, length, ok, ok_injective, ◌>>=◌,
  append-nil, inl, inr,
}
use canokey_manager.Prelude.Bytes.{be32, of_be32}
use canokey_manager.Prelude.Text.{is_empty}
use canokey_manager.Piv.Tlv.{Tlv, field_nonempty, next-field}
use canokey_manager.Piv.Pivman.{
  PivmanData, unconfigured, optional, add_timestamp, add_field, read_next, read_fields, has_more,
  read_outer, read_key, from_value, inner_fields, to_value, PivmanProtectedData,
  protected_from_value, protected_to_value,
}

is_empty_of : (s : List ℕ) → s ≢ [] → is_empty s ≡ false
is_empty_of [] h = absurd (h refl)
is_empty_of (c ∷ s) h = refl

abbrev pub HasKeySize : Option (List ℕ) → Type 0
HasKeySize none = Unit
HasKeySize (some key) = length key ≡ 24

nil_of_empty : (s : List ℕ) → is_empty s ≡ true → s ≡ []
nil_of_empty [] h = refl
nil_of_empty (c ∷ s) h = absurd (cc)

module _ (tlv : Tlv) where
  open tlv use {field, next, next_end, next_field, next_shorter}

  read_fields_field :
      (f : ℕ) (d d' : PivmanData) (tag : ℕ) (value rest : List ℕ)
      → length (field tag value ++ rest) < f
      → add_field d tag value ≡ ok d'
      → (f' : ℕ) × (length rest < f')
        × (read_fields tlv f d (field tag value ++ rest) ≡ read_fields tlv f' d' rest)
  unfolding read_fields
  read_fields_field zero d d' tag value rest h added = absurd (omega arith)
  read_fields_field (suc f) d d' tag value rest h added = (
    f,
    omega
        (arith, next_shorter (field tag value ++ rest) tag value rest (next_field tag value rest)),
    rw (next_field tag value rest, read_next) (rw added refl),
  )

  read_fields_end : (f : ℕ) (d : PivmanData) → 0 < f → read_fields tlv f d [] ≡ ok d
  unfolding read_fields
  read_fields_end zero d h = absurd (omega arith)
  read_fields_end (suc f) d h = rw (next_end, read_next) refl

  read_flags :
      (flags : Option ℕ) (f : ℕ) (rest : List ℕ)
      → length (optional (λ b. field 0x81 (b ∷ [])) flags ++ rest) < f
      → (f' : ℕ) × (length rest < f')
        × (read_fields tlv f unconfigured (optional (λ b. field 0x81 (b ∷ [])) flags ++ rest)
            ≡ read_fields tlv f' (record unconfigured { flags = flags }) rest)
  read_flags none f rest h = (f, h, refl)
  read_flags (some b) f rest h =
      read_fields_field f unconfigured _ 0x81 (b ∷ []) rest h (unfold add_field in refl)

  read_salt :
      (flags : Option ℕ) (salt : Option (List ℕ)) (f : ℕ) (rest : List ℕ)
      → length (optional (field 0x82) salt ++ rest) < f
      → (f' : ℕ) × (length rest < f')
        × (read_fields tlv f
              (record unconfigured { flags = flags })
              (optional (field 0x82) salt ++ rest)
            ≡ read_fields tlv f' (record { flags = flags; salt = salt; pin_timestamp = none }) rest)
  read_salt flags none f rest h = (f, h, refl)
  read_salt flags (some s) f rest h =
      read_fields_field f (record unconfigured { flags = flags }) _ 0x82 s rest h
        (unfold add_field in refl)

  -- A timestamp that fits 32 bits, or none.
  abbrev pub FitsU32 : Option ℕ → Type 0
  FitsU32 none = Unit
  FitsU32 (some t) = t < 4294967296

  read_timestamp :
      (flags : Option ℕ) (salt : Option (List ℕ)) (time : Option ℕ) (f : ℕ)
      → FitsU32 time
      → length (optional (λ t. field 0x83 (be32 t)) time) < f
      → read_fields tlv f
          (record { flags = flags; salt = salt; pin_timestamp = none })
          (optional (λ t. field 0x83 (be32 t)) time)
        ≡ ok (record { flags = flags; salt = salt; pin_timestamp = time })
  read_timestamp flags salt none f fits h = read_fields_end f _ (omega arith)
  read_timestamp flags salt (some t) f fits h =
      let bytes : List ℕ = be32 t in
      let same : of_be32 (t / 16777216 % 256) (t / 65536 % 256) (t / 256 % 256) (t % 256) ≡ t =
        omega arith in
      let (f', more, step) =
        read_fields_field f (record { flags = flags; salt = salt; pin_timestamp = none })
          (record { flags = flags; salt = salt; pin_timestamp = some t }) 0x83 bytes []
          (rw append-nil h)
          (unfold add_field add_timestamp in
            ap (λ n. ok (record { flags = flags; salt = salt; pin_timestamp = some n })) same) in
      (rw append-nil at step) ∙ read_fields_end f' _ (omega arith)

  read_fields-inner_fields :
      (d : PivmanData) (f : ℕ)
      → FitsU32 d.pin_timestamp
      → length (inner_fields tlv d) < f
      → read_fields tlv f unconfigured (inner_fields tlv d) ≡ ok d
  unfolding inner_fields
  read_fields-inner_fields d f fits h =
      let (f₁, more₁, step₁) = read_flags d.flags f _ h in
      let (f₂, more₂, step₂) = read_salt d.flags d.salt f₁ _ more₁ in
      step₁ ∙ step₂ ∙ read_timestamp d.flags d.salt d.pin_timestamp f₂ fits more₂

  read_outer-field : (tag : ℕ) (value : List ℕ) → read_outer tlv tag (field tag value) ≡ ok value
  unfolding read_outer
  read_outer-field tag value =
      rw (next-field tlv tag value, read_next)
        (rw (==_refl tag) (rw (next_end, has_more, read_next) refl))

  no_fields :
      (d : PivmanData)
      → FitsU32 d.pin_timestamp
      → is_empty (inner_fields tlv d) ≡ true
      → d ≡ unconfigured
  no_fields d fits h =
      let e : inner_fields tlv d ≡ [] = nil_of_empty (inner_fields tlv d) h in
      let n : length (inner_fields tlv d) < 1 = rw e (omega arith) in
      ok_injective (
        sym (read_fields-inner_fields d 1 fits n)
        ∙ ap (read_fields tlv 1 unconfigured) e
        ∙ read_fields_end 1 unconfigured (omega arith))

  -- What `to_value` writes for any ADMIN DATA whose timestamp fits 32 bits, `from_value` reads back,
  -- unconfigured data included.
  pub from_value-to_value :
      (d : PivmanData) → FitsU32 d.pin_timestamp → from_value tlv (to_value tlv d) ≡ ok d
  unfolding from_value to_value
  from_value-to_value d fits = elim (Bool-cases (is_empty (inner_fields tlv d))) [
    | inl e ↦ rw e (ap ok (sym (no_fields d fits e)))
    | inr e ↦ rw e (
        rw (is_empty_of (field 0x80 (inner_fields tlv d)) (field_nonempty tlv 0x80 _)) (
          rw (read_outer-field 0x80 (inner_fields tlv d)) (
            rw e
              (read_fields-inner_fields d (suc (length (inner_fields tlv d))) fits (omega arith)))))
  ]

  -- A stored management key of 24 bytes, or none, is read back from PRINTED.
  pub protected_from_value-to_value :
      (d : PivmanProtectedData)
      → HasKeySize d.key
      → protected_from_value tlv (protected_to_value tlv d) ≡ ok d
  unfolding protected_from_value protected_to_value read_key
  protected_from_value-to_value d sized =
      rw (is_empty_of (field 0x88 (optional (field 0x89) d.key)) (field_nonempty tlv 0x88 _))
        (rw (read_outer-field 0x88 (optional (field 0x89) d.key)) (inner d.key sized))
    where
      inner :
          (key : Option (List ℕ))
          → HasKeySize key
          → (if is_empty (optional (field 0x89) key)
              then ok (record { key = none })
              else read_next tlv (optional (field 0x89) key) >>= read_key tlv)
            ≡ ok (record { key = key })
      inner none h = refl
      inner (some key) h =
          rw (is_empty_of (field 0x89 key) (field_nonempty tlv 0x89 key)) (
            rw (next-field tlv 0x89 key, read_next)
              (rw h (rw (next_end, has_more, read_next) refl)))
