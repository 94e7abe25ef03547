-- ===== src/Piv/Pivman/Total.antt =====
-- The loop of `PivmanData::from_value` (crates/ckman-core/src/piv.rs) ends: the fuel is enough.
use canokey_manager.Prelude.{
  ℕ, zero, suc, ◌<◌, ◌≡◌, ◌≢◌, refl, Bool, true, false, not, none, some, List, [], ◌∷◌, arith, ◌==◌,
  Bool-cases, if◌then◌else◌, length, Result, ok, err, ◌>>=◌, Result-cases, inl, inr,
}
use canokey_manager.Prelude.Text.{is_empty}
use canokey_manager.Piv.Tlv.{Tlv}
use canokey_manager.Piv.Pivman.{
  ParseError, invalid, exhausted, PivmanData, add_flags, add_timestamp, add_field, read_next,
  read_fields, has_more, read_outer, from_value, unconfigured, absent,
}

abbrev Finishes {ℓ} : {A : Type ℓ} → Result A ParseError → Type ℓ
Finishes r = r ≢ err exhausted

bind-Finishes {ℓ κ} :
    {A : Type ℓ} {B : Type κ} (m : Result A ParseError) (f : A → Result B ParseError)
    → Finishes m
    → ((a : A) → m ≡ ok a → Finishes (f a))
    → Finishes (m >>= f)
bind-Finishes (ok a) f first rest h = rest a refl h
bind-Finishes (err e) f first rest h = first (cc)

if_ok-Finishes : (b : Bool) (d : PivmanData) → Finishes (if b then ok d else err invalid)
if_ok-Finishes true d h = cc
if_ok-Finishes false d h = cc

add_flags-Finishes : (d : PivmanData) (value : List ℕ) → Finishes (add_flags d value)
unfolding add_flags
add_flags-Finishes d [] h = cc
add_flags-Finishes d (b ∷ []) h = if_ok-Finishes (absent d.flags) _ h
add_flags-Finishes d (b ∷ c ∷ value) h = cc

add_timestamp-Finishes : (d : PivmanData) (value : List ℕ) → Finishes (add_timestamp d value)
unfolding add_timestamp
add_timestamp-Finishes d [] h = cc
add_timestamp-Finishes d (a ∷ []) h = cc
add_timestamp-Finishes d (a ∷ b ∷ []) h = cc
add_timestamp-Finishes d (a ∷ b ∷ c ∷ []) h = cc
add_timestamp-Finishes d (a ∷ b ∷ c ∷ e ∷ []) h = if_ok-Finishes (absent d.pin_timestamp) _ h
add_timestamp-Finishes d (a ∷ b ∷ c ∷ e ∷ f ∷ value) h = cc

choose-Finishes :
    (b : Bool) (x y : Result PivmanData ParseError)
    → Finishes x
    → Finishes y
    → Finishes (if b then x else y)
choose-Finishes true x y hx hy = hx
choose-Finishes false x y hx hy = hy

add_field-Finishes : (d : PivmanData) (tag : ℕ) (value : List ℕ) → Finishes (add_field d tag value)
unfolding add_field
add_field-Finishes d tag value = choose-Finishes (tag == 0x81) _ _ (add_flags-Finishes d value) (
    choose-Finishes (tag == 0x82) _ _ (if_ok-Finishes (absent d.salt) _)
      (choose-Finishes (tag == 0x83) _ _ (add_timestamp-Finishes d value) (λ h. cc)))

module _ (tlv : Tlv) where
  open tlv use {next, next_shorter}

  read_next-Finishes : (bytes : List ℕ) → Finishes (read_next tlv bytes)
  unfolding read_next
  read_next-Finishes bytes = elim (Result-cases (next bytes)) [
    | inl (o, e) ↦ rw (e, read_next) (λ h. cc)
    | inr (x, e) ↦ rw (e, read_next) (λ h. cc)
  ]

  read_next-shorter :
      (bytes : List ℕ) (tag : ℕ) (value rest : List ℕ)
      → read_next tlv bytes ≡ ok (some (tag, value, rest))
      → length rest < length bytes
  unfolding read_next
  read_next-shorter bytes tag value rest h = elim (Result-cases (next bytes)) [
    | inl (o, e) ↦ next_shorter bytes tag value rest (cc (rw (read_next, e) at h))
    | inr (x, e) ↦ absurd (cc (rw (read_next, e) at h))
  ]

  read_fields-Finishes :
      (fuel : ℕ) (d : PivmanData) (bytes : List ℕ)
      → length bytes < fuel
      → Finishes (read_fields tlv fuel d bytes)
  unfolding read_fields
  read_fields-Finishes zero d bytes enough = absurd (omega arith)
  read_fields-Finishes (suc fuel) d bytes enough =
      bind-Finishes (read_next tlv bytes) _ (read_next-Finishes bytes) (elim [
        | none ↦ λ e h. cc
        | some (tag, value, rest) ↦ λ e.
            bind-Finishes (add_field d tag value) _ (add_field-Finishes d tag value) (λ d' _.
              read_fields-Finishes fuel d' rest
                (omega (arith, read_next-shorter bytes tag value rest e)))
      ])

  has_more-Finishes : (rest : List ℕ) → Finishes (has_more tlv rest)
  unfolding has_more
  has_more-Finishes rest =
      bind-Finishes (read_next tlv rest) _ (read_next-Finishes rest)
        (elim [ none ↦ λ e h. cc | some f ↦ λ e h. cc ])

  read_outer-Finishes : (tag : ℕ) (bytes : List ℕ) → Finishes (read_outer tlv tag bytes)
  unfolding read_outer
  read_outer-Finishes tag bytes =
      bind-Finishes (read_next tlv bytes) _ (read_next-Finishes bytes) (elim [
        | none ↦ λ e h. cc
        | some (found, value, rest) ↦ λ e. elim (Bool-cases (not (found == tag))) [
          | inl w ↦ rw w (λ h. cc)
          | inr w ↦ rw w (
              bind-Finishes (has_more tlv rest) _ (has_more-Finishes rest)
                (elim [ true ↦ λ e h. cc | false ↦ λ e h. cc ]))
        ]
      ])

  -- Reading ADMIN DATA always comes to an end, with data or with an error of the parser: the fuel
  -- of the loop over the fields does not run out.
  pub from_value-Finishes : (bytes : List ℕ) → from_value tlv bytes ≢ err exhausted
  unfolding from_value
  from_value-Finishes bytes = elim (Bool-cases (is_empty bytes)) [
    | inl e ↦ rw e (λ h. cc)
    | inr e ↦ rw e (
        bind-Finishes (read_outer tlv 0x80 bytes) _ (read_outer-Finishes 0x80 bytes) (λ value _.
          elim (Bool-cases (is_empty value)) [
            | inl w ↦ rw w (λ h. cc)
            | inr w ↦
                rw w (read_fields-Finishes (suc (length value)) unconfigured value (omega arith))
          ]))
  ]
