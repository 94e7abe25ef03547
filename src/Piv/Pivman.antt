-- ===== src/Piv/Pivman.antt =====
-- `PivmanData` and `PivmanProtectedData` of crates/ckman-core/src/piv.rs.
pub mod RoundTrip
pub mod Flags
pub mod Total
mod Runs
use canokey_manager.Prelude.{
  ℕ, zero, suc, ◌+◌, ◌-◌, bit_and, bit_or, Bool, true, false, not, ◌&&◌, Option, none, some, List,
  [], ◌∷◌, ◌++◌, ◌==◌, if◌then◌else◌, length, Result, ok, err, ◌>>=◌,
}
use canokey_manager.Prelude.Bytes.{be32, of_be32}
use canokey_manager.Prelude.Text.{is_empty}
use canokey_manager.Piv.Tlv.{Tlv}

-- `InvalidResponse` while parsing, an error of the reader, or (never) a loop that runs out of fuel.
pub data ParseError : Type 0 where
  invalid exhausted : ParseError
  unreadable : ℕ → ParseError

pub record PivmanData : Type 0 where
  pub flags : Option ℕ
  pub salt : Option (List ℕ)
  pub pin_timestamp : Option ℕ

abbrev pub unconfigured : PivmanData
unconfigured = record { flags = none; salt = none; pin_timestamp = none }

abbrev pub optional {ℓ} : {A : Type ℓ} → (A → List ℕ) → Option A → List ℕ
optional write none = []
optional write (some a) = write a

abbrev absent {ℓ} : {A : Type ℓ} → Option A → Bool
absent none = true
absent (some a) = false

-- The arms of `match field.tag.value()`.
unfoldable pub add_flags : PivmanData → List ℕ → Result PivmanData ParseError
add_flags d (b ∷ []) = if absent d.flags then ok (record d { flags = some b }) else err invalid
add_flags d _ = err invalid

unfoldable pub add_timestamp : PivmanData → List ℕ → Result PivmanData ParseError
add_timestamp d (a ∷ b ∷ c ∷ e ∷ []) =
    if absent d.pin_timestamp
    then ok (record d { pin_timestamp = some (of_be32 a b c e) })
    else err invalid
add_timestamp d _ = err invalid

unfoldable pub add_field : PivmanData → ℕ → List ℕ → Result PivmanData ParseError
unfolding add_flags add_timestamp
add_field d tag value =
    if tag == 0x81
    then add_flags d value
    else if tag == 0x82
    then if absent d.salt then ok (record d { salt = some value }) else err invalid
    else if tag == 0x83
    then add_timestamp d value
    else err invalid

pub record PivmanProtectedData : Type 0 where
  pub key : Option (List ℕ)

module _ (tlv : Tlv) where
  open tlv use {field, next}

  -- `reader.next()?`
  unfoldable pub read_next : List ℕ → Result (Option (ℕ × List ℕ × List ℕ)) ParseError
  read_next bytes = elim (next bytes) [ ok o ↦ ok o | err e ↦ err (unreadable e) ]

  -- `while let Some(field) = inner.next()?`
  unfoldable pub read_fields : ℕ → PivmanData → List ℕ → Result PivmanData ParseError
  unfolding add_field read_next
  read_fields zero d bytes = err exhausted
  read_fields (suc fuel) d bytes = read_next bytes >>= elim [
    | none ↦ ok d
    | some (tag, value, rest) ↦ add_field d tag value >>= λ d'. read_fields fuel d' rest
  ]

  -- `reader.next()?.is_some()`
  unfoldable pub has_more : List ℕ → Result Bool ParseError
  unfolding read_next
  has_more rest = read_next rest >>= elim [ none ↦ ok false | some f ↦ ok true ]

  -- The one outer field with the given tag.
  unfoldable pub read_outer : ℕ → List ℕ → Result (List ℕ) ParseError
  unfolding read_next has_more
  read_outer outer_tag bytes = read_next bytes >>= elim [
    | none ↦ err invalid
    | some (tag, value, rest) ↦
        if not (tag == outer_tag)
        then err invalid
        else has_more rest >>= elim [ true ↦ err invalid | false ↦ ok value ]
  ]

  unfoldable pub from_value : List ℕ → Result PivmanData ParseError
  unfolding read_outer read_fields
  from_value bytes = if is_empty bytes then ok unconfigured else (do
    value ← read_outer 0x80 bytes
    if is_empty value then ok unconfigured else read_fields (suc (length value)) unconfigured value)

  unfoldable pub inner_fields : PivmanData → List ℕ
  inner_fields d =
      optional (λ b. field 0x81 (b ∷ [])) d.flags
      ++ (optional (field 0x82) d.salt ++ optional (λ t. field 0x83 (be32 t)) d.pin_timestamp)

  unfoldable pub to_value : PivmanData → List ℕ
  unfolding inner_fields
  to_value d = if is_empty (inner_fields d) then [] else field 0x80 (inner_fields d)

  -- The single field 89 of 24 bytes.
  unfoldable pub read_key : Option (ℕ × List ℕ × List ℕ) → Result PivmanProtectedData ParseError
  unfolding has_more
  read_key none = err invalid
  read_key (some (tag, key, rest)) =
      if not (tag == 0x89 && length key == 24)
      then err invalid
      else has_more rest >>= elim [ true ↦ err invalid | false ↦ ok (record { key = some key }) ]

  unfoldable pub protected_from_value : List ℕ → Result PivmanProtectedData ParseError
  unfolding read_outer read_next read_key
  protected_from_value bytes = if is_empty bytes then ok (record { key = none }) else (do
    value ← read_outer 0x88 bytes
    if is_empty value then ok (record { key = none }) else read_next value >>= read_key)

  unfoldable pub protected_to_value : PivmanProtectedData → List ℕ
  protected_to_value d = field 0x88 (optional (field 0x89) d.key)

-- `self.flags.unwrap_or(0)`
unfoldable pub flag_byte : PivmanData → ℕ
flag_byte d = elim d.flags [ none ↦ 0 | some f ↦ f ]

unfoldable pub puk_blocked : PivmanData → Bool
unfolding flag_byte
puk_blocked d = not (bit_and (flag_byte d) 1 == 0)

unfoldable pub has_stored_key : PivmanData → Bool
unfolding flag_byte
has_stored_key d = not (bit_and (flag_byte d) 2 == 0)

unfoldable pub has_derived_key : PivmanData → Bool
has_derived_key d = not (absent d.salt)

-- `!mask` on a byte is `255 - mask`.
unfoldable pub set_flag : PivmanData → ℕ → Bool → PivmanData
unfolding flag_byte
set_flag d mask true = record d { flags = some (bit_or (flag_byte d) mask) }
set_flag d mask false = elim d.flags [
  | none ↦ d
  | some f ↦ record d { flags = some (bit_and f (255 - mask)) }
]

unfoldable pub set_stored_key : PivmanData → Bool → PivmanData
unfolding set_flag
set_stored_key d value = set_flag d 2 value

unfoldable pub set_puk_blocked : PivmanData → Bool → PivmanData
unfolding set_flag
set_puk_blocked d value = set_flag d 1 value
