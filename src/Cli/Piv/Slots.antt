-- ===== src/Cli/Piv/Slots.antt =====
-- The names of the PIV slots on the command line, crates/ckman/src/commands/piv.rs. A slot is its
-- reference byte. `new_retired` is `RetiredSlot::new` of the SDK, with the reference of the slot.
pub mod Named
use canokey_manager.Prelude.{
  ℕ, ◌+◌, ◌-◌, ◌*◌, ◌≤◌, ◌≡◌, ◌⊎◌, Bool, true, false, ◌&&◌, ◌||◌, Option, none, some, List, [], ◌∷◌,
  ltb, leb, ◌==◌, if◌then◌else◌, length, Result, ok, err, ok_or,
}
use canokey_manager.Prelude.Text.{codes}
use canokey_manager.Prelude.Bytes.{bytes_eq}
use canokey_manager.Cli.Overwrite.{
  KeyReference, key_slot, attestation_key, CertificateReference, certificate_slot,
  attestation_certificate,
}
use canokey_manager.Cli.Oath.Hex.{hex_encode, hex_decode, digit_value}

pub data SlotError : Type 0 where
  invalid_slot expected_slot : SlotError

abbrev ascii_lower : ℕ → ℕ
ascii_lower c = if leb b'A' c && leb c b'Z' then c + 32 else c

unfoldable pub to_ascii_lowercase : List ℕ → List ℕ
to_ascii_lowercase [] = []
to_ascii_lowercase (c ∷ text) = ascii_lower c ∷ to_ascii_lowercase text

-- The digits of `u8::from_str_radix(_, 16)`, which stops at an overflow.
unfoldable pub radix_digits : ℕ → List ℕ → Option ℕ
unfolding digit_value
radix_digits value [] = some value
radix_digits value (c ∷ text) = elim (digit_value c) [
  | none ↦ none
  | some d ↦
      let rest = radix_digits (value * 16 + d) text in
      if ltb 255 (value * 16 + d) then none else rest
]

-- A leading plus sign is taken, where digits follow.
unfoldable pub u8_from_hex : List ℕ → Option ℕ
unfolding radix_digits
u8_from_hex [] = none
u8_from_hex (c ∷ []) = radix_digits 0 (c ∷ [])
u8_from_hex (c ∷ d ∷ text) =
    if c == b'+' then radix_digits 0 (d ∷ text) else radix_digits 0 (c ∷ d ∷ text)

unfoldable pub named_slot : List ℕ → Option ℕ
unfolding bytes_eq
named_slot text =
    if bytes_eq text (codes "9a")
    then some 0x9A
    else if bytes_eq text (codes "9c")
    then some 0x9C
    else if bytes_eq text (codes "9d")
    then some 0x9D
    else if bytes_eq text (codes "9e")
    then some 0x9E
    else none

unfoldable pub is_attestation : List ℕ → Bool
unfolding bytes_eq to_ascii_lowercase
is_attestation text =
    let lower = to_ascii_lowercase text in
    bytes_eq lower (codes "f9")
    || bytes_eq lower (codes "att")
    || bytes_eq lower (codes "attestation")

-- `{:02x}` of the slot's reference
unfoldable pub slot_name : ℕ → List ℕ
unfolding hex_encode
slot_name slot = hex_encode (slot ∷ [])

unfoldable pub certificate_slot_name : CertificateReference → List ℕ
unfolding slot_name
certificate_slot_name (certificate_slot slot) = slot_name slot
certificate_slot_name attestation_certificate = codes "f9"

abbrev pub IsNamed : ℕ → Type 0
IsNamed slot = (slot ≡ 0x9A) ⊎ ((slot ≡ 0x9C) ⊎ ((slot ≡ 0x9D) ⊎ (slot ≡ 0x9E)))

abbrev pub IsRetired : ℕ → Type 0
IsRetired slot = (0x82 ≤ slot) × (slot ≤ 0x95)

module _ (new_retired : ℕ → Option ℕ) where
  abbrev pub numbered_slot : Option ℕ → Result ℕ SlotError
  numbered_slot none = err invalid_slot
  numbered_slot (some reference) =
      if leb 0x82 reference && leb reference 0x95
      then ok_or (new_retired (reference - 0x81)) invalid_slot
      else err expected_slot

  abbrev pub other_slot : List ℕ → Option ℕ → Result ℕ SlotError
  other_slot text (some slot) = ok slot
  other_slot text none = numbered_slot (u8_from_hex text)

  unfoldable pub parse_slot : List ℕ → Result ℕ SlotError
  unfolding to_ascii_lowercase named_slot u8_from_hex
  parse_slot text = other_slot (to_ascii_lowercase text) (named_slot (to_ascii_lowercase text))

  abbrev as_key : Result ℕ SlotError → Result KeyReference SlotError
  as_key (ok slot) = ok (key_slot slot)
  as_key (err e) = err e

  unfoldable pub parse_key_reference : List ℕ → Result KeyReference SlotError
  unfolding parse_slot is_attestation
  parse_key_reference text =
      if is_attestation text then ok attestation_key else as_key (parse_slot text)

  abbrev as_certificate : Result ℕ SlotError → Result CertificateReference SlotError
  as_certificate (ok slot) = ok (certificate_slot slot)
  as_certificate (err e) = err e

  unfoldable pub parse_certificate_slot : List ℕ → Result CertificateReference SlotError
  unfolding parse_slot is_attestation
  parse_certificate_slot text =
      if is_attestation text then ok attestation_certificate else as_certificate (parse_slot text)

-- `try_into::<[u8; N]>` of the bytes; nothing stands for the message.
unfoldable pub parse_identifier : ℕ → List ℕ → Option (List ℕ)
unfolding hex_decode
parse_identifier size text = elim (hex_decode text) [
  | none ↦ none
  | some bytes ↦ if length bytes == size then some bytes else none
]
