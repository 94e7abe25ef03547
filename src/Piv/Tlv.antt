-- ===== src/Piv/Tlv.antt =====
-- The SDK's BER-TLV reader and writer (`canokey::tlv`), as far as crates/ckman-core/src/piv.rs uses
-- them: a parameter with its documented behaviour.
use canokey_manager.Prelude.{
  ℕ, ◌<◌, ◌≡◌, ◌≢◌, refl, Option, none, some, List, [], ◌∷◌, ◌++◌, arith, length, Result, ok, err,
  take, drop, leb, if◌then◌else◌, length-drop, le→leb, ap, true, append-nil, take-append_le,
  take_all, length-append, drop-append,
}

pub record Tlv : Type 0 where
  -- what `TlvWriter::push` appends for a one-byte tag and a value
  pub field : ℕ → List ℕ → List ℕ
  -- `TlvReader::next`: an error, the end, or a field and the bytes behind it
  pub next : List ℕ → Result (Option (ℕ × List ℕ × List ℕ)) ℕ
  pub next_end : next [] ≡ ok none
  pub next_field :
      (tag : ℕ) (value rest : List ℕ)
      → next (field tag value ++ rest) ≡ ok (some (tag, value, rest))
  pub next_shorter :
      (bytes : List ℕ) (tag : ℕ) (value rest : List ℕ)
      → next bytes ≡ ok (some (tag, value, rest))
      → length rest < length bytes

-- Fields are not empty.
pub field_nonempty : (tlv : Tlv) (tag : ℕ) (value : List ℕ) → tlv.field tag value ≢ []
field_nonempty tlv tag value e =
    cc (tlv.next_end, ap tlv.next (ap (λ l. l ++ []) e), tlv.next_field tag value [])

pub next-field :
    (tlv : Tlv) (tag : ℕ) (value : List ℕ)
    → tlv.next (tlv.field tag value) ≡ ok (some (tag, value, []))
next-field tlv tag value = rw append-nil at (tlv.next_field tag value [])

-- A small implementation: a tag, the length as one number, and the value.
abbrev pub take_value : ℕ → ℕ → List ℕ → Result (Option (ℕ × List ℕ × List ℕ)) ℕ
take_value tag size bytes =
    if leb size (length bytes) then ok (some (tag, take size bytes, drop size bytes)) else err 0

abbrev pub simple_next : List ℕ → Result (Option (ℕ × List ℕ × List ℕ)) ℕ
simple_next [] = ok none
simple_next (tag ∷ []) = err 0
simple_next (tag ∷ size ∷ bytes) = take_value tag size bytes

pub simple_next_field :
    (tag : ℕ) (value rest : List ℕ)
    → simple_next (tag ∷ length value ∷ (value ++ rest)) ≡ ok (some (tag, value, rest))
simple_next_field tag value rest =
    let fits : leb (length value) (length (value ++ rest)) ≡ true =
      le→leb _ _ (omega (arith, length-append value rest)) in
    rw fits (
      rw
        (
          take-append_le (length value) value rest (omega arith),
          take_all (length value) value (omega arith),
          drop-append value rest,
        )
        refl)

pub simple_next_shorter :
    (bytes : List ℕ) (tag : ℕ) (value rest : List ℕ)
    → simple_next bytes ≡ ok (some (tag, value, rest))
    → length rest < length bytes
simple_next_shorter [] tag value rest h = absurd (cc)
simple_next_shorter (t ∷ []) tag value rest h = absurd (cc)
simple_next_shorter (t ∷ size ∷ bytes) tag value rest h = ground (arith, length-drop size bytes)

abbrev pub simple_tlv : Tlv
simple_tlv = record {
  field = λ tag value. tag ∷ length value ∷ value;
  next = simple_next;
  next_end = refl;
  next_field = simple_next_field;
  next_shorter = simple_next_shorter;
}
