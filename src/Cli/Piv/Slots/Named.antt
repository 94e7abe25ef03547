-- ===== src/Cli/Piv/Slots/Named.antt =====
-- The names of the PIV slots of crates/ckman/src/commands/piv.rs: what is read, and reading a name as
-- it is written.
use canokey_manager.Prelude.{
  ℕ, ◌-◌, ◌≤◌, ◌≡◌, ◌⊎◌, inl, inr, refl, arith, Bool, true, false, ◌&&◌, ◌||◌, Option, none, some,
  List, leb, ◌==◌, if◌then◌else◌, ok, ok_or, ==_iff, Bool-cases, ap,
}
use canokey_manager.Prelude.Bytes.{all_below, all_below_sound}
use canokey_manager.Cli.Overwrite.{CertificateReference, certificate_slot, attestation_certificate}
use canokey_manager.Cli.Piv.Slots.{
  SlotError, IsNamed, IsRetired, to_ascii_lowercase, u8_from_hex, named_slot, is_attestation,
  slot_name, certificate_slot_name, numbered_slot, other_slot, parse_slot, parse_certificate_slot,
}

abbrev is_none : Option ℕ → Bool
is_none none = true
is_none (some n) = false

abbrev is_some_of : ℕ → Option ℕ → Bool
is_some_of n none = false
is_some_of n (some m) = m == n

is_none_sound : (o : Option ℕ) → is_none o ≡ true → o ≡ none
is_none_sound none h = refl
is_none_sound (some n) h = absurd (cc)

is_some_of_sound : (n : ℕ) (o : Option ℕ) → is_some_of n o ≡ true → o ≡ some n
is_some_of_sound n none h = absurd (cc)
is_some_of_sound n (some m) h = ap some ((==_iff m n).0 h)

abbrev written_number : ℕ → Bool
written_number n =
    is_none (named_slot (to_ascii_lowercase (slot_name n)))
    && is_some_of n (u8_from_hex (to_ascii_lowercase (slot_name n)))

abbrev is_named : ℕ → Bool
is_named n = n == 0x9A || n == 0x9C || n == 0x9D || n == 0x9E

-- The names of the reference bytes: four are found by name, all others are read as a number.
name_table : all_below 256 (λ n. is_named n || written_number n) ≡ true
unfolding all_below named_slot to_ascii_lowercase slot_name u8_from_hex
name_table = refl

attestation_table :
    all_below 256 (λ n. if is_attestation (slot_name n) then n == 0xF9 else true) ≡ true
unfolding all_below is_attestation slot_name
attestation_table = refl

and_both : (a b : Bool) → (a && b) ≡ true → (a ≡ true) × (b ≡ true)
and_both a b h = ground arith

written_sound :
    (n : ℕ)
    → written_number n ≡ true
    → (named_slot (to_ascii_lowercase (slot_name n)) ≡ none)
      × (u8_from_hex (to_ascii_lowercase (slot_name n)) ≡ some n)
written_sound n h =
    let (unnamed, number) = and_both _ _ h in (is_none_sound _ unnamed, is_some_of_sound n _ number)

-- A named slot is read from the name it is written with.
parse_slot-named :
    (new_retired : ℕ → Option ℕ) (slot : ℕ)
    → IsNamed slot
    → parse_slot new_retired (slot_name slot) ≡ ok slot
unfolding parse_slot slot_name
parse_slot-named new_retired slot h = elim h [
  | inl e ↦ rw e refl
  | inr (inl e) ↦ rw e refl
  | inr (inr (inl e)) ↦ rw e refl
  | inr (inr (inr e)) ↦ rw e refl
]

-- A retired slot is read from its name, where the SDK takes its index.
parse_slot-retired :
    (new_retired : ℕ → Option ℕ) (slot : ℕ)
    → IsRetired slot
    → new_retired (slot - 0x81) ≡ some slot
    → parse_slot new_retired (slot_name slot) ≡ ok slot
unfolding parse_slot
parse_slot-retired new_retired slot (low, high) known =
    let row = all_below_sound 256 _ slot name_table (omega arith) in
    let plain : is_named slot ≡ false = ground (arith, low, high) in
    let (unnamed, number) = written_sound slot (rw plain at row) in
    rw (unnamed, number) (ground (arith, low, high, known))

named_slot-IsNamed : (text : List ℕ) (slot : ℕ) → named_slot text ≡ some slot → IsNamed slot
unfolding named_slot
named_slot-IsNamed text slot h = ground arith

abbrev pub IsIndexed : (ℕ → Option ℕ) → ℕ → Type 0
IsIndexed new_retired slot =
    (index : ℕ) × (1 ≤ index) × (index ≤ 20) × (new_retired index ≡ some slot)

ok_or-ok : (o : Option ℕ) (e : SlotError) (slot : ℕ) → ok_or o e ≡ ok slot → o ≡ some slot
ok_or-ok none e slot h = absurd (cc)
ok_or-ok (some n) e slot h = ap some (cc)

numbered_slot-IsIndexed :
    (new_retired : ℕ → Option ℕ) (number : Option ℕ) (slot : ℕ)
    → numbered_slot new_retired number ≡ ok slot
    → IsIndexed new_retired slot
numbered_slot-IsIndexed new_retired none slot h = absurd (cc)
numbered_slot-IsIndexed new_retired (some reference) slot h =
    elim (Bool-cases (leb 0x82 reference && leb reference 0x95)) [
      | inl e ↦
          let known = ok_or-ok _ _ slot (rw e at h) in
          (reference - 0x81, ground (arith, e), ground (arith, e), known)
      | inr e ↦ absurd (cc (rw e at h))
    ]

other_slot-IsSlot :
    (new_retired : ℕ → Option ℕ) (text : List ℕ) (named : Option ℕ) (slot : ℕ)
    → named_slot text ≡ named
    → other_slot new_retired text named ≡ ok slot
    → IsNamed slot ⊎ IsIndexed new_retired slot
other_slot-IsSlot new_retired text none slot e h =
    inr (numbered_slot-IsIndexed new_retired (u8_from_hex text) slot h)
other_slot-IsSlot new_retired text (some named) slot e h = inl (named_slot-IsNamed text slot (cc))

-- A text that is read as a slot gives one of the named slots, or what the SDK makes of an index from
-- 1 to 20.
parse_slot_sound :
    (new_retired : ℕ → Option ℕ) (text : List ℕ) (slot : ℕ)
    → parse_slot new_retired text ≡ ok slot
    → IsNamed slot ⊎ IsIndexed new_retired slot
unfolding parse_slot
parse_slot_sound new_retired text slot h =
    other_slot-IsSlot new_retired (to_ascii_lowercase text) _ slot refl h

abbrev pub IsSlot : ℕ → Type 0
IsSlot slot = IsNamed slot ⊎ IsRetired slot

abbrev pub IsReference : CertificateReference → Type 0
IsReference (certificate_slot slot) = IsSlot slot
IsReference attestation_certificate = Unit

named-not_attestation : (slot : ℕ) → IsSlot slot → is_attestation (slot_name slot) ≡ false
named-not_attestation slot h =
    let row =
      all_below_sound 256 _ slot attestation_table
        (elim h [ inl named ↦ ground (arith, named) | inr (low, high) ↦ omega arith ]) in
    elim (Bool-cases (is_attestation (slot_name slot))) [
      | inl e ↦
          let same = (==_iff slot 0xF9).0 (rw e at row) in
          absurd
            (elim h [ inl named ↦ ground (arith, named, same) | inr (low, high) ↦ omega arith ])
      | inr e ↦ e
    ]

parse_slot-slot_name :
    (new_retired : ℕ → Option ℕ) (slot : ℕ)
    → ((retired : ℕ) → IsRetired retired → new_retired (retired - 0x81) ≡ some retired)
    → IsSlot slot
    → parse_slot new_retired (slot_name slot) ≡ ok slot
parse_slot-slot_name new_retired slot agree (inl named) = parse_slot-named new_retired slot named
parse_slot-slot_name new_retired slot agree (inr retired) =
    parse_slot-retired new_retired slot retired (agree slot retired)

-- Where the SDK numbers the retired slots from 1, the name that is shown for a certificate slot or
-- for the attestation certificate is read as that reference.
pub parse_certificate_slot-certificate_slot_name :
    (new_retired : ℕ → Option ℕ) (reference : CertificateReference)
    → ((retired : ℕ) → IsRetired retired → new_retired (retired - 0x81) ≡ some retired)
    → IsReference reference
    → parse_certificate_slot new_retired (certificate_slot_name reference) ≡ ok reference
unfolding parse_certificate_slot certificate_slot_name
parse_certificate_slot-certificate_slot_name new_retired (certificate_slot slot) agree h =
    rw (named-not_attestation slot h, parse_slot-slot_name new_retired slot agree h) refl
parse_certificate_slot-certificate_slot_name new_retired attestation_certificate agree h = refl
