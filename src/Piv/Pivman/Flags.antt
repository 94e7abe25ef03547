-- ===== src/Piv/Pivman/Flags.antt =====
-- The flag byte of ADMIN DATA (crates/ckman-core/src/piv.rs).
use canokey_manager.Prelude.{
  ℕ, ◌<◌, ◌≡◌, refl, Bool, true, false, not, Option, none, some, List, ◌==◌, bit_and, bit_or,
}
use canokey_manager.Prelude.Bytes.{all_below, all_below_sound}
use canokey_manager.Piv.Pivman.{
  PivmanData, puk_blocked, has_stored_key, set_stored_key, set_puk_blocked,
}

abbrev pub IsFlagByte : Option ℕ → Type 0
IsFlagByte none = Unit
IsFlagByte (some f) = f < 256

abbrev bool_eq : Bool → Bool → Bool
bool_eq true b = b
bool_eq false b = not b

bool_eq_sound : (a b : Bool) → bool_eq a b ≡ true → a ≡ b
bool_eq_sound true b h = cc
bool_eq_sound false true h = cc
bool_eq_sound false false h = refl

abbrev is_set : ℕ → ℕ → Bool
is_set mask f = not (bit_and f mask == 0)

set_tables :
    (all_below 256 (λ f. is_set 2 (bit_or f 2)) ≡ true)
    × (all_below 256 (λ f. is_set 1 (bit_or f 1)) ≡ true)
    × (all_below 256 (λ f. not (is_set 2 (bit_and f 253))) ≡ true)
    × (all_below 256 (λ f. not (is_set 1 (bit_and f 254))) ≡ true)
    × (all_below 256 (λ f. bool_eq (is_set 1 (bit_or f 2)) (is_set 1 f)) ≡ true)
    × (all_below 256 (λ f. bool_eq (is_set 2 (bit_or f 1)) (is_set 2 f)) ≡ true)
    × (all_below 256 (λ f. bool_eq (is_set 1 (bit_and f 253)) (is_set 1 f)) ≡ true)
    × (all_below 256 (λ f. bool_eq (is_set 2 (bit_and f 254)) (is_set 2 f)) ≡ true)
unfolding all_below
set_tables = (refl, refl, refl, refl, refl, refl, refl, refl)

is_false : (b : Bool) → not b ≡ true → b ≡ false
is_false true h = cc
is_false false h = refl

abbrev FlagsLaw : PivmanData → Bool → Type 0
FlagsLaw d value =
    (has_stored_key (set_stored_key d value) ≡ value)
    × (puk_blocked (set_stored_key d value) ≡ puk_blocked d)
    × (puk_blocked (set_puk_blocked d value) ≡ value)
    × (has_stored_key (set_puk_blocked d value) ≡ has_stored_key d)

by_flags :
    (flags : Option ℕ) (salt : Option (List ℕ)) (time : Option ℕ) (value : Bool)
    → IsFlagByte flags
    → FlagsLaw (record { flags = flags; salt = salt; pin_timestamp = time }) value
unfolding has_stored_key puk_blocked set_stored_key set_puk_blocked
by_flags none salt time true h = (refl, refl, refl, refl)
by_flags none salt time false h = (refl, refl, refl, refl)
by_flags (some f) salt time true h =
    let (a, b, c, d, e, g, i, j) = set_tables in
    (
      all_below_sound 256 _ f a h,
      bool_eq_sound _ _ (all_below_sound 256 _ f e h),
      all_below_sound 256 _ f b h,
      bool_eq_sound _ _ (all_below_sound 256 _ f g h),
    )
by_flags (some f) salt time false h =
    let (a, b, c, d, e, g, i, j) = set_tables in
    (
      is_false _ (all_below_sound 256 _ f c h),
      bool_eq_sound _ _ (all_below_sound 256 _ f i h),
      is_false _ (all_below_sound 256 _ f d h),
      bool_eq_sound _ _ (all_below_sound 256 _ f j h),
    )

-- Setting one of the two flags of an ADMIN DATA whose flag byte, if any, is a byte sets that flag to
-- the value given and leaves the other flag as it was.
pub set_flags_lem :
    (d : PivmanData) (value : Bool)
    → IsFlagByte d.flags
    → (has_stored_key (set_stored_key d value) ≡ value)
      × (puk_blocked (set_stored_key d value) ≡ puk_blocked d)
      × (puk_blocked (set_puk_blocked d value) ≡ value)
      × (has_stored_key (set_puk_blocked d value) ≡ has_stored_key d)
unfolding has_stored_key puk_blocked set_stored_key set_puk_blocked
set_flags_lem d value h = by_flags d.flags d.salt d.pin_timestamp value h
