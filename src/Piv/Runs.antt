-- ===== src/Piv/Runs.antt =====
-- A batch of two slots.
use canokey_manager.Prelude.{ℕ, ◌≡◌, ◌≢◌, ◌↔◌, refl, List, [], ◌∷◌, ok, err}
use canokey_manager.Piv.Generation.{
  invalid_argument, AreDistinct, validate_generation_slots, validate_generation_slots_lem,
}

abbrev two_slots : List ℕ
two_slots = 0x9a ∷ 0x9c ∷ []

accepted : validate_generation_slots two_slots ≡ ok tt
unfolding validate_generation_slots
accepted = refl

validate_generation_slots_lem_example :
    (validate_generation_slots two_slots ≡ ok tt) ↔ ((two_slots ≢ []) × AreDistinct two_slots)
validate_generation_slots_lem_example = validate_generation_slots_lem two_slots

-- A slot that is there twice is refused.
repeated : validate_generation_slots (0x9a ∷ two_slots) ≡ err invalid_argument
unfolding validate_generation_slots
repeated = refl
