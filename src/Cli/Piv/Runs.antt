-- ===== src/Cli/Piv/Runs.antt =====
-- Resolving the management key on a card without stored or derived keys, at a blank prompt, and the
-- names of slots.
use canokey_manager.Prelude.{
  ℕ, ◌+◌, ◌≡◌, refl, ap, inr, true, false, Option, none, some, [], ◌∷◌, ◌++◌, ok, arith,
}
use canokey_manager.Prelude.Text.{codes}
use canokey_manager.Cli.Overwrite.{certificate_slot}
use canokey_manager.Cli.Piv.Slots.{parse_slot, parse_certificate_slot, certificate_slot_name}
use canokey_manager.Cli.Piv.Slots.Named.{parse_certificate_slot-certificate_slot_name}
use canokey_manager.Piv.Management.{tdes}
use canokey_manager.Cli.Piv.{Host, ResolvedManagement, resolve_management_protection}
use canokey_manager.Cli.Piv.Resolved.{IsResolved, resolve_management_protection-IsResolved}

abbrev host : Host
host = record {
  metadata = λ h. ok (record { algorithm_id = some 3; is_default = some true });
  pivman = λ h. ok (record { flags = none; salt = none; pin_timestamp = none });
  protected_key = λ pin h. ok none;
  managed_key = λ pin h. ok [];
  completed_key = λ pin h. ok [];
  prompt = λ secret h. ok [];
  is_key = λ algorithm bytes. true;
  is_pin = λ pin. true;
  derive_key = λ pin salt. pin ++ salt;
  default_key = λ algorithm. 1 ∷ 2 ∷ 3 ∷ [];
}

abbrev factory : ResolvedManagement
factory = record { key = record { algorithm = tdes; bytes = 1 ∷ 2 ∷ 3 ∷ [] }; pin = none }

factory_run : (resolve_management_protection host none none false []).0 ≡ ok factory
unfolding resolve_management_protection
factory_run = refl

resolve_management_protection-IsResolved_example :
    IsResolved host none none false factory
      (resolve_management_protection host none none false []).1
resolve_management_protection-IsResolved_example =
    resolve_management_protection-IsResolved host none none false [] factory factory_run

abbrev retired_slot : ℕ → Option ℕ
retired_slot index = some (0x81 + index)

upper_case : parse_slot retired_slot (codes "9A") ≡ ok 0x9A
unfolding parse_slot
upper_case = refl

last_retired : parse_slot retired_slot (codes "95") ≡ ok 0x95
unfolding parse_slot
last_retired = refl

-- A sign and leading zeros are taken before the number.
signed_slot : parse_slot retired_slot (codes "+082") ≡ ok 0x82
unfolding parse_slot
signed_slot = refl

parse_certificate_slot-certificate_slot_name_example :
    parse_certificate_slot retired_slot (certificate_slot_name (certificate_slot 0x95))
    ≡ ok (certificate_slot 0x95)
parse_certificate_slot-certificate_slot_name_example =
    parse_certificate_slot-certificate_slot_name retired_slot (certificate_slot 0x95)
      (λ retired (low, high). ap some (omega arith)) (inr (omega arith, omega arith))
