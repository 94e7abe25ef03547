-- ===== src/Piv/Management/Runs.antt =====
-- A management key replaced on a card that answers, and on one that refuses the PUK at the end.
use canokey_manager.Prelude.{ℕ, ◌≡◌, refl, true, Option, none, some, List, [], ◌∷◌, ok, err}
use canokey_manager.Piv.Tlv.{simple_tlv}
use canokey_manager.Piv.Management.{
  ManagementKeyAlgorithm, tdes, never, given, read_object, pin_managed, DriveError, transport,
  protocol, not_found, management_key_update, protect_puk, ManagementKeyUpdate, Card,
  set_management_key_synced,
}
use canokey_manager.Piv.Management.Order.{IsSynced, set_management_key_synced-IsSynced}

abbrev protecting : ManagementKeyUpdate
protecting = record {
  new_key_bytes = 1 ∷ 2 ∷ 3 ∷ [];
  algorithm = tdes;
  touch = never;
  protect = true;
  pin = some (49 ∷ 50 ∷ []);
  access = given 0;
}

-- Nothing is stored; the PUK cannot be changed.
abbrev fresh_card : Card
fresh_card h (read_object _ _) = err (protocol not_found)
fresh_card h (pin_managed _ _) = err (transport 5)
fresh_card h c = ok []

abbrev any_key : ManagementKeyAlgorithm → List ℕ → Option DriveError
any_key a bytes = none

refused_at_the_end :
    (set_management_key_synced simple_tlv fresh_card any_key (some (9 ∷ [])) protecting []).0
    ≡ err (management_key_update protect_puk (transport 5))
unfolding set_management_key_synced canokey_manager.Piv.Pivman.to_value
refused_at_the_end = refl

set_management_key_synced-IsSynced_example :
    IsSynced simple_tlv fresh_card any_key
      (some (9 ∷ []))
      protecting
      []
      (set_management_key_synced simple_tlv fresh_card any_key (some (9 ∷ [])) protecting [])
set_management_key_synced-IsSynced_example =
    set_management_key_synced-IsSynced simple_tlv fresh_card any_key (some (9 ∷ [])) protecting []
