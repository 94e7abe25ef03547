-- ===== src/Piv/PinChange/Runs.antt =====
-- A change of the PIN on a card that accepts all commands and has a derived management key.
use canokey_manager.Prelude.{ℕ, ◌≡◌, refl, Option, none, some, List, [], ◌∷◌, ◌++◌, length, ok}
use canokey_manager.Piv.Tlv.{simple_tlv}
use canokey_manager.Piv.Pivman.{PivmanData, to_value, from_value}
use canokey_manager.Piv.Management.{ManagementKeyAlgorithm, DriveError, Card, History}
use canokey_manager.Piv.PinChange.{change_pin_synced}

abbrev salted : PivmanData
salted = record { flags = some 2; salt = some (7 ∷ 8 ∷ []); pin_timestamp = none }

abbrev card : Card
unfolding to_value
card h c = ok (to_value simple_tlv salted)

abbrev no_check : ManagementKeyAlgorithm → List ℕ → Option DriveError
no_check algorithm bytes = none

abbrev any_pin : List ℕ → Option DriveError
any_pin pin = none

abbrev joined : List ℕ → List ℕ → List ℕ
joined pin salt = pin ++ salt

abbrev start : History
start = []

abbrev old_pin : List ℕ
old_pin = 49 ∷ []

abbrev new_pin : List ℕ
new_pin = 50 ∷ []

-- All six commands are sent.
change_pin_synced_run :
    length
      (change_pin_synced simple_tlv card no_check any_pin joined
        (some (9 ∷ []))
        old_pin
        new_pin
        start).1
    ≡ 6
unfolding change_pin_synced card from_value
change_pin_synced_run = refl
