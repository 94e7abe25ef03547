-- ===== src/Piv/Pivman/Runs.antt =====
-- ADMIN DATA and PRINTED at concrete values, over a small TLV codec.
use canokey_manager.Prelude.{ℕ, ◌≡◌, ◌≢◌, some, List, [], ◌∷◌, ok, err, arith}
use canokey_manager.Piv.Tlv.{simple_tlv}
use canokey_manager.Piv.Pivman.{
  exhausted, PivmanData, PivmanProtectedData, from_value, to_value, protected_from_value,
  protected_to_value,
}
use canokey_manager.Piv.Pivman.RoundTrip.{from_value-to_value, protected_from_value-to_value}
use canokey_manager.Piv.Pivman.Total.{from_value-Finishes}

abbrev salted : PivmanData
salted = record { flags = some 2; salt = some (7 ∷ 8 ∷ []); pin_timestamp = some 305419896 }

abbrev key_bytes : List ℕ
key_bytes =
    1 ∷ 2 ∷ 3 ∷ 4 ∷ 5 ∷ 6 ∷ 7 ∷ 8 ∷ 9 ∷ 10 ∷ 11 ∷ 12 ∷ 13 ∷ 14 ∷ 15 ∷ 16 ∷ 17 ∷ 18 ∷ 19 ∷ 20 ∷ 21
    ∷ 22 ∷ 23 ∷ 24 ∷ []

abbrev stored : PivmanProtectedData
stored = record { key = some key_bytes }

from_value-to_value_example : from_value simple_tlv (to_value simple_tlv salted) ≡ ok salted
from_value-to_value_example = from_value-to_value simple_tlv salted (omega arith)

from_value-Finishes_example : from_value simple_tlv (0x80 ∷ 3 ∷ 0x81 ∷ 1 ∷ 2 ∷ []) ≢ err exhausted
from_value-Finishes_example = from_value-Finishes simple_tlv (0x80 ∷ 3 ∷ 0x81 ∷ 1 ∷ 2 ∷ [])

stored_back : protected_from_value simple_tlv (protected_to_value simple_tlv stored) ≡ ok stored
stored_back = protected_from_value-to_value simple_tlv stored (omega arith)
