-- ===== src/OpenPgp/Runs.antt =====
-- Key information at a concrete DE object.
use canokey_manager.Prelude.{◌≡◌, refl, some, List, [], ◌∷◌, ok, arith}
use canokey_manager.OpenPgp.{Field, key_information, key_information-written}

abbrev discretionary : List Field
discretionary =
    record { tag = 0xc0; value = 1 ∷ [] }
    ∷ record { tag = 0xde; value = 1 ∷ 1 ∷ 2 ∷ 2 ∷ 3 ∷ 0 ∷ [] }
    ∷ []

key_information-written_example : key_information discretionary 1 ≡ ok (some 2)
key_information-written_example =
    key_information-written discretionary ((1, 1) ∷ (2, 2) ∷ (3, 0) ∷ []) 1 refl
      (((λ e. omega arith), ((λ e. omega arith), tt)), (((λ e. omega arith), tt), (tt, tt)))
