-- ===== src/Piv/Attestation/Equality.antt =====
-- Inversion of the Boolean tests and guards of crates/ckman-core/src/piv/attestation.rs.
use canokey_manager.Prelude.{
  ℕ, ◌≡◌, refl, ap, Bool, true, false, not, ◌&&◌, ◌||◌, Option, none, some, List, [], ◌∷◌, ok,
  guard, ok_or,
}
use canokey_manager.Prelude.Bytes.{bytes_eq, bytes_eq_sound}
use canokey_manager.Piv.Attestation.{Oid, Name, list_eq, option_eq, attribute_eq, name_eq, is_none}

pub guard-eq-ok : {E : Type 0} (b : Bool) (e : E) {u : Unit {0}} → guard b e ≡ ok u → b ≡ true
guard-eq-ok true e h = refl
guard-eq-ok false e h = absurd (cc)

pub ok_or-eq-ok : {A E : Type 0} (o : Option A) (e : E) {a : A} → ok_or o e ≡ ok a → o ≡ some a
ok_or-eq-ok none e h = absurd (cc)
ok_or-eq-ok (some x) e h = cc

pub &&-eq-true : (a b : Bool) → (a && b) ≡ true → (a ≡ true) × (b ≡ true)
&&-eq-true true b h = (refl, h)
&&-eq-true false b h = absurd (cc)

pub ||-eq-false : (a b : Bool) → not (a || b) ≡ true → (a ≡ false) × (b ≡ false)
||-eq-false true b h = absurd (cc)
||-eq-false false true h = absurd (cc)
||-eq-false false false h = (refl, refl)

pub not-eq-true : (b : Bool) → not b ≡ true → b ≡ false
not-eq-true true h = absurd (cc)
not-eq-true false h = refl

pub is_none-eq-true {ℓ} : {A : Type ℓ} (o : Option A) → is_none o ≡ true → o ≡ none
is_none-eq-true none h = refl
is_none-eq-true (some a) h = absurd (cc)

pub option_eq_sound : (a b : Option (List ℕ)) → option_eq a b ≡ true → a ≡ b
option_eq_sound none none h = refl
option_eq_sound none (some b) h = absurd (cc)
option_eq_sound (some a) none h = absurd (cc)
option_eq_sound (some a) (some b) h = ap some (bytes_eq_sound a b h)

pub list_eq_sound :
    {A : Type 0} (eq : A → A → Bool)
    → ((x y : A) → eq x y ≡ true → x ≡ y)
    → (xs ys : List A) → list_eq eq xs ys ≡ true
    → xs ≡ ys
list_eq_sound eq sound [] [] h = refl
list_eq_sound eq sound [] (y ∷ ys) h = absurd (cc)
list_eq_sound eq sound (x ∷ xs) [] h = absurd (cc)
list_eq_sound eq sound (x ∷ xs) (y ∷ ys) h =
    let (a, b) = &&-eq-true (eq x y) (list_eq eq xs ys) h in
    cc (sound x y a, list_eq_sound eq sound xs ys b)

pub attribute_eq_sound : (a b : Oid × List ℕ) → attribute_eq a b ≡ true → a ≡ b
attribute_eq_sound (o, v) (p, w) h =
    let (a, b) = &&-eq-true (bytes_eq o p) (bytes_eq v w) h in
    cc (bytes_eq_sound o p a, bytes_eq_sound v w b)

pub name_eq_sound : (a b : Name) → name_eq a b ≡ true → a ≡ b
name_eq_sound = list_eq_sound (list_eq attribute_eq) (list_eq_sound attribute_eq attribute_eq_sound)
