-- ===== src/Piv/Generation.antt =====
-- The slots of a key generation batch, crates/ckman-core/src/piv.rs. A slot is its reference byte.
use canokey_manager.Prelude.{
  ℕ, ◌≡◌, ◌≢◌, ◌↔◌, refl, sym, Bool, true, false, ◌||◌, List, [], ◌∷◌, ◌==◌, ==_iff, Result, ok,
  err, All, Bool-cases, inl, inr, if◌then◌else◌,
}

pub data GenerationError : Type 0 where
  invalid_argument : GenerationError

unfoldable pub member : ℕ → List ℕ → Bool
member s [] = false
member s (t ∷ slots) = s == t || member s slots

-- `any` over the slots and those before each, which are `before`.
unfoldable pub has_repeat : List ℕ → List ℕ → Bool
unfolding member
has_repeat before [] = false
has_repeat before (s ∷ slots) = member s before || has_repeat (s ∷ before) slots

abbrev no_slots : List ℕ → Bool
no_slots [] = true
no_slots (s ∷ slots) = false

unfoldable pub validate_generation_slots : List ℕ → Result (Unit {0}) GenerationError
unfolding has_repeat
validate_generation_slots slots =
    if no_slots slots || has_repeat [] slots then err invalid_argument else ok tt

abbrev pub AreDistinct : List ℕ → Type 0
AreDistinct [] = Unit
AreDistinct (s ∷ slots) = All (λ t. s ≢ t) slots × AreDistinct slots

abbrev AreNew : List ℕ → List ℕ → Type 0
AreNew before slots = All (λ s. All (λ t. s ≢ t) before) slots

member_sound : (s : ℕ) (slots : List ℕ) → member s slots ≡ false → All (λ t. s ≢ t) slots
unfolding member
member_sound s [] h = tt
member_sound s (t ∷ slots) h = elim (Bool-cases (s == t)) [
  | inl e ↦ absurd (cc (rw e at h))
  | inr e ↦ ((λ same. cc ((==_iff s t).1 same, e)), member_sound s slots (rw e at h))
]

member_complete : (s : ℕ) (slots : List ℕ) → All (λ t. s ≢ t) slots → member s slots ≡ false
unfolding member
member_complete s [] h = refl
member_complete s (t ∷ slots) h = elim (Bool-cases (s == t)) [
  | inl e ↦ absurd (h.0 ((==_iff s t).0 e))
  | inr e ↦ rw e (member_complete s slots h.1)
]

split_new :
    (s : ℕ) (before slots : List ℕ)
    → AreNew (s ∷ before) slots
    → All (λ t. s ≢ t) slots × AreNew before slots
split_new s before [] h = (tt, tt)
split_new s before (t ∷ slots) h =
    let (a, b) = split_new s before slots h.1 in (((λ e. h.0.0 (sym e)), a), (h.0.1, b))

join_new :
    (s : ℕ) (before slots : List ℕ)
    → All (λ t. s ≢ t) slots
    → AreNew before slots
    → AreNew (s ∷ before) slots
join_new s before [] h new = tt
join_new s before (t ∷ slots) h new =
    (((λ e. h.0 (sym e)), new.0), join_new s before slots h.1 new.1)

has_repeat_sound :
    (before slots : List ℕ)
    → has_repeat before slots ≡ false
    → AreDistinct slots × AreNew before slots
unfolding has_repeat
has_repeat_sound before [] h = (tt, tt)
has_repeat_sound before (s ∷ slots) h = elim (Bool-cases (member s before)) [
  | inl e ↦ absurd (cc (rw e at h))
  | inr e ↦
      let (distinct, new) = has_repeat_sound (s ∷ before) slots (rw e at h) in
      let (others, older) = split_new s before slots new in
      ((others, distinct), (member_sound s before e, older))
]

has_repeat_complete :
    (before slots : List ℕ)
    → AreDistinct slots
    → AreNew before slots
    → has_repeat before slots ≡ false
unfolding has_repeat
has_repeat_complete before [] distinct new = refl
has_repeat_complete before (s ∷ slots) distinct new =
    rw (member_complete s before new.0)
      (has_repeat_complete (s ∷ before) slots distinct.1 (join_new s before slots distinct.0 new.1))

all_new : (slots : List ℕ) → AreNew [] slots
all_new [] = tt
all_new (s ∷ slots) = (tt, all_new slots)

-- A batch is accepted exactly where it has a slot and no slot twice.
pub validate_generation_slots_lem :
    (slots : List ℕ)
    → (validate_generation_slots slots ≡ ok tt) ↔ ((slots ≢ []) × AreDistinct slots)
unfolding validate_generation_slots
validate_generation_slots_lem [] = ((λ h. absurd (cc)), λ h. absurd (h.0 refl))
validate_generation_slots_lem (s ∷ slots) = (accepted, rejected)
  where
    accepted :
        validate_generation_slots (s ∷ slots) ≡ ok tt → ((s ∷ slots) ≢ []) × AreDistinct (s ∷ slots)
    accepted h = elim (Bool-cases (has_repeat [] (s ∷ slots))) [
      | inl e ↦ absurd (cc (rw e at h))
      | inr e ↦ ((λ n. cc), (has_repeat_sound [] (s ∷ slots) e).0)
    ]

    rejected :
        ((s ∷ slots) ≢ []) × AreDistinct (s ∷ slots) → validate_generation_slots (s ∷ slots) ≡ ok tt
    rejected (some_slot, distinct) =
        rw (has_repeat_complete [] (s ∷ slots) distinct (all_new (s ∷ slots))) refl
