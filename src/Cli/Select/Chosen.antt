-- ===== src/Cli/Select/Chosen.antt =====
-- The device that `single_target` of crates/ckman/src/commands/mod.rs selects without a reader name.
use canokey_manager.Prelude.{
  ℕ, ◌≡◌, ◌⊎◌, inl, inr, sym, ap, ◌∙◌, Result-cases, Bool-cases, Bool, true, false, Option, none,
  some, List, [], ◌∷◌, Result, ok, err, ok_injective, >>=-eq-ok,
}
use canokey_manager.Cli.{DriveError}
use canokey_manager.Cli.Select.{
  ConnectError, Target, SelectError, filter, has_serial, by_count, only_match, selection_targets,
  candidate, single_target,
}

only_match-eq-ok :
    {T E : Type 0} (xs : List T) (missing ambiguous : E) (x : T)
    → only_match xs missing ambiguous ≡ ok x
    → xs ≡ x ∷ []
unfolding only_match
only_match-eq-ok [] missing ambiguous x h = absurd (cc)
only_match-eq-ok (y ∷ []) missing ambiguous x h = cc
only_match-eq-ok (y ∷ z ∷ xs) missing ambiguous x h = absurd (cc)

module _ (connect : List ℕ → Result Bool ConnectError)
    (probe : List ℕ → Result (Option (List ℕ)) DriveError) where
  -- A reader that no CanoKey is in: it opens and there is none, or it reports that no card is in it.
  abbrev pub IsWithout : List ℕ → Type 0
  IsWithout reader =
      (connect reader ≡ ok false)
      ⊎ ((e : ConnectError) × (connect reader ≡ err e) × (e.is_no_smartcard ≡ true))

  -- A reader with a CanoKey, which has answered the probe with these serial bytes.
  abbrev pub IsProbed : List ℕ → Option (List ℕ) → Type 0
  IsProbed reader serial = (connect reader ≡ ok true) × (probe reader ≡ ok serial)

  -- The readers of a list one by one: the targets are those of the readers that were probed, in
  -- order, and every other reader has no CanoKey in it.
  abbrev pub Accounts : List (List ℕ) → List Target → Type 0
  Accounts [] targets = targets ≡ []
  Accounts (r ∷ rs) targets =
      (IsWithout r × Accounts rs targets)
      ⊎ ((serial : Option (List ℕ)) × (rest : List Target) × IsProbed r serial
          × (targets ≡ record { reader = r; serial = serial } ∷ rest)
          × Accounts rs rest)

  -- What a reader adds to the targets.
  abbrev IsCandidate : List ℕ → Option Target → Type 0
  IsCandidate reader none = IsWithout reader
  IsCandidate reader (some target) =
      (serial : Option (List ℕ)) × IsProbed reader serial
      × (target ≡ record { reader = reader; serial = serial })

  candidate-IsCandidate :
      (lowercase : List ℕ → List ℕ) (readers : Result (List (List ℕ)) ℕ) (reader : List ℕ)
      (found : Option Target)
      → candidate lowercase readers connect probe reader ≡ ok found
      → IsCandidate reader found
  unfolding candidate
  candidate-IsCandidate lowercase readers reader found h = elim (Result-cases (connect reader)) [
    | inl (false, c) ↦ of_none found (ok_injective (rw c at h)) (inl c)
    | inl (true, c) ↦ elim (Result-cases (probe reader)) [
      | inl (serial, p) ↦ of_some found serial (ok_injective (rw (c, p) at h)) (c, p)
      | inr (e, p) ↦ absurd (cc (rw (c, p) at h))
    ]
    | inr (e, c) ↦ elim (Bool-cases e.is_no_smartcard) [
      | inl absent ↦ of_none found (ok_injective (rw (c, absent) at h)) (inr (e, c, absent))
      | inr present ↦ absurd (cc (rw (c, present) at h))
    ]
  ]
    where
      of_none : (o : Option Target) → none ≡ o → IsWithout reader → IsCandidate reader o
      of_none none e w = w
      of_none (some t) e w = absurd (cc)

      of_some :
          (o : Option Target) (serial : Option (List ℕ))
          → some (record { reader = reader; serial = serial }) ≡ o
          → IsProbed reader serial
          → IsCandidate reader o
      of_some none serial e p = absurd (cc)
      of_some (some t) serial e p = (serial, p, cc)

  account :
      (r : List ℕ) (rs : List (List ℕ)) (o : Option Target) (rest targets : List Target)
      → IsCandidate r o
      → Accounts rs rest
      → ◌≡◌ {A = Result (List Target) SelectError}
          (ok (elim o [ none ↦ rest | some t ↦ t ∷ rest ]))
          (ok targets)
      → Accounts (r ∷ rs) targets
  account r rs none rest targets a b h = inl (a, rw (ok_injective h) at b)
  account r rs (some t) rest targets (serial, p, e) b h =
      inr (serial, rest, p, sym (ok_injective h) ∙ ap (λ x. x ∷ rest) e, b)

  -- A selection that succeeds has probed every reader with a CanoKey.
  pub selection_targets-Accounts :
      (lowercase : List ℕ → List ℕ) (names : Result (List (List ℕ)) ℕ) (readers : List (List ℕ))
      (targets : List Target)
      → selection_targets readers (candidate lowercase names connect probe) ≡ ok targets
      → Accounts readers targets
  unfolding selection_targets
  selection_targets-Accounts lowercase names [] targets h = sym (ok_injective h)
  selection_targets-Accounts lowercase names (r ∷ rs) targets h =
      let look = candidate lowercase names connect probe in
      let (o, a, h1) = >>=-eq-ok (look r) _ h in
      let (rest, b, h2) = >>=-eq-ok (selection_targets rs look) _ h1 in
      account r rs o rest targets (candidate-IsCandidate lowercase names r o a)
        (selection_targets-Accounts lowercase names rs rest b) h2

-- The only target, or the only one with the serial number asked for.
abbrev pub IsChosen : Option ℕ → List Target → Target → Type 0
IsChosen none targets target = targets ≡ target ∷ []
IsChosen (some serial) targets target = filter (has_serial serial) targets ≡ target ∷ []

by_count-eq-ok :
    (targets : List Target) (target : Target) → by_count targets ≡ ok target → targets ≡ target ∷ []
unfolding by_count
by_count-eq-ok [] target h = absurd (cc)
by_count-eq-ok (t ∷ []) target h = cc
by_count-eq-ok (t ∷ other ∷ targets) target h = absurd (cc)

-- A device that is selected without a reader name is the only CanoKey with the serial number asked
-- for, or the only one at all, among the targets of all readers: every reader with a CanoKey in it
-- has answered the probe, and each other reader opens without a CanoKey or reports that it has no card.
pub single_target-IsChosen :
    (lowercase : List ℕ → List ℕ) (names : List (List ℕ))
    (connect : List ℕ → Result Bool ConnectError)
    (probe : List ℕ → Result (Option (List ℕ)) DriveError) (device : Option ℕ) (target : Target)
    → single_target lowercase (ok names) connect probe device none ≡ ok target
    → (targets : List Target) × Accounts connect probe names targets
      × IsChosen device targets target
unfolding single_target
single_target-IsChosen lowercase names connect probe none target h =
    let look = candidate lowercase (ok names) connect probe in
    let (targets, a, h1) = >>=-eq-ok (selection_targets names look) _ h in
    (
      targets,
      selection_targets-Accounts connect probe lowercase (ok names) names targets a,
      by_count-eq-ok targets target h1,
    )
single_target-IsChosen lowercase names connect probe (some serial) target h =
    let look = candidate lowercase (ok names) connect probe in
    let (targets, a, h1) = >>=-eq-ok (selection_targets names look) _ h in
    (
      targets,
      selection_targets-Accounts connect probe lowercase (ok names) names targets a,
      only_match-eq-ok _ _ _ target h1,
    )
