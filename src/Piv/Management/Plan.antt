-- ===== src/Piv/Management/Plan.antt =====
-- The order of the card operations of `set_management_key_synced`, and what is left when one fails
-- (crates/ckman-core/src/piv.rs).
use canokey_manager.Prelude.{
  ℕ, ◌≡◌, refl, ap, sym, ◌∙◌, subst, Bool, true, false, not, Option, none, some, List, [], ◌∷◌,
  ◌++◌, append_assoc, append-nil, Result, ok, err, Result-cases, inl, inr,
}
use mathlib.Core.Path.{fun_ext}
use canokey_manager.Prelude.Bytes.{bytes_eq}
use canokey_manager.Piv.Tlv.{Tlv}
use canokey_manager.Piv.Pivman.{PivmanData, PivmanProtectedData, to_value, protected_to_value}
use canokey_manager.Piv.Management.{
  ManagementKeyAlgorithm, pin_access, management_access, pin_and_management, admin_data, printed,
  CardCommand, write_object, set_management_key, pin_managed, DriveError, Stage, replace_key,
  store_protected_key, update_metadata, protect_puk, PivError, management_key_update,
  ManagementKeyUpdate, History, Card, Action, pure, when, perform, Preflight, updated_data,
  next_protected, new_key, store_protected, store_metadata, block_puk, commit, ◌>>=◌, ◌>>◌,
}

abbrev pub PlannedStep : Type 0
PlannedStep = Stage × CardCommand

abbrev pub steps_if : Bool → List PlannedStep → List PlannedStep
steps_if true steps = steps
steps_if false steps = []

module _ (tlv : Tlv) where
  abbrev pub protected_steps :
      ManagementKeyUpdate → Option (List ℕ) → Option PivmanProtectedData → List PlannedStep
  protected_steps update none protected = []
  protected_steps update (some pin) none = []
  protected_steps update (some pin) (some protected) =
      steps_if (next_protected update protected).1 (
        (
          store_protected_key,
          write_object printed (protected_to_value tlv (next_protected update protected).0) (
              pin_and_management pin
                (record { algorithm = update.algorithm; bytes = update.new_key_bytes })),
        )
        ∷ [])

  abbrev pub metadata_steps : ManagementKeyUpdate → PivmanData → List PlannedStep
  metadata_steps update pivman =
      let value = to_value tlv (updated_data pivman update.protect) in
      steps_if (not (bytes_eq value (to_value tlv pivman))) (
        (
          update_metadata,
          write_object admin_data value (
              management_access
                (record { algorithm = update.algorithm; bytes = update.new_key_bytes })),
        )
        ∷ [])

  abbrev pub puk_steps : Option (List ℕ) → Option (List ℕ) → List PlannedStep
  puk_steps none pin = []
  puk_steps (some replacement) none = []
  puk_steps (some replacement) (some pin) =
      (protect_puk, pin_managed replacement (pin_access pin)) ∷ []

  -- The commands that change the card, in the one order in which they may be sent: the key, then the
  -- copy in PRINTED, then the flags in ADMIN DATA, then the PUK.
  abbrev pub plan : ManagementKeyUpdate → Preflight → List PlannedStep
  plan update state =
      (
        replace_key,
        set_management_key (record { algorithm = update.algorithm; bytes = update.new_key_bytes })
            update.touch update.access,
      )
      ∷ (protected_steps update update.pin state.protected
          ++ (metadata_steps update state.pivman ++ puk_steps state.replacement update.pin))

abbrev pub commands : List PlannedStep → List CardCommand
commands [] = []
commands ((s, c) ∷ steps) = c ∷ commands steps

module _ (card : Card) where
  -- The steps in turn, up to the first failure.
  unfoldable pub run_steps : List PlannedStep → Action (Unit {0})
  unfolding perform
  run_steps [] = pure tt
  run_steps ((stage, c) ∷ steps) = do perform card stage c; run_steps steps

  -- Success means that all steps were sent; a failure names the stage of the last step sent, and
  -- nothing was sent behind it.
  abbrev pub IsOutcome : History → List PlannedStep → Result (Unit {0}) PivError × History → Type 0
  IsOutcome h steps (ok _, h') = h' ≡ h ++ commands steps
  IsOutcome h steps (err (management_key_update stage e), h') =
      (before : List PlannedStep) × (c : CardCommand) × (after : List PlannedStep) × (steps
        ≡ before ++ ((stage, c) ∷ after))
      × (h' ≡ h ++ (commands before ++ (c ∷ [])))
      × (card (h ++ commands before) c ≡ err e)
  IsOutcome h steps (err _, h') = ⊥

  perform-ok :
      (stage : Stage) (c : CardCommand) (h : History) (bytes : List ℕ)
      → card h c ≡ ok bytes
      → perform card stage c h ≡ (ok tt, h ++ (c ∷ []))
  unfolding perform
  perform-ok stage c h bytes e = rw e refl

  perform-err :
      (stage : Stage) (c : CardCommand) (h : History) (e : DriveError)
      → card h c ≡ err e
      → perform card stage c h ≡ (err (management_key_update stage e), h ++ (c ∷ []))
  unfolding perform
  perform-err stage c h x e = rw e refl

  run_steps-cons_ok :
      (stage : Stage) (c : CardCommand) (steps : List PlannedStep) (h : History) (bytes : List ℕ)
      → card h c ≡ ok bytes
      → run_steps ((stage, c) ∷ steps) h ≡ run_steps steps (h ++ (c ∷ []))
  unfolding run_steps
  run_steps-cons_ok stage c steps h bytes e = rw e refl

  run_steps-cons_err :
      (stage : Stage) (c : CardCommand) (steps : List PlannedStep) (h : History) (e : DriveError)
      → card h c ≡ err e
      → run_steps ((stage, c) ∷ steps) h ≡ (err (management_key_update stage e), h ++ (c ∷ []))
  unfolding run_steps
  run_steps-cons_err stage c steps h x e = rw e refl

  run_steps-append :
      (xs ys : List PlannedStep) (h : History)
      → run_steps (xs ++ ys) h ≡ (run_steps xs >>= λ _. run_steps ys) h
  unfolding run_steps
  run_steps-append [] ys h = refl
  run_steps-append ((s, c) ∷ xs) ys h = elim (Result-cases (card h c)) [
    | inl (bytes, e) ↦ rw e (run_steps-append xs ys (h ++ (c ∷ [])))
    | inr (x, e) ↦ rw e refl
  ]

  run_steps-append_fun :
      (xs ys : List PlannedStep) → run_steps (xs ++ ys) ≡ (run_steps xs >>= λ _. run_steps ys)
  run_steps-append_fun xs ys = fun_ext (run_steps-append xs ys)

  -- One more step, sent before the others.
  IsOutcome-cons :
      (s : Stage) (c : CardCommand) (steps : List PlannedStep) (h : History)
      (r : Result (Unit {0}) PivError × History)
      → IsOutcome (h ++ (c ∷ [])) steps r
      → IsOutcome h ((s, c) ∷ steps) r
  IsOutcome-cons s c steps h (ok _, h') out = out ∙ append_assoc h (c ∷ []) (commands steps)
  IsOutcome-cons s c steps h (err (management_key_update stage e), h') out =
      let (before, d, after, split, sent, failed) = out in
      (
        (s, c) ∷ before,
        d,
        after,
        ap (λ l. (s, c) ∷ l) split,
        sent ∙ append_assoc h (c ∷ []) (commands before ++ (d ∷ [])),
        rw append_assoc at failed,
      )
  IsOutcome-cons s c steps h (err (PivError.drive x), h') out = absurd out
  IsOutcome-cons s c steps h (err (PivError.parse x), h') out = absurd out
  IsOutcome-cons s c steps h (err PivError.random_failed, h') out = absurd out
  IsOutcome-cons s c steps h (err PivError.panicked, h') out = absurd out

  pub run_steps-IsOutcome :
      (steps : List PlannedStep) (h : History) → IsOutcome h steps (run_steps steps h)
  run_steps-IsOutcome [] h = unfold run_steps in sym (append-nil h)
  run_steps-IsOutcome ((s, c) ∷ steps) h = elim (Result-cases (card h c)) [
    | inl (bytes, e) ↦
        subst (IsOutcome h ((s, c) ∷ steps)) (sym (run_steps-cons_ok s c steps h bytes e))
          (IsOutcome-cons s c steps h _ (run_steps-IsOutcome steps (h ++ (c ∷ []))))
    | inr (x, e) ↦
        subst (IsOutcome h ((s, c) ∷ steps)) (sym (run_steps-cons_err s c steps h x e))
          ([], c, steps, refl, refl, rw append-nil e)
  ]

  run_steps-one : (s : Stage) (c : CardCommand) → run_steps ((s, c) ∷ []) ≡ perform card s c
  unfolding run_steps
  run_steps-one s c =
      fun_ext
        λ h. elim (Result-cases (card h c)) [ inl (bytes, e) ↦ rw e refl | inr (x, e) ↦ rw e refl ]

-- A PIN is at hand wherever one will be needed.
abbrev pub HasPin : Option (List ℕ) → Option (List ℕ) → Option PivmanProtectedData → Type 0
HasPin (some pin) replacement protected = Unit
HasPin none replacement protected = (replacement ≡ none) × (protected ≡ none)

module _ (tlv : Tlv) (card : Card)
    (check : ManagementKeyAlgorithm → List ℕ → Option DriveError) where
  when-steps :
      (b : Bool) (s : Stage) (c : CardCommand)
      → when b (perform card s c) ≡ run_steps card (steps_if b ((s, c) ∷ []))
  when-steps true s c = sym (run_steps-one card s c)
  when-steps false s c = unfold run_steps in refl

  store_protected-steps :
      (update : ManagementKeyUpdate) (pin : Option (List ℕ)) (replacement : Option (List ℕ))
      (protected : Option PivmanProtectedData)
      → HasPin pin replacement protected
      → store_protected tlv card check update pin protected
        ≡ run_steps card (protected_steps tlv update pin protected)
  unfolding store_protected run_steps
  store_protected-steps update none replacement protected h = rw h.1 refl
  store_protected-steps update (some pin) replacement none h = refl
  store_protected-steps update (some pin) replacement (some protected) h =
      when-steps (next_protected update protected).1 store_protected_key _

  block_puk-steps :
      (pin : Option (List ℕ)) (replacement : Option (List ℕ))
      (protected : Option PivmanProtectedData)
      → HasPin pin replacement protected
      → block_puk tlv card check replacement pin ≡ run_steps card (puk_steps tlv replacement pin)
  unfolding block_puk run_steps
  block_puk-steps none replacement protected h = rw h.0 refl
  block_puk-steps (some pin) none protected h = refl
  block_puk-steps (some pin) (some replacement) protected h = sym (run_steps-one card protect_puk _)

  store_metadata-steps :
      (update : ManagementKeyUpdate) (pivman : PivmanData)
      → store_metadata tlv card check update pivman
        ≡ run_steps card (metadata_steps tlv update pivman)
  unfolding store_metadata
  store_metadata-steps update pivman =
      when-steps
        (not (bytes_eq (to_value tlv (updated_data pivman update.protect)) (to_value tlv pivman)))
        update_metadata _

  -- The replacement and what follows it are the steps of the plan in turn.
  pub commit-plan :
      (update : ManagementKeyUpdate) (state : Preflight)
      → HasPin update.pin state.replacement state.protected
      → commit tlv card check update state ≡ run_steps card (plan tlv update state)
  unfolding commit
  commit-plan update state pinned =
      let stored =
        store_protected-steps update update.pin state.replacement state.protected pinned in
      let flagged = store_metadata-steps update state.pivman in
      let blocked = block_puk-steps update.pin state.replacement state.protected pinned in
      let first =
        run_steps-one card replace_key
          (set_management_key (new_key tlv card check update) update.touch update.access) in
      rw stored (
        rw flagged (
          rw blocked (
            rw (sym first) (
              rw
                (sym (
                  run_steps-append_fun card (metadata_steps tlv update state.pivman)
                    (puk_steps tlv state.replacement update.pin)))
                (rw
                  (sym (
                    run_steps-append_fun card
                      (protected_steps tlv update update.pin state.protected)
                      (metadata_steps tlv update state.pivman
                        ++ puk_steps tlv state.replacement update.pin)))
                  (sym (run_steps-append_fun card (_ ∷ []) _)))))))
