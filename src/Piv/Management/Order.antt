-- ===== src/Piv/Management/Order.antt =====
-- `set_management_key_synced` as a whole: what it may read first, and what it changes then
-- (crates/ckman-core/src/piv.rs).
use canokey_manager.Prelude.{
  ℕ, ◌≡◌, refl, sym, subst, Bool, true, false, ◌||◌, Option, none, some, List, [], ◌∷◌, ◌++◌,
  append_assoc, append-nil, Result, ok, err, Result-cases, All, All-append, inl, inr, ◌⊎◌,
}
use canokey_manager.Piv.Tlv.{Tlv}
use canokey_manager.Piv.Pivman.{PivmanData, has_stored_key}
use canokey_manager.Piv.Management.{
  ManagementKeyAlgorithm, CardCommand, read_object, DriveError, PivError, ManagementKeyUpdate,
  History, Card, Preflight, key_from_bytes, draw_replacement, read_pivman_data,
  read_pivman_protected, read_protected, commit, preflight, set_management_key_synced, pure, ◌>>=◌,
  admin_data, printed, no_access, pin_access,
}
use canokey_manager.Piv.Management.Plan.{HasPin, plan, IsOutcome, run_steps-IsOutcome, commit-plan}

abbrev pub IsRead : CardCommand → Type 0
IsRead (read_object object _) = Unit
IsRead _ = ⊥

-- Only reads were sent since `h`.
abbrev pub OnlyReads : History → History → Type 0
OnlyReads h h' = (reads : List CardCommand) × All IsRead reads × (h' ≡ h ++ reads)

abbrev pub IsPreflight : Option (List ℕ) → History → Result Preflight PivError × History → Type 0
IsPreflight pin h (ok state, h') = HasPin pin state.replacement state.protected × OnlyReads h h'
IsPreflight pin h (err e, h') = OnlyReads h h'

module _ (tlv : Tlv) (card : Card)
    (check : ManagementKeyAlgorithm → List ℕ → Option DriveError) where
  -- What may come of the call: it fails having sent reads only, or the preflight succeeds and the
  -- plan that follows from its state is carried out, up to the first failure.
  abbrev pub IsSynced :
      Option (List ℕ)
      → ManagementKeyUpdate
      → History
      → Result (Unit {0}) PivError × History
      → Type 0
  IsSynced random update h r =
      ((e : PivError) × (r.0 ≡ err e)
        × (preflight tlv card check random update h ≡ (err e, r.1))
        × OnlyReads h r.1)
      ⊎ ((state : Preflight) × (h' : History) × (preflight tlv card check random update h
            ≡ (ok state, h'))
          × OnlyReads h h'
          × IsOutcome card h' (plan tlv update state) r)

  read_more :
      (object_access : CardCommand) (h h' : History)
      → IsRead object_access
      → OnlyReads h h'
      → OnlyReads h (h' ++ (object_access ∷ []))
  read_more c h h' is_read (reads, each, sent) = (
    reads ++ (c ∷ []),
    All-append IsRead reads (c ∷ []) each (is_read, tt),
    rw sent (append_assoc h reads (c ∷ [])),
  )

  -- With the PIN or without: the reading of PRINTED.
  read_protected-IsPreflight :
      (pin : Option (List ℕ)) (wanted : Bool) (replacement : Option (List ℕ)) (pivman : PivmanData)
      (h h' : History)
      → (pin ≡ none → wanted ≡ false → replacement ≡ none)
      → OnlyReads h h'
      → IsPreflight pin h (
          (read_protected tlv card check wanted pin >>= λ protected.
          pure (record { replacement = replacement; pivman = pivman; protected = protected }))
            h')
  unfolding read_protected
  read_protected-IsPreflight none false replacement pivman h h' needed sent =
      ((needed refl refl, refl), sent)
  read_protected-IsPreflight none true replacement pivman h h' needed sent = sent
  read_protected-IsPreflight (some pin) false replacement pivman h h' needed sent = (tt, sent)
  read_protected-IsPreflight (some pin) true replacement pivman h h' needed sent =
      elim (Result-cases (read_pivman_protected tlv card check pin h').0) [
        | inl (value, e) ↦ rw e (tt, more)
        | inr (x, e) ↦ rw e more
      ]
    where
      more : OnlyReads h (read_pivman_protected tlv card check pin h').1
      more =
          unfold read_pivman_protected in
          read_more (read_object printed (pin_access pin)) h h' tt sent

  draw_replacement-unneeded :
      (random : Option (List ℕ)) (protect : Bool) (replacement : Option (List ℕ))
      → draw_replacement protect random ≡ ok replacement
      → (stored : Bool) → (protect || stored) ≡ false
      → replacement ≡ none
  unfolding draw_replacement
  draw_replacement-unneeded random true replacement f stored e = absurd (cc)
  draw_replacement-unneeded random false replacement f stored e = cc

  pub preflight-IsPreflight :
      (random : Option (List ℕ)) (update : ManagementKeyUpdate) (h : History)
      → IsPreflight update.pin h (preflight tlv card check random update h)
  unfolding preflight
  preflight-IsPreflight random update h =
      elim (Result-cases (key_from_bytes tlv card check update)) [
        | inr (x, e) ↦ rw e ([], tt, sym (append-nil h))
        | inl (u, e) ↦ rw e (elim (Result-cases (draw_replacement update.protect random)) [
          | inr (x, f) ↦ rw f ([], tt, sym (append-nil h))
          | inl (replacement, f) ↦ rw f (elim (Result-cases (read_pivman_data tlv card check h).0) [
            | inr (x, g) ↦ rw g read
            | inl (pivman, g) ↦ rw g (
                read_protected-IsPreflight update.pin _ replacement pivman h _
                  (λ _ e.
                    draw_replacement-unneeded random update.protect replacement f
                      (has_stored_key pivman) e)
                  read)
          ])
        ])
      ]
    where
      read : OnlyReads h (read_pivman_data tlv card check h).1
      read = unfold read_pivman_data in ((read_object admin_data no_access) ∷ [], (tt, tt), refl)

  -- `set_management_key_synced` either fails having only read from the card, or it sends the steps of
  -- the plan for the state that it read: it succeeds once all are sent, or it fails with the stage of
  -- the last command sent, which the card refused, and sends nothing behind it.
  pub set_management_key_synced-IsSynced :
      (random : Option (List ℕ)) (update : ManagementKeyUpdate) (h : History)
      → IsSynced random update h (set_management_key_synced tlv card check random update h)
  unfolding set_management_key_synced
  set_management_key_synced-IsSynced random update h =
      go (preflight tlv card check random update h) refl (preflight-IsPreflight random update h)
    where
      go :
          (r : Result Preflight PivError × History)
          → preflight tlv card check random update h ≡ r
          → IsPreflight update.pin h r
          → IsSynced random update h (
              (preflight tlv card check random update >>= λ state.
              commit tlv card check update state)
                h)
      go (err e, h') p sent = rw p (inl (e, refl, refl, sent))
      go (ok state, h') p (pinned, sent) = rw p (
          inr (
            state,
            h',
            refl,
            sent,
            subst (λ m. IsOutcome card h' (plan tlv update state) (m h'))
                (sym (commit-plan tlv card check update state pinned))
                (run_steps-IsOutcome card (plan tlv update state) h'),
          ))
