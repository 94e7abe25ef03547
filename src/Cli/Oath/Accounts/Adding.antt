-- ===== src/Cli/Oath/Accounts/Adding.antt =====
-- What holds when `add_credential` of crates/ckman/src/commands/oath.rs sends a
-- credential to the card.
use canokey_manager.Prelude.{
  ℕ, ◌≤◌, ◌<◌, arith, ◌≡◌, refl, ◌⊎◌, inl, inr, Bool, true, false, not, ◌&&◌, Option, List, [], ◌∷◌,
  ◌++◌, ok, guard, Result-cases, Bool-cases, length, leb, leb→le, ◌==◌,
}
use canokey_manager.Oath.Name.{Kind, hotp, totp, is_totp}
use canokey_manager.Cli.Effects.{
  lift, OnlyQuiet, OnlyQuiet_refl, OnlyQuiet_trans, Quiet, Quiet-bind, Guarded, Guarded-bind,
}
use canokey_manager.Cli.Oath.{
  Entry, add, Event, printed, secret_range, name_range, duplicate_account, Host,
}
use canokey_manager.Cli.Oath.Session.{Session, connect}
use canokey_manager.Cli.Oath.Session.Reading.{IsReading, connect-Reading}
use canokey_manager.Cli.Oath.Accounts.{any_named, list_entries, check_unused}
use canokey_manager.Cli.Oath.Accounts.Add.{
  NewCredential, check_fields, id_of, credential_of, check_duplicate, report_added, add_in_session,
  add_credential,
}
use canokey_manager.Cli.Oath.Accounts.Consent.{
  guard-eq-ok, print-Reading, list_entries-Reading, list_entries-IsListed, change_and_print-Guarded,
  not-eq-true, IsListed-later, IsListed, Sends,
}

-- The fields are in the ranges that the card takes.
abbrev pub IsInRange : NewCredential → Type 0
IsInRange new =
    ((new.new_kind ≡ hotp) ⊎ ((0 < new.new_period) × (new.new_counter ≡ 0)))
    × (4 ≤ new.new_digits)
    × (new.new_digits ≤ 8)
    × (1 ≤ length new.new_secret)
    × (length new.new_secret ≤ 64)

&&-eq-true : (a b : Bool) → (a && b) ≡ true → (a ≡ true) × (b ≡ true)
&&-eq-true true b h = (refl, h)
&&-eq-true false b h = absurd (cc)

check_fields-IsInRange : (new : NewCredential) → check_fields new ≡ ok tt → IsInRange new
unfolding check_fields
check_fields-IsInRange new h = elim (Bool-cases (is_totp new.new_kind && new.new_period == 0)) [
  | inl p ↦ absurd (cc (rw (p, check_fields) at h))
  | inr p ↦ elim (Bool-cases (is_totp new.new_kind && not (new.new_counter == 0))) [
    | inl c ↦ absurd (cc (rw (p, c, check_fields) at h))
    | inr c ↦ elim (Bool-cases (leb 4 new.new_digits && leb new.new_digits 8)) [
      | inr d ↦ absurd (cc (rw (p, c, d, check_fields) at h))
      | inl d ↦
          let (least, most) = &&-eq-true _ _ d in
          let (some_bytes, few_bytes) =
            &&-eq-true _ _ (guard-eq-ok _ secret_range (rw (p, c, d, check_fields) at h)) in
          (
            by_kind new.new_kind new.new_period new.new_counter p c,
            leb→le 4 _ least,
            leb→le _ 8 most,
            leb→le 1 _ some_bytes,
            leb→le _ 64 few_bytes,
          )
    ]
  ]
]
  where
    by_kind :
        (kind : Kind) (period counter : ℕ)
        → (is_totp kind && period == 0) ≡ false
        → (is_totp kind && not (counter == 0)) ≡ false
        → (kind ≡ hotp) ⊎ ((0 < period) × (counter ≡ 0))
    by_kind hotp period counter p c = inl refl
    by_kind totp period counter p c = inr (ground arith, ground arith)

module _ (host : Host) where
  -- What is known when a credential is added.
  abbrev pub IsAddition : NewCredential → List Event → Event → Type 0
  IsAddition new before v =
      Sends host (add (credential_of new))
        (λ h.
          IsInRange new
          × (host.is_name (id_of new) ≡ true)
          × ((new.force ≡ true)
              ⊎ ((entries : List Entry) × IsListed host entries h
                  × (any_named (id_of new) entries ≡ false))))
        before v

  report_added-Reading :
      (new : NewCredential) (generated : Bool) → Quiet IsReading (report_added host new generated)
  unfolding report_added
  report_added-Reading new false h = print-Reading _ h
  report_added-Reading new true h =
      OnlyQuiet_trans IsReading h (h ++ (printed _ ∷ [])) _ (print-Reading _ h) (print-Reading _ _)

  check_duplicate-Reading :
      (session : Session) (new : NewCredential) (force : Bool)
      → Quiet IsReading (check_duplicate host session new force)
  unfolding check_duplicate check_unused
  check_duplicate-Reading session new true = OnlyQuiet_refl IsReading
  check_duplicate-Reading session new false =
      Quiet-bind IsReading (list_entries host session) (check_unused host (id_of new))
        (list_entries-Reading host session) (λ entries h. OnlyQuiet_refl IsReading h)

  check_duplicate-eq-ok :
      (session : Session) (new : NewCredential) (force : Bool) (h : List Event)
      → (check_duplicate host session new force h).0 ≡ ok tt
      → (force ≡ true)
        ⊎ ((entries : List Entry) × IsListed host entries
              (check_duplicate host session new force h).1
            × (any_named (id_of new) entries ≡ false))
  unfolding check_duplicate check_unused
  check_duplicate-eq-ok session new true h e = inl refl
  check_duplicate-eq-ok session new false h e =
      elim (Result-cases (list_entries host session h).0) [
        | inr (x, p) ↦ absurd (cc (rw p at e))
        | inl (entries, p) ↦ rw p (
            inr (
              entries,
              list_entries-IsListed host session h entries p,
              not-eq-true host _ (guard-eq-ok _ duplicate_account (rw p at e)),
            ))
      ]

  IsUnused : NewCredential → List Event → Type 0
  IsUnused new h =
      (new.force ≡ true)
      ⊎ ((entries : List Entry) × IsListed host entries h × (any_named (id_of new) entries ≡ false))

  IsUnused-later :
      (new : NewCredential) (h h' : List Event)
      → IsUnused new h
      → OnlyQuiet IsReading h h'
      → IsUnused new h'
  unfolding IsUnused
  IsUnused-later new h h' (inl forced) more = inl forced
  IsUnused-later new h h' (inr (entries, l, u)) more =
      inr (entries, IsListed-later host entries h h' l more, u)

  add_in_session-Guarded :
      (new : NewCredential) (session : Session) (h : List Event)
      → IsInRange new
      → host.is_name (id_of new) ≡ true
      → Guarded IsReading (IsAddition new) h (add_in_session host new session h)
  unfolding add_in_session IsUnused
  add_in_session-Guarded new session h range name =
      Guarded-bind IsReading (IsAddition new) (check_duplicate host session new new.force) _ h
        (check_duplicate-Reading session new new.force h)
        (λ _ c.
          let h1 = (check_duplicate host session new new.force h).1 in
          change_and_print-Guarded host (IsAddition new) session (add (credential_of new)) _ h1
            (λ _. report_added-Reading new new.generated)
            (λ before v (access, e, quiet). (
              access,
              e,
              (
                range,
                name,
                IsUnused-later new h1 before (check_duplicate-eq-ok session new new.force h c)
                    quiet,
              ),
            )))

  -- Adding sends at most one request that changes the card: it adds the credential with the given
  -- fields, which are in range, under a name of valid length, where the user forced it or the card
  -- has listed its accounts and none of them has that name.
  pub add_credential-Guarded :
      (device : Option ℕ) (reader : Option (List ℕ)) (new : NewCredential) (h : List Event)
      → Guarded IsReading (IsAddition new) h (add_credential host device reader new h)
  unfolding add_credential add_in_session
  add_credential-Guarded device reader new h =
      let W = IsAddition new in
      Guarded-bind IsReading W (lift (check_fields new)) _ h (OnlyQuiet_refl IsReading h) (λ _ c.
        Guarded-bind IsReading W (lift (guard (host.is_name (id_of new)) name_range)) _ h
          (OnlyQuiet_refl IsReading h)
          (λ _ n.
            Guarded-bind IsReading W
              (connect host device reader new.args.password new.args.remember)
              (add_in_session host new) h
              (connect-Reading host device reader new.args.password new.args.remember h)
              (λ session k.
                add_in_session-Guarded new session _ (check_fields-IsInRange new c)
                  (guard-eq-ok _ name_range n))))
