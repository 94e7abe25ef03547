-- ===== src/Cli/Oath/Session/Authorised.antt =====
-- What `OathSession::connect` of crates/ckman/src/commands/oath.rs has checked when it returns.
use canokey_manager.Prelude.{
  ℕ, ◌≡◌, ◌≢◌, ◌∙◌, refl, sym, ap, ◌⊎◌, inl, inr, Bool, true, false, Option, none, some, List, [],
  ◌∷◌, ◌++◌, Result, ok, err, map_err, Result-cases, Bool-cases, ok_injective,
}
use canokey_manager.Cli.Effects.{
  Action, map_failure, OnlyQuiet, OnlyQuiet_refl, OnlyQuiet_trans, OnlyQuiet-step, Quiet,
  Quiet-bind,
}
use canokey_manager.Cli.Oath.{
  OathError, random, Access, current_password, Event, connected, selected, drawn, validated,
  keyring_opened, keyring_read, keyring_deleted, keyring_written, warned, Selected, modern, legacy,
  Host, is_wrong_password,
}
use canokey_manager.Cli.Oath.Session.{
  Session, to_random, access_from_key, validate_key, open_entry, opened, keyring_entry, write_entry,
  report_stored, store, remember_key, recalled, recall_key, forget_key, remember_if, unlock_with,
  ask_password, after_password, ask_and_unlock, forget_and_ask, after_remembered, with_remembered,
  unlock, with_selection, open_target, select_oath, open_oath, connect,
}

-- The event deletes nothing from the keyring.
abbrev pub IsKept : Event → Type 0
IsKept (keyring_deleted serial) = ⊥
IsKept _ = Unit

abbrev pub is_locked : Selected → Bool
is_locked legacy = false
is_locked (modern handle locked) = locked

map_err-eq-ok :
    {A E F : Type 0} (f : E → F) (r : Result A E) (a : A) → map_err f r ≡ ok a → r ≡ ok a
map_err-eq-ok f (ok b) a h = cc
map_err-eq-ok f (err e) a h = absurd (cc)

module _ (host : Host) where
  -- The card has accepted the session's key, and nothing was forgotten since.
  abbrev pub IsValidated : Session → List Event → Type 0
  IsValidated session h =
      (key : List ℕ) × (access : Access) × (before : List Event) × (session.key ≡ some key)
      × (access.access_key ≡ host.access_key key)
      × (host.validate access before ≡ ok tt)
      × OnlyQuiet IsKept (before ++ (validated access ∷ [])) h

  kept : (h : List Event) → OnlyQuiet IsKept h h
  kept h = OnlyQuiet_refl IsKept h

  pub keyring_entry-Quiet : (serial : Option ℕ) → Quiet IsKept (keyring_entry host serial)
  unfolding keyring_entry
  keyring_entry-Quiet none = kept
  keyring_entry-Quiet (some serial) =
      Quiet-bind IsKept (open_entry host serial) (opened host serial)
        (λ h. OnlyQuiet-step IsKept h (keyring_opened serial) tt) opened-Quiet
    where
      opened-Quiet : (b : Bool) → Quiet IsKept (opened host serial b)
      opened-Quiet true = kept
      opened-Quiet false = λ h. OnlyQuiet-step IsKept h (warned _) tt

  pub remember_key-Quiet :
      (session : Session) (key : List ℕ) → Quiet IsKept (remember_key host session key)
  unfolding remember_key
  remember_key-Quiet session key =
      Quiet-bind IsKept (keyring_entry host session.serial) (store host key)
        (keyring_entry-Quiet session.serial) store-Quiet
    where
      store-Quiet : (serial : Option ℕ) → Quiet IsKept (store host key serial)
      store-Quiet none = λ h. OnlyQuiet-step IsKept h (warned _) tt
      store-Quiet (some serial) =
          Quiet-bind IsKept (write_entry host serial _) (report_stored host)
            (λ h. OnlyQuiet-step IsKept h (keyring_written serial _) tt)
            (λ stored h. OnlyQuiet-step IsKept h (warned _) tt)

  remember_if-Quiet :
      (remember : Bool) (session : Session) (key : List ℕ)
      → Quiet IsKept (remember_if host remember session key)
  unfolding remember_if
  remember_if-Quiet true session key = remember_key-Quiet session key
  remember_if-Quiet false session key = kept

  recall_key-Quiet : (session : Session) → Quiet IsKept (recall_key host session)
  unfolding recall_key
  recall_key-Quiet session =
      Quiet-bind IsKept (keyring_entry host session.serial) (recalled host)
        (keyring_entry-Quiet session.serial) recalled-Quiet
    where
      recalled-Quiet : (serial : Option ℕ) → Quiet IsKept (recalled host serial)
      recalled-Quiet none = kept
      recalled-Quiet (some serial) = λ h. OnlyQuiet-step IsKept h (keyring_read serial) tt

  pub access_from_key-Quiet : (derived : List ℕ) → Quiet IsKept (access_from_key host derived)
  unfolding access_from_key
  access_from_key-Quiet derived h = elim (Result-cases (to_random (host.draw h))) [
    | inl (challenge, e) ↦ rw e (OnlyQuiet-step IsKept h (drawn 8) tt)
    | inr (x, e) ↦ rw e (OnlyQuiet-step IsKept h (drawn 8) tt)
  ]

  -- The key is refused for want of random numbers, or the card answers.
  validate_key-run :
      (key : List ℕ) (h : List Event)
      → ((code : ℕ) × (validate_key host key h ≡ (err (random code), h ++ (drawn 8 ∷ []))))
        ⊎ ((access : Access) × (access.access_key ≡ host.access_key key)
            × (validate_key host key h ≡ (
              host.validate access (h ++ (drawn 8 ∷ [])),
              (h ++ (drawn 8 ∷ [])) ++ (validated access ∷ []),
            )))
  unfolding validate_key access_from_key
  validate_key-run key h = elim (Result-cases (host.draw h)) [
    | inl (challenge, d) ↦ inr (
      record { access_key = host.access_key key; challenge = challenge },
      refl,
      rw (d, validate_key, access_from_key) refl,
    )
    | inr (x, d) ↦ inl (x, rw (d, validate_key, access_from_key) refl)
  ]

  -- What the card has answered to the key.
  abbrev IsAnswer : List ℕ → Result (Unit {0}) OathError → List Event → Type 0
  IsAnswer key answer h =
      (access : Access) × (before : List Event) × (access.access_key ≡ host.access_key key)
      × (host.validate access before ≡ answer)
      × OnlyQuiet IsKept (before ++ (validated access ∷ [])) h

  validate_key-Quiet : (key : List ℕ) → Quiet IsKept (validate_key host key)
  validate_key-Quiet key h = elim (validate_key-run key h) [
    | inl (x, e) ↦ rw e (OnlyQuiet-step IsKept h (drawn 8) tt)
    | inr (access, _, e) ↦ rw e (
        OnlyQuiet_trans IsKept h (h ++ (drawn 8 ∷ [])) _ (OnlyQuiet-step IsKept h (drawn 8) tt)
          (OnlyQuiet-step IsKept (h ++ (drawn 8 ∷ [])) (validated access) tt))
  ]

  validate_key-IsAnswer :
      (key : List ℕ) (h : List Event) (answer : Result (Unit {0}) OathError)
      → ((code : ℕ) → answer ≢ err (random code))
      → (validate_key host key h).0 ≡ answer
      → IsAnswer key answer (validate_key host key h).1
  validate_key-IsAnswer key h answer sent a = elim (validate_key-run key h) [
    | inl (x, e) ↦ absurd (sent x (sym a ∙ ap (λ r. r.0) e))
    | inr (access, k, e) ↦
        (access, h ++ (drawn 8 ∷ []), k, sym (ap (λ r. r.0) e) ∙ a, rw e (kept _))
  ]

  map_failure-eq-ok :
      {E F A : Type 0} (f : E → F) (m : Action Event E A) (h : List Event) (a : A)
      → (map_failure f m h).0 ≡ ok a
      → (m h).0 ≡ ok a
  map_failure-eq-ok f m h a e = map_err-eq-ok f (m h).0 a e

  IsAnswer-later :
      (session : Session) (key : List ℕ) (h h' : List Event)
      → session.key ≡ some key
      → IsAnswer key (ok tt) h
      → OnlyQuiet IsKept h h'
      → IsValidated session h'
  IsAnswer-later session key h h' k (access, before, a, v, quiet) rest = (
    key,
    access,
    before,
    k,
    a,
    v,
    OnlyQuiet_trans IsKept (before ++ (validated access ∷ [])) h h' quiet rest,
  )

  unlock_with-IsValidated :
      (before session : Session) (handle password : List ℕ) (remember : Bool) (h : List Event)
      → (unlock_with host before handle password remember h).0 ≡ ok session
      → IsValidated session (unlock_with host before handle password remember h).1
  unfolding unlock_with
  unlock_with-IsValidated before session handle password remember h e =
      let key = host.derive_key password handle in
      let checked = validate_key host key h in
      elim (Result-cases checked.0) [
        | inr (x, p) ↦ absurd (cc (rw p at e))
        | inl (_, p) ↦ elim (Result-cases (remember_if host remember before key checked.1).0) [
          | inr (x, q) ↦ absurd (cc (rw (p, q) at e))
          | inl (_, q) ↦ rw p (
              rw q (
                IsAnswer-later session key checked.1 _
                  (ap (λ s. s.key) (sym (ok_injective (rw (p, q) at e))))
                  (validate_key-IsAnswer key h (ok tt) (λ code f. cc) p)
                  (remember_if-Quiet remember before key checked.1)))
        ]
      ]

  ask_and_unlock-IsValidated :
      (before session : Session) (handle : List ℕ) (remember : Bool) (h : List Event)
      → (ask_and_unlock host before handle remember h).0 ≡ ok session
      → IsValidated session (ask_and_unlock host before handle remember h).1
  unfolding ask_and_unlock after_password
  ask_and_unlock-IsValidated before session handle remember h e =
      elim (Result-cases (ask_password host current_password h).0) [
        | inl (password, p) ↦
            rw p (unlock_with-IsValidated before session handle password remember _ (rw p at e))
        | inr (x, p) ↦ absurd (cc (rw p at e))
      ]

  with_remembered-IsValidated :
      (before session : Session) (handle : List ℕ) (remember : Bool) (remembered : Option (List ℕ))
      (h : List Event)
      → (with_remembered host before handle remember remembered h).0 ≡ ok session
      → IsValidated session (with_remembered host before handle remember remembered h).1
  unfolding with_remembered after_remembered forget_and_ask
  with_remembered-IsValidated before session handle remember none h e =
      ask_and_unlock-IsValidated before session handle remember h e
  with_remembered-IsValidated before session handle remember (some key) h e =
      elim (Result-cases (validate_key host key h).0) [
        | inl (_, p) ↦ rw p (
            IsAnswer-later session key _ _ (ap (λ s. s.key) (sym (ok_injective (rw p at e))))
              (validate_key-IsAnswer key h (ok tt) (λ code f. cc) p) (kept _))
        | inr (x, p) ↦ elim (Bool-cases (is_wrong_password x)) [
          | inr w ↦ absurd (cc (rw (p, w) at e))
          | inl w ↦ elim (Result-cases (forget_key host before (validate_key host key h).1).0) [
            | inr (y, f) ↦ absurd (cc (rw (p, w, f) at e))
            | inl (_, f) ↦ rw p (
                rw w (
                  rw f (
                    ask_and_unlock-IsValidated before session handle remember _
                      (rw (p, w, f) at e))))
          ]
        ]
      ]

  -- Where the card asks for no password, none was given and the session has no key; otherwise the card
  -- has accepted the session's key.
  abbrev pub IsAuthorised : Option (List ℕ) → Session → List Event → Type 0
  IsAuthorised password session h =
      ((selection : Selected) × (before : List Event) × (host.select before ≡ ok selection)
        × (is_locked selection ≡ false)
        × (password ≡ none)
        × (session.key ≡ none)
        × (h ≡ before ++ (selected ∷ [])))
      ⊎ IsValidated session h

  unlock-IsValidated :
      (before session : Session) (handle : List ℕ) (password : Option (List ℕ)) (remember : Bool)
      (h : List Event)
      → (unlock host before handle password remember h).0 ≡ ok session
      → IsValidated session (unlock host before handle password remember h).1
  unfolding unlock
  unlock-IsValidated before session handle (some password) remember h e =
      unlock_with-IsValidated before session handle password remember h e
  unlock-IsValidated before session handle none remember h e =
      elim (Result-cases (recall_key host before h).0) [
        | inl (remembered, p) ↦
            rw p
              (with_remembered-IsValidated before session handle remember remembered _ (rw p at e))
        | inr (x, p) ↦ absurd (cc (rw p at e))
      ]

  with_selection-IsAuthorised :
      (serial : Option ℕ) (session : Session) (password : Option (List ℕ)) (remember : Bool)
      (selection : Selected) (before : List Event)
      → host.select before ≡ ok selection
      → (with_selection host serial password remember selection (before ++ (selected ∷ []))).0
        ≡ ok session
      → IsAuthorised password session
          (with_selection host serial password remember selection (before ++ (selected ∷ []))).1
  with_selection-IsAuthorised serial session none remember legacy before s e =
      inl (legacy, before, s, refl, refl, ap (λ s. s.key) (sym (ok_injective e)), refl)
  with_selection-IsAuthorised serial session (some password) remember legacy before s e =
      absurd (cc)
  with_selection-IsAuthorised serial session none remember (modern handle false) before s e =
      inl (modern handle false, before, s, refl, refl, ap (λ s. s.key) (sym (ok_injective e)), refl)
  with_selection-IsAuthorised serial session (some password) remember (modern handle false) before s
        e =
      absurd (cc)
  with_selection-IsAuthorised serial session password remember (modern handle true) before s e =
      inr (unlock-IsValidated _ session handle password remember _ e)

  -- A session is returned only where the card asks for no password, and then none was given, or where
  -- the card has accepted the session's key, of which nothing was forgotten since.
  pub connect-IsAuthorised :
      (device : Option ℕ) (reader password : Option (List ℕ)) (remember : Bool) (h : List Event)
      (session : Session)
      → (connect host device reader password remember h).0 ≡ ok session
      → IsAuthorised password session (connect host device reader password remember h).1
  unfolding connect open_oath select_oath
  connect-IsAuthorised device reader password remember h session e =
      elim (Result-cases (open_target host device reader h).0) [
        | inr (x, p) ↦ absurd (cc (rw p at e))
        | inl (serial, p) ↦
            elim (Result-cases (host.select (h ++ (connected device reader ∷ [])))) [
              | inr (x, q) ↦ absurd (cc (rw (p, q) at e))
              | inl (selection, q) ↦ rw p (
                  rw q (
                    with_selection-IsAuthorised serial session password remember selection _ q
                      (rw (p, q) at e)))
            ]
      ]
