-- ===== src/Cli/Oath/Session/Handle.antt =====
-- `OathSession::connect` of crates/ckman/src/commands/oath.rs: the handle of the session is that of the
-- selection, whichever way it was unlocked.
use canokey_manager.Prelude.{
  ℕ, ◌≡◌, sym, ap, inl, inr, Bool, true, false, Option, none, some, List, [], ◌∷◌, ◌++◌, Result, ok,
  err, Result-cases, Bool-cases, ok_injective,
}
use canokey_manager.Cli.Effects.{◌>>=◌, pure, map_failure, bind-eq-ok}
use canokey_manager.Cli.Oath.{
  OathError, current_password, Event, connected, Selected, modern, legacy, Host, is_wrong_password,
  wrong_password,
}
use canokey_manager.Cli.Oath.Session.{
  Session, validate_key, recall_key, forget_key, remember_if, with_key, unlock_with, ask_password,
  after_password, ask_and_unlock, forget_and_ask, after_remembered, with_remembered, unlock,
  with_selection, open_target, select_oath, open_oath, connect,
}

abbrev pub handle_of : Selected → Option (List ℕ)
handle_of legacy = none
handle_of (modern handle locked) = some handle

module _ (host : Host) where
  unlock_with-handle :
      (before session : Session) (handle password : List ℕ) (remember : Bool) (h : List Event)
      → (unlock_with host before handle password remember h).0 ≡ ok session
      → session.handle ≡ before.handle
  unfolding unlock_with
  unlock_with-handle before session handle password remember h e =
      let key = host.derive_key password handle in
      let checked = map_failure wrong_password (validate_key host key) in
      let (_, _, e1) =
        bind-eq-ok checked
          (λ _. remember_if host remember before key >>= λ _. pure (with_key before key)) h session
          e in
      let (_, _, e2) =
        bind-eq-ok (remember_if host remember before key) (λ _. pure (with_key before key))
          (checked h).1 session e1 in
      ap (λ s. s.handle) (sym (ok_injective e2))

  ask_and_unlock-handle :
      (before session : Session) (handle : List ℕ) (remember : Bool) (h : List Event)
      → (ask_and_unlock host before handle remember h).0 ≡ ok session
      → session.handle ≡ before.handle
  unfolding ask_and_unlock after_password
  ask_and_unlock-handle before session handle remember h e =
      let ask = ask_password host current_password in
      let (password, _, e1) =
        bind-eq-ok ask (λ p. after_password host before handle remember p) h session e in
      unlock_with-handle before session handle password remember (ask h).1 e1

  after_remembered-handle :
      (before session : Session) (handle : List ℕ) (remember : Bool) (key : List ℕ)
      (answer : Result (Unit {0}) OathError) (h : List Event)
      → (after_remembered host before handle remember key answer h).0 ≡ ok session
      → session.handle ≡ before.handle
  unfolding after_remembered forget_and_ask
  after_remembered-handle before session handle remember key (ok _) h e =
      ap (λ s. s.handle) (sym (ok_injective e))
  after_remembered-handle before session handle remember key (err x) h e =
      elim (Bool-cases (is_wrong_password x)) [
        | inr w ↦ absurd (cc (rw w at e))
        | inl w ↦
            let (_, _, e1) =
              bind-eq-ok (forget_key host before) (λ _. ask_and_unlock host before handle remember)
                h session (rw w at e) in
            ask_and_unlock-handle before session handle remember (forget_key host before h).1 e1
      ]

  with_remembered-handle :
      (before session : Session) (handle : List ℕ) (remember : Bool) (remembered : Option (List ℕ))
      (h : List Event)
      → (with_remembered host before handle remember remembered h).0 ≡ ok session
      → session.handle ≡ before.handle
  unfolding with_remembered
  with_remembered-handle before session handle remember none h e =
      ask_and_unlock-handle before session handle remember h e
  with_remembered-handle before session handle remember (some key) h e =
      after_remembered-handle before session handle remember key (validate_key host key h).0
        (validate_key host key h).1 e

  unlock-handle :
      (before session : Session) (handle : List ℕ) (password : Option (List ℕ)) (remember : Bool)
      (h : List Event)
      → (unlock host before handle password remember h).0 ≡ ok session
      → session.handle ≡ before.handle
  unfolding unlock
  unlock-handle before session handle (some password) remember h e =
      unlock_with-handle before session handle password remember h e
  unlock-handle before session handle none remember h e =
      let (remembered, _, e1) =
        bind-eq-ok (recall_key host before) (λ r. with_remembered host before handle remember r) h
          session e in
      with_remembered-handle before session handle remember remembered (recall_key host before h).1
        e1

  with_selection-handle :
      (serial : Option ℕ) (session : Session) (password : Option (List ℕ)) (remember : Bool)
      (selection : Selected) (h : List Event)
      → (with_selection host serial password remember selection h).0 ≡ ok session
      → session.handle ≡ handle_of selection
  with_selection-handle serial session none remember legacy h e =
      ap (λ s. s.handle) (sym (ok_injective e))
  with_selection-handle serial session (some password) remember legacy h e = absurd (cc)
  with_selection-handle serial session none remember (modern handle false) h e =
      ap (λ s. s.handle) (sym (ok_injective e))
  with_selection-handle serial session (some password) remember (modern handle false) h e =
      absurd (cc)
  with_selection-handle serial session password remember (modern handle true) h e =
      unlock-handle _ session handle password remember h e

  -- The card was selected right after the connection, and the session has the handle of its answer.
  pub connect-handle :
      (device : Option ℕ) (reader password : Option (List ℕ)) (remember : Bool) (h : List Event)
      (session : Session)
      → (connect host device reader password remember h).0 ≡ ok session
      → (selection : Selected) × (host.select (h ++ (connected device reader ∷ [])) ≡ ok selection)
        × (session.handle ≡ handle_of selection)
  unfolding connect open_oath select_oath
  connect-handle device reader password remember h session e =
      elim (Result-cases (open_target host device reader h).0) [
        | inr (x, p) ↦ absurd (cc (rw p at e))
        | inl (serial, p) ↦
            elim (Result-cases (host.select (h ++ (connected device reader ∷ [])))) [
              | inr (x, q) ↦ absurd (cc (rw (p, q) at e))
              | inl (selection, q) ↦ (
                selection,
                q,
                with_selection-handle serial session password remember selection _ (rw (p, q) at e),
              )
            ]
      ]
