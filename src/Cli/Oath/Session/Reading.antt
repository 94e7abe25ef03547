-- ===== src/Cli/Oath/Session/Reading.antt =====
-- `OathSession` of crates/ckman/src/commands/oath.rs changes nothing on the card: neither does its
-- connecting nor does the access that each operation is given.
use canokey_manager.Prelude.{
  ℕ, inl, inr, Bool, true, false, Option, none, some, List, [], ◌∷◌, ◌++◌, Result, ok, err,
  Result-cases, Bool-cases,
}
use canokey_manager.Cli.Effects.{
  ◌>>=◌, pure, event, map_failure, attempt, OnlyQuiet, OnlyQuiet_refl, OnlyQuiet-step, Quiet,
  Quiet-bind,
}
use canokey_manager.Cli.Oath.{
  OathError, current_password, Event, connected, selected, drawn, validated, changed, calculated,
  keyring_opened, keyring_read, keyring_deleted, keyring_written, password_asked, applet_reset,
  warned, Selected, modern, legacy, Failure, Host, is_wrong_password, wrong_password,
}
use canokey_manager.Cli.Oath.Session.{
  Session, with_key, access_from_key, validate_key, access_of, open_entry, opened, keyring_entry,
  write_entry, report_stored, store, remember_key, recalled, recall_key, forgotten, forget_key,
  remember_if, unlock_with, ask_password, after_password, ask_and_unlock, forget_and_ask,
  after_remembered, with_remembered, unlock, with_selection, open_target, select_oath, open_oath,
  connect,
}

-- Neither a request that changes the card nor a calculation, which may advance a counter.
abbrev pub IsReading : Event → Type 0
IsReading (changed access change) = ⊥
IsReading (calculated access credential challenge) = ⊥
IsReading (applet_reset pin) = ⊥
IsReading _ = Unit

module _ (host : Host) where
  unmoved : (h : List Event) → OnlyQuiet IsReading h h
  unmoved h = OnlyQuiet_refl IsReading h

  step : (v : Event) → IsReading v → (h : List Event) → OnlyQuiet IsReading h (h ++ (v ∷ []))
  step v q h = OnlyQuiet-step IsReading h v q

  keyring_entry-Reading : (serial : Option ℕ) → Quiet IsReading (keyring_entry host serial)
  unfolding keyring_entry
  keyring_entry-Reading none = unmoved
  keyring_entry-Reading (some serial) =
      Quiet-bind IsReading (open_entry host serial) (opened host serial)
        (step (keyring_opened serial) tt) opened-Reading
    where
      opened-Reading : (b : Bool) → Quiet IsReading (opened host serial b)
      opened-Reading true = unmoved
      opened-Reading false = step (warned _) tt

  pub remember_key-Reading :
      (session : Session) (key : List ℕ) → Quiet IsReading (remember_key host session key)
  unfolding remember_key
  remember_key-Reading session key =
      Quiet-bind IsReading (keyring_entry host session.serial) (store host key)
        (keyring_entry-Reading session.serial) store-Reading
    where
      store-Reading : (serial : Option ℕ) → Quiet IsReading (store host key serial)
      store-Reading none = step (warned _) tt
      store-Reading (some serial) =
          Quiet-bind IsReading (write_entry host serial _) (report_stored host)
            (step (keyring_written serial _) tt) (λ stored. step (warned _) tt)

  pub forget_key-Reading : (session : Session) → Quiet IsReading (forget_key host session)
  unfolding forget_key
  forget_key-Reading session =
      Quiet-bind IsReading (keyring_entry host session.serial) (forgotten host)
        (keyring_entry-Reading session.serial) forgotten-Reading
    where
      forgotten-Reading : (serial : Option ℕ) → Quiet IsReading (forgotten host serial)
      forgotten-Reading none = unmoved
      forgotten-Reading (some serial) = step (keyring_deleted serial) tt

  recall_key-Reading : (session : Session) → Quiet IsReading (recall_key host session)
  unfolding recall_key
  recall_key-Reading session =
      Quiet-bind IsReading (keyring_entry host session.serial) (recalled host)
        (keyring_entry-Reading session.serial) recalled-Reading
    where
      recalled-Reading : (serial : Option ℕ) → Quiet IsReading (recalled host serial)
      recalled-Reading none = unmoved
      recalled-Reading (some serial) = step (keyring_read serial) tt

  access_from_key-Reading : (derived : List ℕ) → Quiet IsReading (access_from_key host derived)
  unfolding access_from_key
  access_from_key-Reading derived h = elim (Result-cases (host.draw h)) [
    | inl (challenge, e) ↦ rw e (step (drawn 8) tt h)
    | inr (x, e) ↦ rw e (step (drawn 8) tt h)
  ]

  pub access_of-Reading : (key : Option (List ℕ)) → Quiet IsReading (access_of host key)
  unfolding access_of
  access_of-Reading none = unmoved
  access_of-Reading (some key) =
      Quiet-bind IsReading (access_from_key host (host.access_key key))
        (λ access. pure (some access)) (access_from_key-Reading (host.access_key key))
        (λ access. unmoved)

  validate_key-Reading : (key : List ℕ) → Quiet IsReading (validate_key host key)
  unfolding validate_key
  validate_key-Reading key =
      Quiet-bind IsReading (access_from_key host (host.access_key key))
        (λ access. event (validated access) (λ h. host.validate access h))
        (access_from_key-Reading (host.access_key key)) (λ access. step (validated access) tt)

  remember_if-Reading :
      (remember : Bool) (session : Session) (key : List ℕ)
      → Quiet IsReading (remember_if host remember session key)
  unfolding remember_if
  remember_if-Reading true session key = remember_key-Reading session key
  remember_if-Reading false session key = unmoved

  unlock_with-Reading :
      (session : Session) (handle password : List ℕ) (remember : Bool)
      → Quiet IsReading (unlock_with host session handle password remember)
  unfolding unlock_with
  unlock_with-Reading session handle password remember =
      let key = host.derive_key password handle in
      Quiet-bind IsReading (map_failure wrong_password (validate_key host key))
        (λ _. remember_if host remember session key >>= λ _. pure (with_key session key))
        (validate_key-Reading key)
        (λ _.
          Quiet-bind IsReading (remember_if host remember session key)
            (λ _. pure (with_key session key)) (remember_if-Reading remember session key)
            (λ _. unmoved))

  ask_and_unlock-Reading :
      (session : Session) (handle : List ℕ) (remember : Bool)
      → Quiet IsReading (ask_and_unlock host session handle remember)
  unfolding ask_and_unlock after_password
  ask_and_unlock-Reading session handle remember =
      Quiet-bind IsReading (ask_password host current_password)
        (after_password host session handle remember) (step (password_asked current_password) tt)
        (λ password. unlock_with-Reading session handle password remember)

  after_remembered-Reading :
      (session : Session) (handle : List ℕ) (remember : Bool) (key : List ℕ)
      (r : Result (Unit {0}) OathError)
      → Quiet IsReading (after_remembered host session handle remember key r)
  unfolding after_remembered forget_and_ask
  after_remembered-Reading session handle remember key (ok _) h = unmoved h
  after_remembered-Reading session handle remember key (err error) h =
      elim (Bool-cases (is_wrong_password error)) [
        | inl w ↦ rw w (
            Quiet-bind IsReading (forget_key host session)
              (λ _. ask_and_unlock host session handle remember) (forget_key-Reading session)
              (λ _. ask_and_unlock-Reading session handle remember) h)
        | inr w ↦ rw w (unmoved h)
      ]

  with_remembered-Reading :
      (session : Session) (handle : List ℕ) (remember : Bool) (key : Option (List ℕ))
      → Quiet IsReading (with_remembered host session handle remember key)
  unfolding with_remembered
  with_remembered-Reading session handle remember none =
      ask_and_unlock-Reading session handle remember
  with_remembered-Reading session handle remember (some key) =
      Quiet-bind IsReading (attempt {F = Failure} (validate_key host key))
        (after_remembered host session handle remember key) (validate_key-Reading key)
        (after_remembered-Reading session handle remember key)

  unlock-Reading :
      (session : Session) (handle : List ℕ) (password : Option (List ℕ)) (remember : Bool)
      → Quiet IsReading (unlock host session handle password remember)
  unfolding unlock
  unlock-Reading session handle (some password) remember =
      unlock_with-Reading session handle password remember
  unlock-Reading session handle none remember =
      Quiet-bind IsReading (recall_key host session) (with_remembered host session handle remember)
        (recall_key-Reading session) (with_remembered-Reading session handle remember)

  with_selection-Reading :
      (serial : Option ℕ) (password : Option (List ℕ)) (remember : Bool) (selection : Selected)
      → Quiet IsReading (with_selection host serial password remember selection)
  with_selection-Reading serial none remember legacy = unmoved
  with_selection-Reading serial (some password) remember legacy = unmoved
  with_selection-Reading serial none remember (modern handle false) = unmoved
  with_selection-Reading serial (some password) remember (modern handle false) = unmoved
  with_selection-Reading serial password remember (modern handle true) =
      unlock-Reading _ handle password remember

  pub open_oath-Reading :
      (device : Option ℕ) (reader : Option (List ℕ))
      → Quiet IsReading (open_oath host device reader)
  unfolding open_oath select_oath
  open_oath-Reading device reader =
      Quiet-bind IsReading (open_target host device reader)
        (λ serial. select_oath host >>= λ selection. pure (serial, selection))
        (step (connected device reader) tt)
        (λ serial.
          Quiet-bind IsReading (select_oath host) (λ selection. pure (serial, selection))
            (step selected tt) (λ selection. unmoved))

  -- Connecting changes nothing on the card.
  pub connect-Reading :
      (device : Option ℕ) (reader password : Option (List ℕ)) (remember : Bool)
      → Quiet IsReading (connect host device reader password remember)
  unfolding connect
  connect-Reading device reader password remember =
      Quiet-bind IsReading (open_oath host device reader)
        (λ opening. with_selection host opening.0 password remember opening.1)
        (open_oath-Reading device reader)
        (λ opening. with_selection-Reading opening.0 password remember opening.1)
