-- ===== src/Piv/PinChange.antt =====
-- `change_pin_synced` of crates/ckman-core/src/piv.rs, which keeps a management key that is derived
-- from the PIN. The card, the derivation and the random salt are parameters, as are the checks of
-- `Pin::from_bytes` and `ManagementKey::from_bytes`.
mod Runs
use canokey_manager.Prelude.{
  ℕ, ◌≡◌, ◌∙◌, refl, sym, ap, subst, ◌⊎◌, inl, inr, Bool, true, false, Option, none, some, List, [],
  ◌∷◌, ◌++◌, append_assoc, append-nil, Result, ok, err, Result-cases, All,
}
use canokey_manager.Piv.Tlv.{Tlv}
use canokey_manager.Piv.Pivman.{PivmanData, to_value}
use canokey_manager.Piv.Management.{
  ManagementKeyAlgorithm, tdes, ManagementKey, TouchPolicy, never, management_access, admin_data,
  CardCommand, read_object, write_object, set_management_key, change_pin, verify_pin, authenticate,
  DriveError, PivError, drive, random_failed, History, Card, Action, ◌>>=◌, ◌>>◌, pure, fail, lift,
  call, read_pivman_data,
}

abbrev pub checked : Option DriveError → Result (Unit {0}) PivError
checked none = ok tt
checked (some e) = err (drive e)

abbrev pub drawn_salt : Option (List ℕ) → Result (List ℕ) PivError
drawn_salt none = err random_failed
drawn_salt (some salt) = ok salt

module _ (card : Card) where
  unfoldable pub send : CardCommand → Action (Unit {0})
  unfolding call
  send c = do answered ← call card drive c; pure tt

  -- The commands in turn, up to the first failure.
  unfoldable pub send_all : List CardCommand → Action (Unit {0})
  unfolding send
  send_all [] = pure tt
  send_all (c ∷ cs) = let rest = send_all cs in send c >> rest

  -- Success means that all commands were sent; a failure is that of the last one sent.
  abbrev pub IsCarried : History → List CardCommand → Result (Unit {0}) PivError × History → Type 0
  IsCarried h cs (ok _, h') = h' ≡ h ++ cs
  IsCarried h cs (err (drive e), h') =
      (before : List CardCommand) × (c : CardCommand) × (after : List CardCommand) × (cs
        ≡ before ++ (c ∷ after))
      × (h' ≡ h ++ (before ++ (c ∷ [])))
      × (card (h ++ before) c ≡ err e)
  IsCarried h cs (err _, h') = ⊥

  IsCarried-cons :
      (c : CardCommand) (cs : List CardCommand) (h : History)
      (r : Result (Unit {0}) PivError × History)
      → IsCarried (h ++ (c ∷ [])) cs r
      → IsCarried h (c ∷ cs) r
  IsCarried-cons c cs h (ok _, h') out = out ∙ append_assoc h (c ∷ []) cs
  IsCarried-cons c cs h (err (drive e), h') (before, d, after, split, sent, failed) = (
    c ∷ before,
    d,
    after,
    ap (λ l. c ∷ l) split,
    sent ∙ append_assoc h (c ∷ []) (before ++ (d ∷ [])),
    rw append_assoc at failed,
  )
  IsCarried-cons c cs h (err (PivError.parse x), h') out = absurd out
  IsCarried-cons c cs h (err PivError.random_failed, h') out = absurd out
  IsCarried-cons c cs h (err (PivError.management_key_update s x), h') out = absurd out
  IsCarried-cons c cs h (err PivError.panicked, h') out = absurd out

  pub send_all-IsCarried : (cs : List CardCommand) (h : History) → IsCarried h cs (send_all cs h)
  unfolding send_all
  send_all-IsCarried [] h = sym (append-nil h)
  send_all-IsCarried (c ∷ cs) h = elim (Result-cases (card h c)) [
    | inl (bytes, e) ↦ rw e (
        IsCarried-cons c cs h (send_all cs (h ++ (c ∷ []))) (send_all-IsCarried cs (h ++ (c ∷ []))))
    | inr (x, e) ↦ rw e ([], c, cs, refl, refl, rw append-nil e)
  ]

module _ (tlv : Tlv) (card : Card) (check : ManagementKeyAlgorithm → List ℕ → Option DriveError)
    (check_pin : List ℕ → Option DriveError) (derive : List ℕ → List ℕ → List ℕ)
    (random : Option (List ℕ)) where
  abbrev pub derived_key : List ℕ → List ℕ → ManagementKey
  derived_key pin salt = record { algorithm = tdes; bytes = derive pin salt }

  -- The commands behind all checks.
  abbrev pub pin_plan : List ℕ → List ℕ → PivmanData → List ℕ → List ℕ → List CardCommand
  pin_plan old_pin new_pin pivman salt new_salt =
      change_pin old_pin new_pin
      ∷ verify_pin new_pin
      ∷ set_management_key (derived_key new_pin new_salt) never
          (management_access (derived_key old_pin salt))
      ∷ write_object admin_data (to_value tlv (record pivman { salt = some new_salt }))
          (management_access (derived_key new_pin new_salt))
      ∷ []

  abbrev pub rotate : List ℕ → List ℕ → PivmanData → List ℕ → List ℕ → Action (Unit {0})
  unfolding send_all
  rotate old_pin new_pin pivman salt new_salt =
      lift (checked (check tdes (derive new_pin new_salt))) >>= λ _.
      send_all card (pin_plan old_pin new_pin pivman salt new_salt)

  abbrev pub change_derived : List ℕ → List ℕ → PivmanData → List ℕ → Action (Unit {0})
  unfolding rotate send
  change_derived old_pin new_pin pivman salt =
      lift (checked (check tdes (derive old_pin salt))) >>= λ _.
      send card (authenticate (derived_key old_pin salt)) >>= λ _.
      lift (drawn_salt random) >>= λ new_salt. rotate old_pin new_pin pivman salt new_salt

  abbrev pub with_pivman : List ℕ → List ℕ → PivmanData → Option (List ℕ) → Action (Unit {0})
  unfolding change_derived send
  with_pivman old_pin new_pin pivman none = send_all card (change_pin old_pin new_pin ∷ [])
  with_pivman old_pin new_pin pivman (some salt) = change_derived old_pin new_pin pivman salt

  unfoldable pub change_pin_synced : List ℕ → List ℕ → Action (Unit {0})
  unfolding read_pivman_data with_pivman
  change_pin_synced old_pin new_pin = lift (checked (check_pin old_pin)) >>= λ _.
      lift (checked (check_pin new_pin)) >>= λ _.
      read_pivman_data tlv card check >>= λ pivman. with_pivman old_pin new_pin pivman pivman.salt

  abbrev pub IsCheck : CardCommand → Type 0
  IsCheck (read_object _ _) = Unit
  IsCheck (authenticate _) = Unit
  IsCheck _ = ⊥

  abbrev pub OnlyChecks : History → History → Type 0
  OnlyChecks h h' = (sent : List CardCommand) × All IsCheck sent × (h' ≡ h ++ sent)

  -- What is carried out behind the checks.
  abbrev pub pin_steps : List ℕ → List ℕ → PivmanData → Option (List ℕ) → List ℕ → List CardCommand
  pin_steps old_pin new_pin pivman none new_salt = change_pin old_pin new_pin ∷ []
  pin_steps old_pin new_pin pivman (some salt) new_salt =
      change_pin old_pin new_pin
      ∷ verify_pin new_pin
      ∷ set_management_key (record { algorithm = tdes; bytes = derive new_pin new_salt }) never
          (management_access (record { algorithm = tdes; bytes = derive old_pin salt }))
      ∷ write_object admin_data (to_value tlv (record pivman { salt = some new_salt }))
          (management_access (record { algorithm = tdes; bytes = derive new_pin new_salt }))
      ∷ []

  abbrev pub IsPinChange : List ℕ → List ℕ → History → Result (Unit {0}) PivError × History → Type 0
  IsPinChange old_pin new_pin h r =
      ((e : PivError) × (r.0 ≡ err e) × OnlyChecks h r.1)
      ⊎ ((pivman : PivmanData) × (new_salt : List ℕ) × (h' : History) × (before : History)
          × ((read_pivman_data tlv card check before).0 ≡ ok pivman)
          × OnlyChecks h h'
          × IsCarried card h' (pin_steps old_pin new_pin pivman pivman.salt new_salt) r)

  -- What comes of it once ADMIN DATA is read, with the salt that it has.
  abbrev IsContinued :
      List ℕ
      → List ℕ
      → PivmanData
      → Option (List ℕ)
      → History
      → Result (Unit {0}) PivError × History
      → Type 0
  IsContinued old_pin new_pin pivman salt h r =
      ((e : PivError) × (r.0 ≡ err e) × OnlyChecks h r.1)
      ⊎ ((new_salt : List ℕ) × (h' : History) × OnlyChecks h h'
          × IsCarried card h' (pin_steps old_pin new_pin pivman salt new_salt) r)
