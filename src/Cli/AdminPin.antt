-- ===== src/Cli/AdminPin.antt =====
-- `with_admin_pin_retry` of crates/ckman/src/commands/mod.rs.
use canokey_manager.Prelude.{
  ℕ, ◌≡◌, ◌⊎◌, inl, inr, refl, true, false, Option, none, some, List, [], ◌∷◌, if◌then◌else◌,
  Result, ok, err, map_err, Result-cases, Bool-cases,
}
use canokey_manager.Cli.{DriveError, Message, needs_admin_pin, describe_drive_error}

abbrev pub Pin : Type 0
Pin = List ℕ

-- The PINs that the operation has been run with, in order.
abbrev pub Attempts : Type 0
Attempts = List (Option Pin)

-- What the operation gives at an attempt, given those before it, and what the user enters.
module _ {T : Type 0} (operation : Attempts → Option Pin → Result T DriveError)
    (entered : Result Pin Message) where
  -- The second attempt, behind the prompt.
  abbrev pub retry : Result Pin Message → Result T Message × Attempts
  retry (ok pin) =
      (map_err describe_drive_error (operation (none ∷ []) (some pin)), none ∷ some pin ∷ [])
  retry (err message) = (err message, none ∷ [])

  abbrev pub after_first : Result T DriveError → Result T Message × Attempts
  after_first (ok result) = (ok result, none ∷ [])
  after_first (err error) =
      if needs_admin_pin error then retry entered else (err (describe_drive_error error), none ∷ [])

  unfoldable pub with_admin_pin_retry : Option Pin → Result T Message × Attempts
  unfolding needs_admin_pin describe_drive_error
  with_admin_pin_retry (some pin) =
      (map_err describe_drive_error (operation [] (some pin)), some pin ∷ [])
  with_admin_pin_retry none = after_first (operation [] none)

  -- What follows a first run that asked for the Admin PIN: the prompt failed, or there was a second run
  -- with the PIN that was entered.
  abbrev pub IsAsked : Result T Message × Attempts → Type 0
  IsAsked r =
      ((message : Message) × (entered ≡ err message) × (r ≡ (err message, none ∷ [])))
      ⊎ ((pin : Pin) × (entered ≡ ok pin)
          × (r ≡ (
            map_err describe_drive_error (operation (none ∷ []) (some pin)),
            none ∷ some pin ∷ [],
          )))

  -- The PIN given, or a first run without one, with what its result leads to.
  abbrev pub IsRetry : Option Pin → Result T Message × Attempts → Type 0
  IsRetry (some pin) r = r ≡ (map_err describe_drive_error (operation [] (some pin)), some pin ∷ [])
  IsRetry none r =
      ((result : T) × (operation [] none ≡ ok result) × (r ≡ (ok result, none ∷ [])))
      ⊎ ((error : DriveError) × (operation [] none ≡ err error)
          × (((needs_admin_pin error ≡ false) × (r ≡ (err (describe_drive_error error), none ∷ [])))
              ⊎ ((needs_admin_pin error ≡ true) × IsAsked r)))

  -- The operation runs once with the PIN given. Without one it runs once without a PIN, and a second
  -- time exactly where the first run asked for the Admin PIN and the user entered one, then with that
  -- PIN; the result is that of the last run, or the message of a prompt that failed.
  pub with_admin_pin_retry-IsRetry : (pin : Option Pin) → IsRetry pin (with_admin_pin_retry pin)
  unfolding with_admin_pin_retry
  with_admin_pin_retry-IsRetry (some pin) = refl
  with_admin_pin_retry-IsRetry none = elim (Result-cases (operation [] none)) [
    | inl (result, e) ↦ rw e (inl (result, refl, refl))
    | inr (error, e) ↦ elim (Bool-cases (needs_admin_pin error)) [
      | inr n ↦ rw e (rw n (inr (error, refl, inl (n, refl))))
      | inl n ↦ elim (Result-cases entered) [
        | inl (pin, p) ↦ rw e (rw n (rw p (inr (error, refl, inr (n, inr (pin, refl, refl))))))
        | inr (message, p) ↦
            rw e (rw n (rw p (inr (error, refl, inr (n, inl (message, refl, refl))))))
      ]
    ]
  ]
