-- ===== src/Cli/Runs.antt =====
-- The commands' shared code at concrete readers, errors and slots.
use canokey_manager.Prelude.{
  ℕ, ◌≡◌, ◌⊎◌, refl, Bool, true, false, Option, none, some, List, [], ◌∷◌, Result, ok, err, All,
  ◌==◌, if◌then◌else◌,
}
use canokey_manager.Cli.{
  authentication_failed, not_found, command_phase, admin_pin, DriveError, protocol,
}
use canokey_manager.Cli.AdminPin.{
  Attempts, IsRetry, with_admin_pin_retry, with_admin_pin_retry-IsRetry,
}
use canokey_manager.Cli.Select.{Target, ConnectError, single_target}
use canokey_manager.Cli.Select.Chosen.{Accounts, IsChosen, single_target-IsChosen}
use canokey_manager.Cli.Overwrite.{
  PivError, drive, KeyReference, key_slot, attestation_key, CertificateReference, certificate_slot,
  attestation_certificate, replace, Fields, Summary, Prompt, key, keys, certificate,
  certificate_prompt, IsConsent, IsVacantCertificate, prompts_of, key-IsConsent, keys-IsConsent,
  certificate-consent,
}

-- The operation wants the Admin PIN.
abbrev guarded : Attempts → Option (List ℕ) → Result ℕ DriveError
guarded attempts none = err (
    protocol (record {
      kind = authentication_failed;
      phase = command_phase;
      reference = some admin_pin;
      retries_remaining = some 3;
      status_word = none;
    }))
guarded attempts (some pin) = ok 7

retried :
    with_admin_pin_retry guarded (ok (1 ∷ 2 ∷ [])) none ≡ (ok 7, none ∷ some (1 ∷ 2 ∷ []) ∷ [])
unfolding with_admin_pin_retry
retried = refl

with_admin_pin_retry-IsRetry_example :
    IsRetry guarded (ok (1 ∷ 2 ∷ [])) none (with_admin_pin_retry guarded (ok (1 ∷ 2 ∷ [])) none)
with_admin_pin_retry-IsRetry_example = with_admin_pin_retry-IsRetry guarded (ok (1 ∷ 2 ∷ [])) none

-- Two readers, a CanoKey with the serial number 1 in the second one.
abbrev two_readers : List (List ℕ)
two_readers = (97 ∷ []) ∷ (98 ∷ []) ∷ []

abbrev second_only : List ℕ → Result Bool ConnectError
second_only [] = ok false
second_only (c ∷ name) =
    if c == 98 then ok true else err (record { is_no_smartcard = true; code = 1 })

abbrev serial_one : List ℕ → Result (Option (List ℕ)) DriveError
serial_one name = ok (some (0 ∷ 0 ∷ 0 ∷ 1 ∷ []))

abbrev the_target : Target
the_target = record { reader = 98 ∷ []; serial = some (0 ∷ 0 ∷ 0 ∷ 1 ∷ []) }

chosen :
    single_target (λ s. s) (ok two_readers) second_only serial_one (some 1) none ≡ ok the_target
unfolding single_target
chosen = refl

single_target-IsChosen_example :
    (targets : List Target) × Accounts second_only serial_one two_readers targets
    × IsChosen (some 1) targets the_target
single_target-IsChosen_example =
    single_target-IsChosen (λ s. s) two_readers second_only serial_one (some 1) the_target chosen

-- Slots hold a key, other references nothing; the user agrees.
abbrev absent : PivError
absent = drive (
    protocol (record {
      kind = not_found;
      phase = command_phase;
      reference = none;
      retries_remaining = none;
      status_word = none;
    }))

abbrev slot_metadata : KeyReference → Result Fields PivError
slot_metadata (key_slot n) = ok (record { origin_not_present = false; public_key = none })
slot_metadata attestation_key = err absent

abbrev slot_certificate : CertificateReference → Result (List ℕ) PivError
slot_certificate (certificate_slot n) = ok (48 ∷ [])
slot_certificate attestation_certificate = err absent

abbrev agree : Prompt → Result Bool ℕ
agree prompt = ok true

agreed : (key slot_metadata slot_certificate (λ s. none) (λ s. s) agree (key_slot 0x9a)).0 ≡ ok tt
unfolding key
agreed = refl

key-IsConsent_example :
    IsConsent slot_metadata slot_certificate
      (λ s. none)
      (λ s. s)
      agree
      (key_slot 0x9a)
      (key slot_metadata slot_certificate (λ s. none) (λ s. s) agree (key_slot 0x9a)).1
key-IsConsent_example =
    key-IsConsent slot_metadata slot_certificate (λ s. none) (λ s. s) agree (key_slot 0x9a) agreed

all_agreed :
    (keys slot_metadata slot_certificate (λ s. none) (λ s. s) agree (0x9a ∷ 0x9c ∷ [])).0 ≡ ok tt
unfolding keys
all_agreed = refl

keys-IsConsent_example :
    All
      (λ slot.
        IsConsent slot_metadata slot_certificate
          (λ s. none)
          (λ s. s)
          agree
          (key_slot slot)
          (key slot_metadata slot_certificate (λ s. none) (λ s. s) agree (key_slot slot)).1)
      (0x9a ∷ 0x9c ∷ [])
    × ((keys slot_metadata slot_certificate (λ s. none) (λ s. s) agree (0x9a ∷ 0x9c ∷ [])).1
        ≡ prompts_of slot_metadata slot_certificate (λ s. none) (λ s. s) agree (0x9a ∷ 0x9c ∷ []))
keys-IsConsent_example =
    keys-IsConsent slot_metadata slot_certificate (λ s. none) (λ s. s) agree (0x9a ∷ 0x9c ∷ [])
      all_agreed

replaced :
    (certificate slot_metadata slot_certificate
      (λ s. none)
      (λ s. s)
      agree
      (certificate_slot 1)
      replace).0
    ≡ ok tt
unfolding certificate
replaced = refl

certificate-consent_example :
    (IsVacantCertificate slot_metadata slot_certificate
        (λ s. none)
        (λ s. s)
        agree
        (slot_certificate (certificate_slot 1))
      × ((certificate slot_metadata slot_certificate
            (λ s. none)
            (λ s. s)
            agree
            (certificate_slot 1)
            replace).1
          ≡ []))
    ⊎ ((summary : Summary) × ((certificate slot_metadata slot_certificate
            (λ s. none)
            (λ s. s)
            agree
            (certificate_slot 1)
            replace).1
          ≡ certificate_prompt (certificate_slot 1) replace summary ∷ [])
        × (agree (certificate_prompt (certificate_slot 1) replace summary) ≡ ok true))
certificate-consent_example =
    certificate-consent slot_metadata slot_certificate (λ s. none) (λ s. s) agree
      (certificate_slot 1) replace replaced
