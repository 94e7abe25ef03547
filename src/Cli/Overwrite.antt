-- ===== src/Cli/Overwrite.antt =====
-- The consent before a PIV slot is replaced, crates/ckman/src/commands/piv/overwrite.rs. What the card
-- answers, the decoded certificates and what the user answers are parameters; a prompt stands for
-- the text that is shown.
use canokey_manager.Prelude.{
  ℕ, ◌≡◌, ◌⊎◌, inl, inr, refl, ap, ◌∙◌, Bool, true, false, not, ◌&&◌, Option, none, some, List, [],
  ◌∷◌, ◌++◌, if◌then◌else◌, length, Result, ok, err, Result-cases, Bool-cases, All,
}
use canokey_manager.Cli.{
  ErrorKind, not_found, unsupported_feature, capability_unknown, Phase, construction_phase,
  authentication_phase, command_phase, parsing_phase, DriveError, protocol,
}

pub data PivError : Type 0 where
  drive : DriveError → PivError
  other_error : ℕ → PivError

pub data KeyReference : Type 0 where
  key_slot : ℕ → KeyReference
  attestation_key : KeyReference

pub data CertificateReference : Type 0 where
  certificate_slot : ℕ → CertificateReference
  attestation_certificate : CertificateReference

pub data CertificateChange : Type 0 where
  replace delete : CertificateChange

-- `origin_not_present` is `origin == Some(Known(NotPresent))`; `spki` what `to_spki_der` gives.
pub record Fields : Type 0 where
  pub origin_not_present : Bool
  pub public_key : Option (Option (List ℕ))

pub data Summary : Type 0 where
  subject_and_digest : List ℕ → List ℕ → Summary
  unparseable : ℕ → List ℕ → Summary

pub data Status : Type 0 where
  contains_key : Option (List ℕ) → Status
  cannot_determine : Status

pub data Prompt : Type 0 where
  key_prompt : KeyReference → Option Status → Option Summary → Prompt
  certificate_prompt : CertificateReference → CertificateChange → Summary → Prompt

pub data ConsentError : Type 0 where
  piv_failed : PivError → ConsentError
  prompt_failed : ℕ → ConsentError
  cancelled : ConsentError

abbrev kind_is_not_found : ErrorKind → Bool
kind_is_not_found not_found = true
kind_is_not_found _ = false

abbrev kind_is_unavailable : ErrorKind → Bool
kind_is_unavailable unsupported_feature = true
kind_is_unavailable capability_unknown = true
kind_is_unavailable _ = false

abbrev phase_is_command : Phase → Bool
phase_is_command command_phase = true
phase_is_command _ = false

abbrev phase_is_early : Phase → Bool
phase_is_early construction_phase = true
phase_is_early authentication_phase = false
phase_is_early command_phase = true
phase_is_early parsing_phase = false

unfoldable pub missing : PivError → Bool
missing (drive (protocol error)) = kind_is_not_found error.kind && phase_is_command error.phase
missing _ = false

unfoldable pub unavailable : PivError → Bool
unavailable (drive (protocol error)) = kind_is_unavailable error.kind && phase_is_early error.phase
unavailable _ = false

abbrev pub certificate_of : KeyReference → CertificateReference
certificate_of (key_slot n) = certificate_slot n
certificate_of attestation_key = attestation_certificate

abbrev is_attestation : KeyReference → Bool
is_attestation (key_slot n) = false
is_attestation attestation_key = true

abbrev is_absent {ℓ} : {A : Type ℓ} → Option A → Bool
is_absent none = true
is_absent (some a) = false

-- A result, and the prompts that were shown.
abbrev pub Asked : Type 0 → Type 0
Asked A = Result A ConsentError × List Prompt

module _ (metadata : KeyReference → Result Fields PivError)
    (read_certificate : CertificateReference → Result (List ℕ) PivError)
    (decode : List ℕ → Option (List ℕ × List ℕ)) (sha256 : List ℕ → List ℕ)
    (ask : Prompt → Result Bool ℕ) where
  abbrev answered : Result Bool ℕ → Result (Unit {0}) ConsentError
  answered (ok true) = ok tt
  answered (ok false) = err cancelled
  answered (err e) = err (prompt_failed e)

  unfoldable pub approve : Prompt → Asked (Unit {0})
  approve prompt = (answered (ask prompt), prompt ∷ [])

  unfoldable pub certificate_summary : List ℕ → Summary
  certificate_summary bytes = elim (decode bytes) [
    | some (subject, digest) ↦ subject_and_digest subject digest
    | none ↦ unparseable (length bytes) (sha256 bytes)
  ]

  abbrev fingerprint : Option (Option (List ℕ)) → Option (List ℕ)
  fingerprint none = none
  fingerprint (some none) = none
  fingerprint (some (some spki)) = some (sha256 spki)

  -- The first `match` of `key`.
  unfoldable pub key_status :
      KeyReference → Result Fields PivError → Result (Option Status) ConsentError
  unfolding missing unavailable
  key_status reference (ok fields) =
      if fields.origin_not_present && is_absent fields.public_key
      then ok none
      else ok (some (contains_key (fingerprint fields.public_key)))
  key_status reference (err error) =
      if missing error
      then ok none
      else if not (is_attestation reference) && unavailable error
      then ok (some cannot_determine)
      else err (piv_failed error)

  unfoldable pub existing_certificate :
      Result (List ℕ) PivError → Result (Option (List ℕ)) ConsentError
  unfolding missing
  existing_certificate (ok bytes) = ok (some bytes)
  existing_certificate (err error) = if missing error then ok none else err (piv_failed error)

  abbrev summarized : Option (List ℕ) → Option Summary
  summarized none = none
  summarized (some bytes) = some (certificate_summary bytes)

  abbrev consent : KeyReference → Option Status → Option (List ℕ) → Asked (Unit {0})
  consent reference none none = (ok tt, [])
  consent reference status certificate =
      approve (key_prompt reference status (summarized certificate))

  abbrev with_certificate :
      KeyReference → Option Status → Result (Option (List ℕ)) ConsentError → Asked (Unit {0})
  with_certificate reference status (err e) = (err e, [])
  with_certificate reference status (ok certificate) = consent reference status certificate

  abbrev with_status : KeyReference → Result (Option Status) ConsentError → Asked (Unit {0})
  with_status reference (err e) = (err e, [])
  with_status reference (ok status) =
      with_certificate reference status
        (existing_certificate (read_certificate (certificate_of reference)))

  unfoldable pub key : KeyReference → Asked (Unit {0})
  unfolding approve certificate_summary key_status existing_certificate
  key reference = with_status reference (key_status reference (metadata reference))

  abbrev next_slot : Asked (Unit {0}) → Asked (Unit {0}) → Asked (Unit {0})
  next_slot (err e, prompts) rest = (err e, prompts)
  next_slot (ok _, prompts) (r, more) = (r, prompts ++ more)

  unfoldable pub keys : List ℕ → Asked (Unit {0})
  unfolding key
  keys [] = (ok tt, [])
  keys (slot ∷ slots) = next_slot (key (key_slot slot)) (keys slots)

  abbrev certificate_consent :
      CertificateReference
      → CertificateChange
      → Result (Option (List ℕ)) ConsentError
      → Asked (Unit {0})
  certificate_consent reference change (err e) = (err e, [])
  certificate_consent reference change (ok none) = (ok tt, [])
  certificate_consent reference change (ok (some bytes)) =
      approve (certificate_prompt reference change (certificate_summary bytes))

  unfoldable pub certificate : CertificateReference → CertificateChange → Asked (Unit {0})
  unfolding approve certificate_summary existing_certificate
  certificate reference change =
      certificate_consent reference change (existing_certificate (read_certificate reference))

  -- Nothing was there: the card says so, for the key and for the certificate.
  abbrev IsVacantKey : Result Fields PivError → Type 0
  IsVacantKey (ok fields) =
      (fields.origin_not_present ≡ true) × (is_absent fields.public_key ≡ true)
  IsVacantKey (err error) = missing error ≡ true

  abbrev pub IsVacantCertificate : Result (List ℕ) PivError → Type 0
  IsVacantCertificate (ok bytes) = ⊥
  IsVacantCertificate (err error) = missing error ≡ true

  abbrev pub IsVacant : KeyReference → Type 0
  IsVacant reference =
      IsVacantKey (metadata reference)
      × IsVacantCertificate (read_certificate (certificate_of reference))

  -- The user was asked about this slot and agreed.
  abbrev pub IsAgreed : KeyReference → List Prompt → Type 0
  IsAgreed reference prompts =
      (status : Option Status) × (summary : Option Summary) × (prompts
        ≡ key_prompt reference status summary ∷ [])
      × (ask (key_prompt reference status summary) ≡ ok true)

  abbrev pub IsConsent : KeyReference → List Prompt → Type 0
  IsConsent reference prompts = (IsVacant reference × (prompts ≡ [])) ⊎ IsAgreed reference prompts

  approve-eq-ok : (prompt : Prompt) → (approve prompt).0 ≡ ok tt → ask prompt ≡ ok true
  unfolding approve
  approve-eq-ok prompt h = answer_was_yes (ask prompt) h
    where
      answer_was_yes : (r : Result Bool ℕ) → answered r ≡ ok tt → r ≡ ok true
      answer_was_yes (ok true) h = refl
      answer_was_yes (ok false) h = absurd (cc)
      answer_was_yes (err e) h = absurd (cc)

  vacant_key :
      (reference : KeyReference) (r : Result Fields PivError)
      → key_status reference r ≡ ok none
      → IsVacantKey r
  unfolding key_status
  vacant_key reference (ok fields) h = elim (Bool-cases fields.origin_not_present) [
    | inr e ↦ absurd (cc (rw (e, key_status) at h))
    | inl e ↦ elim (Bool-cases (is_absent fields.public_key)) [
      | inr f ↦ absurd (cc (rw (e, f, key_status) at h))
      | inl f ↦ (e, f)
    ]
  ]
  vacant_key reference (err error) h = elim (Bool-cases (missing error)) [
    | inl e ↦ e
    | inr e ↦ elim (Bool-cases (not (is_attestation reference) && unavailable error)) [
      | inl f ↦ absurd (cc (rw (e, f, key_status) at h))
      | inr f ↦ absurd (cc (rw (e, f, key_status) at h))
    ]
  ]

  vacant_certificate :
      (r : Result (List ℕ) PivError) → existing_certificate r ≡ ok none → IsVacantCertificate r
  unfolding existing_certificate
  vacant_certificate (ok bytes) h = absurd (cc)
  vacant_certificate (err error) h = elim (Bool-cases (missing error)) [
    | inl e ↦ e
    | inr e ↦ absurd (cc (rw (e, existing_certificate) at h))
  ]

  consent-IsConsent :
      (reference : KeyReference) (status : Option Status) (bytes : Option (List ℕ))
      → (status ≡ none → bytes ≡ none → IsVacant reference)
      → (consent reference status bytes).0 ≡ ok tt
      → IsConsent reference (consent reference status bytes).1
  unfolding approve
  consent-IsConsent reference none none vacant h = inl (vacant refl refl, refl)
  consent-IsConsent reference none (some bytes) vacant h = inr (_, _, refl, approve-eq-ok _ h)
  consent-IsConsent reference (some status) bytes vacant h = inr (_, _, refl, approve-eq-ok _ h)

  -- The key of a slot may be replaced only where the card says that the slot holds neither a key nor
  -- a certificate, or where the one prompt that was shown is about the slot and was answered with yes.
  pub key-IsConsent :
      (reference : KeyReference) → (key reference).0 ≡ ok tt → IsConsent reference (key reference).1
  unfolding key
  key-IsConsent reference h = elim (Result-cases (key_status reference (metadata reference))) [
    | inr (e, s) ↦ absurd (cc (rw s at h))
    | inl (status, s) ↦
        elim (Result-cases (existing_certificate (read_certificate (certificate_of reference)))) [
          | inr (e, c) ↦ absurd (cc (rw (s, c) at h))
          | inl (bytes, c) ↦ rw s (
              rw c (
                consent-IsConsent reference status bytes
                  (λ no_status no_bytes. (
                    vacant_key reference (metadata reference) (rw no_status at s),
                    vacant_certificate _ (rw no_bytes at c),
                  ))
                  (rw (s, c) at h)))
        ]
  ]

  abbrev pub prompts_of : List ℕ → List Prompt
  prompts_of [] = []
  prompts_of (slot ∷ slots) = (key (key_slot slot)).1 ++ prompts_of slots

  -- The slots of a batch may be replaced only where each of them may, and no other prompt was shown.
  pub keys-IsConsent :
      (slots : List ℕ)
      → (keys slots).0 ≡ ok tt
      → All (λ slot. IsConsent (key_slot slot) (key (key_slot slot)).1) slots
        × ((keys slots).1 ≡ prompts_of slots)
  unfolding keys
  keys-IsConsent [] h = (tt, refl)
  keys-IsConsent (slot ∷ slots) h =
      let (first, rest, joined) = both (key (key_slot slot)) (keys slots) h in
      let (each, shown) = keys-IsConsent slots rest in
      (
        (key-IsConsent (key_slot slot) first, each),
        joined ∙ ap (λ l. (key (key_slot slot)).1 ++ l) shown,
      )
    where
      both :
          (a b : Asked (Unit {0}))
          → (next_slot a b).0 ≡ ok tt
          → (a.0 ≡ ok tt) × (b.0 ≡ ok tt) × ((next_slot a b).1 ≡ a.1 ++ b.1)
      both (err e, prompts) b h = absurd (cc)
      both (ok _, prompts) (r, more) h = (refl, h, refl)

  -- A certificate may be replaced or deleted only where the card says that there is none, and then no
  -- prompt was shown, or where the one prompt, about this certificate and this change, was answered
  -- with yes.
  pub certificate-consent :
      (reference : CertificateReference) (change : CertificateChange)
      → (certificate reference change).0 ≡ ok tt
      → (IsVacantCertificate (read_certificate reference) × ((certificate reference change).1 ≡ []))
        ⊎ ((summary : Summary) × ((certificate reference change).1
              ≡ certificate_prompt reference change summary ∷ [])
            × (ask (certificate_prompt reference change summary) ≡ ok true))
  unfolding certificate
  certificate-consent reference change h =
      elim (Result-cases (existing_certificate (read_certificate reference))) [
        | inr (e, c) ↦ absurd (cc (rw c at h))
        | inl (none, c) ↦ rw c (inl (vacant_certificate _ c, refl))
        | inl (some bytes, c) ↦
            rw c
              (inr (certificate_summary bytes, unfold approve in refl, approve-eq-ok _ (rw c at h)))
      ]
