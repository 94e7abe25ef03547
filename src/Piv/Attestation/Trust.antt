-- ===== src/Piv/Attestation/Trust.antt =====
-- The trust that the policy of crates/ckman-core/src/piv/attestation.rs is to establish, as
-- conditions on the certificates and the observations.
use canokey_manager.Prelude.{
  ℕ, ◌≤◌, ◌≡◌, ◌≢◌, ◌⊎◌, true, false, Option, none, some, List, [], ◌∷◌, if◌then◌else◌, length, ok,
  All,
}
use canokey_manager.Piv.Attestation.{
  Extension, Certificate, BasicConstraints, Library, generated, known, MetadataFields, Evidence,
  max_certificate_bytes, serial_oid, policies_oid, bc_oid, ku_oid, ecdsa_sha256, name_eq, extension,
  expected_subject_text, pin_wire, touch_wire,
}
use canokey_manager.Piv.Attestation.Policy.{extension_list, signature_of}

-- No two extensions with one identifier.
abbrev pub HasDistinctIds : List Extension → Type 0
HasDistinctIds [] = Unit
HasDistinctIds (ext ∷ exts) = All (λ other. ext.extn_id ≢ other.extn_id) exts × HasDistinctIds exts

-- A critical extension is BasicConstraints or KeyUsage.
abbrev pub IsUnderstood : Extension → Type 0
IsUnderstood ext = ext.critical ≡ true → (ext.extn_id ≡ bc_oid) ⊎ (ext.extn_id ≡ ku_oid)

abbrev pub IsProfile : ℕ → Certificate → Type 0
IsProfile now cert =
    (cert.is_v3 ≡ true)
    × (cert.issuer_unique_id ≡ none)
    × (cert.subject_unique_id ≡ none)
    × (cert.signature_algorithm.oid ≡ ecdsa_sha256)
    × (cert.signature_algorithm.parameters ≡ none)
    × (cert.tbs_signature.oid ≡ ecdsa_sha256)
    × (cert.tbs_signature.parameters ≡ none)
    × (cert.not_before ≤ now)
    × (now ≤ cert.not_after)
    × HasDistinctIds (extension_list cert.extensions)
    × All IsUnderstood (extension_list cert.extensions)

abbrev pub AllowsBelow : ℕ → Option ℕ → Type 0
AllowsBelow depth none = Unit
AllowsBelow depth (some limit) = depth ≤ limit

-- The extension is absent, or it is decoded and has the property.
abbrev pub WhenPresent :
    {A : Type 0} → (List ℕ → Option A) → (A → Type 0) → Option (List ℕ) → Type 0
WhenPresent decode P none = Unit
WhenPresent {A = A} decode P (some bytes) = (a : A) × (decode bytes ≡ some a) × P a

module _ (lib : Library) where
  abbrev pub IsCa : ℕ → Certificate → Type 0
  IsCa depth cert =
      ((bytes : List ℕ) × (bc : BasicConstraints) × (extension cert bc_oid ≡ some bytes)
        × (lib.basic_constraints_from_der bytes ≡ some bc)
        × (bc.ca ≡ true)
        × AllowsBelow depth bc.path_len)
      × WhenPresent lib.key_usage_from_der (λ ku. ku.key_cert_sign ≡ true) (extension cert ku_oid)

  abbrev pub IsEndEntity : Certificate → Type 0
  IsEndEntity cert =
      WhenPresent lib.basic_constraints_from_der (λ bc. (bc.ca ≡ false) × (bc.path_len ≡ none))
        (extension cert bc_oid)
      × WhenPresent lib.key_usage_from_der
          (λ ku. (ku.key_cert_sign ≡ false) × (ku.crl_sign ≡ false)) (extension cert ku_oid)

  abbrev pub IsSignedBy : Certificate → Certificate → Type 0
  IsSignedBy cert issuer =
      (cert.issuer ≡ issuer.subject)
      × (spki : List ℕ) × (key : List ℕ) × (signature : List ℕ) × (tbs : List ℕ) × (lib.spki_to_der
            issuer.spki
          ≡ some spki)
      × (lib.p256_key spki ≡ some key)
      × (signature_of lib cert.signature ≡ some signature)
      × (lib.tbs_to_der cert ≡ some tbs)
      × (lib.p256_verify key tbs signature ≡ true)

  -- The metadata has the key of the certificate.
  abbrev pub HasKeyOf : MetadataFields → Certificate → Type 0
  HasKeyOf fields cert =
      (key : List ℕ) × (spki : List ℕ) × (fields.public_key ≡ some key)
      × (lib.key_to_spki key ≡ some spki)
      × (lib.spki_to_der cert.spki ≡ some spki)

  abbrev pub IsBound : Evidence → Certificate → Certificate → Type 0
  IsBound evidence leaf issuer =
      (evidence.target.origin ≡ some (known generated))
      × HasKeyOf evidence.target leaf
      × HasKeyOf evidence.signer issuer
      × (lib.parse_rfc4514 (expected_subject_text evidence.slot) ≡ some leaf.subject)
      × (extension leaf serial_oid ≡ some evidence.serial)
      × ((pin : ℕ) × (touch : ℕ) × (pin_wire evidence.target.pin_policy ≡ ok pin)
          × (touch_wire evidence.target.touch_policy ≡ ok touch)
          × (extension leaf policies_oid ≡ some (pin ∷ touch ∷ [])))

  -- One of the depth 0 or 1: `issuer` below the root is counted unless it is self-issued.
  abbrev pub IsChain : Certificate → Certificate → Certificate → ℕ → Type 0
  IsChain leaf issuer root_cert now =
      (IsProfile now leaf × IsEndEntity leaf)
      × (IsProfile now issuer × IsCa 0 issuer)
      × (IsProfile now root_cert
          × IsCa (if name_eq issuer.subject issuer.issuer then 0 else 1) root_cert)
      × IsSignedBy root_cert root_cert
      × IsSignedBy issuer root_cert
      × IsSignedBy leaf issuer

  abbrev pub IsDecoded : List ℕ → Certificate → Type 0
  IsDecoded bytes cert =
      (length bytes ≤ max_certificate_bytes) × (lib.certificate_from_der bytes ≡ some cert)
