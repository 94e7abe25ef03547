-- ===== src/Piv/Attestation.antt =====
-- The attestation policy of crates/ckman-core/src/piv/attestation.rs. The X.509 and DER decoders, the
-- P-256 and SHA-256 code and the RFC 4514 parser are parameters (`Library`).
pub mod Policy
pub mod Equality
mod Profile
pub mod Trust
pub mod Sound
mod Runs
use canokey_manager.Prelude.{
  ℕ, ◌+◌, ◌/◌, ◌%◌, Bool, true, false, not, ◌&&◌, ◌||◌, Option, none, some, List, [], ◌∷◌, ◌++◌,
  ◌==◌, ltb, leb, if◌then◌else◌, length, Result, ok, err, ◌>>=◌, ◌>>◌, guard, ok_or,
}
use canokey_manager.Prelude.Bytes.{bytes_eq}
use canokey_manager.Prelude.Text.{codes}

pub data Role : Type 0 where
  attestation f9_issuer root : Role

pub data Reason : Type 0 where
  size_limit malformed_der version_or_identifiers signature_identifiers expired duplicate_extension
        unsupported_critical :
      Reason
  malformed_basic_constraints malformed_key_usage signer_not_ca path_length_exceeded
        signer_key_usage not_end_entity :
      Reason
  root_not_self_issued issuer_name signer_spki signer_not_p256 signature_encoding tbs_encoding
        signature_failed :
      Reason

pub data BindingReason : Type 0 where
  not_generated target_key_mismatch signer_key_mismatch invalid_slot subject_mismatch
        serial_mismatch policy_mismatch :
      BindingReason
  key_missing key_invalid pin_policy_unknown touch_policy_unknown : BindingReason

pub data AttestationError : Type 0 where
  certificate : Role → Reason → AttestationError
  binding : BindingReason → AttestationError
  trust_root : AttestationError

-- An object identifier is the list of its arcs; a name is its RDNs, each with its attributes.
abbrev pub Oid : Type 0
Oid = List ℕ

abbrev pub Name : Type 0
Name = List (List (Oid × List ℕ))

pub record AlgorithmIdentifier : Type 0 where
  pub oid : Oid
  pub parameters : Option (List ℕ)

pub record Extension : Type 0 where
  pub extn_id : Oid
  pub critical : Bool
  pub extn_value : List ℕ

-- `subject_public_key_info` is kept as the decoder has it; the validity in seconds.
pub record Certificate : Type 0 where
  pub is_v3 : Bool
  pub issuer_unique_id : Option (List ℕ)
  pub subject_unique_id : Option (List ℕ)
  pub tbs_signature : AlgorithmIdentifier
  pub signature_algorithm : AlgorithmIdentifier
  pub issuer : Name
  pub subject : Name
  pub not_before : ℕ
  pub not_after : ℕ
  pub spki : List ℕ
  pub extensions : Option (List Extension)
  pub signature : Option (List ℕ)

pub record BasicConstraints : Type 0 where
  pub ca : Bool
  pub path_len : Option ℕ

pub record KeyUsage : Type 0 where
  pub key_cert_sign : Bool
  pub crl_sign : Bool

-- What the code calls: `Certificate::from_der`, `BasicConstraints::from_der`, `KeyUsage::from_der`,
-- `to_der` of an SPKI and of a TBS certificate, `VerifyingKey::from_public_key_der`,
-- `Signature::from_der`, `VerifyingKey::verify`, `Sha256::digest`, `parse_rfc4514`, and `to_spki_der`
-- of a key in the metadata.
pub record Library : Type 0 where
  pub certificate_from_der : List ℕ → Option Certificate
  pub basic_constraints_from_der : List ℕ → Option BasicConstraints
  pub key_usage_from_der : List ℕ → Option KeyUsage
  pub spki_to_der : List ℕ → Option (List ℕ)
  pub tbs_to_der : Certificate → Option (List ℕ)
  pub p256_key : List ℕ → Option (List ℕ)
  pub signature_from_der : List ℕ → Option (List ℕ)
  pub p256_verify : List ℕ → List ℕ → List ℕ → Bool
  pub sha256 : List ℕ → List ℕ
  pub parse_rfc4514 : List ℕ → Option Name
  pub key_to_spki : List ℕ → Option (List ℕ)

pub data KeyOrigin : Type 0 where
  generated imported not_present : KeyOrigin

pub data PinPolicy : Type 0 where
  pin_never pin_once pin_always : PinPolicy

pub data TouchPolicy : Type 0 where
  touch_never touch_always touch_cached : TouchPolicy

pub data KnownOrUnknown (A : Type 0) : Type 0 where
  known : A → KnownOrUnknown A
  unknown : ℕ → KnownOrUnknown A

pub record MetadataFields : Type 0 where
  pub origin : Option (KnownOrUnknown KeyOrigin)
  pub public_key : Option (List ℕ)
  pub pin_policy : Option (KnownOrUnknown PinPolicy)
  pub touch_policy : Option (KnownOrUnknown TouchPolicy)

-- `slot` is `slot.reference()`.
pub record Evidence : Type 0 where
  pub certificate_der : List ℕ
  pub issuer_der : List ℕ
  pub slot : ℕ
  pub serial : List ℕ
  pub target : MetadataFields
  pub signer : MetadataFields

abbrev pub max_certificate_bytes : ℕ
max_certificate_bytes = 16384

abbrev pub serial_oid : Oid
serial_oid = 1 ∷ 3 ∷ 6 ∷ 1 ∷ 4 ∷ 1 ∷ 66602 ∷ 1 ∷ 1 ∷ []

abbrev pub policies_oid : Oid
policies_oid = 1 ∷ 3 ∷ 6 ∷ 1 ∷ 4 ∷ 1 ∷ 66602 ∷ 1 ∷ 2 ∷ []

abbrev pub bc_oid : Oid
bc_oid = 2 ∷ 5 ∷ 29 ∷ 19 ∷ []

abbrev pub ku_oid : Oid
ku_oid = 2 ∷ 5 ∷ 29 ∷ 15 ∷ []

abbrev pub ecdsa_sha256 : Oid
ecdsa_sha256 = 1 ∷ 2 ∷ 840 ∷ 10045 ∷ 4 ∷ 3 ∷ 2 ∷ []

-- `==` on the structures.
abbrev pub list_eq : {A : Type 0} → (A → A → Bool) → List A → List A → Bool
list_eq eq [] [] = true
list_eq eq (x ∷ xs) (y ∷ ys) = eq x y && list_eq eq xs ys
list_eq eq _ _ = false

abbrev pub option_eq : Option (List ℕ) → Option (List ℕ) → Bool
option_eq none none = true
option_eq (some a) (some b) = bytes_eq a b
option_eq _ _ = false

abbrev pub attribute_eq : (Oid × List ℕ) → (Oid × List ℕ) → Bool
attribute_eq (o, v) (p, w) = bytes_eq o p && bytes_eq v w

abbrev pub name_eq : Name → Name → Bool
name_eq = list_eq (list_eq attribute_eq)

abbrev pub algorithm_eq : AlgorithmIdentifier → AlgorithmIdentifier → Bool
algorithm_eq a b = bytes_eq a.oid b.oid && option_eq a.parameters b.parameters

abbrev pub is_none {ℓ} : {A : Type ℓ} → Option A → Bool
is_none none = true
is_none (some a) = false

unfoldable pub find_extension : Oid → List Extension → Option (List ℕ)
unfolding bytes_eq
find_extension oid [] = none
find_extension oid (ext ∷ exts) =
    let rest = find_extension oid exts in
    if bytes_eq ext.extn_id oid then some ext.extn_value else rest

unfoldable pub extension : Certificate → Oid → Option (List ℕ)
unfolding find_extension
extension cert oid = elim cert.extensions [ none ↦ none | some exts ↦ find_extension oid exts ]

unfoldable pub has_id : Oid → List Extension → Bool
unfolding bytes_eq
has_id oid [] = false
has_id oid (ext ∷ exts) = bytes_eq ext.extn_id oid || has_id oid exts

-- The loop over the extensions; `seen` are those before this one.
unfoldable pub check_extensions :
    Role → List Extension → List Extension → Result (Unit {0}) AttestationError
unfolding has_id bytes_eq
check_extensions role seen [] = ok tt
check_extensions role seen (ext ∷ exts) = do
  guard (not (has_id ext.extn_id seen)) (certificate role duplicate_extension)
  guard
      (not
        (ext.critical && (not (bytes_eq ext.extn_id bc_oid) && not (bytes_eq ext.extn_id ku_oid))))
      (certificate role unsupported_critical)
  check_extensions role (ext ∷ seen) exts

-- `.map(from_der).transpose().map_err(..)`
unfoldable pub decode_optional :
    {A : Type 0}
    → (List ℕ → Option A)
    → Option (List ℕ)
    → AttestationError
    → Result (Option A) AttestationError
decode_optional decode none e = ok none
decode_optional decode (some bytes) e = elim (decode bytes) [ none ↦ err e | some a ↦ ok (some a) ]

abbrev pub only_ca : Option BasicConstraints → Option BasicConstraints
only_ca none = none
only_ca (some bc) = if bc.ca then some bc else none

abbrev pub exceeds : ℕ → Option ℕ → Bool
exceeds depth none = false
exceeds depth (some limit) = ltb limit depth

abbrev pub lacks_cert_sign : Option KeyUsage → Bool
lacks_cert_sign none = false
lacks_cert_sign (some ku) = not ku.key_cert_sign

abbrev pub constrains : Option BasicConstraints → Bool
constrains none = false
constrains (some bc) = bc.ca || not (is_none bc.path_len)

abbrev pub signs : Option KeyUsage → Bool
signs none = false
signs (some ku) = ku.key_cert_sign || ku.crl_sign

-- The last part of `check_profile`: a CA below which `depth` more may stand, or an end entity.
unfoldable pub check_usage :
    Role → Option ℕ → Option BasicConstraints → Option KeyUsage → Result (Unit {0}) AttestationError
check_usage role (some depth) bc ku = do
  ca ← ok_or (only_ca bc) (certificate role signer_not_ca)
  guard (not (exceeds depth ca.path_len)) (certificate role path_length_exceeded)
  guard (not (lacks_cert_sign ku)) (certificate role signer_key_usage)
check_usage role none bc ku =
    guard (not (constrains bc || signs ku)) (certificate role not_end_entity)

-- Two hexadecimal digits, `{:02x}` of a byte.
abbrev hex_digit : ℕ → ℕ
hex_digit n = if ltb n 10 then n + 48 else n + 87

abbrev pub expected_subject_text : ℕ → List ℕ
expected_subject_text slot =
    codes "CN=CanoKey PIV Attestation " ++ (hex_digit (slot / 16 % 16) ∷ hex_digit (slot % 16) ∷ [])

unfoldable pub pin_wire : Option (KnownOrUnknown PinPolicy) → Result ℕ AttestationError
pin_wire (some (known pin_never)) = ok 1
pin_wire (some (known pin_once)) = ok 2
pin_wire (some (known pin_always)) = ok 3
pin_wire _ = err (binding pin_policy_unknown)

unfoldable pub touch_wire : Option (KnownOrUnknown TouchPolicy) → Result ℕ AttestationError
touch_wire (some (known touch_never)) = ok 1
touch_wire (some (known touch_always)) = ok 2
touch_wire (some (known touch_cached)) = ok 3
touch_wire _ = err (binding touch_policy_unknown)

abbrev pub is_generated : Option (KnownOrUnknown KeyOrigin) → Bool
is_generated (some (known generated)) = true
is_generated _ = false
