-- ===== src/Piv/Attestation/Policy.antt =====
-- The checks that call the library, and `verify` (crates/ckman-core/src/piv/attestation.rs).
use canokey_manager.Prelude.{
  ℕ, Bool, not, ◌&&◌, ◌||◌, Option, none, some, List, [], ◌∷◌, ltb, leb, if◌then◌else◌, length,
  Result, ok, ◌>>=◌, ◌>>◌, guard, ok_or,
}
use canokey_manager.Prelude.Bytes.{bytes_eq}
use canokey_manager.Piv.Attestation.{
  Role, attestation, f9_issuer, root, size_limit, malformed_der, version_or_identifiers,
  signature_identifiers, expired, malformed_basic_constraints, malformed_key_usage,
  root_not_self_issued, issuer_name, signer_spki, signer_not_p256, signature_encoding, tbs_encoding,
  signature_failed, not_generated, target_key_mismatch, signer_key_mismatch, invalid_slot,
  subject_mismatch, serial_mismatch, policy_mismatch, key_missing, key_invalid, AttestationError,
  certificate, binding, Extension, Certificate, Library, MetadataFields, Evidence,
  max_certificate_bytes, serial_oid, policies_oid, bc_oid, ku_oid, ecdsa_sha256, option_eq, name_eq,
  algorithm_eq, is_none, extension, check_extensions, decode_optional, check_usage,
  expected_subject_text, pin_wire, touch_wire, is_generated,
}

abbrev pub is_current : ℕ → Certificate → Bool
is_current now cert =
    not (ltb cert.not_after cert.not_before || (ltb now cert.not_before || ltb cert.not_after now))

abbrev pub is_plain : Certificate → Bool
is_plain cert = cert.is_v3 && (is_none cert.issuer_unique_id && is_none cert.subject_unique_id)

abbrev pub is_ecdsa_sha256 : Certificate → Bool
is_ecdsa_sha256 cert =
    algorithm_eq cert.signature_algorithm cert.tbs_signature
    && (bytes_eq cert.signature_algorithm.oid ecdsa_sha256
        && is_none cert.signature_algorithm.parameters)

abbrev pub extension_list : Option (List Extension) → List Extension
extension_list none = []
extension_list (some exts) = exts

module _ (lib : Library) where
  unfoldable pub parse : List ℕ → Role → Result Certificate AttestationError
  parse bytes role = do
    guard (leb (length bytes) max_certificate_bytes) (certificate role size_limit)
    ok_or (lib.certificate_from_der bytes) (certificate role malformed_der)

  unfoldable pub check_profile :
      Certificate → Role → ℕ → Option ℕ → Result (Unit {0}) AttestationError
  unfolding extension check_extensions decode_optional check_usage
  check_profile cert role now ca_depth = do
    guard (is_plain cert) (certificate role version_or_identifiers)
    guard (is_ecdsa_sha256 cert) (certificate role signature_identifiers)
    guard (is_current now cert) (certificate role expired)
    check_extensions role [] (extension_list cert.extensions)
    bc ←
        decode_optional lib.basic_constraints_from_der (extension cert bc_oid)
          (certificate role malformed_basic_constraints)
    ku ←
        decode_optional lib.key_usage_from_der (extension cert ku_oid)
          (certificate role malformed_key_usage)
    check_usage role ca_depth bc ku

  -- `cert.signature.as_bytes().and_then(..)`
  abbrev pub signature_of : Option (List ℕ) → Option (List ℕ)
  signature_of none = none
  signature_of (some bytes) = lib.signature_from_der bytes

  unfoldable pub verify_signature :
      Certificate → Certificate → Role → Result (Unit {0}) AttestationError
  unfolding bytes_eq
  verify_signature cert issuer role = do
    guard (name_eq cert.issuer issuer.subject) (certificate role issuer_name)
    spki ← ok_or (lib.spki_to_der issuer.spki) (certificate role signer_spki)
    key ← ok_or (lib.p256_key spki) (certificate role signer_not_p256)
    signature ← ok_or (signature_of cert.signature) (certificate role signature_encoding)
    tbs ← ok_or (lib.tbs_to_der cert) (certificate role tbs_encoding)
    guard (lib.p256_verify key tbs signature) (certificate role signature_failed)

  unfoldable pub metadata_spki : MetadataFields → Result (List ℕ) AttestationError
  metadata_spki fields = do
    key ← ok_or fields.public_key (binding key_missing)
    ok_or (lib.key_to_spki key) (binding key_invalid)

  -- The certificates and the signatures of `verify`.
  unfoldable pub verify_chain :
      Certificate → Certificate → Certificate → ℕ → Result (Unit {0}) AttestationError
  unfolding check_profile verify_signature
  verify_chain leaf issuer root_cert now = do
    check_profile leaf attestation now none
    check_profile issuer f9_issuer now (some 0)
    check_profile root_cert root now (some (if name_eq issuer.subject issuer.issuer then 0 else 1))
    guard (name_eq root_cert.issuer root_cert.subject) (certificate root root_not_self_issued)
    verify_signature root_cert root_cert root
    verify_signature issuer root_cert f9_issuer
    verify_signature leaf issuer attestation

  -- The comparison of the certificates with the observations.
  unfoldable pub verify_binding :
      Evidence → Certificate → Certificate → Result (Unit {0}) AttestationError
  unfolding metadata_spki extension pin_wire touch_wire
  verify_binding evidence leaf issuer = do
    guard (is_generated evidence.target.origin) (binding not_generated)
    target_spki ← metadata_spki evidence.target
    signer_der ← metadata_spki evidence.signer
    guard (option_eq (lib.spki_to_der leaf.spki) (some target_spki)) (binding target_key_mismatch)
    guard (option_eq (lib.spki_to_der issuer.spki) (some signer_der)) (binding signer_key_mismatch)
    expected ←
        ok_or (lib.parse_rfc4514 (expected_subject_text evidence.slot)) (binding invalid_slot)
    guard (name_eq leaf.subject expected) (binding subject_mismatch)
    guard (option_eq (extension leaf serial_oid) (some evidence.serial)) (binding serial_mismatch)
    pin ← pin_wire evidence.target.pin_policy
    touch ← touch_wire evidence.target.touch_policy
    guard (option_eq (extension leaf policies_oid) (some (pin ∷ touch ∷ [])))
        (binding policy_mismatch)

  unfoldable pub verify : Evidence → List ℕ → ℕ → Result (List ℕ) AttestationError
  unfolding parse verify_chain verify_binding
  verify evidence root_der now = do
    leaf ← parse evidence.certificate_der attestation
    issuer ← parse evidence.issuer_der f9_issuer
    root_cert ← parse root_der root
    verify_chain leaf issuer root_cert now
    verify_binding evidence leaf issuer
    ok (lib.sha256 root_der)
