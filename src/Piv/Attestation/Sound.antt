-- ===== src/Piv/Attestation/Sound.antt =====
-- What an accepted attestation guarantees (crates/ckman-core/src/piv/attestation.rs).
use canokey_manager.Prelude.{
  ℕ, ◌≡◌, refl, ap, sym, ◌∙◌, true, Option, none, some, List, leb, if◌then◌else◌, length, ok, guard,
  ok_or, >>=-eq-ok, leb→le,
}
use canokey_manager.Piv.Attestation.{
  Role, attestation, f9_issuer, root, Certificate, Library, KeyOrigin, generated, imported,
  not_present, KnownOrUnknown, known, unknown, MetadataFields, Evidence, max_certificate_bytes,
  serial_oid, option_eq, name_eq, extension, expected_subject_text, pin_wire, touch_wire,
  is_generated,
}
use canokey_manager.Piv.Attestation.Policy.{
  parse, check_profile, verify_signature, metadata_spki, verify_chain, verify_binding, verify,
}
use canokey_manager.Piv.Attestation.Equality.{
  guard-eq-ok, ok_or-eq-ok, option_eq_sound, name_eq_sound,
}
use canokey_manager.Piv.Attestation.Trust.{IsDecoded, IsSignedBy, HasKeyOf, IsBound, IsChain}
use canokey_manager.Piv.Attestation.Profile.{check_profile-IsCa, check_profile-IsEndEntity}

is_generated_sound :
    (o : Option (KnownOrUnknown KeyOrigin)) → is_generated o ≡ true → o ≡ some (known generated)
is_generated_sound none h = absurd (cc)
is_generated_sound (some (unknown n)) h = absurd (cc)
is_generated_sound (some (known generated)) h = refl
is_generated_sound (some (known imported)) h = absurd (cc)
is_generated_sound (some (known not_present)) h = absurd (cc)

module _ (lib : Library) where
  parse_sound :
      (bytes : List ℕ) (cert : Certificate) (role : Role)
      → parse lib bytes role ≡ ok cert
      → IsDecoded lib bytes cert
  unfolding parse
  parse_sound bytes cert role h =
      let (u, a, h1) = >>=-eq-ok (guard (leb (length bytes) max_certificate_bytes) _) _ h in
      (leb→le _ _ (guard-eq-ok _ _ a), ok_or-eq-ok _ _ h1)

  verify_signature_sound :
      (cert issuer : Certificate) (role : Role)
      → verify_signature lib cert issuer role ≡ ok tt
      → IsSignedBy lib cert issuer
  unfolding verify_signature
  verify_signature_sound cert issuer role h =
      let (u, same, h1) = >>=-eq-ok (guard (name_eq cert.issuer issuer.subject) _) _ h in
      let (spki, a, h2) = >>=-eq-ok _ _ h1 in
      let (key, b, h3) = >>=-eq-ok _ _ h2 in
      let (signature, c, h4) = >>=-eq-ok _ _ h3 in
      let (tbs, d, h5) = >>=-eq-ok _ _ h4 in
      (
        name_eq_sound cert.issuer issuer.subject (guard-eq-ok _ _ same),
        spki,
        key,
        signature,
        tbs,
        ok_or-eq-ok _ _ a,
        ok_or-eq-ok _ _ b,
        ok_or-eq-ok _ _ c,
        ok_or-eq-ok _ _ d,
        guard-eq-ok _ _ h5,
      )

  metadata_spki_sound :
      (fields : MetadataFields) (cert : Certificate) (spki : List ℕ)
      → metadata_spki lib fields ≡ ok spki
      → lib.spki_to_der cert.spki ≡ some spki
      → HasKeyOf lib fields cert
  unfolding metadata_spki
  metadata_spki_sound fields cert spki h same =
      let (key, a, h1) = >>=-eq-ok (ok_or fields.public_key _) _ h in
      (key, spki, ok_or-eq-ok _ _ a, ok_or-eq-ok _ _ h1, same)

  verify_binding_sound :
      (evidence : Evidence) (leaf issuer : Certificate)
      → verify_binding lib evidence leaf issuer ≡ ok tt
      → IsBound lib evidence leaf issuer
  unfolding verify_binding
  verify_binding_sound evidence leaf issuer h =
      let (u, origin, h1) = >>=-eq-ok (guard (is_generated evidence.target.origin) _) _ h in
      let (target_der, a, h2) = >>=-eq-ok (metadata_spki lib evidence.target) _ h1 in
      let (signer_der, b, h3) = >>=-eq-ok (metadata_spki lib evidence.signer) _ h2 in
      let (v, target, h4) =
        >>=-eq-ok (guard (option_eq (lib.spki_to_der leaf.spki) (some target_der)) _) _ h3 in
      let (w, signed, h5) =
        >>=-eq-ok (guard (option_eq (lib.spki_to_der issuer.spki) (some signer_der)) _) _ h4 in
      let (expected, named, h6) =
        >>=-eq-ok (ok_or (lib.parse_rfc4514 (expected_subject_text evidence.slot)) _) _ h5 in
      let (x, subject, h7) = >>=-eq-ok (guard (name_eq leaf.subject expected) _) _ h6 in
      let (y, serial, h8) =
        >>=-eq-ok (guard (option_eq (extension leaf serial_oid) (some evidence.serial)) _) _ h7 in
      let (pin, p, h9) = >>=-eq-ok (pin_wire evidence.target.pin_policy) _ h8 in
      let (touch, t, h10) = >>=-eq-ok (touch_wire evidence.target.touch_policy) _ h9 in
      (
        is_generated_sound evidence.target.origin (guard-eq-ok _ _ origin),
        metadata_spki_sound evidence.target leaf target_der a
            (option_eq_sound _ _ (guard-eq-ok _ _ target)),
        metadata_spki_sound evidence.signer issuer signer_der b
            (option_eq_sound _ _ (guard-eq-ok _ _ signed)),
        ok_or-eq-ok _ _ named
            ∙ ap some (sym (name_eq_sound leaf.subject expected (guard-eq-ok _ _ subject))),
        option_eq_sound _ _ (guard-eq-ok _ _ serial),
        (pin, touch, p, t, option_eq_sound _ _ (guard-eq-ok _ _ h10)),
      )

  verify_chain_sound :
      (leaf issuer root_cert : Certificate) (now : ℕ)
      → verify_chain lib leaf issuer root_cert now ≡ ok tt
      → IsChain lib leaf issuer root_cert now
  unfolding verify_chain
  verify_chain_sound leaf issuer root_cert now h =
      let (u1, a, h1) = >>=-eq-ok (check_profile lib leaf attestation now none) _ h in
      let (u2, b, h2) = >>=-eq-ok (check_profile lib issuer f9_issuer now (some 0)) _ h1 in
      let (u3, c, h3) =
        >>=-eq-ok
          (check_profile lib root_cert root now
            (some (if name_eq issuer.subject issuer.issuer then 0 else 1)))
          _ h2 in
      let (u4, d, h4) = >>=-eq-ok (guard (name_eq root_cert.issuer root_cert.subject) _) _ h3 in
      let (u5, e, h5) = >>=-eq-ok (verify_signature lib root_cert root_cert root) _ h4 in
      let (u6, f, h6) = >>=-eq-ok (verify_signature lib issuer root_cert f9_issuer) _ h5 in
      (
        check_profile-IsEndEntity lib leaf attestation now a,
        check_profile-IsCa lib issuer f9_issuer now 0 b,
        check_profile-IsCa lib root_cert root now _ c,
        verify_signature_sound root_cert root_cert root e,
        verify_signature_sound issuer root_cert f9_issuer f,
        verify_signature_sound leaf issuer attestation h6,
      )

  -- If `verify` accepts the evidence, then the three inputs decode, in at most 16 KiB each, to a leaf,
  -- an issuer and a root that form a chain: each is a version 3 certificate under ECDSA with SHA-256,
  -- current, with distinct extensions and no critical one that is not understood; the leaf is an end
  -- entity, the others are CAs for the depth below them, and each is signed with the key of the
  -- next. The target key was generated on the device, both keys, the slot, the serial number and the
  -- policies agree with the certificates, and the result is the digest of the root.
  pub verify_sound :
      (evidence : Evidence) (root_der : List ℕ) (now : ℕ) (fingerprint : List ℕ)
      → verify lib evidence root_der now ≡ ok fingerprint
      → (leaf : Certificate) × (issuer : Certificate) × (root_cert : Certificate) × IsDecoded lib
          evidence.certificate_der leaf
        × IsDecoded lib evidence.issuer_der issuer
        × IsDecoded lib root_der root_cert
        × IsChain lib leaf issuer root_cert now
        × IsBound lib evidence leaf issuer
        × (fingerprint ≡ lib.sha256 root_der)
  unfolding verify
  verify_sound evidence root_der now fingerprint h =
      let (leaf, a, h1) = >>=-eq-ok (parse lib evidence.certificate_der attestation) _ h in
      let (issuer, b, h2) = >>=-eq-ok (parse lib evidence.issuer_der f9_issuer) _ h1 in
      let (root_cert, c, h3) = >>=-eq-ok (parse lib root_der root) _ h2 in
      let (u, d, h4) = >>=-eq-ok (verify_chain lib leaf issuer root_cert now) _ h3 in
      let (v, e, h5) = >>=-eq-ok (verify_binding lib evidence leaf issuer) _ h4 in
      (
        leaf,
        issuer,
        root_cert,
        parse_sound _ leaf attestation a,
        parse_sound _ issuer f9_issuer b,
        parse_sound _ root_cert root c,
        verify_chain_sound leaf issuer root_cert now d,
        verify_binding_sound evidence leaf issuer e,
        cc,
      )
