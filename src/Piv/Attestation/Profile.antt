-- ===== src/Piv/Attestation/Profile.antt =====
-- What `check_profile` (crates/ckman-core/src/piv/attestation.rs) guarantees.
use canokey_manager.Prelude.{
  ℕ, ◌≤◌, ◌≡◌, ◌≢◌, ◌⊎◌, inl, inr, refl, ap, sym, ◌∙◌, true, false, not, ◌&&◌, Option, none, some,
  List, [], ◌∷◌, ltb, ok, guard, ok_or, >>=-eq-ok, All, arith, Bool-cases, Option-cases,
}
use canokey_manager.Prelude.Bytes.{bytes_eq, bytes_eq_sound, bytes_eq_refl}
use canokey_manager.Piv.Attestation.{
  Role, duplicate_extension, unsupported_critical, malformed_basic_constraints, malformed_key_usage,
  AttestationError, certificate, Oid, Extension, Certificate, BasicConstraints, KeyUsage, Library,
  bc_oid, ku_oid, ecdsa_sha256, algorithm_eq, is_none, extension, has_id, check_extensions,
  decode_optional, only_ca, exceeds, constrains, signs, check_usage,
}
use canokey_manager.Piv.Attestation.Policy.{
  is_current, is_plain, is_ecdsa_sha256, extension_list, check_profile,
}
use canokey_manager.Piv.Attestation.Equality.{
  guard-eq-ok, ok_or-eq-ok, &&-eq-true, ||-eq-false, not-eq-true, is_none-eq-true, option_eq_sound,
}
use canokey_manager.Piv.Attestation.Trust.{
  HasDistinctIds, IsUnderstood, IsProfile, AllowsBelow, WhenPresent, IsCa, IsEndEntity,
}

abbrev DiffersFrom : List Extension → Extension → Type 0
DiffersFrom seen ext = All (λ other. ext.extn_id ≢ other.extn_id) seen

has_id_sound :
    (oid : Oid) (seen : List Extension)
    → has_id oid seen ≡ false
    → All (λ other. oid ≢ other.extn_id) seen
unfolding has_id
has_id_sound oid [] h = tt
has_id_sound oid (ext ∷ seen) h = elim (Bool-cases (bytes_eq ext.extn_id oid)) [
  | inl e ↦ absurd (cc (rw e at h))
  | inr e ↦ (
    (λ same. cc (bytes_eq_refl oid, ap (λ o. bytes_eq o oid) (sym same))),
    has_id_sound oid seen (rw e at h),
  )
]

understood :
    (ext : Extension)
    → not (ext.critical && (not (bytes_eq ext.extn_id bc_oid) && not (bytes_eq ext.extn_id ku_oid)))
      ≡ true
    → IsUnderstood ext
understood ext h critical = elim (Bool-cases (bytes_eq ext.extn_id bc_oid)) [
  | inl e ↦ inl (bytes_eq_sound _ _ e)
  | inr e ↦ elim (Bool-cases (bytes_eq ext.extn_id ku_oid)) [
    | inl f ↦ inr (bytes_eq_sound _ _ f)
    | inr f ↦ absurd (cc (rw (critical, e, f) at h))
  ]
]

differ-split :
    (ext : Extension) (seen exts : List Extension)
    → All (DiffersFrom (ext ∷ seen)) exts
    → All (λ other. ext.extn_id ≢ other.extn_id) exts × All (DiffersFrom seen) exts
differ-split ext seen [] h = (tt, tt)
differ-split ext seen (other ∷ exts) h =
    let (a, b) = differ-split ext seen exts h.1 in (((λ e. h.0.0 (sym e)), a), (h.0.1, b))

check_extensions_sound :
    (role : Role) (seen exts : List Extension)
    → check_extensions role seen exts ≡ ok tt
    → HasDistinctIds exts × (All IsUnderstood exts × All (DiffersFrom seen) exts)
unfolding check_extensions
check_extensions_sound role seen [] h = (tt, (tt, tt))
check_extensions_sound role seen (ext ∷ exts) h =
    let (u, new, h1) =
      >>=-eq-ok (guard (not (has_id ext.extn_id seen)) (certificate role duplicate_extension)) _
        h in
    let (v, fine, h2) =
      >>=-eq-ok
        (guard
          (not (
            ext.critical
            && (not (bytes_eq ext.extn_id bc_oid) && not (bytes_eq ext.extn_id ku_oid))))
          (certificate role unsupported_critical))
        _ h1 in
    let (distinct, (each, others)) = check_extensions_sound role (ext ∷ seen) exts h2 in
    let (a, b) = differ-split ext seen exts others in
    (
      (a, distinct),
      (
        (understood ext (guard-eq-ok _ _ fine), each),
        (has_id_sound ext.extn_id seen (not-eq-true _ (guard-eq-ok _ _ new)), b),
      ),
    )

not_less : (a b : ℕ) → ltb a b ≡ false → b ≤ a
not_less a b h = ground arith

is_current_sound :
    (now : ℕ) (cert : Certificate)
    → is_current now cert ≡ true
    → (cert.not_before ≤ now) × (now ≤ cert.not_after)
is_current_sound now cert h =
    let (a, b) = ||-eq-false (ltb cert.not_after cert.not_before) _ h in
    let (c, d) = ||-eq-false (ltb now cert.not_before) (ltb cert.not_after now) (rw b refl) in
    (not_less now cert.not_before c, not_less cert.not_after now d)

decode_optional-cases :
    {A : Type 0} (decode : List ℕ → Option A) (o : Option (List ℕ)) (e : AttestationError)
    (r : Option A)
    → decode_optional decode o e ≡ ok r
    → ((o ≡ none) × (r ≡ none))
      ⊎ ((bytes : List ℕ) × (a : A) × (o ≡ some bytes) × (decode bytes ≡ some a) × (r ≡ some a))
unfolding decode_optional
decode_optional-cases decode none e r h = inl (refl, cc)
decode_optional-cases decode (some bytes) e r h = elim (Option-cases (decode bytes)) [
  | inl n ↦ absurd (cc (rw (n, decode_optional) at h))
  | inr (a, n) ↦ inr (bytes, a, refl, n, cc (rw (n, decode_optional) at h))
]

only_ca_sound :
    (o : Option BasicConstraints) (bc : BasicConstraints)
    → only_ca o ≡ some bc
    → (o ≡ some bc) × (bc.ca ≡ true)
only_ca_sound none bc h = absurd (cc)
only_ca_sound (some found) bc h = elim (Bool-cases found.ca) [
  | inl e ↦ let same : found ≡ bc = cc (rw e at h) in (ap some same, ap (λ b. b.ca) (sym same) ∙ e)
  | inr e ↦ absurd (cc (rw e at h))
]

exceeds_sound :
    (depth : ℕ) (limit : Option ℕ) → not (exceeds depth limit) ≡ true → AllowsBelow depth limit
exceeds_sound depth none h = tt
exceeds_sound depth (some limit) h = not_less limit depth (not-eq-true _ h)

module _ (lib : Library) where
  -- A decoded extension that satisfies what the last part of the profile asks.
  when_present :
      {A : Type 0} (decode : List ℕ → Option A) (P : A → Type 0) (o : Option (List ℕ))
      (e : AttestationError) (r : Option A)
      → decode_optional decode o e ≡ ok r
      → ((a : A) → r ≡ some a → P a)
      → WhenPresent decode P o
  when_present decode P o e r h holds = elim (decode_optional-cases decode o e r h) [
    | inl (absent, _) ↦ rw absent tt
    | inr (bytes, a, present, decoded, same) ↦ rw present (a, decoded, holds a same)
  ]

  check_usage-IsCa :
      (cert : Certificate) (role : Role) (depth : ℕ) (bc : Option BasicConstraints)
      (ku : Option KeyUsage) (e f : AttestationError)
      → decode_optional lib.basic_constraints_from_der (extension cert bc_oid) e ≡ ok bc
      → decode_optional lib.key_usage_from_der (extension cert ku_oid) f ≡ ok ku
      → check_usage role (some depth) bc ku ≡ ok tt
      → IsCa lib depth cert
  unfolding check_usage
  check_usage-IsCa cert role depth bc ku e f decoded used h =
      let (ca, a, h1) = >>=-eq-ok (ok_or (only_ca bc) _) _ h in
      let (u, b, h2) = >>=-eq-ok (guard (not (exceeds depth ca.path_len)) _) _ h1 in
      let (found, is_ca) = only_ca_sound bc ca (ok_or-eq-ok _ _ a) in
      let limit = exceeds_sound depth ca.path_len (guard-eq-ok _ _ b) in
      (
        elim (decode_optional-cases lib.basic_constraints_from_der (extension cert bc_oid) e bc
            decoded) [
              | inl (_, absent) ↦ absurd (cc)
              | inr (bytes, x, present, parsed, same) ↦
                  (bytes, ca, present, parsed ∙ sym same ∙ found, is_ca, limit)
            ],
        when_present lib.key_usage_from_der (λ k. k.key_cert_sign ≡ true) _ f ku used
            (λ k same. lacks k (rw same at (guard-eq-ok _ _ h2))),
      )
    where
      lacks : (k : KeyUsage) → not (not k.key_cert_sign) ≡ true → k.key_cert_sign ≡ true
      lacks k h = elim (Bool-cases k.key_cert_sign) [ inl e ↦ e | inr e ↦ absurd (cc (rw e at h)) ]

  check_usage-IsEndEntity :
      (cert : Certificate) (role : Role) (bc : Option BasicConstraints) (ku : Option KeyUsage)
      (e f : AttestationError)
      → decode_optional lib.basic_constraints_from_der (extension cert bc_oid) e ≡ ok bc
      → decode_optional lib.key_usage_from_der (extension cert ku_oid) f ≡ ok ku
      → check_usage role none bc ku ≡ ok tt
      → IsEndEntity lib cert
  unfolding check_usage
  check_usage-IsEndEntity cert role bc ku e f decoded used h =
      let (a, b) = ||-eq-false (constrains bc) (signs ku) (guard-eq-ok _ _ h) in
      (
        when_present lib.basic_constraints_from_der _ _ e bc decoded
            (λ c same. limits c (rw same at a)),
        when_present lib.key_usage_from_der _ _ f ku used
            (λ k same. ||-eq-false k.key_cert_sign k.crl_sign (rw (rw same at b) refl)),
      )
    where
      limits :
          (c : BasicConstraints)
          → constrains (some c) ≡ false
          → (c.ca ≡ false) × (c.path_len ≡ none)
      limits c h =
          let (x, y) = ||-eq-false c.ca (not (is_none c.path_len)) (rw h refl) in
          (
            x,
            is_none-eq-true c.path_len (elim (Bool-cases (is_none c.path_len)) [
              | inl e ↦ e
              | inr e ↦ absurd (cc (rw e at y))
            ]),
          )

  check_profile-parts :
      (cert : Certificate) (role : Role) (now : ℕ) (depth : Option ℕ)
      → check_profile lib cert role now depth ≡ ok tt
      → IsProfile now cert
        × ((bc : Option BasicConstraints) × (ku : Option KeyUsage) × (decode_optional
                lib.basic_constraints_from_der
                (extension cert bc_oid)
                (certificate role malformed_basic_constraints)
              ≡ ok bc)
            × (decode_optional lib.key_usage_from_der
                  (extension cert ku_oid)
                  (certificate role malformed_key_usage)
                ≡ ok ku)
            × (check_usage role depth bc ku ≡ ok tt))
  unfolding check_profile
  check_profile-parts cert role now depth h =
      let (u, plain, h1) = >>=-eq-ok (guard (is_plain cert) _) _ h in
      let (v, algorithm, h2) = >>=-eq-ok (guard (is_ecdsa_sha256 cert) _) _ h1 in
      let (w, current, h3) = >>=-eq-ok (guard (is_current now cert) _) _ h2 in
      let (x, extended, h4) =
        >>=-eq-ok (check_extensions role [] (extension_list cert.extensions)) _ h3 in
      let (bc, decoded, h5) = >>=-eq-ok (decode_optional lib.basic_constraints_from_der _ _) _ h4 in
      let (ku, used, h6) = >>=-eq-ok (decode_optional lib.key_usage_from_der _ _) _ h5 in
      let (v3, ids) = &&-eq-true cert.is_v3 _ (guard-eq-ok _ _ plain) in
      let (issuer_id, subject_id) = &&-eq-true (is_none cert.issuer_unique_id) _ ids in
      let (same, rest) =
        &&-eq-true (algorithm_eq cert.signature_algorithm cert.tbs_signature) _
          (guard-eq-ok _ _ algorithm) in
      let (oid, parameters) =
        &&-eq-true (bytes_eq cert.signature_algorithm.oid ecdsa_sha256) _ rest in
      let (same_oid, same_parameters) =
        &&-eq-true (bytes_eq cert.signature_algorithm.oid cert.tbs_signature.oid) _ same in
      let is_oid = bytes_eq_sound _ _ oid in
      let no_parameters = is_none-eq-true cert.signature_algorithm.parameters parameters in
      let (distinct, (each, _)) =
        check_extensions_sound role [] (extension_list cert.extensions) extended in
      let (from, until) = is_current_sound now cert (guard-eq-ok _ _ current) in
      (
        (
          v3,
          is_none-eq-true _ issuer_id,
          is_none-eq-true _ subject_id,
          is_oid,
          no_parameters,
          sym (bytes_eq_sound _ _ same_oid) ∙ is_oid,
          sym (option_eq_sound _ _ same_parameters) ∙ no_parameters,
          from,
          until,
          distinct,
          each,
        ),
        (bc, ku, decoded, used, h6),
      )

  pub check_profile-IsCa :
      (cert : Certificate) (role : Role) (now depth : ℕ)
      → check_profile lib cert role now (some depth) ≡ ok tt
      → IsProfile now cert × IsCa lib depth cert
  check_profile-IsCa cert role now depth h =
      let (profile, (bc, ku, decoded, used, last)) =
        check_profile-parts cert role now (some depth) h in
      (profile, check_usage-IsCa cert role depth bc ku _ _ decoded used last)

  pub check_profile-IsEndEntity :
      (cert : Certificate) (role : Role) (now : ℕ)
      → check_profile lib cert role now none ≡ ok tt
      → IsProfile now cert × IsEndEntity lib cert
  check_profile-IsEndEntity cert role now h =
      let (profile, (bc, ku, decoded, used, last)) = check_profile-parts cert role now none h in
      (profile, check_usage-IsEndEntity cert role bc ku _ _ decoded used last)
