-- ===== src/Piv/Attestation/Runs.antt =====
-- An attestation that is accepted, over a small library that knows three certificates.
use canokey_manager.Prelude.{
  ℕ, ◌≡◌, refl, Bool, true, false, Option, none, some, List, [], ◌∷◌, ◌==◌, if◌then◌else◌, ok,
}
use canokey_manager.Piv.Attestation.{
  Name, AlgorithmIdentifier, Extension, Certificate, Library, generated, pin_once, touch_cached,
  known, MetadataFields, Evidence, serial_oid, policies_oid, bc_oid, ecdsa_sha256,
}
use canokey_manager.Piv.Attestation.Policy.{verify}
use canokey_manager.Piv.Attestation.Trust.{IsDecoded, IsChain, IsBound}
use canokey_manager.Piv.Attestation.Sound.{verify_sound}

abbrev common_name : ℕ → Name
common_name n = ((2 ∷ 5 ∷ 4 ∷ 3 ∷ [], n ∷ []) ∷ []) ∷ []

abbrev ecdsa : AlgorithmIdentifier
ecdsa = record { oid = ecdsa_sha256; parameters = none }

-- The certificate of the key `n` by `n + 1`.
abbrev certificate_of : ℕ → ℕ → List Extension → Certificate
certificate_of n issuer exts = record {
  is_v3 = true;
  issuer_unique_id = none;
  subject_unique_id = none;
  tbs_signature = ecdsa;
  signature_algorithm = ecdsa;
  issuer = common_name issuer;
  subject = common_name n;
  not_before = 100;
  not_after = 200;
  spki = n ∷ [];
  extensions = some exts;
  signature = some (issuer ∷ []);
}

abbrev authority : List Extension
authority = record { extn_id = bc_oid; critical = true; extn_value = 1 ∷ [] } ∷ []

abbrev leaf_extensions : List Extension
leaf_extensions =
    record { extn_id = serial_oid; critical = false; extn_value = 1 ∷ 2 ∷ 3 ∷ 4 ∷ [] }
    ∷ record { extn_id = policies_oid; critical = false; extn_value = 2 ∷ 3 ∷ [] }
    ∷ []

abbrev known_certificate : List ℕ → Option Certificate
known_certificate [] = none
known_certificate (k ∷ _) =
    if k == 1
    then some (certificate_of 1 2 leaf_extensions)
    else if k == 2
    then some (certificate_of 2 3 authority)
    else some (certificate_of 3 3 authority)

abbrev first_is : List ℕ → List ℕ → Bool
first_is (k ∷ _) (s ∷ _) = k == s
first_is _ _ = false

abbrev small_library : Library
small_library = record {
  certificate_from_der = known_certificate;
  basic_constraints_from_der = λ bytes. some (record { ca = true; path_len = none });
  key_usage_from_der = λ bytes. none;
  spki_to_der = some;
  tbs_to_der = λ cert. some cert.spki;
  p256_key = some;
  signature_from_der = some;
  p256_verify = λ key tbs signature. first_is key signature;
  sha256 = λ bytes. 7 ∷ bytes;
  parse_rfc4514 = λ text. some (common_name 1);
  key_to_spki = some;
}

abbrev metadata_of : ℕ → MetadataFields
metadata_of n = record {
  origin = some (known generated);
  public_key = some (n ∷ []);
  pin_policy = some (known pin_once);
  touch_policy = some (known touch_cached);
}

abbrev evidence : Evidence
evidence = record {
  certificate_der = 1 ∷ [];
  issuer_der = 2 ∷ [];
  slot = 0x9a;
  serial = 1 ∷ 2 ∷ 3 ∷ 4 ∷ [];
  target = metadata_of 1;
  signer = metadata_of 2;
}

accepted : verify small_library evidence (3 ∷ []) 150 ≡ ok (7 ∷ 3 ∷ [])
unfolding verify
accepted = refl

verify_sound_example :
    (leaf : Certificate) × (issuer : Certificate) × (root_cert : Certificate) × IsDecoded
      small_library
      (1 ∷ [])
      leaf
    × IsDecoded small_library (2 ∷ []) issuer
    × IsDecoded small_library (3 ∷ []) root_cert
    × IsChain small_library leaf issuer root_cert 150
    × IsBound small_library evidence leaf issuer
    × ((7 ∷ 3 ∷ []) ≡ small_library.sha256 (3 ∷ []))
verify_sound_example = verify_sound small_library evidence (3 ∷ []) 150 (7 ∷ 3 ∷ []) accepted
