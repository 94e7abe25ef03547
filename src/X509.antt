-- ===== src/X509.antt =====
-- Host-side signing for certificates, crates/ckman-core/src/x509.rs: the padding of an RSA signature and
-- the signature algorithms. The hash functions are a parameter.
mod Runs
use canokey_manager.Prelude.{
  ℕ, ◌+◌, ◌-◌, ◌<◌, ◌≤◌, ◌≡◌, ◌≢◌, ◌↔◌, refl, ap, sym, ◌∙◌, Bool, true, false, Option, none, some,
  List, [], ◌∷◌, ◌++◌, ltb, if◌then◌else◌, length, replicate, Result, ok, err, ◌>>=◌, ok_or, arith,
  length-append, length-replicate, Bool-cases, inl, inr, ok_injective,
}

pub data Algorithm : Type 0 where
  rsa1024 rsa2048 rsa3072 rsa4096 ecc_p256 ecc_p384 ecc_p521 secp256k1 : Algorithm
  ed25519 x25519 sm2 ml_dsa65 ml_kem768 : Algorithm
  other_algorithm : ℕ → Algorithm

pub data HashAlgorithm : Type 0 where
  sha256 sha384 sha512 : HashAlgorithm

pub data X509Error : Type 0 where
  unsupported_hash unsupported_algorithm : X509Error
  not_signing : Algorithm → X509Error

abbrev pub digest_length : HashAlgorithm → ℕ
digest_length sha256 = 32
digest_length sha384 = 48
digest_length sha512 = 64

-- The header of the DigestInfo.
abbrev pub digest_info_prefix : HashAlgorithm → List ℕ
digest_info_prefix sha256 =
    0x30 ∷ 0x31 ∷ 0x30 ∷ 0x0d ∷ 0x06 ∷ 0x09 ∷ 0x60 ∷ 0x86 ∷ 0x48 ∷ 0x01 ∷ 0x65 ∷ 0x03 ∷ 0x04 ∷ 0x02
    ∷ 0x01 ∷ 0x05 ∷ 0x00 ∷ 0x04 ∷ 0x20 ∷ []
digest_info_prefix sha384 =
    0x30 ∷ 0x41 ∷ 0x30 ∷ 0x0d ∷ 0x06 ∷ 0x09 ∷ 0x60 ∷ 0x86 ∷ 0x48 ∷ 0x01 ∷ 0x65 ∷ 0x03 ∷ 0x04 ∷ 0x02
    ∷ 0x02 ∷ 0x05 ∷ 0x00 ∷ 0x04 ∷ 0x30 ∷ []
digest_info_prefix sha512 =
    0x30 ∷ 0x51 ∷ 0x30 ∷ 0x0d ∷ 0x06 ∷ 0x09 ∷ 0x60 ∷ 0x86 ∷ 0x48 ∷ 0x01 ∷ 0x65 ∷ 0x03 ∷ 0x04 ∷ 0x02
    ∷ 0x03 ∷ 0x05 ∷ 0x00 ∷ 0x04 ∷ 0x40 ∷ []

-- `modulus_bytes - info.len() - 1 - 2` is what `resize` adds behind the two bytes.
unfoldable pub rsa_pkcs1v15_encode :
    (HashAlgorithm → List ℕ → List ℕ) → HashAlgorithm → List ℕ → ℕ → Result (List ℕ) X509Error
rsa_pkcs1v15_encode hash h message modulus_bytes =
    let info = digest_info_prefix h ++ hash h message in
    if ltb modulus_bytes (length info + 11)
    then err unsupported_hash
    else ok (
        (0 ∷ 1 ∷ [])
        ++ (replicate (modulus_bytes - length info - 1 - 2) 0xff ++ ((0 ∷ []) ++ info)))

enough : (modulus info : ℕ) → info + 11 ≤ modulus → ltb modulus (info + 11) ≡ false
enough modulus info h = ground arith

has_room : (modulus info : ℕ) → ltb modulus (info + 11) ≡ false → info + 11 ≤ modulus
has_room modulus info h = ground arith

-- What the padded message is: 00 01, at least eight bytes FF, 00, and the DigestInfo.
abbrev pub IsPadded :
    (HashAlgorithm → List ℕ → List ℕ) → HashAlgorithm → List ℕ → ℕ → List ℕ → Type 0
IsPadded hash h message modulus_bytes encoded =
    (n : ℕ) × (8 ≤ n)
    × (length encoded ≡ modulus_bytes)
    × (encoded ≡ 0 ∷ 1 ∷ (replicate n 0xff ++ (0 ∷ (digest_info_prefix h ++ hash h message))))

padded_length :
    (n : ℕ) (info : List ℕ) → length (replicate n 0xff ++ (0 ∷ info)) ≡ n + 1 + length info
padded_length n info =
    omega (arith, length-append (replicate n 0xff) (0 ∷ info), length-replicate {A = ℕ} n 0xff)

-- A message is encoded, as these bytes, exactly where they are 00 01, at least eight bytes FF, 00 and
-- the DigestInfo (its header and the digest), and are as many as the modulus has.
pub rsa_pkcs1v15_encode_lem :
    (hash : HashAlgorithm → List ℕ → List ℕ) (h : HashAlgorithm) (message : List ℕ)
    (modulus_bytes : ℕ) (encoded : List ℕ)
    → (rsa_pkcs1v15_encode hash h message modulus_bytes ≡ ok encoded)
      ↔ IsPadded hash h message modulus_bytes encoded
unfolding rsa_pkcs1v15_encode
rsa_pkcs1v15_encode_lem hash h message modulus_bytes encoded = (padded, encodes)
  where
    padded :
        rsa_pkcs1v15_encode hash h message modulus_bytes ≡ ok encoded
        → IsPadded hash h message modulus_bytes encoded
    padded e =
        let info = digest_info_prefix h ++ hash h message in
        let n = modulus_bytes - length info - 1 - 2 in
        elim (Bool-cases (ltb modulus_bytes (length info + 11))) [
          | inl short ↦ absurd (cc (rw short at e))
          | inr room ↦
              let same = sym (ok_injective (rw room at e)) in
              let fits = has_room modulus_bytes (length info) room in
              (
                n,
                omega (arith, fits),
                ap length same ∙ omega (arith, padded_length n info, fits),
                same,
              )
        ]

    encodes :
        IsPadded hash h message modulus_bytes encoded
        → rsa_pkcs1v15_encode hash h message modulus_bytes ≡ ok encoded
    encodes (n, least, total, same) =
        let info = digest_info_prefix h ++ hash h message in
        let size : n + 3 + length info ≡ modulus_bytes =
          omega (arith, padded_length n info, ap length same, total) in
        let rest : modulus_bytes - length info - 1 - 2 ≡ n = omega (arith, size) in
        rw (enough modulus_bytes (length info) (omega (arith, size, least)))
          (rw rest (ap ok (sym same)))

-- The arcs of the object identifiers.
abbrev ecdsa_oid : HashAlgorithm → List ℕ
ecdsa_oid sha256 = 1 ∷ 2 ∷ 840 ∷ 10045 ∷ 4 ∷ 3 ∷ 2 ∷ []
ecdsa_oid sha384 = 1 ∷ 2 ∷ 840 ∷ 10045 ∷ 4 ∷ 3 ∷ 3 ∷ []
ecdsa_oid sha512 = 1 ∷ 2 ∷ 840 ∷ 10045 ∷ 4 ∷ 3 ∷ 4 ∷ []

abbrev rsa_oid : HashAlgorithm → List ℕ
rsa_oid sha256 = 1 ∷ 2 ∷ 840 ∷ 113549 ∷ 1 ∷ 1 ∷ 11 ∷ []
rsa_oid sha384 = 1 ∷ 2 ∷ 840 ∷ 113549 ∷ 1 ∷ 1 ∷ 12 ∷ []
rsa_oid sha512 = 1 ∷ 2 ∷ 840 ∷ 113549 ∷ 1 ∷ 1 ∷ 13 ∷ []

abbrev hashed : (HashAlgorithm → List ℕ) → Option HashAlgorithm → Result (List ℕ) X509Error
hashed oid none = err unsupported_hash
hashed oid (some h) = ok (oid h)

unfoldable pub signature_oid : Algorithm → Option HashAlgorithm → Result (List ℕ) X509Error
signature_oid ed25519 none = ok (1 ∷ 3 ∷ 101 ∷ 112 ∷ [])
signature_oid sm2 none = ok (1 ∷ 2 ∷ 156 ∷ 10197 ∷ 1 ∷ 501 ∷ [])
signature_oid ml_dsa65 none = ok (2 ∷ 16 ∷ 840 ∷ 1 ∷ 101 ∷ 3 ∷ 4 ∷ 3 ∷ 18 ∷ [])
signature_oid x25519 hash = err (not_signing x25519)
signature_oid ml_kem768 hash = err (not_signing ml_kem768)
signature_oid ecc_p521 hash = hashed ecdsa_oid hash
signature_oid secp256k1 hash = hashed ecdsa_oid hash
signature_oid rsa1024 hash = hashed rsa_oid hash
signature_oid rsa2048 hash = hashed rsa_oid hash
signature_oid rsa3072 hash = hashed rsa_oid hash
signature_oid rsa4096 hash = hashed rsa_oid hash
signature_oid ecc_p256 hash = hashed ecdsa_oid hash
signature_oid ecc_p384 hash = hashed ecdsa_oid hash
signature_oid _ hash = err unsupported_algorithm

-- `some tt` is the parameter NULL.
pub record AlgorithmIdentifier : Type 0 where
  pub oid : List ℕ
  pub parameters : Option (Unit {0})

abbrev pub is_rsa : Algorithm → Bool
is_rsa rsa1024 = true
is_rsa rsa2048 = true
is_rsa rsa3072 = true
is_rsa rsa4096 = true
is_rsa _ = false

unfoldable pub signature_algorithm :
    Algorithm → Option HashAlgorithm → Result AlgorithmIdentifier X509Error
unfolding signature_oid
signature_algorithm key hash = signature_oid key hash >>= λ oid.
    ok (record { oid = oid; parameters = if is_rsa key then some tt else none })
