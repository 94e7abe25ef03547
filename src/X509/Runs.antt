-- ===== src/X509/Runs.antt =====
-- The RSA padding at a short message.
use canokey_manager.Prelude.{ℕ, ◌≡◌, ◌↔◌, refl, List, [], ◌∷◌, ◌++◌, replicate, ok}
use canokey_manager.X509.{
  HashAlgorithm, sha256, digest_info_prefix, IsPadded, rsa_pkcs1v15_encode, rsa_pkcs1v15_encode_lem,
}

abbrev no_hash : HashAlgorithm → List ℕ → List ℕ
no_hash h message = message

abbrev encoded_7 : List ℕ
encoded_7 = 0 ∷ 1 ∷ (replicate 8 0xff ++ (0 ∷ (digest_info_prefix sha256 ++ (7 ∷ []))))

rsa_pkcs1v15_encode_lem_example :
    (rsa_pkcs1v15_encode no_hash sha256 (7 ∷ []) 31 ≡ ok encoded_7)
    ↔ IsPadded no_hash sha256 (7 ∷ []) 31 encoded_7
rsa_pkcs1v15_encode_lem_example = rsa_pkcs1v15_encode_lem no_hash sha256 (7 ∷ []) 31 encoded_7

encoded_run : rsa_pkcs1v15_encode no_hash sha256 (7 ∷ []) 31 ≡ ok encoded_7
unfolding rsa_pkcs1v15_encode
encoded_run = refl
