-- ===== src/Uri/Base32/Runs.antt =====
-- Runs of the base32 codec of crates/ckman-core/src/uri.rs, and its theorems at concrete inputs.
use canokey_manager.Prelude.{ℕ, ◌≡◌, refl, List, arith, ok, err}
use canokey_manager.Prelude.Text.{codes}
use canokey_manager.Uri.Base32.{base32_decode, base32_encode, encode_chunk, invalid_base32}
use canokey_manager.Uri.Base32.RoundTrip.{base32_decode-encode}
use canokey_manager.Uri.Base32.Decode.{normalized, base32_decode-normalized}

abbrev hello : List ℕ
hello = codes "Hello!"

hello_encoded : base32_encode hello ≡ codes "JBSWY3DPEE"
unfolding base32_encode encode_chunk
hello_encoded = refl

hello_spaced : base32_decode (codes "jbsw y3dp ee==") ≡ ok hello
unfolding base32_decode
hello_spaced = refl

-- A text of three digits loses bits and is refused.
truncated_text : base32_decode (codes "JBS") ≡ err invalid_base32
unfolding base32_decode
truncated_text = refl

base32_decode-encode_example : base32_decode (base32_encode hello) ≡ ok hello
base32_decode-encode_example = base32_decode-encode hello (omega arith)

base32_decode-normalized_example :
    base32_decode (normalized (codes "jbsw y3dp ee==")) ≡ base32_decode (codes "jbsw y3dp ee==")
base32_decode-normalized_example = base32_decode-normalized (codes "jbsw y3dp ee==")
