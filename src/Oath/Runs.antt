-- ===== src/Oath/Runs.antt =====
-- Runs of crates/ckman-core/src/oath.rs, and the theorems at concrete inputs.
use canokey_manager.Prelude.{◌≡◌, refl, inr, none, some, [], ◌∷◌, arith}
use canokey_manager.Prelude.Text.{codes, split_once}
use canokey_manager.Prelude.Text.Decimal.{to_decimal}
use canokey_manager.Oath.Name.{totp, parse_name, format_id}
use canokey_manager.Oath.Name.RoundTrip.{parse_name-format_id}
use canokey_manager.Oath.Code.{Code, truncated, code_value}

-- An account that looks like a period is stored behind its own period.
ambiguous_id : format_id none (codes "60/alice") totp 30 ≡ codes "30/60/alice"
unfolding format_id split_once to_decimal
ambiguous_id = refl

parse_name-format_id_example :
    parse_name (format_id none (codes "60/alice") totp 30) totp
    ≡ record { issuer = none; account = codes "60/alice"; period = 30 }
parse_name-format_id_example =
    parse_name-format_id none (codes "60/alice") totp 30 (omega arith) (inr (omega arith))

abbrev response : Code
response = truncated (0x12 ∷ 0x34 ∷ 0x56 ∷ 0x78 ∷ [])

response_value : code_value response ≡ some 0x1234_5678
unfolding code_value
response_value = refl
