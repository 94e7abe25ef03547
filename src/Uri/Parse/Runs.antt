-- ===== src/Uri/Parse/Runs.antt =====
-- A TOTP URI read.
use canokey_manager.Prelude.{
  ℕ, ◌≡◌, ◌≢◌, ◌≤◌, refl, Bool, true, none, some, List, [], ◌∷◌, Result, ok, err,
}
use canokey_manager.Prelude.Text.{codes}
use canokey_manager.Oath.Name.{totp}
use canokey_manager.Uri.Parse.{OtpAuth, sha1, parse}
use canokey_manager.Uri.Parse.Valid.{parse-valid}

abbrev uri : List ℕ
uri = codes "otpauth://totp/A:b%20c?secret=AAAA&digits=8"

abbrev credential : OtpAuth
credential = record {
  kind = totp;
  issuer = some (codes "A");
  account = codes "b c";
  secret = 0 ∷ 0 ∷ [];
  algorithm = sha1;
  digits = 8;
  period = 30;
  counter = 0;
}

read : parse (λ s. s) (λ s. true) uri ≡ ok credential
unfolding parse canokey_manager.Uri.Base32.base32_decode
    canokey_manager.Prelude.Text.Decimal.parse_unsigned
read = refl

parse-valid_example :
    (credential.account ≢ [])
    × (credential.secret ≢ [])
    × (4 ≤ credential.digits)
    × (credential.digits ≤ 8)
    × (1 ≤ credential.period)
parse-valid_example = parse-valid (λ s. s) (λ s. true) uri credential read
