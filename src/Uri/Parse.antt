-- ===== src/Uri/Parse.antt =====
-- `percent_decode` and `parse` of crates/ckman-core/src/uri.rs, over the bytes of the text. `trim` is
-- `str::trim`, `is_utf8` the test of `str::from_utf8`.
pub mod Valid
mod Runs
use canokey_manager.Prelude.{
  ℕ, ◌+◌, ◌-◌, ◌*◌, Bool, true, false, not, ◌&&◌, ◌||◌, Option, none, some, List, [], ◌∷◌, ◌++◌,
  ltb, leb, ◌==◌, if◌then◌else◌, length, Result, ok, err, ◌>>=◌, ◌>>◌, guard, ok_or, map_err,
}
use canokey_manager.Prelude.Bytes.{bytes_eq}
use canokey_manager.Prelude.Text.{codes, is_empty, split_once}
use canokey_manager.Prelude.Text.Decimal.{parse_unsigned, u32_limit}
use canokey_manager.Oath.Name.{Kind, totp, hotp}
use canokey_manager.Uri.Base32.{Base32Error, base32_decode}

pub data UriError : Type 0 where
  scheme kind_error missing_name missing_secret percent_encoding algorithm_error digits_error
        period_error counter_error :
      UriError
  secret_error : Base32Error → UriError
  duplicate_parameter : ℕ → UriError

pub data Algorithm : Type 0 where
  sha1 sha256 sha512 : Algorithm

pub record OtpAuth : Type 0 where
  pub kind : Kind
  pub issuer : Option (List ℕ)
  pub account : List ℕ
  pub secret : List ℕ
  pub algorithm : Algorithm
  pub digits : ℕ
  pub period : ℕ
  pub counter : ℕ

unfoldable pub hex : ℕ → Result ℕ UriError
hex b =
    if leb b'0' b && leb b b'9'
    then ok (b - b'0')
    else if leb b'a' b && leb b b'f'
    then ok (b - b'a' + 10)
    else if leb b'A' b && leb b b'F'
    then ok (b - b'A' + 10)
    else err percent_encoding

abbrev pub push_front : ℕ → Result (List ℕ) UriError → Result (List ℕ) UriError
push_front b r = r >>= λ decoded. ok (b ∷ decoded)

abbrev pub escape : ℕ → ℕ → Result (List ℕ) UriError → Result (List ℕ) UriError
escape h l r = hex h >>= λ a. hex l >>= λ b. push_front (a * 16 + b) r

-- The loop over the bytes.
unfoldable pub percent_loop : List ℕ → Result (List ℕ) UriError
unfolding hex
percent_loop [] = ok []
percent_loop (c ∷ []) = if c == b'%' then err percent_encoding else ok (c ∷ [])
percent_loop (c ∷ d ∷ []) =
    let rest = percent_loop (d ∷ []) in
    if c == b'%' then err percent_encoding else push_front c rest
percent_loop (c ∷ h ∷ l ∷ rest) =
    let plain = percent_loop (h ∷ l ∷ rest) in
    let behind = percent_loop rest in if c == b'%' then escape h l behind else push_front c plain

-- `split(c)`
abbrev pub add_to_first : ℕ → List (List ℕ) → List (List ℕ)
add_to_first c [] = (c ∷ []) ∷ []
add_to_first c (part ∷ parts) = (c ∷ part) ∷ parts

unfoldable pub split : ℕ → List ℕ → List (List ℕ)
split sep [] = [] ∷ []
split sep (c ∷ s) = let rest = split sep s in if c == sep then [] ∷ rest else add_to_first c rest

-- `str::strip_prefix`
unfoldable pub strip_prefix : List ℕ → List ℕ → Option (List ℕ)
strip_prefix [] s = some s
strip_prefix (p ∷ prefix) [] = none
strip_prefix (p ∷ prefix) (c ∷ s) = if p == c then strip_prefix prefix s else none

unfoldable pub position : List (List ℕ) → List ℕ → Option ℕ
unfolding bytes_eq
position [] key = none
position (parameter ∷ parameters) key =
    let later = position parameters key in
    if bytes_eq parameter key then some 0 else elim later [ none ↦ none | some i ↦ some (i + 1) ]

abbrev pub parameters : List (List ℕ)
parameters =
    codes "secret"
    ∷ codes "issuer"
    ∷ codes "algorithm"
    ∷ codes "digits"
    ∷ codes "period"
    ∷ codes "counter"
    ∷ []

unfoldable pub is_seen : ℕ → List ℕ → Bool
is_seen i [] = false
is_seen i (j ∷ seen) = i == j || is_seen i seen

-- The variables of the loop over the query; `seen` are the indices whose flag is set.
pub record Query : Type 0 where
  pub secret : Option (List ℕ)
  pub issuer : Option (List ℕ)
  pub algorithm : Algorithm
  pub digits : ℕ
  pub period : ℕ
  pub counter : Option ℕ
  pub seen : List ℕ

abbrev pub upper : ℕ → ℕ
upper c = if leb b'a' c && leb c b'z' then c - 32 else c

abbrev pub upper_case : List ℕ → List ℕ
upper_case [] = []
upper_case (c ∷ s) = upper c ∷ upper_case s

unfoldable pub algorithm_of : List ℕ → Result Algorithm UriError
unfolding bytes_eq
algorithm_of name =
    if bytes_eq name (codes "SHA1")
    then ok sha1
    else if bytes_eq name (codes "SHA256")
    then ok sha256
    else if bytes_eq name (codes "SHA512")
    then ok sha512
    else err algorithm_error

-- The arm of `match key.as_str()` of each index.
unfoldable pub set_parameter : Query → ℕ → List ℕ → Result Query UriError
unfolding algorithm_of
set_parameter q index value =
    if index == 0
    then map_err secret_error (base32_decode value)
      >>= (λ bytes. ok (record q { secret = some bytes }))
    else if index == 1
    then ok (record q { issuer = some value })
    else if index == 2
    then algorithm_of (upper_case value) >>= (λ a. ok (record q { algorithm = a }))
    else if index == 3
    then (do
      n ← ok_or (parse_unsigned 256 value) digits_error
      guard (leb 4 n && leb n 8) digits_error
      ok (record q { digits = n }))
    else if index == 4
    then (do
      n ← ok_or (parse_unsigned u32_limit value) period_error
      guard (not (n == 0)) period_error
      ok (record q { period = n }))
    else ok_or (parse_unsigned u32_limit value) counter_error >>= λ n.
        ok (record q { counter = some n })

unfoldable pub apply_parameter : Query → Option ℕ → List ℕ → Result Query UriError
unfolding set_parameter is_seen
apply_parameter q none value = ok q
apply_parameter q (some index) value =
    if is_seen index q.seen
    then err (duplicate_parameter index)
    else set_parameter (record q { seen = index ∷ q.seen }) index value

abbrev pub pair_or : List ℕ → Option (List ℕ × List ℕ) → List ℕ × List ℕ
pair_or whole none = (whole, [])
pair_or whole (some pair) = pair

abbrev pub query_start : Option (List ℕ) → Query
query_start issuer = record {
  secret = none;
  issuer = issuer;
  algorithm = sha1;
  digits = 6;
  period = 30;
  counter = none;
  seen = [];
}

abbrev pub kind_of : List ℕ → Result Kind UriError
kind_of name =
    if bytes_eq name (codes "totp")
    then ok totp
    else if bytes_eq name (codes "hotp")
    then ok hotp
    else err kind_error

-- `label.split_once(':')`
abbrev pub label_of : List ℕ → Option (List ℕ × List ℕ) → Option (List ℕ) × List ℕ
label_of whole none = (none, whole)
label_of whole (some (issuer, account)) = (some issuer, account)

abbrev pub filled : Option (List ℕ) → Option (List ℕ)
filled none = none
filled (some bytes) = if is_empty bytes then none else some bytes

abbrev pub counter_of : Kind → Option ℕ → Result ℕ UriError
counter_of kind (some n) = ok n
counter_of hotp none = err counter_error
counter_of totp none = ok 0

module _ (trim : List ℕ → List ℕ) (is_utf8 : List ℕ → Bool) where
  unfoldable pub percent_decode : List ℕ → Result (List ℕ) UriError
  unfolding percent_loop
  percent_decode input = do
    output ← percent_loop input
    guard (is_utf8 output) percent_encoding
    ok output

  unfoldable pub read_pair : Query → List ℕ → Result Query UriError
  unfolding apply_parameter position percent_decode split_once
  read_pair q pair = if is_empty pair then ok q else (do
    let parts = pair_or pair (split_once b'=' pair)
    key ← percent_decode parts.0
    value ← percent_decode parts.1
    apply_parameter q (position parameters key) value)

  unfoldable pub read_query : Query → List (List ℕ) → Result Query UriError
  unfolding read_pair
  read_query q [] = ok q
  read_query q (pair ∷ pairs) = read_pair q pair >>= λ q'. read_query q' pairs

  -- What is built once the query is read.
  unfoldable pub finish : Kind → List ℕ → Query → Result OtpAuth UriError
  finish kind account q = do
    secret ← ok_or (filled q.secret) missing_secret
    counter ← counter_of kind q.counter
    ok (record {
      kind = kind;
      issuer = q.issuer;
      account = account;
      secret = secret;
      algorithm = q.algorithm;
      digits = q.digits;
      period = q.period;
      counter = counter;
    })

  unfoldable pub parse : List ℕ → Result OtpAuth UriError
  unfolding strip_prefix split_once percent_decode read_query finish bytes_eq split
  parse uri = do
    rest ← ok_or (strip_prefix (codes "otpauth://") (trim uri)) scheme
    parts ← ok_or (split_once b'/' rest) kind_error
    kind ← kind_of parts.0
    let halves = pair_or parts.1 (split_once b'?' parts.1)
    label ← percent_decode halves.0
    let named = label_of label (split_once b':' label)
    guard (not (is_empty named.1)) missing_name
    q ← read_query (query_start named.0) (split b'&' halves.1)
    finish kind named.1 q
