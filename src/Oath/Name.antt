-- ===== src/Oath/Name.antt =====
-- `parse_name` and `format_id` of crates/ckman-core/src/oath.rs. A text is its bytes: the code
-- splits it at ASCII characters only. `parse_name` is given the text that `from_utf8_lossy` makes of
-- the raw bytes, which is those bytes themselves where they are UTF-8.
pub mod RoundTrip
use canokey_manager.Prelude.{
  ℕ, Bool, true, false, not, ◌&&◌, ◌||◌, Option, none, some, List, [], ◌∷◌, ◌++◌, ◌==◌,
  if◌then◌else◌,
}
use canokey_manager.Prelude.Text.{is_empty, split_once, starts_with, all_digits}
use canokey_manager.Prelude.Text.Decimal.{to_decimal, parse_unsigned, u32_limit}

-- The kinds of credential that the source tells apart; the type is the SDK's.
pub data Kind : Type 0 where
  hotp totp : Kind

abbrev pub default_period : ℕ
default_period = 30

pub record ParsedName : Type 0 where
  pub issuer : Option (List ℕ)
  pub account : List ℕ
  pub period : ℕ

-- The head of a `period/` prefix: not empty, and all digits.
unfoldable pub is_period : List ℕ → Bool
is_period head = not (is_empty head) && all_digits head

unfoldable pub accept_period : List ℕ → List ℕ → List ℕ → Option ℕ → ℕ × List ℕ
accept_period text head tail none = (default_period, text)
accept_period text head tail (some parsed) = (parsed, tail)

unfoldable pub split_period : List ℕ → Option (List ℕ × List ℕ) → ℕ × List ℕ
unfolding accept_period is_period
split_period text none = (default_period, text)
split_period text (some (head, tail)) =
    if is_period head
    then accept_period text head tail (parse_unsigned u32_limit head)
    else (default_period, text)

-- The period and what is left of the text.
unfoldable pub parse_period : Kind → List ℕ → ℕ × List ℕ
unfolding split_period
parse_period hotp text = (0, text)
parse_period totp text = split_period text (split_once b'/' text)

unfoldable pub accept_issuer : List ℕ → Option (List ℕ × List ℕ) → Option (List ℕ) × List ℕ
accept_issuer rest none = (none, rest)
accept_issuer rest (some (head, tail)) = (some head, tail)

unfoldable pub parse_issuer : List ℕ → Option (List ℕ) × List ℕ
unfolding accept_issuer
parse_issuer rest =
    if starts_with b':' rest then (none, rest) else accept_issuer rest (split_once b':' rest)

unfoldable pub parse_name : List ℕ → Kind → ParsedName
unfolding parse_period parse_issuer
parse_name text kind =
    let (period, rest) = parse_period kind text in
    let (issuer, account) = parse_issuer rest in
    record { issuer = issuer; account = account; period = period }

-- `[issuer:]account`, where an empty issuer counts as none.
unfoldable pub label : Option (List ℕ) → List ℕ → List ℕ
label none account = account
label (some issuer) account = if is_empty issuer then account else issuer ++ (b':' ∷ account)

unfoldable pub has_period_head : Option (List ℕ × List ℕ) → Bool
unfolding is_period
has_period_head none = false
has_period_head (some (head, tail)) = is_period head

unfoldable pub is_ambiguous : List ℕ → Bool
unfolding has_period_head
is_ambiguous id = has_period_head (split_once b'/' id)

unfoldable pub is_totp : Kind → Bool
is_totp totp = true
is_totp hotp = false

unfoldable pub format_id : Option (List ℕ) → List ℕ → Kind → ℕ → List ℕ
unfolding label is_ambiguous is_totp
format_id issuer account kind period =
    let id = label issuer account in
    if is_totp kind && (not (period == default_period) || is_ambiguous id)
    then to_decimal period ++ (b'/' ∷ id)
    else id
