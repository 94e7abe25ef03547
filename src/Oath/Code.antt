-- ===== src/Oath/Code.antt =====
-- `totp_challenge` and `steam_code` of crates/ckman-core/src/oath.rs.
use canokey_manager.Prelude.{
  ℕ, zero, suc, ◌+◌, ◌*◌, ◌/◌, ◌%◌, ◌^◌, ◌<◌, ◌≡◌, refl, ap, Option, none, some, List, [], ◌∷◌,
  ◌++◌, arith, length, get_or, drop, All, true, ◌==◌, ==_iff, if◌then◌else◌,
}
use canokey_manager.Prelude.Bytes.{IsByte, be32, of_be32, all_below, all_below_sound}
use canokey_manager.Prelude.Text.{codes}

-- `u64::to_be_bytes`
abbrev pub be64 : ℕ → List ℕ
be64 n = be32 (n / 2 ^ 32) ++ be32 n

-- The `assert!` of a positive period is a fault.
unfoldable pub totp_challenge : ℕ → ℕ → Option (List ℕ)
totp_challenge timestamp zero = none
totp_challenge timestamp (suc p) = some (be64 (timestamp / suc p))

-- The SDK's `Code`: a truncated response, a full HMAC, or a marker without a code.
pub data Code : Type 0 where
  truncated full : List ℕ → Code
  marker : Code

abbrev pub steam_chars : List ℕ
steam_chars = codes "23456789BCDFGHJKMNPQRTVWXY"

-- `u32::from_be_bytes(bytes.try_into().ok()?)`
unfoldable pub exact_u32 : List ℕ → Option ℕ
exact_u32 (a ∷ b ∷ c ∷ d ∷ []) = some (of_be32 a b c d)
exact_u32 _ = none

-- `bytes.get(offset..offset + 4)` read as a big-endian number
unfoldable pub word_at : List ℕ → Option ℕ
word_at (a ∷ b ∷ c ∷ d ∷ rest) = some (of_be32 a b c d)
word_at _ = none

unfoldable pub last_byte : List ℕ → Option ℕ
last_byte [] = none
last_byte (b ∷ []) = some b
last_byte (b ∷ c ∷ s) = last_byte (c ∷ s)

-- Dynamic truncation: the low nibble of the last byte is an offset, and the sign bit is dropped.
unfoldable pub truncate : List ℕ → Option ℕ
unfolding last_byte word_at
truncate bytes = elim (last_byte bytes) [
  | none ↦ none
  | some b ↦ elim (word_at (drop (b % 16) bytes)) [ none ↦ none | some w ↦ some (w % 2 ^ 31) ]
]

unfoldable pub code_value : Code → Option ℕ
unfolding exact_u32 truncate
code_value (truncated bytes) = exact_u32 bytes
code_value (full bytes) = truncate bytes
code_value marker = none

-- `for _ in 0..5`: the digits of `code` in base 26, the lowest first.
unfoldable pub steam_digits : ℕ → ℕ → List ℕ
steam_digits zero code = []
steam_digits (suc rounds) code = get_or steam_chars (code % 26) 0 ∷ steam_digits rounds (code / 26)

unfoldable pub steam_code : Code → Option (List ℕ)
unfolding code_value steam_digits
steam_code code = elim (code_value code) [ none ↦ none | some n ↦ some (steam_digits 5 n) ]

-- The number that big-endian bytes stand for.
unfoldable pub be_value : ℕ → List ℕ → ℕ
be_value acc [] = acc
be_value acc (b ∷ bytes) = be_value (acc * 256 + b) bytes

-- For a 64-bit timestamp and a positive period the challenge is eight bytes whose big-endian value is
-- the number of whole periods in the timestamp.
pub totp_challenge_lem :
    (timestamp period : ℕ)
    → timestamp < 2 ^ 64
    → 0 < period
    → (bytes : List ℕ) × (totp_challenge timestamp period ≡ some bytes)
      × (length bytes ≡ 8)
      × All IsByte bytes
      × (be_value 0 bytes ≡ timestamp / period)
unfolding totp_challenge be_value
totp_challenge_lem timestamp zero h hp = absurd (omega arith)
totp_challenge_lem timestamp (suc p) h hp =
    let t = timestamp / suc p in
    let fits : t < 2 ^ 64 = omega arith in (be64 t, refl, refl, bytes_of t, value_of t fits)
  where
    bytes_of : (t : ℕ) → All IsByte (be64 t)
    bytes_of t = omega arith

    value_of : (t : ℕ) → t < 2 ^ 64 → be_value 0 (be64 t) ≡ t
    value_of t h = omega arith

-- The digit that a Steam character stands for.
unfoldable pub steam_digit : List ℕ → ℕ → ℕ
steam_digit [] c = 0
steam_digit (d ∷ chars) c = let rest = suc (steam_digit chars c) in if c == d then 0 else rest

steam_table : all_below 26 (λ i. steam_digit steam_chars (get_or steam_chars i 0) == i) ≡ true
unfolding all_below steam_digit
steam_table = refl

unfoldable pub steam_value : List ℕ → ℕ
steam_value [] = 0
steam_value (c ∷ s) = steam_digit steam_chars c + 26 * steam_value s

steam_digit-char : (n : ℕ) → steam_digit steam_chars (get_or steam_chars (n % 26) 0) ≡ n % 26
steam_digit-char n = (==_iff _ _).0 (all_below_sound 26 _ (n % 26) steam_table (omega arith))

steam_value-digits : (n : ℕ) → steam_value (steam_digits 5 n) ≡ n % 26 ^ 5
unfolding steam_value steam_digits
steam_value-digits n = omega (
  arith,
  steam_digit-char n,
  steam_digit-char (n / 26),
  steam_digit-char (n / 26 / 26),
  steam_digit-char (n / 26 / 26 / 26),
  steam_digit-char (n / 26 / 26 / 26 / 26),
)

length-steam_digits : (rounds n : ℕ) → length (steam_digits rounds n) ≡ rounds
unfolding steam_digits
length-steam_digits zero n = refl
length-steam_digits (suc rounds) n = ap suc (length-steam_digits rounds (n / 26))

-- Where the calculation has a value, there is a Steam code; it has five characters, which read
-- in base 26 (the lowest digit first) as that value modulo 26 ^ 5.
pub steam_code_lem :
    (code : Code) (n : ℕ)
    → code_value code ≡ some n
    → (s : List ℕ) × (steam_code code ≡ some s) × (length s ≡ 5) × (steam_value s ≡ n % 26 ^ 5)
unfolding steam_code
steam_code_lem code n h =
    (steam_digits 5 n, rw (h, steam_code) refl, length-steam_digits 5 n, steam_value-digits n)

pub steam_code-none : (code : Code) → code_value code ≡ none → steam_code code ≡ none
unfolding steam_code
steam_code-none code h = rw (h, steam_code) refl
