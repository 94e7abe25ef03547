-- ===== src/Cli/Oath/Hex.antt =====
-- `hex_encode`, `hex_decode` and the text of a remembered key in crates/ckman/src/commands/oath.rs.
-- A text is its bytes: a character that is not ASCII is no digit, in either reading.
use canokey_manager.Prelude.{
  ℕ, ◌+◌, ◌-◌, ◌*◌, ◌/◌, ◌%◌, ◌<◌, ◌≡◌, ap, refl, arith, Bool, true, false, ◌&&◌, Option, none,
  some, List, [], ◌∷◌, ltb, leb, ◌==◌, if◌then◌else◌, length, All, ==_iff, Bool-cases, inl, inr,
}
use canokey_manager.Prelude.Bytes.{IsByte, all_below, all_below_sound}

-- The lower-case digit that `{:x}` writes.
unfoldable pub hex_digit : ℕ → ℕ
hex_digit n = if ltb n 10 then b'0' + n else b'a' + (n - 10)

unfoldable pub hex_encode : List ℕ → List ℕ
unfolding hex_digit
hex_encode [] = []
hex_encode (b ∷ bytes) = hex_digit (b / 16) ∷ hex_digit (b % 16) ∷ hex_encode bytes

-- `char::to_digit(16)`
unfoldable pub digit_value : ℕ → Option ℕ
digit_value c =
    if leb b'0' c && leb c b'9'
    then some (c - b'0')
    else if leb b'a' c && leb c b'f'
    then some (c - b'a' + 10)
    else if leb b'A' c && leb c b'F'
    then some (c - b'A' + 10)
    else none

abbrev two_digits : Option ℕ → Option ℕ → Option ℕ
two_digits (some h) (some l) = some (16 * h + l)
two_digits _ _ = none

-- `u8::from_str_radix(pair, 16)` of two characters: it takes a leading plus sign.
unfoldable pub pair_value : ℕ → ℕ → Option ℕ
unfolding digit_value
pair_value h l = if h == b'+' then digit_value l else two_digits (digit_value h) (digit_value l)

abbrev add_byte : Option ℕ → Option (List ℕ) → Option (List ℕ)
add_byte (some b) (some bytes) = some (b ∷ bytes)
add_byte _ _ = none

-- The odd length is found at the end: both ways, nothing is returned.
unfoldable pub hex_decode : List ℕ → Option (List ℕ)
unfolding pair_value
hex_decode [] = some []
hex_decode (c ∷ []) = none
hex_decode (h ∷ l ∷ text) = add_byte (pair_value h l) (hex_decode text)

-- `try_into::<[u8; 16]>`
abbrev exactly_16 : Option (List ℕ) → Option (List ℕ)
exactly_16 none = none
exactly_16 (some bytes) = if length bytes == 16 then some bytes else none

-- `trim` is `str::trim`
unfoldable pub recall_remembered_key : (List ℕ → List ℕ) → Option (List ℕ) → Option (List ℕ)
unfolding hex_decode
recall_remembered_key trim none = none
recall_remembered_key trim (some stored) = exactly_16 (hex_decode (trim stored))

abbrev is_value : ℕ → Option ℕ → Bool
is_value n none = false
is_value n (some m) = m == n

is_value_sound : (n : ℕ) (o : Option ℕ) → is_value n o ≡ true → o ≡ some n
is_value_sound n none h = absurd (cc)
is_value_sound n (some m) h = ap some ((==_iff m n).0 h)

digit_table :
    all_below 16
      (λ n. if hex_digit n == b'+' then false else is_value n (digit_value (hex_digit n)))
    ≡ true
unfolding all_below hex_digit digit_value
digit_table = refl

digit_value-digit :
    (n : ℕ) → n < 16 → ((hex_digit n == b'+') ≡ false) × (digit_value (hex_digit n) ≡ some n)
digit_value-digit n h =
    let row = all_below_sound 16 _ n digit_table h in
    elim (Bool-cases (hex_digit n == b'+')) [
      | inl e ↦ absurd (cc (rw e at row))
      | inr e ↦ (e, is_value_sound n _ (rw e at row))
    ]

pair_value-digits :
    (b : ℕ) → b < 256 → pair_value (hex_digit (b / 16)) (hex_digit (b % 16)) ≡ some b
unfolding pair_value
pair_value-digits b h =
    let (plain, high) = digit_value-digit (b / 16) (omega arith) in
    let (_, low) = digit_value-digit (b % 16) (omega arith) in
    rw (plain, high, low) (ap some (omega arith))

-- Decoding takes what encoding makes of bytes back to them.
pub hex_decode-encode :
    (bytes : List ℕ) → All IsByte bytes → hex_decode (hex_encode bytes) ≡ some bytes
unfolding hex_decode hex_encode
hex_decode-encode [] h = refl
hex_decode-encode (b ∷ bytes) (h, each) =
    rw (pair_value-digits b h) (rw (hex_decode-encode bytes each) refl)

-- A key of 16 bytes that was stored in the keyring is recalled as it was, where trimming leaves its
-- digits as they are.
pub recall_remembered_key-stored :
    (trim : List ℕ → List ℕ) (key : List ℕ)
    → All IsByte key
    → length key ≡ 16
    → trim (hex_encode key) ≡ hex_encode key
    → recall_remembered_key trim (some (hex_encode key)) ≡ some key
unfolding recall_remembered_key
recall_remembered_key-stored trim key each size kept =
    rw kept (rw (hex_decode-encode key each) (rw size refl))
