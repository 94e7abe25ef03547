-- ===== src/Uri/Base32/Steps.antt =====
-- The base32 decoder of crates/ckman-core/src/uri.rs, a few digits at a time.
use canokey_manager.Prelude.{
  ℕ, ◌+◌, ◌-◌, ◌/◌, ◌%◌, ◌^◌, ◌<◌, ◌≤◌, ◌≡◌, refl, ap, Bool, true, false, List, [], ◌∷◌, ◌++◌,
  arith, ◌==◌, ==_iff,
}
use canokey_manager.Prelude.Bytes.{all_below, all_below_sound}
use canokey_manager.Uri.Base32.{Symbol, digit, skip, bad, symbol, next, decode_loop, letter}

-- The value of a digit, with 255 for what is no digit.
value_or : Symbol → ℕ
value_or (digit v) = v
value_or skip = 255
value_or bad = 255

is_digit : Symbol → Bool
is_digit (digit v) = true
is_digit skip = false
is_digit bad = false

digit_of : (s : Symbol) (v : ℕ) → is_digit s ≡ true → value_or s ≡ v → s ≡ digit v
unfolding value_or is_digit
digit_of (digit w) v h e = ap digit e
digit_of skip v h e = cc
digit_of bad v h e = cc

letter_table : all_below 32 (λ i. value_or (symbol (letter i)) == i) ≡ true
unfolding all_below value_or symbol letter
letter_table = refl

letter_digits : all_below 32 (λ i. is_digit (symbol (letter i))) ≡ true
unfolding all_below is_digit symbol letter
letter_digits = refl

symbol-letter : (i : ℕ) → i < 32 → symbol (letter i) ≡ digit i
symbol-letter i h =
    digit_of (symbol (letter i)) i (all_below_sound 32 _ i letter_digits h)
      ((==_iff _ _).0 (all_below_sound 32 _ i letter_table h))

-- A digit that completes no byte, and one that completes a byte.
pub decode_loop-wait :
    (v : ℕ) (input : List ℕ) (acc bits : ℕ) (output : List ℕ)
    → v < 32
    → bits < 3
    → decode_loop (letter v ∷ input) acc bits output
      ≡ decode_loop input (next acc v) (bits + 5) output
unfolding decode_loop
decode_loop-wait v input acc bits output h hb = rw (symbol-letter v h) (ground arith)

pub decode_loop-emit :
    (v : ℕ) (input : List ℕ) (acc bits : ℕ) (output : List ℕ)
    → v < 32
    → 3 ≤ bits
    → decode_loop (letter v ∷ input) acc bits output
      ≡ decode_loop input
          (next acc v)
          (bits - 3)
          (output ++ (next acc v / 2 ^ (bits - 3) % 256 ∷ []))
unfolding decode_loop
decode_loop-emit v input acc bits output h hb =
    let less : bits + 5 - 8 ≡ bits - 3 = omega arith in
    rw (symbol-letter v h) (rw less (ground arith))
