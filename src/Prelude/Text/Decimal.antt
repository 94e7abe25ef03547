-- ===== src/Prelude/Text/Decimal.antt =====
-- Decimal numbers: `{n}` of `format!`, and `str::parse` of an unsigned integer type.
use Prim.Native.Nat.{ℕ, zero, suc, ◌+◌, ◌-◌, ◌*◌, ◌/◌, ◌%◌, ◌<◌, ◌≤◌}
use mathlib.Core.Path.{◌≡◌, refl}
use mathlib.Core.Logic.{inl, inr}
use mathlib.Core.Bool.{true, false, ◌&&◌}
use mathlib.Core.Option.{Option, none, some}
use mathlib.Core.List.{List, [], ◌∷◌, ◌++◌}
use native.Mathlib.Omega.{arith}
use canokey_manager.Prelude.Tests.{ltb, ◌==◌, if◌then◌else◌, Bool-cases, ltb→lt}
use canokey_manager.Prelude.Lists.{All, All-append}
use canokey_manager.Prelude.Text.{is_empty, all_digits}

-- One digit for each round at least, so `suc n` rounds are enough for `n`.
unfoldable pub decimal_digits : ℕ → ℕ → List ℕ
decimal_digits zero n = []
decimal_digits (suc fuel) n =
    let front = decimal_digits fuel (n / 10) in
    if ltb n 10 then (n + 48) ∷ [] else front ++ ((n % 10 + 48) ∷ [])

unfoldable pub to_decimal : ℕ → List ℕ
unfolding decimal_digits
to_decimal n = decimal_digits (suc n) n

unfoldable pub digits_value : ℕ → List ℕ → ℕ
digits_value acc [] = acc
digits_value acc (c ∷ s) = digits_value (acc * 10 + (c - 48)) s

-- `parse` of a number below `limit`: digits behind an optional `+`, with no overflow.
unfoldable pub parse_digits : ℕ → List ℕ → Option ℕ
unfolding digits_value
parse_digits limit s =
    if is_empty s
    then none
    else if all_digits s && ltb (digits_value 0 s) limit
    then some (digits_value 0 s)
    else none

unfoldable pub parse_unsigned : ℕ → List ℕ → Option ℕ
unfolding parse_digits
parse_unsigned limit [] = none
parse_unsigned limit (c ∷ s) =
    if c == b'+' then parse_digits limit s else parse_digits limit (c ∷ s)

abbrev pub u32_limit : ℕ
u32_limit = 4294967296

-- A run of digits, not empty, that reads as `n`.
abbrev pub Reads : ℕ → List ℕ → Type 0
Reads n s = All (λ c. (48 ≤ c) × (c ≤ 57)) s × (is_empty s ≡ false) × (digits_value 0 s ≡ n)

digits_value-append :
    (acc : ℕ) (s : List ℕ) (c : ℕ)
    → digits_value acc (s ++ (c ∷ [])) ≡ digits_value acc s * 10 + (c - 48)
unfolding digits_value
digits_value-append acc [] c = refl
digits_value-append acc (d ∷ s) c = digits_value-append (acc * 10 + (d - 48)) s c

is_empty-append : (s : List ℕ) (c : ℕ) → is_empty (s ++ (c ∷ [])) ≡ false
is_empty-append [] c = refl
is_empty-append (d ∷ s) c = refl

decimal_digits-Reads : (fuel n : ℕ) → n < fuel → Reads n (decimal_digits fuel n)
unfolding decimal_digits
decimal_digits-Reads zero n h = absurd (omega arith)
decimal_digits-Reads (suc fuel) n h = elim (Bool-cases (ltb n 10)) [
  | inl e ↦
      let small : n < 10 = ltb→lt _ _ e in
      rw e (omega arith, refl, unfold digits_value in (omega arith))
  | inr e ↦
      let large : 10 ≤ n = ground arith in
      let (digits, some_left, value) = decimal_digits-Reads fuel (n / 10) (omega arith) in
      let front = decimal_digits fuel (n / 10) in
      rw e (
        All-append _ front ((n % 10 + 48) ∷ []) digits (omega arith),
        is_empty-append front (n % 10 + 48),
        omega (arith, digits_value-append 0 front (n % 10 + 48)),
      )
]

pub to_decimal-Reads : (n : ℕ) → Reads n (to_decimal n)
unfolding to_decimal
to_decimal-Reads n = decimal_digits-Reads (suc n) n (omega arith)

pub all_digits_of : (s : List ℕ) → All (λ c. (48 ≤ c) × (c ≤ 57)) s → all_digits s ≡ true
all_digits_of [] h = refl
all_digits_of (c ∷ s) h = ground (arith, h.0, all_digits_of s h.1)

-- Reading back what was printed.
pub parse_unsigned-to_decimal :
    (limit n : ℕ) → n < limit → parse_unsigned limit (to_decimal n) ≡ some n
parse_unsigned-to_decimal limit n h = reads (to_decimal n) (to_decimal-Reads n)
  where
    reads : (s : List ℕ) → Reads n s → parse_unsigned limit s ≡ some n
    reads [] r = absurd (cc (r.1))
    reads (c ∷ s) r =
        unfold parse_unsigned parse_digits in ground (arith, r.0.0, r.2, all_digits_of s r.0.1)
