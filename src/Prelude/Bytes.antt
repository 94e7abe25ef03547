-- ===== src/Prelude/Bytes.antt =====
-- Bytes, big-endian integers and bit facts decided by a table.
use Prim.Native.Nat.{ℕ, zero, suc, ◌+◌, ◌*◌, ◌/◌, ◌%◌, ◌<◌, bit_and}
use mathlib.Core.Path.{◌≡◌, refl}
use mathlib.Core.Bool.{Bool, true, false, ◌&&◌}
use mathlib.Core.List.{List, [], ◌∷◌}
use native.Mathlib.Omega.{arith}
use canokey_manager.Prelude.Tests.{◌==◌, ==_iff}

abbrev pub IsByte : ℕ → Type 0
IsByte b = b < 256

-- `u16::to_be_bytes` and `u32::to_be_bytes`
abbrev pub be16 : ℕ → List ℕ
be16 n = n / 256 % 256 ∷ n % 256 ∷ []

abbrev pub be32 : ℕ → List ℕ
be32 n = n / 16777216 % 256 ∷ n / 65536 % 256 ∷ n / 256 % 256 ∷ n % 256 ∷ []

-- `from_be_bytes`
abbrev pub of_be16 : ℕ → ℕ → ℕ
of_be16 a b = a * 256 + b

abbrev pub of_be32 : ℕ → ℕ → ℕ → ℕ → ℕ
of_be32 a b c d = a * 16777216 + b * 65536 + c * 256 + d

-- `==` of two byte slices
unfoldable pub bytes_eq : List ℕ → List ℕ → Bool
bytes_eq [] [] = true
bytes_eq (x ∷ xs) (y ∷ ys) = x == y && bytes_eq xs ys
bytes_eq _ _ = false

pub bytes_eq_sound : (xs ys : List ℕ) → bytes_eq xs ys ≡ true → xs ≡ ys
unfolding bytes_eq
bytes_eq_sound [] [] h = refl
bytes_eq_sound [] (y ∷ ys) h = absurd (cc)
bytes_eq_sound (x ∷ xs) [] h = absurd (cc)
bytes_eq_sound (x ∷ xs) (y ∷ ys) h =
    let (a, b) = both (x == y) (bytes_eq xs ys) h in cc ((==_iff x y).0 a, bytes_eq_sound xs ys b)
  where
    both : (a b : Bool) → (a && b) ≡ true → (a ≡ true) × (b ≡ true)
    both true b h = (refl, h)
    both false b h = absurd (cc)

pub bytes_eq_refl : (xs : List ℕ) → bytes_eq xs xs ≡ true
unfolding bytes_eq
bytes_eq_refl [] = refl
bytes_eq_refl (x ∷ xs) = rw ((==_iff x x).1 refl) (bytes_eq_refl xs)

unfoldable pub all_below : ℕ → (ℕ → Bool) → Bool
all_below zero p = true
all_below (suc n) p = p n && all_below n p

pub all_below_sound :
    (bound : ℕ) (test : ℕ → Bool) (byte : ℕ)
    → all_below bound test ≡ true
    → byte < bound
    → test byte ≡ true
unfolding all_below
all_below_sound zero test byte table below = absurd (omega arith)
all_below_sound (suc bound) test byte table below =
    let earlier = all_below_sound bound test byte in ground (arith, earlier)

top_bit_table : all_below 256 (λ x. bit_and x 0x80 == x / 128 * 128) ≡ true
unfolding all_below
top_bit_table = refl

-- The command flag of a byte is its top bit.
pub top_bit : (x : ℕ) → x < 256 → bit_and x 0x80 ≡ x / 128 * 128
top_bit x h = (==_iff _ _).0 (all_below_sound 256 _ x top_bit_table h)
