-- ===== src/Prelude/Text.antt =====
-- Texts as the list of their bytes, and what the sources use of `str` and of decimal numbers.
pub mod Decimal
use Prim.Native.Char.{code}
use Prim.Native.String.{String}
use Prim.Native.Nat.{ℕ, ◌+◌, ◌-◌, ◌*◌, ◌<◌, ◌≤◌}
use mathlib.Core.Path.{◌≡◌, refl, ap}
use mathlib.Core.Logic.{◌≢◌, inl, inr}
use mathlib.Core.Bool.{Bool, true, false, ◌&&◌}
use mathlib.Core.Option.{Option, none, some}
use mathlib.Core.List.{List, [], ◌∷◌, ◌++◌}
use native.Mathlib.Omega.{arith}
use canokey_manager.Prelude.Tests.{leb, ltb, ◌==◌, ==_iff, Bool-cases, if◌then◌else◌}
use canokey_manager.Prelude.Lists.{All}

-- A literal; its code points are its bytes, since the literals are ASCII.
abbrev pub codes : String → List ℕ
codes String.[] = []
codes (String.◌∷◌ c s) = code c ∷ codes s

abbrev pub is_empty : List ℕ → Bool
is_empty [] = true
is_empty (c ∷ s) = false

-- `str::split_once(c)` at an ASCII character
abbrev keep_head : ℕ → Option (List ℕ × List ℕ) → Option (List ℕ × List ℕ)
keep_head c none = none
keep_head c (some (head, tail)) = some (c ∷ head, tail)

unfoldable pub split_once : ℕ → List ℕ → Option (List ℕ × List ℕ)
split_once sep [] = none
split_once sep (c ∷ s) =
    let rest = keep_head c (split_once sep s) in if c == sep then some ([], s) else rest

-- `str::starts_with(c)`
abbrev pub starts_with : ℕ → List ℕ → Bool
starts_with c [] = false
starts_with c (d ∷ s) = d == c

abbrev pub is_ascii_digit : ℕ → Bool
is_ascii_digit c = leb b'0' c && leb c b'9'

-- `bytes().all(|b| b.is_ascii_digit())`
abbrev pub all_digits : List ℕ → Bool
all_digits [] = true
all_digits (c ∷ s) = is_ascii_digit c && all_digits s

-- The separator is found behind a head without it.
pub split_once-append :
    (sep : ℕ) (head tail : List ℕ)
    → All (λ c. c ≢ sep) head
    → split_once sep (head ++ (sep ∷ tail)) ≡ some (head, tail)
unfolding split_once
split_once-append sep [] tail h = ground arith
split_once-append sep (c ∷ head) tail h = ground (arith, h.0, split_once-append sep head tail h.1)

pub split_once-none : (sep : ℕ) (s : List ℕ) → All (λ c. c ≢ sep) s → split_once sep s ≡ none
unfolding split_once
split_once-none sep [] h = refl
split_once-none sep (c ∷ s) h = ground (arith, h.0, split_once-none sep s h.1)

-- What `split_once` says of a text: what stands before the first separator, and what behind it.
abbrev pub IsSplit : ℕ → List ℕ → Option (List ℕ × List ℕ) → Type 0
IsSplit sep s none = All (λ c. c ≢ sep) s
IsSplit sep s (some (head, tail)) = (s ≡ head ++ (sep ∷ tail)) × All (λ c. c ≢ sep) head

IsSplit-keep_head :
    (sep c : ℕ) (s : List ℕ) (o : Option (List ℕ × List ℕ))
    → c ≢ sep
    → IsSplit sep s o
    → IsSplit sep (c ∷ s) (keep_head c o)
IsSplit-keep_head sep c s none n h = (n, h)
IsSplit-keep_head sep c s (some (head, tail)) n (e, h) = (ap (λ l. c ∷ l) e, (n, h))

pub split_once-IsSplit : (sep : ℕ) (s : List ℕ) → IsSplit sep s (split_once sep s)
unfolding split_once
split_once-IsSplit sep [] = tt
split_once-IsSplit sep (c ∷ s) = elim (Bool-cases (c == sep)) [
  | inl e ↦ rw e (ap (λ x. x ∷ s) ((==_iff c sep).0 e), tt)
  | inr e ↦ rw e (
      IsSplit-keep_head sep c s (split_once sep s) (λ same. other same e)
        (split_once-IsSplit sep s))
]
  where
    other : c ≡ sep → (c == sep) ≡ false → ⊥
    other same e = cc ((==_iff c sep).1 same, e)
