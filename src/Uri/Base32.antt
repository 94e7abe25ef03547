-- ===== src/Uri/Base32.antt =====
-- `base32_decode` and `base32_encode` of crates/ckman-core/src/uri.rs, over the bytes of the text.
pub mod Steps
pub mod RoundTrip
pub mod Decode
mod Runs
use mathlib.Core.List.{foldl}
use canokey_manager.Prelude.{
  ℕ, zero, suc, ◌+◌, ◌-◌, ◌*◌, ◌/◌, ◌%◌, ◌^◌, not, ◌&&◌, ◌||◌, Bool, List, [], ◌∷◌, ◌++◌, leb, ◌==◌,
  if◌then◌else◌, length, get_or, Result, ok, err,
}
use canokey_manager.Prelude.Text.{codes}

-- The unit struct `Base32Error`
pub data Base32Error : Type 0 where
  invalid_base32 : Base32Error

-- What the `match byte` of the decoder makes of a byte.
pub data Symbol : Type 0 where
  digit : ℕ → Symbol
  skip bad : Symbol

unfoldable pub symbol : ℕ → Symbol
symbol b =
    if leb b'A' b && leb b b'Z'
    then digit (b - b'A')
    else if leb b'a' b && leb b b'z'
    then digit (b - b'a')
    else if leb b'2' b && leb b b'7'
    then digit (b - b'2' + 26)
    else if b == b'=' || b == b' '
    then skip
    else bad

-- `(accumulator << 5) | value` on a u32; `value` is below 32, so the `|` is a sum.
unfoldable pub next : ℕ → ℕ → ℕ
next accumulator value = accumulator * 32 % 2 ^ 32 + value

-- One round of the loop; `rest` is the loop on the bytes that follow.
unfoldable pub decode_symbol :
    Symbol
    → ℕ
    → ℕ
    → List ℕ
    → (ℕ → ℕ → List ℕ → Result (List ℕ) Base32Error)
    → Result (List ℕ) Base32Error
decode_symbol bad accumulator bits output rest = err invalid_base32
decode_symbol skip accumulator bits output rest = rest accumulator bits output
decode_symbol (digit value) accumulator bits output rest =
    let accumulator' = next accumulator value in
    if leb 8 (bits + 5)
    then rest accumulator' (bits + 5 - 8) (output ++ (accumulator' / 2 ^ (bits + 5 - 8) % 256 ∷ []))
    else rest accumulator' (bits + 5) output

-- The `for byte in input.bytes()` loop and the test after it.
unfoldable pub decode_loop : List ℕ → ℕ → ℕ → List ℕ → Result (List ℕ) Base32Error
unfolding decode_symbol
decode_loop [] accumulator bits output =
    if leb 5 bits || not (accumulator % 2 ^ bits == 0) then err invalid_base32 else ok output
decode_loop (b ∷ input) accumulator bits output =
    decode_symbol (symbol b) accumulator bits output (decode_loop input)

unfoldable pub base32_decode : List ℕ → Result (List ℕ) Base32Error
unfolding decode_loop symbol next
base32_decode input = decode_loop input 0 0 []

abbrev pub alphabet : List ℕ
alphabet = codes "ABCDEFGHIJKLMNOPQRSTUVWXYZ234567"

-- `ALPHABET[index]`
unfoldable pub letter : ℕ → ℕ
letter index = get_or alphabet index 0

-- `for index in (0..digits).rev()`: the digits of a chunk, from the highest.
unfoldable pub push_digits : ℕ → ℕ → List ℕ
unfolding letter
push_digits zero accumulator = []
push_digits (suc index) accumulator =
    letter (accumulator / 2 ^ (index * 5) % 32) ∷ push_digits index accumulator

-- `(accumulator << 8) | byte` on a u64, over the bytes of a chunk.
unfoldable pub chunk_bits : List ℕ → ℕ
chunk_bits = foldl (λ accumulator byte. accumulator * 256 % 2 ^ 64 + byte) 0

unfoldable pub encode_chunk : List ℕ → List ℕ
unfolding push_digits chunk_bits
encode_chunk chunk =
    let digits = (length chunk * 8 + 4) / 5 in
    push_digits digits (chunk_bits chunk * 2 ^ (digits * 5 - length chunk * 8) % 2 ^ 64)

-- `data.chunks(5)`
unfoldable pub base32_encode : List ℕ → List ℕ
base32_encode [] = []
base32_encode (a ∷ []) = encode_chunk (a ∷ [])
base32_encode (a ∷ b ∷ []) = encode_chunk (a ∷ b ∷ [])
base32_encode (a ∷ b ∷ c ∷ []) = encode_chunk (a ∷ b ∷ c ∷ [])
base32_encode (a ∷ b ∷ c ∷ d ∷ []) = encode_chunk (a ∷ b ∷ c ∷ d ∷ [])
base32_encode (a ∷ b ∷ c ∷ d ∷ e ∷ rest) =
    encode_chunk (a ∷ b ∷ c ∷ d ∷ e ∷ []) ++ base32_encode rest
