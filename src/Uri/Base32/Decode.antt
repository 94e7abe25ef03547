-- ===== src/Uri/Base32/Decode.antt =====
-- What `base32_decode` (crates/ckman-core/src/uri.rs) accepts and how much it returns.
use canokey_manager.Prelude.{
  ℕ, ◌+◌, ◌-◌, ◌*◌, ◌/◌, ◌%◌, ◌^◌, ◌<◌, ◌≤◌, ◌≡◌, refl, ap, true, not, ◌&&◌, ◌||◌, List, [], ◌∷◌,
  ◌++◌, arith, leb, leb→le, ◌==◌, if◌then◌else◌, Result, ok, length, length-append, All, All-append,
  Bool-cases, inl, inr, ok_injective, subst,
}
use mathlib.Core.Path.{fun_ext}
use canokey_manager.Prelude.Bytes.{IsByte}
use canokey_manager.Uri.Base32.{
  Base32Error, Symbol, digit, skip, bad, symbol, next, decode_symbol, decode_loop, base32_decode,
}

-- The documented leniency: padding and spaces left out, letters in upper case.
abbrev pub upper : ℕ → ℕ
upper b = if leb b'a' b && leb b b'z' then b - 32 else b

abbrev pub normalized : List ℕ → List ℕ
normalized [] = []
normalized (b ∷ input) =
    if b == b'=' || b == b' ' then normalized input else upper b ∷ normalized input

symbol-pad : (b : ℕ) → (b == b'=' || b == b' ') ≡ true → symbol b ≡ skip
unfolding symbol
symbol-pad b h = ground arith

symbol-upper : (b : ℕ) → symbol (upper b) ≡ symbol b
unfolding symbol
symbol-upper b = ground arith

decode_loop-normalized :
    (input : List ℕ) (acc bits : ℕ) (output : List ℕ)
    → decode_loop (normalized input) acc bits output ≡ decode_loop input acc bits output
unfolding decode_loop
decode_loop-normalized [] acc bits output = refl
decode_loop-normalized (b ∷ input) acc bits output =
    let same = fun_ext (λ a. fun_ext (λ n. fun_ext (λ o. decode_loop-normalized input a n o))) in
    elim (Bool-cases (b == b'=' || b == b' ')) [
      | inl pad ↦ rw pad (rw (symbol-pad b pad) (decode_loop-normalized input acc bits output))
      | inr plain ↦
          rw plain (rw (symbol-upper b) (ap (decode_symbol (symbol b) acc bits output) same))
    ]

-- Padding, spaces and the case of letters do not matter to the decoder.
pub base32_decode-normalized :
    (input : List ℕ) → base32_decode (normalized input) ≡ base32_decode input
unfolding base32_decode
base32_decode-normalized input = decode_loop-normalized input 0 0 []

-- Eight times the bytes put out, and the bits held, are at most five times the digits read.
abbrev IsBounded : ℕ → List ℕ → Type 0
IsBounded budget bytes = All IsByte bytes × (8 * length bytes ≤ budget)

decode_symbol-IsBounded :
    (s : Symbol) (acc bits : ℕ) (output bytes : List ℕ) (budget : ℕ)
    (rest : ℕ → ℕ → List ℕ → Result (List ℕ) Base32Error)
    → bits < 8
    → All IsByte output
    → ((a n : ℕ) (o : List ℕ)
        → n < 8
        → All IsByte o
        → rest a n o ≡ ok bytes
        → IsBounded (8 * length o + n + budget) bytes)
    → decode_symbol s acc bits output rest ≡ ok bytes
    → IsBounded (8 * length output + bits + (5 + budget)) bytes
unfolding decode_symbol
decode_symbol-IsBounded bad acc bits output bytes budget rest hb ho ih h = absurd (cc)
decode_symbol-IsBounded skip acc bits output bytes budget rest hb ho ih h =
    let (all, le) = ih acc bits output hb ho h in (all, omega arith)
decode_symbol-IsBounded (digit v) acc bits output bytes budget rest hb ho ih h =
    let acc' = next acc v in
    let out : List ℕ = acc' / 2 ^ (bits + 5 - 8) % 256 ∷ [] in
    elim (Bool-cases (leb 8 (bits + 5))) [
      | inl e ↦
          let (all, le) =
            ih acc' (bits + 5 - 8) (output ++ out) (omega arith)
              (All-append IsByte output out ho (omega arith, tt)) (rw e at h) in
          let full : 8 ≤ bits + 5 = leb→le _ _ e in (all, omega (arith, length-append output out))
      | inr e ↦
          let short : bits + 5 < 8 = ground arith in
          let (all, le) = ih acc' (bits + 5) output short ho (rw e at h) in (all, omega arith)
    ]

decode_loop-IsBounded :
    (input : List ℕ) (acc bits : ℕ) (output bytes : List ℕ)
    → bits < 8
    → All IsByte output
    → decode_loop input acc bits output ≡ ok bytes
    → IsBounded (8 * length output + bits + 5 * length input) bytes
unfolding decode_loop
decode_loop-IsBounded [] acc bits output bytes hb ho h =
    elim (Bool-cases (leb 5 bits || not (acc % 2 ^ bits == 0))) [
      | inl e ↦ absurd (cc (rw e at h))
      | inr e ↦ subst (IsBounded _) (ok_injective (rw e at h)) (ho, omega arith)
    ]
decode_loop-IsBounded (b ∷ input) acc bits output bytes hb ho h =
    let (all, le) =
      decode_symbol-IsBounded (symbol b) acc bits output bytes (5 * length input)
        (decode_loop input) hb ho
        (λ a n o hn hb' e. decode_loop-IsBounded input a n o bytes hn hb' e) h in
    (all, omega arith)

-- A successful decoding gives bytes, at most five for every eight characters of the text.
pub base32_decode-bounded :
    (input bytes : List ℕ)
    → base32_decode input ≡ ok bytes
    → All IsByte bytes × (8 * length bytes ≤ 5 * length input)
unfolding base32_decode
base32_decode-bounded input bytes h =
    let (all, le) = decode_loop-IsBounded input 0 0 [] bytes (omega arith) tt h in
    (all, omega arith)
