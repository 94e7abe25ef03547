-- ===== src/Uri/Base32/RoundTrip.antt =====
-- Decoding what `base32_encode` (crates/ckman-core/src/uri.rs) wrote.
use canokey_manager.Prelude.{
  ℕ, ◌+◌, ◌*◌, ◌/◌, ◌%◌, ◌^◌, ◌<◌, ◌≡◌, refl, ap, sym, ◌∙◌, List, [], ◌∷◌, ◌++◌, arith, ok,
  append_assoc, append-nil, All,
}
use mathlib.Core.Path.{ap₂}
use canokey_manager.Prelude.Bytes.{IsByte}
use canokey_manager.Uri.Base32.{
  next, decode_loop, base32_decode, letter, chunk_bits, encode_chunk, base32_encode,
}
use canokey_manager.Uri.Base32.Steps.{decode_loop-wait, decode_loop-emit}

-- The digits of five bytes `a b c d e`, by the byte boundary that they cross.
abbrev first : ℕ → ℕ
first a = a / 8

abbrev second : ℕ → ℕ → ℕ
second a b = a % 8 * 4 + b / 64

abbrev third : ℕ → ℕ
third b = b / 2 % 32

abbrev fourth : ℕ → ℕ → ℕ
fourth b c = b % 2 * 16 + c / 16

abbrev fifth : ℕ → ℕ → ℕ
fifth c d = c % 16 * 2 + d / 128

abbrev sixth : ℕ → ℕ
sixth d = d / 4 % 32

abbrev seventh : ℕ → ℕ → ℕ
seventh d e = d % 4 * 8 + e / 32

abbrev eighth : ℕ → ℕ
eighth e = e % 32

-- Each stage reads the digits that complete one byte, and keeps the bits of the following byte.
stage_a :
    (a b acc : ℕ) (input output : List ℕ)
    → a < 256
    → b < 256
    → (acc' : ℕ) × (decode_loop (letter (first a) ∷ letter (second a b) ∷ input) acc 0 output
        ≡ decode_loop input acc' 2 (output ++ (a ∷ [])))
      × (acc' % 4 ≡ b / 64)
stage_a a b acc input output ha hb =
    let v = first a in
    let w = second a b in
    let acc₁ = next acc v in
    (
      next acc₁ w,
      decode_loop-wait v _ acc 0 output (omega arith) (omega arith)
          ∙ decode_loop-emit w input acc₁ 5 output (omega arith) (omega arith)
          ∙ ap (λ x. decode_loop input (next acc₁ w) 2 (output ++ (x ∷ [])))
              (unfold next in (omega arith)),
      unfold next in (omega arith),
    )

stage_b :
    (b c acc : ℕ) (input output : List ℕ)
    → b < 256
    → c < 256
    → acc % 4 ≡ b / 64
    → (acc' : ℕ) × (decode_loop (letter (third b) ∷ letter (fourth b c) ∷ input) acc 2 output
        ≡ decode_loop input acc' 4 (output ++ (b ∷ [])))
      × (acc' % 16 ≡ c / 16)
stage_b b c acc input output hb hc h =
    let v = third b in
    let w = fourth b c in
    let acc₁ = next acc v in
    (
      next acc₁ w,
      decode_loop-wait v _ acc 2 output (omega arith) (omega arith)
          ∙ decode_loop-emit w input acc₁ 7 output (omega arith) (omega arith)
          ∙ ap (λ x. decode_loop input (next acc₁ w) 4 (output ++ (x ∷ [])))
              (unfold next in (omega arith)),
      unfold next in (omega arith),
    )

stage_c :
    (c d acc : ℕ) (input output : List ℕ)
    → c < 256
    → d < 256
    → acc % 16 ≡ c / 16
    → (acc' : ℕ) × (decode_loop (letter (fifth c d) ∷ input) acc 4 output
        ≡ decode_loop input acc' 1 (output ++ (c ∷ [])))
      × (acc' % 2 ≡ d / 128)
stage_c c d acc input output hc hd h =
    let v = fifth c d in
    (
      next acc v,
      decode_loop-emit v input acc 4 output (omega arith) (omega arith)
          ∙ ap (λ x. decode_loop input (next acc v) 1 (output ++ (x ∷ [])))
              (unfold next in (omega arith)),
      unfold next in (omega arith),
    )

stage_d :
    (d e acc : ℕ) (input output : List ℕ)
    → d < 256
    → e < 256
    → acc % 2 ≡ d / 128
    → (acc' : ℕ) × (decode_loop (letter (sixth d) ∷ letter (seventh d e) ∷ input) acc 1 output
        ≡ decode_loop input acc' 3 (output ++ (d ∷ [])))
      × (acc' % 8 ≡ e / 32)
stage_d d e acc input output hd he h =
    let v = sixth d in
    let w = seventh d e in
    let acc₁ = next acc v in
    (
      next acc₁ w,
      decode_loop-wait v _ acc 1 output (omega arith) (omega arith)
          ∙ decode_loop-emit w input acc₁ 6 output (omega arith) (omega arith)
          ∙ ap (λ x. decode_loop input (next acc₁ w) 3 (output ++ (x ∷ [])))
              (unfold next in (omega arith)),
      unfold next in (omega arith),
    )

stage_e :
    (e acc : ℕ) (input output : List ℕ)
    → e < 256
    → acc % 8 ≡ e / 32
    → (acc' : ℕ) × (decode_loop (letter (eighth e) ∷ input) acc 3 output
        ≡ decode_loop input acc' 0 (output ++ (e ∷ [])))
stage_e e acc input output he h =
    let v = eighth e in
    (
      next acc v,
      decode_loop-emit v input acc 3 output (omega arith) (omega arith)
          ∙ ap (λ x. decode_loop input (next acc v) 0 (output ++ (x ∷ [])))
              (unfold next in (omega arith)),
    )

-- The end of the text, when only zero bits are left over.
finish :
    (acc bits : ℕ) (output : List ℕ)
    → bits < 5
    → acc % 2 ^ bits ≡ 0
    → decode_loop [] acc bits output ≡ ok output
unfolding decode_loop
finish acc bits output h z = rw z (ground arith)

-- The digits of a chunk, whose bits are taken from one number in the source.
letters : (i j : ℕ) (xs ys : List ℕ) → i ≡ j → xs ≡ ys → letter i ∷ xs ≡ letter j ∷ ys
letters i j xs ys e f = ap₂ (λ k zs. letter k ∷ zs) e f

chunk_1 : (a : ℕ) → a < 256 → encode_chunk (a ∷ []) ≡ letter (first a) ∷ letter (second a 0) ∷ []
unfolding encode_chunk
chunk_1 a ha =
    let bits = chunk_bits (a ∷ []) * 2 ^ 2 % 2 ^ 64 in
    letters (bits / 2 ^ 5 % 32) (first a) _ _ (omega arith)
      (letters (bits / 2 ^ 0 % 32) (second a 0) _ _ (omega arith) refl)

chunk_2 :
    (a b : ℕ)
    → a < 256
    → b < 256
    → encode_chunk (a ∷ b ∷ [])
      ≡ letter (first a) ∷ letter (second a b) ∷ letter (third b) ∷ letter (fourth b 0) ∷ []
unfolding encode_chunk
chunk_2 a b ha hb =
    let bits = chunk_bits (a ∷ b ∷ []) * 2 ^ 4 % 2 ^ 64 in
    letters (bits / 2 ^ 15 % 32) (first a) _ _ (omega arith) (
      letters (bits / 2 ^ 10 % 32) (second a b) _ _ (omega arith) (
        letters (bits / 2 ^ 5 % 32) (third b) _ _ (omega arith)
          (letters (bits / 2 ^ 0 % 32) (fourth b 0) _ _ (omega arith) refl)))

chunk_3 :
    (a b c : ℕ)
    → a < 256
    → b < 256
    → c < 256
    → encode_chunk (a ∷ b ∷ c ∷ [])
      ≡ letter (first a)
        ∷ letter (second a b)
        ∷ letter (third b)
        ∷ letter (fourth b c)
        ∷ letter (fifth c 0)
        ∷ []
unfolding encode_chunk
chunk_3 a b c ha hb hc =
    let bits = chunk_bits (a ∷ b ∷ c ∷ []) * 2 ^ 1 % 2 ^ 64 in
    letters (bits / 2 ^ 20 % 32) (first a) _ _ (omega arith) (
      letters (bits / 2 ^ 15 % 32) (second a b) _ _ (omega arith) (
        letters (bits / 2 ^ 10 % 32) (third b) _ _ (omega arith) (
          letters (bits / 2 ^ 5 % 32) (fourth b c) _ _ (omega arith)
            (letters (bits / 2 ^ 0 % 32) (fifth c 0) _ _ (omega arith) refl))))

chunk_4 :
    (a b c d : ℕ)
    → a < 256
    → b < 256
    → c < 256
    → d < 256
    → encode_chunk (a ∷ b ∷ c ∷ d ∷ [])
      ≡ letter (first a)
        ∷ letter (second a b)
        ∷ letter (third b)
        ∷ letter (fourth b c)
        ∷ letter (fifth c d)
        ∷ letter (sixth d)
        ∷ letter (seventh d 0)
        ∷ []
unfolding encode_chunk
chunk_4 a b c d ha hb hc hd =
    let bits = chunk_bits (a ∷ b ∷ c ∷ d ∷ []) * 2 ^ 3 % 2 ^ 64 in
    letters (bits / 2 ^ 30 % 32) (first a) _ _ (omega arith) (
      letters (bits / 2 ^ 25 % 32) (second a b) _ _ (omega arith) (
        letters (bits / 2 ^ 20 % 32) (third b) _ _ (omega arith) (
          letters (bits / 2 ^ 15 % 32) (fourth b c) _ _ (omega arith) (
            letters (bits / 2 ^ 10 % 32) (fifth c d) _ _ (omega arith) (
              letters (bits / 2 ^ 5 % 32) (sixth d) _ _ (omega arith)
                (letters (bits / 2 ^ 0 % 32) (seventh d 0) _ _ (omega arith) refl))))))

chunk_5 :
    (a b c d e : ℕ)
    → a < 256
    → b < 256
    → c < 256
    → d < 256
    → e < 256
    → encode_chunk (a ∷ b ∷ c ∷ d ∷ e ∷ [])
      ≡ letter (first a)
        ∷ letter (second a b)
        ∷ letter (third b)
        ∷ letter (fourth b c)
        ∷ letter (fifth c d)
        ∷ letter (sixth d)
        ∷ letter (seventh d e)
        ∷ letter (eighth e)
        ∷ []
unfolding encode_chunk
chunk_5 a b c d e ha hb hc hd he =
    let bits = chunk_bits (a ∷ b ∷ c ∷ d ∷ e ∷ []) * 2 ^ 0 % 2 ^ 64 in
    letters (bits / 2 ^ 35 % 32) (first a) _ _ (omega arith) (
      letters (bits / 2 ^ 30 % 32) (second a b) _ _ (omega arith) (
        letters (bits / 2 ^ 25 % 32) (third b) _ _ (omega arith) (
          letters (bits / 2 ^ 20 % 32) (fourth b c) _ _ (omega arith) (
            letters (bits / 2 ^ 15 % 32) (fifth c d) _ _ (omega arith) (
              letters (bits / 2 ^ 10 % 32) (sixth d) _ _ (omega arith) (
                letters (bits / 2 ^ 5 % 32) (seventh d e) _ _ (omega arith)
                  (letters (bits / 2 ^ 0 % 32) (eighth e) _ _ (omega arith) refl)))))))

zero-IsByte : IsByte 0
zero-IsByte = omega arith

decode_loop-encode :
    (bytes : List ℕ) (acc : ℕ) (output : List ℕ)
    → All IsByte bytes
    → decode_loop (base32_encode bytes) acc 0 output ≡ ok (output ++ bytes)
unfolding base32_encode
decode_loop-encode [] acc output h =
    finish acc 0 output (omega arith) (omega arith) ∙ ap ok (sym (append-nil output))
decode_loop-encode (a ∷ []) acc output h =
    let (x, p, m) = stage_a a 0 acc [] output h.0 zero-IsByte in
    rw (chunk_1 a h.0) (p ∙ finish x 2 (output ++ (a ∷ [])) (omega arith) m)
decode_loop-encode (a ∷ b ∷ []) acc output h =
    let (x, p, m) = stage_a a b acc _ output h.0 h.1.0 in
    let (y, q, n) = stage_b b 0 x [] _ h.1.0 zero-IsByte m in
    rw (chunk_2 a b h.0 h.1.0) (p ∙ q ∙ finish y 4 _ (omega arith) n ∙ ap ok (simp append_assoc))
decode_loop-encode (a ∷ b ∷ c ∷ []) acc output h =
    let (x, p, m) = stage_a a b acc _ output h.0 h.1.0 in
    let (y, q, n) = stage_b b c x _ _ h.1.0 h.1.1.0 m in
    let (z, r, o) = stage_c c 0 y [] _ h.1.1.0 zero-IsByte n in
    rw (chunk_3 a b c h.0 h.1.0 h.1.1.0)
      (p ∙ q ∙ r ∙ finish z 1 _ (omega arith) o ∙ ap ok (simp append_assoc))
decode_loop-encode (a ∷ b ∷ c ∷ d ∷ []) acc output h =
    let (x, p, m) = stage_a a b acc _ output h.0 h.1.0 in
    let (y, q, n) = stage_b b c x _ _ h.1.0 h.1.1.0 m in
    let (z, r, o) = stage_c c d y _ _ h.1.1.0 h.1.1.1.0 n in
    let (u, t, k) = stage_d d 0 z [] _ h.1.1.1.0 zero-IsByte o in
    rw (chunk_4 a b c d h.0 h.1.0 h.1.1.0 h.1.1.1.0)
      (p ∙ q ∙ r ∙ t ∙ finish u 3 _ (omega arith) k ∙ ap ok (simp append_assoc))
decode_loop-encode (a ∷ b ∷ c ∷ d ∷ e ∷ rest) acc output h =
    let (x, p, m) = stage_a a b acc _ output h.0 h.1.0 in
    let (y, q, n) = stage_b b c x _ _ h.1.0 h.1.1.0 m in
    let (z, r, o) = stage_c c d y _ _ h.1.1.0 h.1.1.1.0 n in
    let (u, t, k) = stage_d d e z _ _ h.1.1.1.0 h.1.1.1.1.0 o in
    let (w, f) = stage_e e u (base32_encode rest) _ h.1.1.1.1.0 k in
    rw (chunk_5 a b c d e h.0 h.1.0 h.1.1.0 h.1.1.1.0 h.1.1.1.1.0)
      (p ∙ q ∙ r ∙ t ∙ f ∙ decode_loop-encode rest w _ h.1.1.1.1.1 ∙ ap ok (simp append_assoc))

-- Decoding the encoding of any bytes gives those bytes back.
pub base32_decode-encode :
    (bytes : List ℕ) → All IsByte bytes → base32_decode (base32_encode bytes) ≡ ok bytes
unfolding base32_decode
base32_decode-encode bytes h = decode_loop-encode bytes 0 [] h
