-- ===== src/Fido/Checks.antt =====
-- Checks of crates/ckman-core/src/fido.rs before any command is sent: the PIN and the largeBlobs array.
-- UTF-8 decoding with NFC normalization, and SHA-256, are parameters.
use canokey_manager.Prelude.{
  ℕ, ◌+◌, ◌-◌, ◌≤◌, ◌≡◌, ◌≢◌, ◌↔◌, refl, ap, sym, ◌∙◌, Bool, true, false, not, ◌&&◌, ◌||◌, Option,
  none, some, List, [], ◌∷◌, ◌++◌, ltb, leb, ◌==◌, if◌then◌else◌, length, take, drop, Result, ok,
  err, ◌>>=◌, ◌>>◌, ok_or, guard, All, Bool-cases, >>=-eq-ok, inl, inr, arith, length-append,
  take-append_le, take_all, take-append-drop, drop-append, length-take, ok_injective,
}
use canokey_manager.Prelude.Bytes.{bytes_eq, bytes_eq_sound, bytes_eq_refl}

pub data PinError : Type 0 where
  invalid_pin : PinError

-- `char::len_utf8`
abbrev pub len_utf8 : ℕ → ℕ
len_utf8 c = if ltb c 0x80 then 1 else if ltb c 0x800 then 2 else if ltb c 0x10000 then 3 else 4

abbrev pub utf8_length : List ℕ → ℕ
utf8_length [] = 0
utf8_length (c ∷ s) = len_utf8 c + utf8_length s

-- The loop over the characters; `used` is `normalized.len()`.
unfoldable pub keep_characters : ℕ → List ℕ → Result (List ℕ) PinError
keep_characters used [] = ok []
keep_characters used (c ∷ s) =
    let rest = keep_characters (used + len_utf8 c) s >>= λ kept. ok (c ∷ kept) in
    if c == 0 || ltb 63 (used + len_utf8 c) then err invalid_pin else rest

unfoldable pub normalize_pin : (List ℕ → Option (List ℕ)) → List ℕ → Result (List ℕ) PinError
unfolding keep_characters
normalize_pin nfc pin = do
  text ← ok_or (nfc pin) invalid_pin
  normalized ← keep_characters 0 text
  guard (not (ltb (length normalized) 4)) invalid_pin
  ok normalized

found_some :
    (o : Option (List ℕ)) (found : List ℕ) → ok_or o invalid_pin ≡ ok found → o ≡ some found
found_some none found h = absurd (cc)
found_some (some x) found h = ap some (ok_injective h)

guarded : (b : Bool) {u : Unit {0}} → guard b invalid_pin ≡ ok u → b ≡ true
guarded true h = refl
guarded false h = absurd (cc)

enough : (n : ℕ) → not (ltb n 4) ≡ true → 4 ≤ n
enough n h = ground arith

long_enough : (n : ℕ) → 4 ≤ n → not (ltb n 4) ≡ true
long_enough n h = ground arith

not_both : (c used : ℕ) → (c == 0 || ltb 63 used) ≡ false → (c ≢ 0) × (used ≤ 63)
not_both c used h = (λ z. ground arith, ground arith)

both_not : (c used : ℕ) → c ≢ 0 → used ≤ 63 → (c == 0 || ltb 63 used) ≡ false
both_not c used n h = ground arith

keep_characters_sound :
    (used : ℕ) (text kept : List ℕ)
    → used ≤ 63
    → keep_characters used text ≡ ok kept
    → (kept ≡ text) × All (λ c. c ≢ 0) text × (used + utf8_length text ≤ 63)
unfolding keep_characters
keep_characters_sound used [] kept room h = (cc, tt, omega arith)
keep_characters_sound used (c ∷ s) kept room h =
    elim (Bool-cases (c == 0 || ltb 63 (used + len_utf8 c))) [
      | inl e ↦ absurd (cc (rw e at h))
      | inr e ↦
          let (rest, a, h1) = >>=-eq-ok (keep_characters (used + len_utf8 c) s) _ (rw e at h) in
          let (nonzero, fits) = not_both c (used + len_utf8 c) e in
          let (same, each, total) = keep_characters_sound (used + len_utf8 c) s rest fits a in
          (sym (ok_injective h1) ∙ ap (λ l. c ∷ l) same, (nonzero, each), omega (arith, total))
    ]

keep_characters_complete :
    (used : ℕ) (text : List ℕ)
    → All (λ c. c ≢ 0) text
    → used + utf8_length text ≤ 63
    → keep_characters used text ≡ ok text
unfolding keep_characters
keep_characters_complete used [] each h = refl
keep_characters_complete used (c ∷ s) each h =
    rw (both_not c (used + len_utf8 c) each.0 (omega (arith, h)))
      (rw (keep_characters_complete (used + len_utf8 c) s each.1 (omega (arith, h))) refl)

-- A PIN is accepted, and sent as these characters, exactly where they are its normalized text, at
-- least four, none of them NUL, and of at most 63 bytes in UTF-8.
pub normalize_pin_lem :
    (nfc : List ℕ → Option (List ℕ)) (pin text : List ℕ)
    → (normalize_pin nfc pin ≡ ok text) ↔ (
        (nfc pin ≡ some text) × All (λ c. c ≢ 0) text × (utf8_length text ≤ 63) × (4 ≤ length text))
unfolding normalize_pin
normalize_pin_lem nfc pin text = (accepted, rejected)
  where
    accepted :
        normalize_pin nfc pin ≡ ok text
        → (nfc pin ≡ some text)
          × All (λ c. c ≢ 0) text
          × (utf8_length text ≤ 63)
          × (4 ≤ length text)
    accepted h =
        let (found, a, h1) = >>=-eq-ok (ok_or (nfc pin) _) _ h in
        let (kept, b, h2) = >>=-eq-ok (keep_characters 0 found) _ h1 in
        let (u, c, h3) = >>=-eq-ok (guard (not (ltb (length kept) 4)) _) _ h2 in
        let (same, each, total) = keep_characters_sound 0 found kept (omega arith) b in
        let is_text : text ≡ found = sym (ok_injective h3) ∙ same in
        (
          found_some (nfc pin) found a ∙ ap some (sym is_text),
          rw is_text each,
          rw is_text (omega (arith, total)),
          rw (sym (ok_injective h3)) (enough (length kept) (guarded (not (ltb (length kept) 4)) c)),
        )

    rejected :
        (nfc pin ≡ some text) × All (λ c. c ≢ 0) text × (utf8_length text ≤ 63) × (4 ≤ length text)
        → normalize_pin nfc pin ≡ ok text
    rejected (found, each, total, long) = rw found (
        rw (keep_characters_complete 0 text each (omega (arith, total)))
          (rw (long_enough (length text) long) refl))

pub data LargeBlobArrayError : Type 0 where
  length_error integrity_error : LargeBlobArrayError

-- `least` and `most` are the bounds that the CTAP library declares.
module _ (least most : ℕ) (sha256 : List ℕ → List ℕ) where
  unfoldable pub validate_large_blob_array : List ℕ → Result (Unit {0}) LargeBlobArrayError
  unfolding bytes_eq
  validate_large_blob_array bytes = do
    guard (leb least (length bytes) && leb (length bytes) most) length_error
    let split = length bytes - 16
    guard (bytes_eq (take 16 (sha256 (take split bytes))) (drop split bytes)) integrity_error

  -- The length is admissible, and the array ends in the first 16 bytes of the digest of what stands
  -- before them.
  abbrev pub IsSealed : List ℕ → Type 0
  IsSealed bytes =
      (least ≤ length bytes)
      × (length bytes ≤ most)
      × ((contents : List ℕ) × (bytes ≡ contents ++ take 16 (sha256 contents)))

  within : (n : ℕ) → least ≤ n → n ≤ most → (leb least n && leb n most) ≡ true
  within n low high = ground arith

  within_sound : (n : ℕ) → (leb least n && leb n most) ≡ true → (least ≤ n) × (n ≤ most)
  within_sound n h = (ground arith, ground arith)

  unsealed : (bytes : List ℕ) → validate_large_blob_array bytes ≡ ok tt → IsSealed bytes
  unfolding validate_large_blob_array
  unsealed bytes h =
      let split = length bytes - 16 in
      elim (Bool-cases (leb least (length bytes) && leb (length bytes) most)) [
        | inr long ↦ absurd (cc (rw long at h))
        | inl sized ↦
            elim (Bool-cases (bytes_eq (take 16 (sha256 (take split bytes))) (drop split bytes))) [
              | inr other ↦ absurd (cc (rw (sized, other) at h))
              | inl same ↦
                  let (low, high) = within_sound (length bytes) sized in
                  let tag = bytes_eq_sound _ _ same in
                  (
                    low,
                    high,
                    (
                      take split bytes,
                      sym (take-append-drop split bytes)
                          ∙ ap (λ l. take split bytes ++ l) (sym tag),
                    ),
                  )
            ]
      ]

  -- An array is valid exactly where its length is admissible and it ends in the first 16 bytes of the
  -- digest of what stands before them, where digests have 32 bytes and the least length is 16 or more.
  pub validate_large_blob_array_lem :
      ((contents : List ℕ) → length (sha256 contents) ≡ 32)
      → 16 ≤ least
      → (bytes : List ℕ) → (validate_large_blob_array bytes ≡ ok tt) ↔ IsSealed bytes
  unfolding validate_large_blob_array
  validate_large_blob_array_lem digest room bytes = (unsealed bytes, valid)
    where
      valid : IsSealed bytes → validate_large_blob_array bytes ≡ ok tt
      valid (low, high, (contents, e)) =
          let tag = take 16 (sha256 contents) in
          let size : length tag ≡ 16 =
            omega (arith, length-take 16 (sha256 contents), digest contents) in
          let total : length (contents ++ tag) ≡ length contents + 16 =
            omega (arith, length-append contents tag, size) in
          let split : length (contents ++ tag) - 16 ≡ length contents = omega (arith, total) in
          rw (within (length bytes) low high) (
            rw e (
              rw split (
                rw (take-append_le (length contents) contents tag (omega arith)) (
                  rw (take_all (length contents) contents (omega arith))
                    (rw (drop-append contents tag) (rw (bytes_eq_refl tag) refl))))))
