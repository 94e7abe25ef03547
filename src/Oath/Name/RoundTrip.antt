-- ===== src/Oath/Name/RoundTrip.antt =====
-- Reading back the names that `format_id` (crates/ckman-core/src/oath.rs) writes.
use canokey_manager.Prelude.{
  ℕ, ◌<◌, ◌≤◌, ◌≡◌, ◌≢◌, refl, ap, sym, ◌∙◌, ◌⊎◌, inl, inr, true, false, not, ◌||◌, Option, none,
  some, List, [], ◌∷◌, ◌++◌, arith, ◌==◌, All, Bool-cases,
}
use canokey_manager.Prelude.Text.{
  is_empty, split_once, starts_with, split_once-append, split_once-none,
}
use canokey_manager.Prelude.Text.Decimal.{
  to_decimal, u32_limit, to_decimal-Reads, all_digits_of, parse_unsigned-to_decimal,
}
use canokey_manager.Oath.Name.{
  Kind, hotp, totp, default_period, split_period, parse_period, parse_issuer, parse_name, label,
  has_period_head, is_ambiguous, format_id,
}

-- No colon stands where it would be read as the end of an issuer.
abbrev pub IsReadable : Option (List ℕ) → List ℕ → Type 0
IsReadable none account = (starts_with b':' account ≡ true) ⊎ All (λ c. c ≢ b':') account
IsReadable (some issuer) account = (is_empty issuer ≡ false) × All (λ c. c ≢ b':') issuer

-- What is read back for a period: HOTP credentials have none.
abbrev pub period_of : Kind → ℕ → ℕ
period_of hotp period = 0
period_of totp period = period

parse_issuer-label :
    (issuer : Option (List ℕ)) (account : List ℕ)
    → IsReadable issuer account
    → parse_issuer (label issuer account) ≡ (issuer, account)
unfolding parse_issuer label
parse_issuer-label none account (inl e) = rw e refl
parse_issuer-label none account (inr h) = ground (arith, split_once-none b':' account h)
parse_issuer-label (some []) account (e, h) = absurd (cc)
parse_issuer-label (some (c ∷ issuer)) account (e, h) =
    ground (arith, h.0, split_once-append b':' (c ∷ issuer) account h)

split_period-plain :
    (text : List ℕ) (o : Option (List ℕ × List ℕ))
    → has_period_head o ≡ false
    → split_period text o ≡ (default_period, text)
unfolding split_period has_period_head
split_period-plain text none h = refl
split_period-plain text (some (head, tail)) h = rw h refl

decimal-IsPlain : (s : List ℕ) → All (λ c. (48 ≤ c) × (c ≤ 57)) s → All (λ c. c ≢ b'/') s
decimal-IsPlain [] h = tt
decimal-IsPlain (c ∷ s) h = (omega arith, decimal-IsPlain s h.1)

parse_period-decimal :
    (period : ℕ) (id : List ℕ)
    → period < u32_limit
    → parse_period totp (to_decimal period ++ (b'/' ∷ id)) ≡ (period, id)
unfolding parse_period
parse_period-decimal period id h =
    let (digits, filled, value) = to_decimal-Reads period in
    let text = to_decimal period in
    rw (split_once-append b'/' text id (decimal-IsPlain text digits)) (
      ground
        (arith, filled, all_digits_of text digits, parse_unsigned-to_decimal u32_limit period h))

parse_period-plain :
    (period : ℕ) (id : List ℕ)
    → period ≡ default_period
    → is_ambiguous id ≡ false
    → parse_period totp id ≡ (period, id)
unfolding parse_period is_ambiguous
parse_period-plain period id p a =
    split_period-plain id (split_once b'/' id) a ∙ ap (λ n. (n, id)) (sym p)

parse_period-format_id :
    (issuer : Option (List ℕ)) (account : List ℕ) (kind : Kind) (period : ℕ)
    → period < u32_limit
    → parse_period kind (format_id issuer account kind period)
      ≡ (period_of kind period, label issuer account)
unfolding format_id
parse_period-format_id issuer account hotp period h = unfold parse_period in refl
parse_period-format_id issuer account totp period h =
    let id = label issuer account in
    elim (Bool-cases (not (period == default_period) || is_ambiguous id)) [
      | inl e ↦ rw e (parse_period-decimal period id h)
      | inr e ↦ rw e (parse_period-plain period id (ground (arith, e)) (ground (arith, e)))
    ]

-- The name that is stored for an issuer, account, kind and period reads back as exactly these, also
-- where the name itself begins like a period: for every period that fits 32 bits (HOTP names carry
-- none), if an issuer is not empty and has no colon, and an account with no issuer has no colon
-- behind its first character.
pub parse_name-format_id :
    (issuer : Option (List ℕ)) (account : List ℕ) (kind : Kind) (period : ℕ)
    → period < u32_limit
    → IsReadable issuer account
    → parse_name (format_id issuer account kind period) kind
      ≡ record { issuer = issuer; account = account; period = period_of kind period }
unfolding parse_name
parse_name-format_id issuer account kind period h r =
    rw (parse_period-format_id issuer account kind period h)
      (rw (parse_issuer-label issuer account r) refl)
