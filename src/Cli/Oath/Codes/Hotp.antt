-- ===== src/Cli/Oath/Codes/Hotp.antt =====
-- `accounts_code` of crates/ckman/src/commands/oath.rs advances no HOTP counter where more than one
-- account matches.
use canokey_manager.Prelude.{
  ℕ, ◌≡◌, refl, inl, inr, Bool, false, Option, none, some, List, [], ◌∷◌, ◌++◌, All, Result-cases,
  guard, ok_or, not, ◌==◌,
}
use canokey_manager.Prelude.Text.{codes}
use canokey_manager.Oath.Name.{Kind, hotp, totp, ParsedName, parse_name}
use canokey_manager.Cli.Effects.{
  ◌>>=◌, lift, event, OnlyQuiet, OnlyQuiet_refl, OnlyQuiet-step, Quiet, Quiet-bind,
}
use canokey_manager.Cli.Oath.{
  Entry, CredentialRef, Event, changed, calculated, clock_read, applet_reset, warned, written,
  name_range, before_epoch, zero_period, Host,
}
use canokey_manager.Cli.Oath.Session.{Session, Command, warn, access_of, run_typed}
use canokey_manager.Cli.Oath.Session.Reading.{IsReading, access_of-Reading}
use canokey_manager.Cli.Oath.Search.{kind_of, algorithm_of, display_name}
use canokey_manager.Cli.Oath.Codes.{
  Row, row_line, write_row, calculate_row, write_rows, sorted_rows, max_count, write_account_codes,
  show_code, calculate_named, account_code_of, account_code, challenge_of, calculate_request,
  send_calculation, calculate_one, calculate_now, is_single, code_of_hit, write_hits,
}

-- Nothing on the card changes, but for a TOTP calculation.
abbrev pub IsCounterless : Event → Type 0
IsCounterless (calculated access credential challenge) = credential.ref_kind ≡ totp
IsCounterless (changed access change) = ⊥
IsCounterless (applet_reset pin) = ⊥
IsCounterless _ = Unit

Reading-Counterless : (sent : List Event) → All IsReading sent → All IsCounterless sent
Reading-Counterless [] q = tt
Reading-Counterless (v ∷ sent) (q, each) = (by_event v q, Reading-Counterless sent each)
  where
    by_event : (v : Event) → IsReading v → IsCounterless v
    by_event (calculated access credential challenge) q = absurd q
    by_event (changed access change) q = q
    by_event (applet_reset pin) q = q
    by_event _ q = tt

module _ (host : Host) where
  still : (h : List Event) → OnlyQuiet IsCounterless h h
  still h = OnlyQuiet_refl IsCounterless h

  send_calculation-Counterless :
      (session : Session) (credential : CredentialRef) (challenge : Option (List ℕ))
      → credential.ref_kind ≡ totp
      → Quiet IsCounterless (send_calculation host session credential challenge)
  unfolding send_calculation run_typed
  send_calculation-Counterless session credential challenge k =
      Quiet-bind IsCounterless (access_of host session.key)
        (calculate_request host credential challenge)
        (λ h.
          let (sent, each, e) = access_of-Reading host session.key h in
          (sent, Reading-Counterless sent each, e))
        (λ access h. OnlyQuiet-step IsCounterless h (calculated access credential challenge) k)

  calculate_one-Counterless :
      (session : Session) (entry : Entry) (period now : ℕ)
      → Quiet IsCounterless (calculate_one host session entry totp period now)
  unfolding calculate_one
  calculate_one-Counterless session entry period now h =
      elim (Result-cases (guard (host.is_name entry.name) name_range)) [
        | inr (x, p) ↦ rw p (still h)
        | inl (_, p) ↦ elim (Result-cases (algorithm_of entry)) [
          | inr (x, q) ↦ rw p (rw q (still h))
          | inl (algorithm, q) ↦ elim (Result-cases (challenge_of host totp now period)) [
            | inr (x, c) ↦ rw p (rw q (rw c (still h)))
            | inl (challenge, c) ↦
                rw p (rw q (rw c (send_calculation-Counterless session _ challenge refl h)))
          ]
        ]
      ]

  calculate_now-Counterless :
      (session : Session) (entry : Entry) (period : ℕ)
      → Quiet IsCounterless (calculate_now host session entry totp period)
  unfolding calculate_now
  calculate_now-Counterless session entry period =
      Quiet-bind IsCounterless (event clock_read (λ h. ok_or (host.now h) before_epoch))
        (λ now. calculate_one host session entry totp period now)
        (λ h. OnlyQuiet-step IsCounterless h clock_read tt)
        (λ now. calculate_one-Counterless session entry period now)

  calculate_named-Counterless :
      (session : Session) (entry : Entry) (parsed : ParsedName)
      → Quiet IsCounterless
          (calculate_named host entry totp parsed (calculate_now host session entry))
  unfolding calculate_named
  calculate_named-Counterless session entry parsed h =
      let text = display_name host entry ++ codes ": touch your CanoKey if it flashes..." in
      elim (Result-cases (guard (not (parsed.period == 0)) zero_period)) [
        | inr (x, p) ↦ rw p (still h)
        | inl (_, p) ↦ rw p (
            Quiet-bind IsCounterless (warn text)
              (λ _. calculate_now host session entry totp parsed.period >>= λ code.
                lift (show_code host totp parsed code))
              (λ h. OnlyQuiet-step IsCounterless h (warned text) tt)
              (λ _.
                Quiet-bind IsCounterless (calculate_now host session entry totp parsed.period)
                  (λ code. lift (show_code host totp parsed code))
                  (calculate_now-Counterless session entry parsed.period) (λ code. still))
              h)
      ]

  code_of_hit-Counterless :
      (session : Session) (entry : Entry)
      → Quiet IsCounterless (code_of_hit host session false entry)
  unfolding code_of_hit account_code account_code_of
  code_of_hit-Counterless session entry = by_kind (kind_of entry)
    where
      by_kind :
          (kind : Option Kind)
          → Quiet IsCounterless
              (account_code_of host entry false (calculate_now host session entry) kind)
      by_kind none = still
      by_kind (some hotp) = still
      by_kind (some totp) =
          calculate_named-Counterless session entry (parse_name (host.lossy entry.name) totp)

  write_rows-Counterless :
      (single : Bool) (longest : ℕ) (calculate : Entry → Command (List ℕ))
      → ((entry : Entry) → Quiet IsCounterless (calculate entry))
      → (rows : List Row) → Quiet IsCounterless (write_rows host single longest calculate rows)
  unfolding write_rows
  write_rows-Counterless single longest calculate quiet [] = still
  write_rows-Counterless single longest calculate quiet (row ∷ rows) =
      Quiet-bind IsCounterless (calculate_row host calculate row)
        (λ code. write_row host (row_line single longest row code) >>= λ _.
          write_rows host single longest calculate rows)
        (quiet row.1)
        (λ code.
          Quiet-bind IsCounterless (write_row host (row_line single longest row code))
            (λ _. write_rows host single longest calculate rows)
            (λ h. OnlyQuiet-step IsCounterless h (written (row_line single longest row code)) tt)
            (λ _. write_rows-Counterless single longest calculate quiet rows))

  -- Where not exactly one account matches, writing the codes changes nothing on the card and
  -- calculates TOTP codes only: no HOTP counter is advanced.
  pub write_hits-Counterless :
      (session : Session) (hits : List Entry) (single : Bool)
      → is_single host hits ≡ false
      → Quiet IsCounterless (write_hits host session hits single)
  unfolding write_hits write_account_codes
  write_hits-Counterless session [] single many = still
  write_hits-Counterless session (entry ∷ hits) single many = rw many (
      write_rows-Counterless single (max_count (sorted_rows host (entry ∷ hits)))
        (code_of_hit host session false) (code_of_hit-Counterless session)
        (sorted_rows host (entry ∷ hits)))
