-- ===== src/Driver.antt =====
-- `execute` of crates/ckman-core/src/lib.rs. An operation of the SDK is a parameter: its states and what it does at
-- each call. So is the transport, whose answers may depend on the commands before.
pub mod Exchanges
mod Runs
use canokey_manager.Prelude.{ℕ, zero, suc, List, [], ◌∷◌, ◌++◌, Result, ok, err}

pub data Step : Type 0 where
  exchange_step finished : Step

-- `S` is the state of the operation; errors of the SDK are numbers.
pub record Operation (S T : Type 0) : Type 0 where
  pub start : Result (Step × S) ℕ
  pub command : S → Result (List ℕ) ℕ
  pub advance : S → List ℕ → Result (Step × S) ℕ
  pub take_result : S → Result T ℕ

-- `out_of_fuel` stands for a loop that has not ended.
pub data DriveFailure : Type 0 where
  transport protocol : ℕ → DriveFailure
  out_of_fuel : DriveFailure

abbrev pub Log : Type 0
Log = List (List ℕ)

abbrev pub Exchange : Type 0
Exchange = Log → List ℕ → Result (List ℕ) ℕ

-- A result, and the commands that were exchanged.
abbrev pub Drive : Type 0 → Type 0
Drive A = Log → Result A DriveFailure × Log

abbrev pub protocol_result : {A : Type 0} → Result A ℕ → Result A DriveFailure
protocol_result (ok a) = ok a
protocol_result (err e) = err (protocol e)

module _ {S T : Type 0} (operation : Operation S T) (exchange : Exchange) where
  -- What follows an answer: the result, or the next round.
  abbrev pub next_round : (S → Drive T) → Result (Step × S) ℕ → Drive T
  next_round rest (err e) log = (err (protocol e), log)
  next_round rest (ok (exchange_step, s)) log = rest s log
  next_round rest (ok (finished, s)) log = (protocol_result (operation.take_result s), log)

  abbrev pub on_response : (S → Drive T) → S → Result (List ℕ) ℕ → Drive T
  on_response rest s (err e) log = (err (transport e), log)
  on_response rest s (ok response) log = next_round rest (operation.advance s response) log

  abbrev pub on_command : (S → Drive T) → S → Result (List ℕ) ℕ → Drive T
  on_command rest s (err e) log = (err (protocol e), log)
  on_command rest s (ok c) log = on_response rest s (exchange log c) (log ++ (c ∷ []))

  -- The `while` loop.
  unfoldable pub exchange_loop : ℕ → S → Drive T
  exchange_loop zero s log = (err out_of_fuel, log)
  exchange_loop (suc fuel) s log =
      let rest = exchange_loop fuel in on_command rest s (operation.command s) log

  unfoldable pub execute : ℕ → Drive T
  unfolding exchange_loop
  execute fuel log = next_round (exchange_loop fuel) operation.start log
