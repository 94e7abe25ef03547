-- ===== src/Fido.antt =====
-- `CtapHidAdapter` of crates/ckman-core/src/fido.rs: the ISO 7816 envelope of CTAP unwrapped onto a
-- CTAPHID channel. The channel's CBOR request is a parameter.
pub mod Chain
pub mod Checks
pub mod Channel
mod Runs
use canokey_manager.Prelude.{
  ℕ, ◌+◌, ◌-◌, bit_and, Bool, true, false, not, ◌&&◌, ◌||◌, List, [], ◌∷◌, ◌++◌, ltb, ◌==◌,
  if◌then◌else◌, length, Result, ok, err, ◌>>=◌, ◌>>◌, guard,
}
use canokey_manager.Prelude.Bytes.{bytes_eq, of_be16}
use canokey_manager.CtapHid.Wire.{max_message_len}

-- The messages of the `io::Error`s, and an error of the channel.
pub data AdapterError : Type 0 where
  short_apdu not_ctap short_lc lc_mismatch chain_too_long : AdapterError
  channel_failed : ℕ → AdapterError

abbrev pub usb_select : List ℕ
usb_select =
    0x00 ∷ 0xa4 ∷ 0x04 ∷ 0x00 ∷ 0x08 ∷ 0xf0 ∷ 0x43 ∷ 0x41 ∷ 0x4e ∷ 0x4f ∷ 0x46 ∷ 0x49 ∷ 0x44 ∷ []

abbrev pub standard_select : List ℕ
standard_select =
    0x00 ∷ 0xa4 ∷ 0x04 ∷ 0x00 ∷ 0x08 ∷ 0xa0 ∷ 0x00 ∷ 0x00 ∷ 0x06 ∷ 0x47 ∷ 0x2f ∷ 0x00 ∷ 0x01 ∷ []

abbrev pub success : List ℕ
success = 0x90 ∷ 0x00 ∷ []

-- What an exchange returns, the data pending behind it, and the messages sent on the channel.
pub record Exchanged : Type 0 where
  pub result : Result (List ℕ) AdapterError
  pub pending : List ℕ
  pub sent : List (List ℕ)

abbrev sized : List ℕ → ℕ → Result (List ℕ) AdapterError
sized body len = if length body == len then ok body else err lc_mismatch

abbrev extended : List ℕ → Result (List ℕ) AdapterError
extended (h ∷ l ∷ body) = sized body (of_be16 h l)
extended _ = err short_lc

-- The data of a command behind its class and instruction.
unfoldable pub message_data : ℕ → List ℕ → Result (List ℕ) AdapterError
message_data lc rest = if lc == 0 then extended rest else sized rest lc

module _ (send : List ℕ → Result (List ℕ) ℕ) where
  abbrev answered : Result (List ℕ) ℕ → Result (List ℕ) AdapterError
  answered (ok response) = ok (response ++ success)
  answered (err e) = err (channel_failed e)

  -- The command chain, once the data is known.
  abbrev pub append_data : List ℕ → ℕ → Result (List ℕ) AdapterError → Exchanged
  append_data pending cla (err e) = record { result = err e; pending = pending; sent = [] }
  append_data pending cla (ok body) =
      if ltb (max_message_len - length pending) (length body)
      then record { result = err chain_too_long; pending = pending; sent = [] }
      else if not (bit_and cla 0x10 == 0)
      then record { result = ok success; pending = pending ++ body; sent = [] }
      else record {
        result = answered (send (pending ++ body));
        pending = [];
        sent = (pending ++ body) ∷ [];
      }

  abbrev pub ctap_command : List ℕ → List ℕ → Exchanged
  ctap_command pending (cla ∷ ins ∷ p1 ∷ p2 ∷ lc ∷ rest) =
      if not (ins == 0x10) || not (bit_and cla 0xef == 0x80)
      then record { result = err not_ctap; pending = pending; sent = [] }
      else append_data pending cla (message_data lc rest)
  ctap_command pending _ = record { result = err short_apdu; pending = pending; sent = [] }

  unfoldable pub exchange_inner : List ℕ → List ℕ → Exchanged
  unfolding message_data bytes_eq
  exchange_inner pending command =
      if bytes_eq command usb_select || bytes_eq command standard_select
      then record { result = ok success; pending = []; sent = [] }
      else ctap_command pending command

  -- A failed exchange discards the chain.
  abbrev pub cleared : Exchanged → Result (List ℕ) AdapterError → Exchanged
  cleared e (ok response) = e
  cleared e (err x) = record e { pending = [] }

  unfoldable pub exchange : List ℕ → List ℕ → Exchanged
  unfolding exchange_inner
  exchange pending command = let e = exchange_inner pending command in cleared e e.result
