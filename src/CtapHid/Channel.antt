-- ===== src/CtapHid/Channel.antt =====
-- `CtapHidChannel` of crates/ckman-transport/src/ctaphid.rs. The device and the clock are scripts:
-- one entry for each report written, and one for each round of a waiting loop.
pub mod Replies
pub mod Answers
pub mod Allocation
use canokey_manager.Prelude.{
  ℕ, ◌+◌, ◌*◌, ◌<◌, ◌≡◌, not, ◌&&◌, ◌||◌, bit_and, Bool, true, false, Option, none, some, List, [],
  ◌∷◌, ◌++◌, ltb, ◌==◌, if◌then◌else◌, length, get_or, take, drop, Result, ok, err,
}
use canokey_manager.Prelude.Bytes.{of_be32, bytes_eq}
use canokey_manager.CtapHid.Wire.{
  Command, init, error, keepalive, cancel, byte, Keepalive, keepalive_of_byte, CtapHidError, io,
  timeout, malformed, keepalive_size, short_init, reserved_channel, unexpected_command,
  device_error, broadcast_cid,
}
use canokey_manager.CtapHid.Frame.{frame_message}
use canokey_manager.CtapHid.Decoder.{MessageDecoder, idle, Pushed, push}

-- What a round of a loop meets: the deadline has passed, `read_report` fails, it returns `None`, or
-- it returns a report.
pub data Arrival : Type 0 where
  expired silent : Arrival
  failed : ℕ → Arrival
  report : List ℕ → Arrival

-- What a loop does with a report: wait on, having told `on_keepalive` some statuses, or return.
pub data Round {ℓ} (A : Type ℓ) : Type ℓ where
  next : MessageDecoder → List Keepalive → Round A
  done : Result A CtapHidError → Round A

-- `==` of `#[derive(PartialEq)] enum Command`
unfoldable pub same_command : Command → Command → Bool
same_command a b = byte a == byte b

-- `u32::from_be_bytes(report[..4])`
unfoldable pub cid_of : List ℕ → ℕ
cid_of r = of_be32 (get_or r 0 0) (get_or r 1 0) (get_or r 2 0) (get_or r 3 0)

-- `return Err(device_error(&body)?)`
unfoldable pub fail_with : Result CtapHidError CtapHidError → CtapHidError
fail_with (ok e) = e
fail_with (err e) = e

unfoldable pub keepalive_round : List ℕ → MessageDecoder → Round (List ℕ)
keepalive_round (status ∷ []) d = next d (keepalive_of_byte status ∷ [])
keepalive_round _ d = done (err (malformed keepalive_size))

unfoldable pub response_round : Command → Command → List ℕ → MessageDecoder → Round (List ℕ)
unfolding same_command keepalive_round fail_with
response_round cmd response body d =
    if same_command response keepalive
    then keepalive_round body d
    else if same_command response error
    then done (err (fail_with (device_error body)))
    else if same_command response cmd
    then done (ok body)
    else done (err (malformed unexpected_command))

pub record Capabilities : Type 0 where
  pub wink : Bool
  pub cbor : Bool
  pub nmsg : Bool

unfoldable pub capabilities_of : ℕ → Capabilities
capabilities_of caps = record {
  wink = not (bit_and caps 0x01 == 0);
  cbor = not (bit_and caps 0x04 == 0);
  nmsg = not (bit_and caps 0x08 == 0);
}

unfoldable pub allocation_round :
    List ℕ → Command → List ℕ → MessageDecoder → Round (ℕ × Capabilities)
allocation_round nonce cmd payload d =
    let cid = cid_of (drop 8 payload) in
    if same_command cmd error
    then done (err (fail_with (device_error payload)))
    else if not (same_command cmd init)
    then next d []
    else if ltb (length payload) 17
    then done (err (malformed short_init))
    else if not (bytes_eq (take 8 payload) nonce)
    then next d []
    else if cid == 0 || cid == broadcast_cid
    then done (err (malformed reserved_channel))
    else done (ok (cid, capabilities_of (get_or payload 16 0)))

-- The end of a round: return, or go on in the loop.
unfoldable pub follow {ℓ} :
    {A : Type ℓ}
    → Round A
    → (MessageDecoder → Option (Result A CtapHidError) × List Keepalive)
    → Option (Result A CtapHidError) × List Keepalive
follow (done result) loop = (some result, [])
follow (next d statuses) loop = let (result, more) = loop d in (result, statuses ++ more)

module _ {ℓ} {A : Type ℓ} (on_message : Command → List ℕ → MessageDecoder → Round A) where
  unfoldable pub answer_round : Pushed → Round A
  answer_round (err e, d) = done (err e)
  answer_round (ok none, d) = next d []
  answer_round (ok (some (cmd, body)), d) = on_message cmd body d

  -- Reports of other channels are skipped.
  unfoldable pub report_round : ℕ → MessageDecoder → List ℕ → Round A
  unfolding answer_round cid_of
  report_round cid d r = if cid_of r == cid then answer_round (push d r) else next d []

  -- The `loop` of `allocate` and of `request`. `none`: the script ended while the loop waited.
  unfoldable pub wait_loop :
      ℕ → MessageDecoder → List Arrival → Option (Result A CtapHidError) × List Keepalive
  unfolding follow
  wait_loop cid d [] = (none, [])
  wait_loop cid d (expired ∷ rest) = (some (err timeout), [])
  wait_loop cid d (failed e ∷ rest) = (some (err (io e)), [])
  wait_loop cid d (silent ∷ rest) = (some (err timeout), [])
  wait_loop cid d (report r ∷ rest) = follow (report_round cid d r) (λ d'. wait_loop cid d' rest)

-- `for packet in &packets { io.write_report(packet)? }`: the outcome of each write, where a missing
-- entry is a success, and the packets written.
unfoldable pub write_packets :
    List (Option ℕ) → List (List ℕ) → Result (Unit {0}) CtapHidError × List (List ℕ)
write_packets faults [] = (ok tt, [])
write_packets (some e ∷ faults) (p ∷ ps) = (err (io e), [])
write_packets (none ∷ faults) (p ∷ ps) =
    let (result, written) = write_packets faults ps in (result, p ∷ written)
write_packets [] (p ∷ ps) = let (result, written) = write_packets [] ps in (result, p ∷ written)

pub record Traffic {ℓ} (A : Type ℓ) : Type ℓ where
  pub result : Option (Result A CtapHidError)
  pub written : List (List ℕ)
  pub statuses : List Keepalive

-- A message written on one channel, and the loop that waits for the answer.
unfoldable pub converse {ℓ} :
    {A : Type ℓ}
    → (Command → List ℕ → MessageDecoder → Round A)
    → ℕ
    → Command
    → List ℕ
    → List (Option ℕ)
    → List Arrival
    → Traffic A
converse on_message cid cmd payload faults arrivals = elim (frame_message cid cmd payload) [
  | err e ↦ record { result = some (err e); written = []; statuses = [] }
  | ok packets ↦
      let (sent, written) = write_packets faults packets in
      elim sent [
        | err e ↦ record { result = some (err e); written = written; statuses = [] }
        | ok _ ↦
            let (result, statuses) = wait_loop on_message cid idle arrivals in
            record { result = result; written = written; statuses = statuses }
      ]
]

unfoldable pub request : ℕ → Command → List ℕ → List (Option ℕ) → List Arrival → Traffic (List ℕ)
unfolding converse
request cid cmd payload = converse (response_round cmd) cid cmd payload

unfoldable pub allocate : List ℕ → List (Option ℕ) → List Arrival → Traffic (ℕ × Capabilities)
unfolding converse
allocate nonce = converse (allocation_round nonce) broadcast_cid init nonce

-- `cancel`: nothing is awaited.
unfoldable pub cancel_request : ℕ → List (Option ℕ) → Result (Unit {0}) CtapHidError × List (List ℕ)
cancel_request cid faults = elim (frame_message cid cancel []) [
  | err e ↦ (err e, [])
  | ok packets ↦ write_packets faults packets
]
