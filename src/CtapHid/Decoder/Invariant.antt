-- ===== src/CtapHid/Decoder/Invariant.antt =====
-- What `MessageDecoder::push` (crates/ckman-transport/src/ctaphid.rs) keeps true of its state.
use canokey_manager.Prelude.{
  ℕ, ◌+◌, ◌-◌, ◌*◌, ◌<◌, ◌≤◌, ◌≡◌, refl, min, bit_and, Option, none, some, List, arith, ◌==◌,
  length, length-append, length-take, length-drop, drop, get_or, ok, err, Option-cases, Bool-cases,
  if◌then◌else◌, ◌%◌, ◌++◌, inl, inr,
}
use canokey_manager.CtapHid.Wire.{
  init_header, cont_header, init_payload, cont_payload, max_message_len, Command, from_byte,
}
use canokey_manager.CtapHid.Frame.{IsReport}
use canokey_manager.CtapHid.Decoder.{
  Partial, MessageDecoder, idle, Pushed, push_known, push_initialization, complete,
  push_continuation, push,
}

-- A message in flight is incomplete, within the limit, and its bytes are those of the
-- initialization packet and of `next_seq` full continuation packets.
abbrev pub IsReceiving : Option Partial → Type 0
IsReceiving none = Unit
IsReceiving (some p) =
    (length p.buf < p.expected)
    × (p.expected ≤ max_message_len)
    × (length p.buf ≡ init_payload + p.next_seq * cont_payload)

abbrev pub IsValid : MessageDecoder → Type 0
IsValid d = IsReceiving d.active

-- What an answer leaves behind: only \"no message yet\" keeps a message in flight.
abbrev pub IsSettled : Pushed → Type 0
IsSettled (err e, d) = d ≡ idle
IsSettled (ok none, d) = IsValid d
IsSettled (ok (some (c, m)), d) = (d ≡ idle) × (length m ≤ max_message_len)

push_known-IsSettled :
    (cmd : Command) (tag expected : ℕ) (body : List ℕ)
    → init_payload ≤ length body
    → IsSettled (push_known cmd tag expected body)
unfolding push_known
push_known-IsSettled cmd tag expected body h =
    ground (arith, length-take (min expected init_payload) body)

push_initialization-IsSettled :
    (report : List ℕ) → IsReport report → IsSettled (push_initialization report)
unfolding push_initialization
push_initialization-IsSettled report h = elim (Option-cases (from_byte (get_or report 4 0))) [
  | inl e ↦ rw (e, IsSettled, push_initialization) refl
  | inr (cmd, e) ↦
      rw (e, IsSettled, push_initialization)
        (push_known-IsSettled cmd _ _ (drop init_header report)
          (omega (arith, length-drop init_header report)))
]

complete-IsSettled :
    (cmd : ℕ) (buf : List ℕ) → length buf ≤ max_message_len → IsSettled (complete cmd buf)
unfolding complete
complete-IsSettled cmd buf h = elim (Option-cases (from_byte cmd)) [
  | inl e ↦ rw (e, IsSettled, complete) refl
  | inr (c, e) ↦ rw (e, IsSettled, complete) (refl, h)
]

-- A continuation packet in sequence, which carries `more`.
sequel-IsSettled :
    (p : Partial) (more : List ℕ)
    → IsReceiving (some p)
    → length more ≡ min (p.expected - length p.buf) cont_payload
    → IsSettled (
        if length (p.buf ++ more) == p.expected then complete p.cmd (p.buf ++ more) else (
          ok none,
          record {
            active = some (record {
              cmd = p.cmd;
              expected = p.expected;
              buf = p.buf ++ more;
              next_seq = (p.next_seq + 1) % 256;
            });
          },
        ))
sequel-IsSettled p more v h =
    ground (arith, length-append p.buf more, complete-IsSettled p.cmd (p.buf ++ more))

push_continuation-IsSettled :
    (o : Option Partial) (report : List ℕ)
    → IsReport report
    → IsReceiving o
    → IsSettled (push_continuation o report)
unfolding push_continuation
push_continuation-IsSettled none report h v = refl
push_continuation-IsSettled (some p) report h v =
    elim (Bool-cases (get_or report 4 0 == p.next_seq)) [
      | inl e ↦ rw e (
          sequel-IsSettled p _ v (
            omega (
              arith,
              length-take (min (p.expected - length p.buf) cont_payload) (drop cont_header report),
              length-drop cont_header report,
            )))
      | inr e ↦ rw e refl
    ]

-- After any 64-byte report the decoder is valid: only an answer "no message yet" leaves a message
-- in flight, whose bytes are those of its packets so far and fewer than declared; an error leaves the
-- decoder idle, and so does a message, which has at most 7609 bytes.
pub push-IsSettled :
    (d : MessageDecoder) (report : List ℕ) → IsReport report → IsValid d → IsSettled (push d report)
unfolding push
push-IsSettled d report h v = elim (Bool-cases (bit_and (get_or report 4 0) 0x80 == 0)) [
  | inl e ↦ rw e (push_continuation-IsSettled d.active report h v)
  | inr e ↦ rw e (push_initialization-IsSettled report h)
]
