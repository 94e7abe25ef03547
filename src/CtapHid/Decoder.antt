-- ===== src/CtapHid/Decoder.antt =====
-- `MessageDecoder` of crates/ckman-transport/src/ctaphid.rs.
pub mod Invariant
use canokey_manager.Prelude.{
  ℕ, ◌+◌, ◌-◌, ◌%◌, ◌*◌, ◌<◌, ◌≤◌, ◌≡◌, min, bit_and, Option, none, some, List, [], ◌∷◌, ◌++◌,
  arith, ltb, ◌==◌, if◌then◌else◌, length, get_or, take, drop, Result, ok, err,
}
use canokey_manager.Prelude.Bytes.{of_be16}
use canokey_manager.CtapHid.Wire.{
  init_header, cont_header, init_payload, cont_payload, max_message_len, Command, from_byte,
  CtapHidError, malformed, device, unknown_command, length_out_of_range, unexpected_continuation,
  invalid_seq,
}

pub record Partial : Type 0 where
  pub cmd : ℕ
  pub expected : ℕ
  pub buf : List ℕ
  pub next_seq : ℕ

pub record MessageDecoder : Type 0 where
  pub active : Option Partial

abbrev pub idle : MessageDecoder
idle = record { active = none }

abbrev pub Answer : Type 0
Answer = Result (Option (Command × List ℕ)) CtapHidError

-- What one report leads to: an error, no message yet, or a message; and the decoder after it.
abbrev pub Pushed : Type 0
Pushed = Answer × MessageDecoder

-- An initialization packet whose command byte is known.
unfoldable pub push_known : Command → ℕ → ℕ → List ℕ → Pushed
push_known cmd tag expected body =
    if ltb max_message_len expected
    then (err (malformed length_out_of_range), idle)
    else let buf = take (min expected init_payload) body in
      if length buf == expected then (ok (some (cmd, buf)), idle) else (
        ok none,
        record {
          active = some (record { cmd = tag; expected = expected; buf = buf; next_seq = 0 });
        },
      )

unfoldable pub push_initialization : List ℕ → Pushed
push_initialization report =
    let tag = get_or report 4 0 in
    let expected = of_be16 (get_or report 5 0) (get_or report 6 0) in
    elim (from_byte tag) [
      | none ↦ (err (malformed unknown_command), idle)
      | some cmd ↦ push_known cmd tag expected (drop init_header report)
    ]

-- A complete message; `cmd` was a known command byte when the message began.
unfoldable pub complete : ℕ → List ℕ → Pushed
complete cmd buf = elim (from_byte cmd) [
  | none ↦ (err (malformed unknown_command), idle)
  | some c ↦ (ok (some (c, buf)), idle)
]

unfoldable pub push_continuation : Option Partial → List ℕ → Pushed
unfolding complete
push_continuation none report = (err (malformed unexpected_continuation), idle)
push_continuation (some partial) report =
    let tag = get_or report 4 0 in
    if tag == partial.next_seq
    then (let remaining = partial.expected - length partial.buf in
        let buf = partial.buf ++ take (min remaining cont_payload) (drop cont_header report) in
        if length buf == partial.expected then complete partial.cmd buf else (
          ok none,
          record {
            active = some (record {
              cmd = partial.cmd;
              expected = partial.expected;
              buf = buf;
              next_seq = (partial.next_seq + 1) % 256;
            });
          },
        ))
    else (err (device invalid_seq), idle)

unfoldable pub push : MessageDecoder → List ℕ → Pushed
push d report =
    if bit_and (get_or report 4 0) 0x80 == 0
    then push_continuation d.active report
    else push_initialization report

-- Reports fed to one decoder in turn.
unfoldable pub push_all : MessageDecoder → List (List ℕ) → List Answer × MessageDecoder
push_all d [] = ([], d)
push_all d (r ∷ rs) =
    let (answer, d') = push d r in let (more, d'') = push_all d' rs in (answer ∷ more, d'')
