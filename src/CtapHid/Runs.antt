-- ===== src/CtapHid/Runs.antt =====
-- Runs of crates/ckman-transport/src/ctaphid.rs at concrete inputs, and the theorems there.
use canokey_manager.Prelude.{
  ℕ, ◌≡◌, ◌≢◌, refl, false, true, none, some, List, [], ◌∷◌, ◌++◌, map, arith, replicate, ok, err,
}
use canokey_manager.Prelude.Bytes.{bytes_eq}
use canokey_manager.CtapHid.Wire.{
  Command, ping, cbor, keepalive, init, byte, keepalive_of_byte, device, invalid_seq, from_byte,
}
use canokey_manager.CtapHid.Frame.{
  report_of, initialization_packet, continuation_packets, frame_message,
}
use canokey_manager.CtapHid.Decoder.{
  idle, push, push_all, push_known, push_initialization, push_continuation,
}
use canokey_manager.CtapHid.Decoder.Invariant.{IsSettled, push-IsSettled}
use canokey_manager.CtapHid.RoundTrip.{receiving, answers, push_all-frame_message}
use canokey_manager.CtapHid.Channel.{
  Arrival, report, expired, request, allocate, wait_loop, response_round, cid_of, same_command,
  Capabilities, report_round, answer_round, follow, allocation_round, capabilities_of,
  write_packets,
}
use canokey_manager.CtapHid.Channel.Replies.{own, wait_loop-returns}
use canokey_manager.CtapHid.Channel.Answers.{keepalive_packets, request_reply}
use canokey_manager.CtapHid.Channel.Allocation.{IsAllocation, allocate-IsAllocation}

-- Sixty bytes take an initialization packet and one continuation packet.
abbrev sixty : List ℕ
sixty = replicate 60 7

abbrev sixty_packets : ℕ → Command → List (List ℕ)
sixty_packets cid cmd =
    initialization_packet cid cmd sixty ∷ continuation_packets 60 cid 0 (7 ∷ 7 ∷ 7 ∷ [])

sixty_framed : frame_message 5 cbor sixty ≡ ok (sixty_packets 5 cbor)
unfolding frame_message
sixty_framed = refl

push_all-frame_message_example :
    push_all (receiving ping 70 (1 ∷ []) 3) (sixty_packets 5 cbor)
    ≡ (answers (sixty_packets 5 cbor) (cbor, sixty), idle)
push_all-frame_message_example =
    push_all-frame_message (receiving ping 70 (1 ∷ []) 3) 5 cbor sixty (sixty_packets 5 cbor)
      sixty_framed

abbrev stray : List ℕ
stray = replicate 64 3

push-IsSettled_example : IsSettled (push idle stray)
push-IsSettled_example = push-IsSettled idle stray (omega arith) tt

-- A continuation packet out of order ends the message.
out_of_order : push (receiving ping 70 (replicate 57 0) 0) stray ≡ (err (device invalid_seq), idle)
unfolding push push_continuation
out_of_order = refl

wait_loop-returns_example :
    (wait_loop (response_round ping) 5 idle (report stray ∷ expired ∷ [])).0 ≢ none
wait_loop-returns_example =
    wait_loop-returns (response_round ping) 5 idle (report stray ∷ []) [] expired tt

-- The reply to a CBOR request, after a report of another channel and one keepalive.
abbrev replies : List Arrival
replies =
    report (initialization_packet 9 ping (4 ∷ []))
    ∷ report (initialization_packet 5 keepalive (2 ∷ []))
    ∷ map report (sixty_packets 5 cbor)

replies-own :
    own 5 replies ≡ map report (keepalive_packets 5 (2 ∷ []) ++ sixty_packets 5 cbor) ++ []
unfolding cid_of initialization_packet continuation_packets report_of byte
replies-own = refl

request_reply_example : request 5 cbor sixty [] replies ≡ record {
  result = some (ok sixty);
  written = sixty_packets 5 cbor;
  statuses = keepalive_of_byte 2 ∷ [];
}
request_reply_example =
    request_reply 5 cbor sixty sixty (2 ∷ []) (sixty_packets 5 cbor) (sixty_packets 5 cbor) replies
      [] (omega arith) not_keepalive not_error sixty_framed sixty_framed replies-own
  where
    not_keepalive : same_command cbor keepalive ≡ false
    not_keepalive = unfold same_command byte in refl

    not_error : same_command cbor Command.error ≡ false
    not_error = unfold same_command byte in refl

abbrev nonce : List ℕ
nonce = 1 ∷ 2 ∷ 3 ∷ 4 ∷ 5 ∷ 6 ∷ 7 ∷ 8 ∷ []

-- A response to another application's nonce, and then ours, which assigns channel 1.
abbrev allocations : List Arrival
allocations =
    report (initialization_packet 0xffff_ffff init (replicate 17 9))
    ∷ report
        (initialization_packet 0xffff_ffff init (nonce ++ (0 ∷ 0 ∷ 0 ∷ 1 ∷ 2 ∷ 1 ∷ 0 ∷ 0 ∷ 5 ∷ [])))
    ∷ []

abbrev wink_and_cbor : Capabilities
wink_and_cbor = record { wink = true; cbor = true; nmsg = false }

allocated : (allocate nonce [] allocations).result ≡ some (ok (1, wink_and_cbor))
unfolding allocate wait_loop report_round answer_round follow allocation_round bytes_eq
    capabilities_of write_packets frame_message initialization_packet continuation_packets report_of
    push push_known push_initialization from_byte byte cid_of same_command
allocated = refl

allocate-IsAllocation_example : IsAllocation nonce allocations (1, wink_and_cbor)
allocate-IsAllocation_example = allocate-IsAllocation nonce [] allocations 1 wink_and_cbor allocated
