-- ===== src/CtapHid/Channel/Answers.antt =====
-- `request` and `allocate` of crates/ckman-transport/src/ctaphid.rs against the device's answer.
use canokey_manager.Prelude.{
  ℕ, zero, suc, ◌+◌, ◌%◌, ◌<◌, ◌≡◌, refl, ap, sym, ◌∙◌, true, false, none, some, List, [], ◌∷◌,
  ◌++◌, map, arith, ==_refl, length, take, drop, ok, ok_injective, All,
}
use canokey_manager.Prelude.Bytes.{be16, be32}
use canokey_manager.CtapHid.Wire.{
  init_payload, cont_payload, Command, error, keepalive, byte, keepalive_of_byte,
}
use canokey_manager.CtapHid.Frame.{
  report_of, initialization_packet, continuation_packets, frame_message, frame_message-ok,
  frame_message-fits,
}
use canokey_manager.CtapHid.Decoder.{MessageDecoder, idle, Answer, push, push_all}
use canokey_manager.CtapHid.RoundTrip.{answers, push_all-frame_message, push-initialization_packet}
use canokey_manager.CtapHid.Channel.{
  Arrival, report, Round, next, done, same_command, cid_of, report_round, follow, wait_loop,
  response_round, converse, request, write_packets,
}
use canokey_manager.CtapHid.Channel.Replies.{own, wait_loop-own}

cid_of-be32 :
    (cid x : ℕ) (header rest : List ℕ)
    → cid < 4294967296
    → cid_of (report_of (be32 cid ++ (x ∷ header)) rest) ≡ cid
unfolding cid_of report_of
cid_of-be32 cid x header rest h = omega arith

abbrev pub IsFor : ℕ → List ℕ → Type 0
IsFor cid r = cid_of r ≡ cid

cid_of-initialization_packet :
    (cid : ℕ) (cmd : Command) (payload : List ℕ)
    → cid < 4294967296
    → cid_of (initialization_packet cid cmd payload) ≡ cid
unfolding initialization_packet
cid_of-initialization_packet cid cmd payload h =
    cid_of-be32 cid (byte cmd) (be16 (length payload % 65536)) (take init_payload payload) h

continuation_packets-IsFor :
    (fuel cid seq : ℕ) (rest : List ℕ)
    → cid < 4294967296
    → All (IsFor cid) (continuation_packets fuel cid seq rest)
unfolding continuation_packets
continuation_packets-IsFor fuel cid seq [] h = tt
continuation_packets-IsFor zero cid seq (b ∷ bs) h = tt
continuation_packets-IsFor (suc fuel) cid seq (b ∷ bs) h = (
  cid_of-be32 cid seq [] (take cont_payload (b ∷ bs)) h,
  continuation_packets-IsFor fuel cid ((seq + 1) % 256) (drop cont_payload (b ∷ bs)) h,
)

-- A framed message has at least one packet, and every packet carries its channel.
pub frame_message-IsFor :
    (cid : ℕ) (cmd : Command) (payload : List ℕ) (packets : List (List ℕ))
    → frame_message cid cmd payload ≡ ok packets
    → cid < 4294967296
    → All (IsFor cid) packets × (0 < length packets)
frame_message-IsFor cid cmd payload packets e h =
    let fits = frame_message-fits cid cmd payload packets e in
    rw (ok_injective (sym e ∙ frame_message-ok cid cmd payload fits)) (
      (
        cid_of-initialization_packet cid cmd payload h,
        continuation_packets-IsFor (length payload) cid 0 (drop init_payload payload) h,
      ),
      omega arith,
    )

push_all-cons :
    (d e : MessageDecoder) (r : List ℕ) (rs : List (List ℕ)) (o : Answer) (os : List Answer)
    → push_all d (r ∷ rs) ≡ (o ∷ os, e)
    → (push d r ≡ (o, (push d r).1)) × (push_all (push d r).1 rs ≡ (os, e))
unfolding push_all
push_all-cons d e r rs o os h = (ground (arith, h), ground (arith, h))

push_all-nil : (d e : MessageDecoder) → push_all d [] ≡ ([], e) → d ≡ e
unfolding push_all
push_all-nil d e h = ap (λ (t : List Answer × MessageDecoder). t.1) h

module _ {ℓ} {A : Type ℓ} (on_message : Command → List ℕ → MessageDecoder → Round A) where
  wait_loop_pending :
      (cid : ℕ) (d d' : MessageDecoder) (r : List ℕ) (rest : List Arrival)
      → cid_of r ≡ cid
      → push d r ≡ (ok none, d')
      → wait_loop on_message cid d (report r ∷ rest) ≡ wait_loop on_message cid d' rest
  unfolding wait_loop report_round
  wait_loop_pending cid d d' r rest own_r pushed = rw own_r (rw (==_refl cid) (rw pushed refl))

  wait_loop_last :
      (cid : ℕ) (cmd : Command) (body : List ℕ) (d : MessageDecoder) (r : List ℕ)
      (rest : List Arrival)
      → cid_of r ≡ cid
      → push d r ≡ (ok (some (cmd, body)), idle)
      → wait_loop on_message cid d (report r ∷ rest)
        ≡ follow (on_message cmd body idle) (λ d'. wait_loop on_message cid d' rest)
  unfolding wait_loop report_round
  wait_loop_last cid cmd body d r rest own_r pushed = rw own_r (rw (==_refl cid) (rw pushed refl))

  -- The loop over the packets of one message acts on the message.
  pub wait_loop_message :
      (cid : ℕ) (cmd : Command) (body : List ℕ) (d : MessageDecoder) (packets : List (List ℕ))
      (rest : List Arrival)
      → All (IsFor cid) packets
      → 0 < length packets
      → push_all d packets ≡ (answers packets (cmd, body), idle)
      → wait_loop on_message cid d (map report packets ++ rest)
        ≡ follow (on_message cmd body idle) (λ d'. wait_loop on_message cid d' rest)
  wait_loop_message cid cmd body d [] rest own_all some_left h = absurd (omega arith)
  wait_loop_message cid cmd body d (r ∷ []) rest own_all some_left h =
      let (pushed, after) = push_all-cons d idle r [] _ _ h in
      wait_loop_last cid cmd body d r rest own_all.0
        (pushed ∙ ap (λ e. (ok (some (cmd, body)), e)) (push_all-nil (push d r).1 idle after))
  wait_loop_message cid cmd body d (r ∷ q ∷ rs) rest own_all some_left h =
      let (pushed, after) = push_all-cons d idle r (q ∷ rs) _ _ h in
      wait_loop_pending cid d (push d r).1 r _ own_all.0 pushed
      ∙ wait_loop_message cid cmd body (push d r).1 (q ∷ rs) rest own_all.1 (omega arith) after

-- The KEEPALIVE packets of a list of status bytes.
abbrev pub keepalive_packets : ℕ → List ℕ → List (List ℕ)
keepalive_packets cid [] = []
keepalive_packets cid (s ∷ ss) =
    initialization_packet cid keepalive (s ∷ []) ∷ keepalive_packets cid ss

same_command_refl : (c : Command) → same_command c c ≡ true
unfolding same_command
same_command_refl c = ==_refl (byte c)

response_round-reply :
    (cmd : Command) (body : List ℕ)
    → same_command cmd keepalive ≡ false
    → same_command cmd error ≡ false
    → response_round cmd cmd body idle ≡ done (ok body)
unfolding response_round
response_round-reply cmd body k e = rw k (rw e (rw (same_command_refl cmd) refl))

response_round-keepalive :
    (cmd : Command) (status : ℕ)
    → response_round cmd keepalive (status ∷ []) idle ≡ next idle (keepalive_of_byte status ∷ [])
unfolding response_round
response_round-keepalive cmd status = rw (same_command_refl keepalive) refl

wait_loop_reply :
    (cid : ℕ) (cmd : Command) (body statuses : List ℕ) (packets : List (List ℕ))
    (rest : List Arrival)
    → cid < 4294967296
    → same_command cmd keepalive ≡ false
    → same_command cmd error ≡ false
    → frame_message cid cmd body ≡ ok packets
    → wait_loop
        (response_round cmd)
        cid
        idle
        (map report (keepalive_packets cid statuses ++ packets) ++ rest)
      ≡ (some (ok body), map keepalive_of_byte statuses)
unfolding follow
wait_loop_reply cid cmd body [] packets rest hc k e framed =
    let (own_all, some_left) = frame_message-IsFor cid cmd body packets framed hc in
    wait_loop_message (response_round cmd) cid cmd body idle packets rest own_all some_left
      (push_all-frame_message idle cid cmd body packets framed)
    ∙ rw (response_round-reply cmd body k e) refl
wait_loop_reply cid cmd body (s ∷ ss) packets rest hc k e framed =
    wait_loop_last (response_round cmd) cid keepalive (s ∷ []) idle _ _
      (cid_of-initialization_packet cid keepalive (s ∷ []) hc)
      (push-initialization_packet idle cid keepalive (s ∷ []) (omega arith))
    ∙ rw (response_round-keepalive cmd s)
        (rw (wait_loop_reply cid cmd body ss packets rest hc k e framed) refl)

write_packets-ok : (packets : List (List ℕ)) → write_packets [] packets ≡ (ok tt, packets)
unfolding write_packets
write_packets-ok [] = refl
write_packets-ok (p ∷ ps) = rw (write_packets-ok ps) refl

-- With no failing write, `converse` is the loop after the packets have been written.
converse_sent {ℓ} :
    {A : Type ℓ} (on_message : Command → List ℕ → MessageDecoder → Round A) (cid : ℕ)
    (cmd : Command) (payload : List ℕ) (commands : List (List ℕ)) (arrivals : List Arrival)
    → frame_message cid cmd payload ≡ ok commands
    → converse on_message cid cmd payload [] arrivals ≡ record {
      result = (wait_loop on_message cid idle arrivals).0;
      written = commands;
      statuses = (wait_loop on_message cid idle arrivals).1;
    }
unfolding converse
converse_sent on_message cid cmd payload commands arrivals e =
    rw (e, converse) (rw (write_packets-ok commands) (rw (write_packets-ok commands) refl))

-- When the writes succeed, and what arrives on the channel of `cid` (other traffic interleaved in any
-- way) is the KEEPALIVE packets of some status bytes and then the packets of a reply to the same
-- command, `request` returns exactly the reply's payload, has written exactly the packets of the
-- request and has reported exactly those statuses in order.
-- The command is not KEEPALIVE or ERROR.
pub request_reply :
    (cid : ℕ) (cmd : Command) (payload body statuses : List ℕ) (commands packets : List (List ℕ))
    (arrivals rest : List Arrival)
    → cid < 4294967296
    → same_command cmd keepalive ≡ false
    → same_command cmd error ≡ false
    → frame_message cid cmd payload ≡ ok commands
    → frame_message cid cmd body ≡ ok packets
    → own cid arrivals ≡ map report (keepalive_packets cid statuses ++ packets) ++ rest
    → request cid cmd payload [] arrivals ≡ record {
      result = some (ok body);
      written = commands;
      statuses = map keepalive_of_byte statuses;
    }
unfolding request
request_reply cid cmd payload body statuses commands packets arrivals rest hc k e sent framed
      heard =
    let looped : wait_loop (response_round cmd) cid idle arrivals
        ≡ (some (ok body), map keepalive_of_byte statuses) =
      wait_loop-own (response_round cmd) cid idle arrivals
      ∙ ap (wait_loop (response_round cmd) cid idle) heard
      ∙ wait_loop_reply cid cmd body statuses packets rest hc k e framed in
    converse_sent (response_round cmd) cid cmd payload commands arrivals sent ∙ rw looped refl
