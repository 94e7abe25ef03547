-- ===== src/CtapHid/RoundTrip.antt =====
-- `MessageDecoder::push` on the packets of `frame_message`
-- (crates/ckman-transport/src/ctaphid.rs).
use canokey_manager.Prelude.{
  ℕ, zero, suc, ◌+◌, ◌-◌, ◌*◌, ◌/◌, ◌%◌, ◌<◌, ◌≤◌, ◌≡◌, refl, ap, ◌∙◌, sym, min, bit_and, none,
  some, List, [], ◌∷◌, ◌++◌, arith, leb, ◌==◌, ==_refl, true, false, if◌then◌else◌, length,
  length-append, length-take, length-drop, take, drop, drop_all, take-append_le, take_all,
  replicate, ok, ok_injective, subst, Bool-cases, leb→le, ◌⊎◌, inl, inr, append_assoc,
  take-append-drop,
}
use canokey_manager.Prelude.Bytes.{be32, of_be16, top_bit}
use canokey_manager.CtapHid.Wire.{
  report_len, init_payload, cont_payload, max_message_len, Command, byte, from_byte-byte,
  byte_range,
}
use canokey_manager.CtapHid.Frame.{
  report_of, initialization_packet, continuation_packets, frame_message, frame_message-ok,
  frame_message-fits,
}
use canokey_manager.CtapHid.Decoder.{
  MessageDecoder, idle, push_known, push_initialization, push_continuation, complete, push, Answer,
  push_all,
}

-- A message of which `buf` has arrived, in `seq` continuation packets.
abbrev pub receiving : Command → ℕ → List ℕ → ℕ → MessageDecoder
receiving cmd expected buf seq = record {
  active = some (record { cmd = byte cmd; expected = expected; buf = buf; next_seq = seq });
}

front_of_padded : (n : ℕ) (body pad : List ℕ) → n ≡ length body → take n (body ++ pad) ≡ body
front_of_padded n body pad h =
    take-append_le n body pad (omega arith) ∙ take_all n body (omega arith)

length_bytes : (n : ℕ) → n ≤ max_message_len → of_be16 (n % 65536 / 256 % 256) (n % 65536 % 256) ≡ n
length_bytes n h = omega arith

byte_flag : (cmd : Command) → (bit_and (byte cmd) 0x80 == 0) ≡ false
byte_flag cmd = ground (arith, top_bit (byte cmd), byte_range cmd)

-- Of a list no longer than `n` the first `n` elements are all.
front_or_more :
    (n : ℕ) (xs : List ℕ)
    → (leb (length xs) n ≡ true) × (take n xs ≡ xs) ⊎ (leb (length xs) n ≡ false)
front_or_more n xs = elim (Bool-cases (leb (length xs) n)) [
  | inl e ↦ inl (e, take_all n xs (leb→le _ _ e))
  | inr e ↦ inr e
]

push_known_front :
    (cmd : Command) (payload front body : List ℕ)
    → length payload ≤ max_message_len
    → take (min (length payload) init_payload) body ≡ front
    → length front ≡ min (length payload) init_payload
    → (leb (length payload) init_payload ≡ true) × (front ≡ payload)
      ⊎ (leb (length payload) init_payload ≡ false)
    → push_known cmd (byte cmd) (length payload) body ≡ (
        if leb (length payload) init_payload
        then (ok (some (cmd, payload)), idle)
        else (ok none, receiving cmd (length payload) front 0))
unfolding push_known
push_known_front cmd payload front body h cut n (inl (e, whole)) = rw (cut, e) (ground arith)
push_known_front cmd payload front body h cut n (inr e) = rw (cut, e) (ground arith)

push_known_padded :
    (cmd : Command) (payload pad : List ℕ)
    → length payload ≤ max_message_len
    → push_known cmd (byte cmd) (length payload) (take init_payload payload ++ pad) ≡ (
        if leb (length payload) init_payload
        then (ok (some (cmd, payload)), idle)
        else (ok none, receiving cmd (length payload) (take init_payload payload) 0))
push_known_padded cmd payload pad h =
    let front = take init_payload payload in
    push_known_front cmd payload front (front ++ pad) h
      (front_of_padded _ front pad (omega (arith, length-take init_payload payload)))
      (omega (arith, length-take init_payload payload)) (front_or_more init_payload payload)

-- The decoder's answer to an initialization packet, whatever it was doing before.
pub push-initialization_packet :
    (d : MessageDecoder) (cid : ℕ) (cmd : Command) (payload : List ℕ)
    → length payload ≤ max_message_len
    → push d (initialization_packet cid cmd payload) ≡ (
        if leb (length payload) init_payload
        then (ok (some (cmd, payload)), idle)
        else (ok none, receiving cmd (length payload) (take init_payload payload) 0))
unfolding push push_initialization initialization_packet report_of
push-initialization_packet d cid cmd payload h = rw (byte_flag cmd) (
    rw (from_byte-byte cmd, push_initialization)
      (rw (length_bytes (length payload) h) (push_known_padded cmd payload _ h)))

complete-byte :
    (cmd : Command) (buf : List ℕ) → complete (byte cmd) buf ≡ (ok (some (cmd, buf)), idle)
unfolding complete
complete-byte cmd buf = rw (from_byte-byte cmd, complete)

push_continuation_front :
    (cmd : Command) (expected : ℕ) (buf : List ℕ) (seq : ℕ) (rest front body : List ℕ) (a b c d : ℕ)
    → seq < 128
    → length buf + length rest ≡ expected
    → take (min (expected - length buf) cont_payload) body ≡ front
    → length front ≡ min (length rest) cont_payload
    → (leb (length rest) cont_payload ≡ true) × (front ≡ rest)
      ⊎ (leb (length rest) cont_payload ≡ false)
    → push_continuation (receiving cmd expected buf seq).active (a ∷ b ∷ c ∷ d ∷ seq ∷ body) ≡ (
        if leb (length rest) cont_payload
        then (ok (some (cmd, buf ++ rest)), idle)
        else (ok none, receiving cmd expected (buf ++ front) (seq + 1)))
unfolding push_continuation
push_continuation_front cmd expected buf seq rest front body a b c d hs h cut n (inl (e, whole)) =
    rw (==_refl seq)
      (rw (cut, e) (ground (arith, complete-byte cmd (buf ++ front), length-append buf front)))
push_continuation_front cmd expected buf seq rest front body a b c d hs h cut n (inr e) =
    rw (==_refl seq) (rw (cut, e) (ground (arith, length-append buf front)))

pub push-continuation_packet :
    (cid : ℕ) (cmd : Command) (expected : ℕ) (buf : List ℕ) (seq : ℕ) (rest : List ℕ)
    → seq < 128
    → length buf + length rest ≡ expected
    → push
        (receiving cmd expected buf seq)
        (report_of (be32 cid ++ (seq ∷ [])) (take cont_payload rest))
      ≡ (if leb (length rest) cont_payload
          then (ok (some (cmd, buf ++ rest)), idle)
          else (ok none, receiving cmd expected (buf ++ take cont_payload rest) (seq + 1)))
unfolding push report_of
push-continuation_packet cid cmd expected buf seq rest hs h =
    let flag : (bit_and seq 0x80 == 0) ≡ true = ground (arith, top_bit seq) in
    let front = take cont_payload rest in
    let pad : List ℕ = replicate (report_len - (5 + length front)) 0 in
    rw flag (
      push_continuation_front cmd expected buf seq rest front (front ++ pad) _ _ _ _ hs h
        (front_of_padded _ front pad (omega (arith, length-take cont_payload rest)))
        (omega (arith, length-take cont_payload rest)) (front_or_more cont_payload rest))

-- The answers to all reports but the last are "no message yet".
abbrev pub answers : List (List ℕ) → Command × List ℕ → List Answer
answers [] m = []
answers (r ∷ []) m = ok (some m) ∷ []
answers (r ∷ q ∷ rs) m = ok none ∷ answers (q ∷ rs) m

answers_more :
    (r : List ℕ) (rs : List (List ℕ)) (m : Command × List ℕ)
    → 0 < length rs
    → answers (r ∷ rs) m ≡ ok none ∷ answers rs m
answers_more r [] m h = absurd (omega arith)
answers_more r (q ∷ rs) m h = refl

continuation_packets_some :
    (fuel cid seq : ℕ) (rest : List ℕ)
    → 0 < length rest
    → length rest ≤ fuel
    → 0 < length (continuation_packets fuel cid seq rest)
unfolding continuation_packets
continuation_packets_some fuel cid seq [] h hf = absurd (omega arith)
continuation_packets_some zero cid seq (b ∷ bs) h hf = absurd (omega arith)
continuation_packets_some (suc fuel) cid seq (b ∷ bs) h hf = omega arith

continuation_packets_none :
    (fuel cid seq : ℕ) (rest : List ℕ) → rest ≡ [] → continuation_packets fuel cid seq rest ≡ []
unfolding continuation_packets
continuation_packets_none fuel cid seq rest e = rw e refl

continuation_packets_step :
    (fuel cid seq : ℕ) (rest : List ℕ)
    → 0 < length rest
    → seq < 255
    → continuation_packets (suc fuel) cid seq rest
      ≡ report_of (be32 cid ++ (seq ∷ [])) (take cont_payload rest)
        ∷ continuation_packets fuel cid (seq + 1) (drop cont_payload rest)
unfolding continuation_packets
continuation_packets_step fuel cid seq [] h hs = absurd (omega arith)
continuation_packets_step fuel cid seq (b ∷ bs) h hs =
    let counted : (seq + 1) % 256 ≡ seq + 1 = omega arith in
    ap
      (λ s.
        report_of (be32 cid ++ (seq ∷ [])) (take cont_payload (b ∷ bs))
        ∷ continuation_packets fuel cid s (drop cont_payload (b ∷ bs)))
      counted

push_all_last :
    (d e : MessageDecoder) (r : List ℕ) (rs : List (List ℕ)) (m : Command × List ℕ)
    → push d r ≡ (ok (some m), e)
    → rs ≡ []
    → push_all d (r ∷ rs) ≡ (answers (r ∷ rs) m, e)
unfolding push_all
push_all_last d e r rs m h none_left = rw (none_left, h)

push_all_more :
    (d d' e : MessageDecoder) (r : List ℕ) (rs : List (List ℕ)) (m : Command × List ℕ)
    → push d r ≡ (ok none, d')
    → push_all d' rs ≡ (answers rs m, e)
    → 0 < length rs
    → push_all d (r ∷ rs) ≡ (answers (r ∷ rs) m, e)
unfolding push_all
push_all_more d d' e r rs m h t some_left = rw (answers_more r rs m some_left, h, t)

push_all-continuation_packets :
    (fuel cid : ℕ) (cmd : Command) (expected : ℕ) (buf : List ℕ) (seq : ℕ) (rest : List ℕ)
    → length rest ≤ fuel
    → 0 < length rest
    → expected ≤ max_message_len
    → length buf ≡ init_payload + seq * cont_payload
    → length buf + length rest ≡ expected
    → push_all (receiving cmd expected buf seq) (continuation_packets fuel cid seq rest)
      ≡ (answers (continuation_packets fuel cid seq rest) (cmd, buf ++ rest), idle)
push_all-continuation_packets zero cid cmd expected buf seq rest hf hr hm hb he =
    absurd (omega arith)
push_all-continuation_packets (suc fuel) cid cmd expected buf seq rest hf hr hm hb he =
    let front = take cont_payload rest in
    let back = drop cont_payload rest in
    let answer = push-continuation_packet cid cmd expected buf seq rest (omega arith) he in
    let size : length front ≡ min cont_payload (length rest) = length-take cont_payload rest in
    let left : length back ≡ length rest - cont_payload = length-drop cont_payload rest in
    let grown : length (buf ++ front) ≡ length buf + length front = length-append buf front in
    rw (continuation_packets_step fuel cid seq rest hr (omega arith))
      (elim (front_or_more cont_payload rest) [
        | inl (e, whole) ↦
            push_all_last _ _ _ _ (cmd, buf ++ rest) (rw e at answer)
              (continuation_packets_none fuel cid _ _ (drop_all cont_payload rest (leb→le _ _ e)))
        | inr e ↦
            let more : cont_payload < length rest = ground arith in
            let joined : (buf ++ front) ++ back ≡ buf ++ rest =
              append_assoc buf _ _ ∙ ap (λ l. buf ++ l) (take-append-drop cont_payload rest) in
            push_all_more _ _ _ _ _ (cmd, buf ++ rest) (rw e at answer)
              (rw (← joined) (
                push_all-continuation_packets fuel cid cmd expected (buf ++ front) (seq + 1) back
                  (omega arith) (omega arith) hm (omega arith) (omega arith)))
              (continuation_packets_some fuel cid (seq + 1) back (omega arith) (omega arith))
      ])

-- A decoder in any state, fed the packets of a framed message of at most 7609 bytes in order,
-- answers every packet but the last with "no message yet" and the last with exactly the command
-- and the payload that were framed, and is idle afterwards.
pub push_all-frame_message :
    (d : MessageDecoder) (cid : ℕ) (cmd : Command) (payload : List ℕ) (packets : List (List ℕ))
    → frame_message cid cmd payload ≡ ok packets
    → push_all d packets ≡ (answers packets (cmd, payload), idle)
push_all-frame_message d cid cmd payload packets h =
    let fits : length payload ≤ max_message_len = frame_message-fits cid cmd payload packets h in
    let answer = push-initialization_packet d cid cmd payload fits in
    let left = length-drop init_payload payload in
    let size = length-take init_payload payload in
    let joined = take-append-drop init_payload payload in
    rw (ok_injective (sym h ∙ frame_message-ok cid cmd payload fits))
      (elim (front_or_more init_payload payload) [
        | inl (e, whole) ↦
            push_all_last _ _ _ _ (cmd, payload) (rw e at answer)
              (continuation_packets_none _ cid _ _ (drop_all init_payload payload (leb→le _ _ e)))
        | inr e ↦
            let more : init_payload < length payload = ground arith in
            push_all_more _ _ _ _ _ (cmd, payload) (rw e at answer)
              (subst
                (λ l.
                  push_all (receiving cmd (length payload) (take init_payload payload) 0)
                    (continuation_packets (length payload) cid 0 (drop init_payload payload))
                  ≡ (
                    answers
                        (continuation_packets (length payload) cid 0 (drop init_payload payload))
                        (cmd, l),
                    idle,
                  ))
                joined
                (push_all-continuation_packets (length payload) cid cmd (length payload)
                  (take init_payload payload) 0 (drop init_payload payload) (omega arith)
                  (omega arith) fits (omega arith) (omega arith)))
              (continuation_packets_some _ cid 0 (drop init_payload payload) (omega arith)
                (omega arith))
      ])
