-- ===== src/CtapHid/Frame.antt =====
-- `frame_message` of crates/ckman-transport/src/ctaphid.rs.
use canokey_manager.Prelude.{
  ℕ, zero, suc, ◌+◌, ◌-◌, ◌%◌, ◌≤◌, ◌≡◌, List, [], ◌∷◌, ◌++◌, arith, ltb, if◌then◌else◌, length,
  length-append, take, drop, length-take, length-replicate, replicate, All, Result, ok, err,
  ok_injective, Bool-cases, inl, inr, subst,
}
use canokey_manager.Prelude.Bytes.{be16, be32}
use canokey_manager.CtapHid.Wire.{
  report_len, init_payload, cont_payload, max_message_len, Command, byte, CtapHidError,
  payload_too_large,
}

-- A zeroed report, filled from the left by the header and then by the payload's next bytes.
unfoldable pub report_of : List ℕ → List ℕ → List ℕ
report_of header body = header ++ (body ++ replicate (report_len - (length header + length body)) 0)

-- The `while offset < payload.len()` loop; `rest` is `payload[offset..]`, and a round takes a byte
-- at least, so `length rest` rounds are enough.
unfoldable pub continuation_packets : ℕ → ℕ → ℕ → List ℕ → List (List ℕ)
continuation_packets fuel cid seq [] = []
continuation_packets zero cid seq (b ∷ bs) = []
continuation_packets (suc fuel) cid seq (b ∷ bs) =
    report_of (be32 cid ++ (seq ∷ [])) (take cont_payload (b ∷ bs))
    ∷ continuation_packets fuel cid ((seq + 1) % 256) (drop cont_payload (b ∷ bs))

unfoldable pub initialization_packet : ℕ → Command → List ℕ → List ℕ
initialization_packet cid cmd payload =
    report_of (be32 cid ++ (byte cmd ∷ be16 (length payload % 65536))) (take init_payload payload)

unfoldable pub frame_message : ℕ → Command → List ℕ → Result (List (List ℕ)) CtapHidError
frame_message cid cmd payload =
    if ltb max_message_len (length payload)
    then err (payload_too_large (length payload))
    else ok (
        initialization_packet cid cmd payload
        ∷ continuation_packets (length payload) cid 0 (drop init_payload payload))

pub length-report_of :
    (header body : List ℕ)
    → length header + length body ≤ report_len
    → length (report_of header body) ≡ report_len
unfolding report_of
length-report_of header body h = omega (
  arith,
  length-append header (body ++ replicate (report_len - (length header + length body)) 0),
  length-append body (replicate (report_len - (length header + length body)) 0),
  length-replicate {A = ℕ} (report_len - (length header + length body)) 0,
)

abbrev pub IsReport : List ℕ → Type 0
IsReport r = length r ≡ report_len

continuation_packets-IsReport :
    (fuel cid seq : ℕ) (rest : List ℕ) → All IsReport (continuation_packets fuel cid seq rest)
unfolding continuation_packets
continuation_packets-IsReport fuel cid seq [] = tt
continuation_packets-IsReport zero cid seq (b ∷ bs) = tt
continuation_packets-IsReport (suc fuel) cid seq (b ∷ bs) = (
  length-report_of (be32 cid ++ (seq ∷ [])) (take cont_payload (b ∷ bs))
      (omega (arith, length-take cont_payload (b ∷ bs))),
  continuation_packets-IsReport fuel cid ((seq + 1) % 256) (drop cont_payload (b ∷ bs)),
)

pub frame_message-ok :
    (cid : ℕ) (cmd : Command) (payload : List ℕ)
    → length payload ≤ max_message_len
    → frame_message cid cmd payload
      ≡ ok (
          initialization_packet cid cmd payload
          ∷ continuation_packets (length payload) cid 0 (drop init_payload payload))
unfolding frame_message
frame_message-ok cid cmd payload h = ground arith

pub frame_message-fits :
    (cid : ℕ) (cmd : Command) (payload : List ℕ) (packets : List (List ℕ))
    → frame_message cid cmd payload ≡ ok packets
    → length payload ≤ max_message_len
unfolding frame_message
frame_message-fits cid cmd payload packets h = ground arith

-- Every packet of a framed message has exactly 64 bytes.
pub frame_message-IsReport :
    (cid : ℕ) (cmd : Command) (payload : List ℕ) (packets : List (List ℕ))
    → frame_message cid cmd payload ≡ ok packets
    → All IsReport packets
unfolding frame_message initialization_packet
frame_message-IsReport cid cmd payload packets h =
    elim (Bool-cases (ltb max_message_len (length payload))) [
      | inl long ↦ absurd (cc (rw long at h))
      | inr fits ↦ subst (All IsReport) (ok_injective (rw fits at h)) (
        length-report_of (be32 cid ++ (byte cmd ∷ be16 (length payload % 65536)))
            (take init_payload payload) (omega (arith, length-take init_payload payload)),
        continuation_packets-IsReport (length payload) cid 0 (drop init_payload payload),
      )
    ]
