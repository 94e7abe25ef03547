-- ===== src/CtapHid/Channel/Allocation.antt =====
-- `allocate` of crates/ckman-transport/src/ctaphid.rs: what has been heard when a channel is returned.
use canokey_manager.Prelude.{
  ℕ, ◌≤◌, ◌≡◌, ◌≢◌, refl, ap, Option, none, some, List, [], ◌∷◌, ◌++◌, arith, ◌==◌, length, get_or,
  take, drop, Result, ok, err, Bool-cases, inl, inr, ◌⊎◌, if◌then◌else◌, ==_iff, subst, true,
}
use canokey_manager.Prelude.Bytes.{bytes_eq}
use canokey_manager.CtapHid.Wire.{Command, init, Keepalive, CtapHidError, broadcast_cid}
use canokey_manager.CtapHid.Frame.{frame_message}
use canokey_manager.CtapHid.Decoder.{MessageDecoder, idle, Answer, push}
use canokey_manager.CtapHid.Channel.{
  Arrival, report, Round, next, done, same_command, cid_of, report_round, answer_round, follow,
  wait_loop, allocation_round, Capabilities, capabilities_of, converse, expired, silent, failed,
  allocate, write_packets, Traffic,
}

-- The decoder behind a part of the traffic: it takes the reports of its channel.
abbrev pub decoder_after : ℕ → MessageDecoder → List Arrival → MessageDecoder
decoder_after cid d [] = d
decoder_after cid d (report r ∷ rest) =
    decoder_after cid (if cid_of r == cid then (push d r).1 else d) rest
decoder_after cid d (expired ∷ rest) = decoder_after cid d rest
decoder_after cid d (silent ∷ rest) = decoder_after cid d rest
decoder_after cid d (failed e ∷ rest) = decoder_after cid d rest

-- One of the reports of the channel completes this message, after those before it.
abbrev pub IsHeard : ℕ → MessageDecoder → List Arrival → Command → List ℕ → Type 0
IsHeard cid d arrivals c m =
    (before : List Arrival) × (r : List ℕ) × (rest : List Arrival) × (arrivals
      ≡ before ++ (report r ∷ rest))
    × (cid_of r ≡ cid)
    × ((push (decoder_after cid d before) r).0 ≡ ok (some (c, m)))

module _ {A : Type 0} (P : Command → List ℕ → A → Type 0)
    (on_message : Command → List ℕ → MessageDecoder → Round A)
    (sound : (c : Command) (m : List ℕ) (d : MessageDecoder) (a : A)
      → on_message c m d ≡ done (ok a)
      → P c m a)
    (keeps : (c : Command) (m : List ℕ) (d d' : MessageDecoder) (ks : List Keepalive)
      → on_message c m d ≡ next d' ks
      → d' ≡ d) where
  -- A message that was heard has the property with the value.
  abbrev HasHeard : ℕ → MessageDecoder → List Arrival → A → Type 0
  HasHeard cid d arrivals a = (c : Command) × (m : List ℕ) × IsHeard cid d arrivals c m × P c m a

  HasHeard-report :
      (cid : ℕ) (d : MessageDecoder) (r : List ℕ) (rest : List Arrival) (a : A)
      → HasHeard cid (if cid_of r == cid then (push d r).1 else d) rest a
      → HasHeard cid d (report r ∷ rest) a
  HasHeard-report cid d r rest a (c, m, (before, r', after, e, own_channel, completes), p) =
      (c, m, (report r ∷ before, r', after, ap (λ l. report r ∷ l) e, own_channel, completes), p)

  answer_round_sound :
      (answer : Answer × MessageDecoder) (a : A)
      → answer_round on_message answer ≡ done (ok a)
      → (c : Command) × (m : List ℕ) × (answer.0 ≡ ok (some (c, m))) × P c m a
  unfolding answer_round
  answer_round_sound (err x, e) a h = absurd (cc)
  answer_round_sound (ok none, e) a h = absurd (cc)
  answer_round_sound (ok (some (c, m)), e) a h = (c, m, refl, sound c m e a h)

  answer_round_keeps :
      (answer : Answer × MessageDecoder) (d' : MessageDecoder) (ks : List Keepalive)
      → answer_round on_message answer ≡ next d' ks
      → d' ≡ answer.1
  unfolding answer_round
  answer_round_keeps (err x, e) d' ks h = absurd (cc)
  answer_round_keeps (ok none, e) d' ks h = cc
  answer_round_keeps (ok (some (c, m)), e) d' ks h = keeps c m e d' ks h

  report_round_keeps :
      (cid : ℕ) (d : MessageDecoder) (r : List ℕ) (d' : MessageDecoder) (ks : List Keepalive)
      → report_round on_message cid d r ≡ next d' ks
      → d' ≡ (if cid_of r == cid then (push d r).1 else d)
  unfolding report_round
  report_round_keeps cid d r d' ks h = elim (Bool-cases (cid_of r == cid)) [
    | inl e ↦ rw e (answer_round_keeps (push d r) d' ks (rw e at h))
    | inr e ↦ rw e (cc (rw e at h))
  ]

  report_round_sound :
      (cid : ℕ) (d : MessageDecoder) (r : List ℕ) (rest : List Arrival) (a : A)
      → report_round on_message cid d r ≡ done (ok a)
      → HasHeard cid d (report r ∷ rest) a
  unfolding report_round
  report_round_sound cid d r rest a h = elim (Bool-cases (cid_of r == cid)) [
    | inl e ↦
        let (c, m, completes, p) = answer_round_sound (push d r) a (rw e at h) in
        (c, m, ([], r, rest, refl, (==_iff (cid_of r) cid).0 e, completes), p)
    | inr e ↦ absurd (next_ne_done (rw e at h))
  ]
    where
      next_ne_done : next d [] ≡ done (ok a) → ⊥
      next_ne_done e = cc

  follow_sound :
      (round : Round A) (loop : MessageDecoder → Option (Result A CtapHidError) × List Keepalive)
      (a : A)
      → (follow round loop).0 ≡ some (ok a)
      → (round ≡ done (ok a))
        ⊎ ((d : MessageDecoder) × (ks : List Keepalive) × (round ≡ next d ks)
            × ((loop d).0 ≡ some (ok a)))
  unfolding follow
  follow_sound (done result) loop a h = inl (cc)
  follow_sound (next d ks) loop a h = inr (d, ks, refl, h)

  wait_loop_sound :
      (cid : ℕ) (d : MessageDecoder) (arrivals : List Arrival) (a : A)
      → (wait_loop on_message cid d arrivals).0 ≡ some (ok a)
      → HasHeard cid d arrivals a
  unfolding wait_loop
  wait_loop_sound cid d [] a h = absurd (cc)
  wait_loop_sound cid d (expired ∷ rest) a h = absurd (cc)
  wait_loop_sound cid d (silent ∷ rest) a h = absurd (cc)
  wait_loop_sound cid d (failed e ∷ rest) a h = absurd (cc)
  wait_loop_sound cid d (report r ∷ rest) a h =
      elim (follow_sound (report_round on_message cid d r) (λ d'. wait_loop on_message cid d' rest)
        a h) [
          | inl e ↦ report_round_sound cid d r rest a e
          | inr (d', ks, e, g) ↦ HasHeard-report cid d r rest a (
              subst (λ x. HasHeard cid x rest a) (report_round_keeps cid d r d' ks e)
                (wait_loop_sound cid d' rest a g))
        ]

  -- Where a conversation returns a value, a message that was heard has given it.
  pub converse_sound :
      (cid : ℕ) (cmd : Command) (payload : List ℕ) (faults : List (Option ℕ))
      (arrivals : List Arrival) (a : A)
      → (converse on_message cid cmd payload faults arrivals).result ≡ some (ok a)
      → HasHeard cid idle arrivals a
  unfolding converse
  converse_sound cid cmd payload faults arrivals a h = framed (frame_message cid cmd payload) h
    where
      sent :
          (r : Result (Unit {0}) CtapHidError) (written : List (List ℕ))
          → (elim r as (λ _. Traffic A) [
            | err e ↦ record { result = some (err e); written = written; statuses = [] }
            | ok _ ↦ record {
              result = (wait_loop on_message cid idle arrivals).0;
              written = written;
              statuses = (wait_loop on_message cid idle arrivals).1;
            }
          ]).result
            ≡ some (ok a)
          → HasHeard cid idle arrivals a
      sent (err e) written g = absurd (cc)
      sent (ok _) written g = wait_loop_sound cid idle arrivals a g

      framed :
          (f : Result (List (List ℕ)) CtapHidError)
          → (elim f as (λ _. Traffic A) [
            | err e ↦ record { result = some (err e); written = []; statuses = [] }
            | ok packets ↦ elim (write_packets faults packets).0 as (λ _. Traffic A) [
              | err e ↦ record {
                result = some (err e);
                written = (write_packets faults packets).1;
                statuses = [];
              }
              | ok _ ↦ record {
                result = (wait_loop on_message cid idle arrivals).0;
                written = (write_packets faults packets).1;
                statuses = (wait_loop on_message cid idle arrivals).1;
              }
            ]
          ]).result
            ≡ some (ok a)
          → HasHeard cid idle arrivals a
      framed (err e) g = absurd (cc)
      framed (ok packets) g = sent (write_packets faults packets).0 _ g

-- What an INIT response says: our nonce, a channel that is not reserved, and the capability byte.
abbrev pub IsInitResponse : List ℕ → Command → List ℕ → ℕ × Capabilities → Type 0
IsInitResponse nonce c payload (cid, caps) =
    (same_command c init ≡ true)
    × (bytes_eq (take 8 payload) nonce ≡ true)
    × (17 ≤ length payload)
    × (cid ≡ cid_of (drop 8 payload))
    × (caps ≡ capabilities_of (get_or payload 16 0))
    × (cid ≢ 0)
    × (cid ≢ broadcast_cid)

abbrev pub IsAllocation : List ℕ → List Arrival → ℕ × Capabilities → Type 0
IsAllocation nonce arrivals allocation =
    (c : Command) × (payload : List ℕ) × IsHeard broadcast_cid idle arrivals c payload
    × IsInitResponse nonce c payload allocation

allocation_round-IsInitResponse :
    (nonce : List ℕ) (c : Command) (m : List ℕ) (d : MessageDecoder) (a : ℕ × Capabilities)
    → allocation_round nonce c m d ≡ done (ok a)
    → IsInitResponse nonce c m a
unfolding allocation_round
allocation_round-IsInitResponse nonce c m d (cid, caps) h = (
  ground (arith, h),
  ground (arith, h),
  ground (arith, h),
  ground (arith, h),
  ground (arith, h),
  ground (arith, h),
  ground (arith, h),
)

allocation_round_keeps :
    (nonce : List ℕ) (c : Command) (m : List ℕ) (d d' : MessageDecoder) (ks : List Keepalive)
    → allocation_round nonce c m d ≡ next d' ks
    → d' ≡ d
unfolding allocation_round
allocation_round_keeps nonce c m d d' ks h = ground (arith, h)

-- A channel that `allocate` returns, on any traffic and any write outcomes, stands in an INIT response
-- that the reports of the broadcast channel have completed: it has at least 17 bytes, echoes the
-- caller's nonce and has the capabilities, and the channel is neither 0 nor the broadcast channel.
pub allocate-IsAllocation :
    (nonce : List ℕ) (faults : List (Option ℕ)) (arrivals : List Arrival) (cid : ℕ)
    (caps : Capabilities)
    → (allocate nonce faults arrivals).result ≡ some (ok (cid, caps))
    → IsAllocation nonce arrivals (cid, caps)
unfolding allocate
allocate-IsAllocation nonce faults arrivals cid caps h =
    converse_sound (IsInitResponse nonce) (allocation_round nonce)
      (allocation_round-IsInitResponse nonce) (allocation_round_keeps nonce) broadcast_cid init
      nonce faults arrivals (cid, caps) h
