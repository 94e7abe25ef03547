-- ===== src/Fido/Chain.antt =====
-- Command chains through the CTAPHID adapter (crates/ckman-core/src/fido.rs).
use canokey_manager.Prelude.{
  ℕ, ◌+◌, ◌-◌, ◌<◌, ◌≤◌, ◌≡◌, refl, sym, ◌∙◌, bit_and, false, not, ◌||◌, List, [], ◌∷◌, ◌++◌, map,
  ap, ltb, ◌==◌, length, Result, ok, err, All, Bool-cases, inl, inr, arith, append_assoc,
  length-append,
}
use canokey_manager.Prelude.Bytes.{bytes_eq}
use canokey_manager.CtapHid.Wire.{max_message_len}
use canokey_manager.Fido.{
  AdapterError, usb_select, standard_select, Exchanged, success, message_data, exchange_inner,
  exchange, append_data, ctap_command, cleared,
}

abbrev pub concat : List (List ℕ) → List ℕ
concat [] = []
concat (x ∷ xs) = x ++ concat xs

-- One fragment as a short APDU.
abbrev pub fragment : ℕ → List ℕ → List ℕ
fragment cla body = cla ∷ 0x10 ∷ 0x00 ∷ 0x00 ∷ length body ∷ body

-- The short APDUs of a message: those with more to follow, and the last.
abbrev pub chain : List (List ℕ) → List ℕ → List (List ℕ)
chain bodies last = map (fragment 0x90) bodies ++ (fragment 0x80 last ∷ [])

-- What the commands of a session have returned, in order; the data pending behind them, and the
-- messages sent on the channel.
pub record Session : Type 0 where
  pub results : List (Result (List ℕ) AdapterError)
  pub pending : List ℕ
  pub sent : List (List ℕ)

abbrev pub IsFragment : List ℕ → Type 0
IsFragment body = (0 < length body) × (length body < 256)

room :
    (pending body : List ℕ)
    → length pending ≤ max_message_len
    → ltb (max_message_len - length pending) (length body) ≡ false
    → length (pending ++ body) ≤ max_message_len
room pending body h e = ground (arith, length-append pending body)

fits_in : (n m : ℕ) → n + m ≤ max_message_len → ltb (max_message_len - n) m ≡ false
fits_in n m h = ground arith

module _ (send : List ℕ → Result (List ℕ) ℕ) where
  -- The commands of a session, one after the other: each finds what the one before has left pending.
  unfoldable pub exchange_all : List ℕ → List (List ℕ) → Session
  exchange_all pending [] = record { results = []; pending = pending; sent = [] }
  exchange_all pending (command ∷ commands) =
      let e = exchange send pending command in
      let rest = exchange_all e.pending commands in
      record {
        results = e.result ∷ rest.results;
        pending = rest.pending;
        sent = e.sent ++ rest.sent;
      }

  cleared-fits :
      (e : Exchanged) (r : Result (List ℕ) AdapterError)
      → length e.pending ≤ max_message_len
      → length (cleared send e r).pending ≤ max_message_len
  cleared-fits e (ok response) h = h
  cleared-fits e (err x) h = omega arith

  append_data-fits :
      (pending : List ℕ) (cla : ℕ) (body : Result (List ℕ) AdapterError)
      → length pending ≤ max_message_len
      → length (append_data send pending cla body).pending ≤ max_message_len
  append_data-fits pending cla (err e) h = h
  append_data-fits pending cla (ok body) h =
      elim (Bool-cases (ltb (max_message_len - length pending) (length body))) [
        | inl e ↦ rw e h
        | inr e ↦ elim (Bool-cases (not (bit_and cla 0x10 == 0))) [
          | inl f ↦ rw e (rw f (room pending body h e))
          | inr f ↦ rw e (rw f (omega arith))
        ]
      ]

  ctap_command-fits :
      (pending command : List ℕ)
      → length pending ≤ max_message_len
      → length (ctap_command send pending command).pending ≤ max_message_len
  ctap_command-fits pending [] h = h
  ctap_command-fits pending (a ∷ []) h = h
  ctap_command-fits pending (a ∷ b ∷ []) h = h
  ctap_command-fits pending (a ∷ b ∷ c ∷ []) h = h
  ctap_command-fits pending (a ∷ b ∷ c ∷ d ∷ []) h = h
  ctap_command-fits pending (cla ∷ ins ∷ c ∷ d ∷ lc ∷ rest) h =
      elim (Bool-cases (not (ins == 0x10) || not (bit_and cla 0xef == 0x80))) [
        | inl e ↦ rw e h
        | inr e ↦ rw e (append_data-fits pending cla (message_data lc rest) h)
      ]

  exchange_inner-fits :
      (pending command : List ℕ)
      → length pending ≤ max_message_len
      → length (exchange_inner send pending command).pending ≤ max_message_len
  unfolding exchange_inner
  exchange_inner-fits pending command h =
      elim (Bool-cases (bytes_eq command usb_select || bytes_eq command standard_select)) [
        | inl e ↦ rw e (omega arith)
        | inr e ↦ rw e (ctap_command-fits pending command h)
      ]

  -- The data pending never exceeds what one CTAPHID message holds, so the room that is left is computed
  -- without underflow.
  pub exchange-fits :
      (pending command : List ℕ)
      → length pending ≤ max_message_len
      → length (exchange send pending command).pending ≤ max_message_len
  unfolding exchange
  exchange-fits pending command h =
      cleared-fits (exchange_inner send pending command) _ (exchange_inner-fits pending command h)

  message_data-fragment :
      (body : List ℕ) → IsFragment body → message_data (length body) body ≡ ok body
  unfolding message_data
  message_data-fragment body h = ground (arith, h.0)

  exchange-more :
      (pending body : List ℕ)
      → IsFragment body
      → length pending + length body ≤ max_message_len
      → exchange send pending (fragment 0x90 body)
        ≡ record { result = ok success; pending = pending ++ body; sent = [] }
  unfolding exchange bytes_eq
  exchange-more pending body is fits =
      rw (message_data-fragment body is) (rw (fits_in (length pending) (length body) fits) refl)

  exchange-last :
      (pending body response : List ℕ)
      → IsFragment body
      → length pending + length body ≤ max_message_len
      → send (pending ++ body) ≡ ok response
      → exchange send pending (fragment 0x80 body)
        ≡ record { result = ok (response ++ success); pending = []; sent = (pending ++ body) ∷ [] }
  unfolding exchange bytes_eq
  exchange-last pending body response is fits answers =
      rw (message_data-fragment body is)
        (rw (fits_in (length pending) (length body) fits) (rw answers refl))

  exchange_all-chain :
      (bodies : List (List ℕ)) (pending last response : List ℕ)
      → All IsFragment bodies
      → IsFragment last
      → length (pending ++ (concat bodies ++ last)) ≤ max_message_len
      → send (pending ++ (concat bodies ++ last)) ≡ ok response
      → exchange_all pending (chain bodies last) ≡ record {
        results = map (λ body. ok success) bodies ++ (ok (response ++ success) ∷ []);
        pending = [];
        sent = (pending ++ (concat bodies ++ last)) ∷ [];
      }
  unfolding exchange_all
  exchange_all-chain [] pending last response is is_last fits answers =
      let split = length-append pending last in
      rw (exchange-last pending last response is_last (omega (arith, split, fits)) answers) refl
  exchange_all-chain (body ∷ bodies) pending last response is is_last fits answers =
      let rest = concat bodies ++ last in
      let inner = append_assoc body (concat bodies) last in
      let moved : pending ++ (concat (body ∷ bodies) ++ last) ≡ (pending ++ body) ++ rest =
        ap (λ l. pending ++ l) inner ∙ sym (append_assoc pending body rest) in
      let total = length-append (pending ++ body) rest in
      let joined = length-append pending body in
      let room : length ((pending ++ body) ++ rest) ≤ max_message_len = rw moved at fits in
      rw (exchange-more pending body is.0 (omega (arith, total, joined, room))) (
        rw
          (exchange_all-chain bodies (pending ++ body) last response is.1 is_last room
            (rw moved at answers))
          (rw moved refl))

  -- A message that fits one CTAPHID message, sent as any number of short APDUs with more to follow and
  -- a last one behind them, each of 1 to 255 bytes: every fragment is answered with success and none
  -- leaves the host; at the last one exactly that message leaves the host, once, and its response
  -- comes back with the success status behind it; nothing stays pending.
  pub exchange-reassembles :
      (bodies : List (List ℕ)) (last response : List ℕ)
      → All IsFragment bodies
      → IsFragment last
      → length (concat bodies ++ last) ≤ max_message_len
      → send (concat bodies ++ last) ≡ ok response
      → exchange_all [] (chain bodies last) ≡ record {
        results = map (λ body. ok success) bodies ++ (ok (response ++ success) ∷ []);
        pending = [];
        sent = (concat bodies ++ last) ∷ [];
      }
  exchange-reassembles bodies last response is is_last fits answers =
      exchange_all-chain bodies [] last response is is_last fits answers
