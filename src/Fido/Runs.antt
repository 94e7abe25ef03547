-- ===== src/Fido/Runs.antt =====
-- The adapter and the checks of FIDO at concrete values.
use canokey_manager.Prelude.{
  ℕ, ◌≡◌, ◌≢◌, ◌≤◌, ◌↔◌, refl, map, Option, some, List, [], ◌∷◌, Result, ok, err, All, arith,
  length, take, replicate,
}
use canokey_manager.CtapHid.Wire.{max_message_len, ping, cbor, keepalive}
use canokey_manager.CtapHid.Frame.{initialization_packet}
use canokey_manager.CtapHid.Channel.{Arrival, report}
use canokey_manager.Fido.{short_apdu, success, exchange}
use canokey_manager.Fido.Chain.{fragment, chain, exchange_all, exchange-fits, exchange-reassembles}
use canokey_manager.Fido.Checks.{
  utf8_length, normalize_pin, normalize_pin_lem, validate_large_blob_array, IsSealed,
  integrity_error, validate_large_blob_array_lem,
}

-- A card that sends the message back.
abbrev echo : List ℕ → Result (List ℕ) ℕ
echo message = ok message

exchange-reassembles_example :
    exchange_all echo [] (chain ((1 ∷ 2 ∷ []) ∷ (3 ∷ []) ∷ []) (4 ∷ [])) ≡ record {
      results = ok success ∷ ok success ∷ ok (1 ∷ 2 ∷ 3 ∷ 4 ∷ 0x90 ∷ 0x00 ∷ []) ∷ [];
      pending = [];
      sent = (1 ∷ 2 ∷ 3 ∷ 4 ∷ []) ∷ [];
    }
exchange-reassembles_example =
    exchange-reassembles echo ((1 ∷ 2 ∷ []) ∷ (3 ∷ []) ∷ []) (4 ∷ []) (1 ∷ 2 ∷ 3 ∷ 4 ∷ [])
      ((omega arith, omega arith), ((omega arith, omega arith), tt)) (omega arith, omega arith)
      (omega arith) refl

exchange-fits_example :
    length (exchange echo (1 ∷ []) (fragment 0x90 (2 ∷ []))).pending ≤ max_message_len
exchange-fits_example = exchange-fits echo (1 ∷ []) (fragment 0x90 (2 ∷ [])) (omega arith)

too_short : (exchange echo (1 ∷ []) (0x80 ∷ 0x10 ∷ [])).result ≡ err short_apdu
unfolding exchange
too_short = refl

abbrev digits : List ℕ
digits = 49 ∷ 50 ∷ 51 ∷ 52 ∷ []

normalize_pin_lem_example : (normalize_pin some digits ≡ ok digits) ↔ (
    (◌≡◌ {A = Option (List ℕ)} (some digits) (some digits))
    × All {A = ℕ} (λ c. c ≢ 0) digits
    × (utf8_length digits ≤ 63)
    × (4 ≤ length digits))
normalize_pin_lem_example = normalize_pin_lem some digits digits

abbrev digest : List ℕ → List ℕ
digest bytes = replicate 32 5

abbrev sealed : List ℕ
sealed = 0x80 ∷ take 16 (digest [])

validate_large_blob_array_lem_example :
    (validate_large_blob_array 17 4096 digest sealed ≡ ok tt) ↔ IsSealed 17 4096 digest sealed
validate_large_blob_array_lem_example =
    validate_large_blob_array_lem 17 4096 digest (λ bytes. refl) (omega arith) sealed

sealed_run : validate_large_blob_array 17 4096 digest sealed ≡ ok tt
unfolding validate_large_blob_array
sealed_run = refl

not_sealed : validate_large_blob_array 17 4096 digest (0x80 ∷ replicate 16 6) ≡ err integrity_error
unfolding validate_large_blob_array
not_sealed = refl

-- The reply to a CBOR request on channel 5: a report of another channel, a keepalive, one packet.
abbrev reply : List (List ℕ)
reply = initialization_packet 5 cbor (0 ∷ 7 ∷ []) ∷ []

abbrev heard_reports : List Arrival
heard_reports =
    report (initialization_packet 9 ping (4 ∷ []))
    ∷ report (initialization_packet 5 keepalive (2 ∷ []))
    ∷ map report reply
