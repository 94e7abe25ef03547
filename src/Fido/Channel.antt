-- ===== src/Fido/Channel.antt =====
-- `CtapHidAdapter` of crates/ckman-core/src/fido.rs on a `CtapHidChannel` of
-- crates/ckman-transport/src/ctaphid.rs: the CBOR request that the adapter sends its message with.
use canokey_manager.Prelude.{ℕ, Option, none, some, List, [], Result, ok, err}
use canokey_manager.CtapHid.Wire.{cbor, CtapHidError, timeout}
use canokey_manager.CtapHid.Channel.{Arrival, request}

-- `code` is what `hid_err` keeps of an error. The traffic is what the channel meets behind the request.
module _ (code : CtapHidError → ℕ) (cid : ℕ) (arrivals : List Arrival) where
  -- A script that ends while the request waits stands for the deadline.
  abbrev channel_result : Option (Result (List ℕ) CtapHidError) → Result (List ℕ) ℕ
  channel_result none = err (code timeout)
  channel_result (some (ok response)) = ok response
  channel_result (some (err e)) = err (code e)

  unfoldable pub channel_send : List ℕ → Result (List ℕ) ℕ
  unfolding request
  channel_send message = channel_result (request cid cbor message [] arrivals).result
