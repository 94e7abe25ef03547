-- ===== src/CtapHid/Wire.antt =====
-- Constants, command and status codes and errors of crates/ckman-transport/src/ctaphid.rs.
use canokey_manager.Prelude.{
  ℕ, ◌-◌, ◌+◌, ◌*◌, ◌<◌, ◌≤◌, ◌≡◌, refl, Option, none, some, List, [], ◌∷◌, arith, ◌==◌,
  if◌then◌else◌, Result, ok, err,
}

abbrev pub report_len : ℕ
report_len = 64

abbrev pub init_header : ℕ
init_header = 7

abbrev pub cont_header : ℕ
cont_header = 5

abbrev pub init_payload : ℕ
init_payload = report_len - init_header

abbrev pub cont_payload : ℕ
cont_payload = report_len - cont_header

abbrev pub max_seq : ℕ
max_seq = 0x7f

abbrev pub max_message_len : ℕ
max_message_len = init_payload + (max_seq + 1) * cont_payload

abbrev pub broadcast_cid : ℕ
broadcast_cid = 0xffff_ffff

pub data Command : Type 0 where
  ping msg lock init wink cbor cancel error keepalive : Command

unfoldable pub byte : Command → ℕ
byte ping = 0x81
byte msg = 0x83
byte lock = 0x84
byte init = 0x86
byte wink = 0x88
byte cbor = 0x90
byte cancel = 0x91
byte error = 0xbf
byte keepalive = 0xbb

unfoldable pub from_byte : ℕ → Option Command
from_byte b =
    if b == 0x81
    then some ping
    else if b == 0x83
    then some msg
    else if b == 0x84
    then some lock
    else if b == 0x86
    then some init
    else if b == 0x88
    then some wink
    else if b == 0x90
    then some cbor
    else if b == 0x91
    then some cancel
    else if b == 0xbf
    then some error
    else if b == 0xbb
    then some keepalive
    else none

pub from_byte-byte : (c : Command) → from_byte (byte c) ≡ some c
unfolding from_byte byte
from_byte-byte ping = refl
from_byte-byte _ = refl

-- Every command byte has the command flag.
pub byte_range : (c : Command) → (128 ≤ byte c) × (byte c < 256)
unfolding byte
byte_range ping = omega arith
byte_range _ = omega arith

pub data DeviceError : Type 0 where
  invalid_cmd invalid_param invalid_len invalid_seq msg_timeout channel_busy : DeviceError
  lock_required invalid_channel other : DeviceError
  unknown : ℕ → DeviceError

unfoldable pub device_error_of_byte : ℕ → DeviceError
device_error_of_byte b =
    if b == 0x01
    then invalid_cmd
    else if b == 0x02
    then invalid_param
    else if b == 0x03
    then invalid_len
    else if b == 0x04
    then invalid_seq
    else if b == 0x05
    then msg_timeout
    else if b == 0x06
    then channel_busy
    else if b == 0x0a
    then lock_required
    else if b == 0x0b
    then invalid_channel
    else if b == 0x7f
    then other
    else unknown b

pub data Keepalive : Type 0 where
  processing user_presence_needed : Keepalive
  unknown_status : ℕ → Keepalive

unfoldable pub keepalive_of_byte : ℕ → Keepalive
keepalive_of_byte b =
    if b == 0x01 then processing else if b == 0x02 then user_presence_needed else unknown_status b

-- The texts of `Malformed`, one constructor for each message of the source.
pub data Malformation : Type 0 where
  unknown_command length_out_of_range unexpected_continuation : Malformation
  error_size keepalive_size short_init reserved_channel unexpected_command : Malformation

-- `io : ℕ` names an operating system error, which the code passes on unread.
pub data CtapHidError : Type 0 where
  io : ℕ → CtapHidError
  timeout : CtapHidError
  payload_too_large : ℕ → CtapHidError
  malformed : Malformation → CtapHidError
  device : DeviceError → CtapHidError
  wrong_channel : CtapHidError

-- `Ok(e)` is the error that an ERROR packet reports, `Err(e)` a malformed packet.
unfoldable pub device_error : List ℕ → Result CtapHidError CtapHidError
device_error (code ∷ []) = ok (device (device_error_of_byte code))
device_error _ = err (malformed error_size)
