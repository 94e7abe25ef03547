-- ===== src/Cli/Piv.antt =====
-- `PivSession` of crates/ckman/src/commands/piv.rs: the management key and the PIN that an operation is
-- run with. A command is an action over events, which Host answers; its answers may depend on the
-- events before.
pub mod Resolved
pub mod Slots
mod Runs
use canokey_manager.Prelude.{
  ℕ, ◌-◌, Bool, true, false, not, ◌&&◌, ◌||◌, Option, none, some, List, [], ◌∷◌, leb, ◌==◌,
  if◌then◌else◌, Result, ok, err, map_err, ok_or, guard,
}
use canokey_manager.Prelude.Text.{codes, is_empty}
use canokey_manager.Prelude.Bytes.{bytes_eq}
use canokey_manager.Piv.Pivman.{PivmanData, has_stored_key, puk_blocked}
use canokey_manager.Piv.Management.{ManagementKeyAlgorithm, tdes, aes192, ManagementKey}
use canokey_manager.Cli.{
  ErrorKind, unsupported_feature, capability_unknown, security_status_not_satisfied, DriveError,
  protocol,
}
use canokey_manager.Cli.Effects.{Action, ◌>>=◌, pure, fail, event, lift, attempt}
use canokey_manager.Cli.Overwrite.{PivError, drive}
use canokey_manager.Cli.Oath.Hex.{hex_decode}

pub data Secret : Type 0 where
  stored_pin derived_pin operation_pin management_key_hex : Secret

pub data Event : Type 0 where
  metadata_read pivman_read : Event
  protected_read managed_read completed_read : List ℕ → Event
  secret_asked : Secret → Event
  operated : Option (List ℕ) → Event
  default_warned : Event

pub data Failure : Type 0 where
  card_failed : PivError → Failure
  prompt_failed : ℕ → Failure
  not_hex wrong_key_length unknown_algorithm no_protected_key wrong_stored_length wrong_derived_key
        wrong_pin faulted :
      Failure

pub record Metadata : Type 0 where
  pub algorithm_id : Option ℕ
  pub is_default : Option Bool

-- `is_key` and `is_pin` are the tests of `ManagementKey::from_bytes` and `Pin::from_bytes`; `derive_key`
-- is a hash and `default_key` the SDK's.
pub record Host : Type 0 where
  pub metadata : List Event → Result Metadata PivError
  pub pivman : List Event → Result PivmanData PivError
  pub protected_key : List ℕ → List Event → Result (Option (List ℕ)) PivError
  pub managed_key : List ℕ → List Event → Result (List ℕ) PivError
  pub completed_key : List ℕ → List Event → Result (List ℕ) PivError
  pub prompt : Secret → List Event → Result (List ℕ) ℕ
  pub is_key : ManagementKeyAlgorithm → List ℕ → Bool
  pub is_pin : List ℕ → Bool
  pub derive_key : List ℕ → List ℕ → List ℕ
  pub default_key : ManagementKeyAlgorithm → List ℕ

pub record ResolvedManagement : Type 0 where
  pub key : ManagementKey
  pub pin : Option (List ℕ)

abbrev pub Command : Type 0 → Type 0
Command A = Action Event Failure A

abbrev is_gate_kind : ErrorKind → Bool
is_gate_kind unsupported_feature = true
is_gate_kind capability_unknown = true
is_gate_kind _ = false

unfoldable pub is_capability_gate : PivError → Bool
is_capability_gate (drive (protocol error)) = is_gate_kind error.kind
is_capability_gate _ = false

abbrev asks_for_pin : ErrorKind → Bool
asks_for_pin security_status_not_satisfied = true
asks_for_pin _ = false

unfoldable pub needs_pin : PivError → Bool
needs_pin (drive (protocol error)) = asks_for_pin error.kind
needs_pin _ = false

abbrev pub of_card : {A : Type 0} → Result A PivError → Result A Failure
of_card r = map_err card_failed r

-- `algorithm_id` of the metadata
abbrev algorithm_of_id : Option ℕ → Result ManagementKeyAlgorithm Failure
algorithm_of_id none = err unknown_algorithm
algorithm_of_id (some id) =
    if id == 3 then ok tdes else if id == 10 then ok aes192 else err unknown_algorithm

unfoldable pub algorithm_result : Result Metadata PivError → Result ManagementKeyAlgorithm Failure
unfolding is_capability_gate
algorithm_result (ok metadata) = algorithm_of_id metadata.algorithm_id
algorithm_result (err error) = if is_capability_gate error then ok tdes else err (card_failed error)

unfoldable pub default_result : Result Metadata PivError → Result (Option Bool) Failure
unfolding is_capability_gate
default_result (ok metadata) = ok metadata.is_default
default_result (err error) = if is_capability_gate error then ok none else err (card_failed error)

-- `unwrap_or(false)`
abbrev pub or_false : Option Bool → Bool
or_false none = false
or_false (some b) = b

module _ (host : Host) where
  unfoldable pub management_algorithm : Command ManagementKeyAlgorithm
  unfolding algorithm_result
  management_algorithm = event metadata_read λ h. algorithm_result (host.metadata h)

  unfoldable pub management_is_default : Command (Option Bool)
  unfolding default_result
  management_is_default = event metadata_read λ h. default_result (host.metadata h)

  abbrev pub ask : Secret → Command (List ℕ)
  ask secret = event (secret_asked secret) λ h. map_err prompt_failed (host.prompt secret h)

  unfoldable pub resolve_pin_string : Option (List ℕ) → Secret → Command (List ℕ)
  resolve_pin_string (some pin) secret = pure pin
  resolve_pin_string none secret = ask secret

  abbrev pub check_pin : List ℕ → Command (List ℕ)
  check_pin pin = lift (if host.is_pin pin then ok pin else err wrong_pin)

  unfoldable pub resolve_pin : Option (List ℕ) → Secret → Command (List ℕ)
  unfolding resolve_pin_string
  resolve_pin pin secret = resolve_pin_string pin secret >>= check_pin

  abbrev pub key_of : Failure → List ℕ → ManagementKeyAlgorithm → Command ManagementKey
  key_of failure bytes algorithm = lift (
      if host.is_key algorithm bytes
      then ok (record { algorithm = algorithm; bytes = bytes })
      else err failure)

  abbrev pub resolved : Option (List ℕ) → ManagementKey → Command ResolvedManagement
  resolved pin key = pure (record { key = key; pin = pin })

  -- An explicit key in hexadecimal digits.
  unfoldable pub hex_key : List ℕ → Command ManagementKey
  unfolding hex_decode management_algorithm
  hex_key hex = lift (ok_or (hex_decode hex) not_hex) >>= λ bytes.
      management_algorithm >>= λ algorithm. key_of wrong_key_length bytes algorithm

  -- The bytes of the stored key: `complete` is `complete_protection`.
  unfoldable pub stored_bytes : Bool → PivmanData → List ℕ → Command (List ℕ)
  unfolding puk_blocked
  stored_bytes complete pivman pin =
      if complete && not (puk_blocked pivman)
      then (event (protected_read pin) (λ h. of_card (host.protected_key pin h)) >>= λ found.
          lift (ok_or found no_protected_key))
      else if complete
      then event (completed_read pin) (λ h. of_card (host.completed_key pin h))
      else event (managed_read pin) (λ h. of_card (host.managed_key pin h))

  unfoldable pub stored_management :
      Bool → PivmanData → Option (List ℕ) → Command ResolvedManagement
  unfolding resolve_pin stored_bytes management_algorithm
  stored_management complete pivman given = resolve_pin given stored_pin >>= λ pin.
      stored_bytes complete pivman pin >>= λ bytes. management_algorithm >>= λ algorithm.
      key_of wrong_stored_length bytes algorithm >>= resolved (some pin)

  unfoldable pub derived_management : List ℕ → Option (List ℕ) → Command ResolvedManagement
  unfolding resolve_pin_string
  derived_management salt given = resolve_pin_string given derived_pin >>= λ pin.
      key_of wrong_derived_key (host.derive_key pin salt) tdes >>= λ key.
      check_pin pin >>= λ checked. resolved (some checked) key

  abbrev pub warn_if : Bool → Command (Unit {0})
  warn_if true = event default_warned λ h. ok tt
  warn_if false = pure tt

  -- What was entered at the prompt: nothing stands for the factory key.
  unfoldable pub entered_management : List ℕ → Command ResolvedManagement
  unfolding management_algorithm management_is_default hex_key
  entered_management [] = management_algorithm >>= λ algorithm. warn_if true >>= λ _.
      resolved none (record { algorithm = algorithm; bytes = host.default_key algorithm })
  entered_management (c ∷ hex) = hex_key (c ∷ hex) >>= λ key.
      management_is_default >>= λ is_default.
      warn_if (or_false is_default) >>= λ _. resolved none key

  abbrev pub by_salt : Option (List ℕ) → Option (List ℕ) → Command ResolvedManagement
  unfolding derived_management entered_management
  by_salt (some salt) given = derived_management salt given
  by_salt none given = ask management_key_hex >>= entered_management

  unfoldable pub by_pivman : Bool → Option (List ℕ) → PivmanData → Command ResolvedManagement
  unfolding has_stored_key stored_management by_salt
  by_pivman complete given pivman =
      if has_stored_key pivman
      then stored_management complete pivman given
      else by_salt pivman.salt given

  abbrev pub read_pivman : Command PivmanData
  read_pivman = event pivman_read λ h. of_card (host.pivman h)

  unfoldable pub resolve_management_protection :
      Option (List ℕ) → Option (List ℕ) → Bool → Command ResolvedManagement
  unfolding hex_key by_pivman
  resolve_management_protection (some hex) given complete = hex_key hex >>= resolved none
  resolve_management_protection none given complete = read_pivman >>= by_pivman complete given

  -- `operation` is given the PIN, or none.
  module _ {T : Type 0} (operation : Option (List ℕ) → List Event → Result T PivError) where
    abbrev pub operate : Option (List ℕ) → Command T
    operate pin = event (operated pin) λ h. of_card (operation pin h)

    abbrev pub with_pin : Option (List ℕ) → Result T PivError → Command T
    unfolding needs_pin resolve_pin
    with_pin given (ok value) = pure value
    with_pin given (err error) =
        if needs_pin error
        then (resolve_pin given operation_pin >>= λ pin. operate (some pin))
        else fail (card_failed error)

    unfoldable pub run_with_pin : Option (List ℕ) → Command T
    unfolding with_pin
    run_with_pin given = attempt (event (operated none) λ h. operation none h) >>= with_pin given
