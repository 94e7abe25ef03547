-- ===== src/Piv/Management.antt =====
-- `set_management_key_synced` of crates/ckman-core/src/piv.rs. The card is a parameter: what it
-- answers to an SDK operation, given the operations that it has been sent before.
pub mod Plan
pub mod Order
mod Runs
use canokey_manager.Prelude.{
  ℕ, Bool, true, false, not, ◌&&◌, ◌||◌, Option, none, some, List, [], ◌∷◌, ◌++◌, ◌==◌,
  if◌then◌else◌, Result, ok, err,
}
use canokey_manager.Prelude.Bytes.{bytes_eq}
use canokey_manager.Piv.Tlv.{Tlv}
use canokey_manager.Piv.Pivman.{
  ParseError, PivmanData, unconfigured, PivmanProtectedData, from_value, to_value,
  protected_from_value, protected_to_value, has_stored_key, has_derived_key, set_stored_key,
  set_puk_blocked,
}

pub data ManagementKeyAlgorithm : Type 0 where
  tdes aes192 : ManagementKeyAlgorithm

pub record ManagementKey : Type 0 where
  pub algorithm : ManagementKeyAlgorithm
  pub bytes : List ℕ

pub data TouchPolicy : Type 0 where
  never always : TouchPolicy

-- `given n`: the access that the caller brings, which the code passes on.
pub data Access : Type 0 where
  no_access : Access
  pin_access : List ℕ → Access
  management_access : ManagementKey → Access
  pin_and_management : List ℕ → ManagementKey → Access
  given : ℕ → Access

pub data ObjectId : Type 0 where
  admin_data printed : ObjectId

-- The SDK operations that the code runs, one typed operation each.
pub data CardCommand : Type 0 where
  read_object : ObjectId → Access → CardCommand
  write_object : ObjectId → List ℕ → Access → CardCommand
  set_management_key : ManagementKey → TouchPolicy → Access → CardCommand
  pin_managed : List ℕ → Access → CardCommand
  change_pin : List ℕ → List ℕ → CardCommand
  verify_pin : List ℕ → CardCommand
  authenticate : ManagementKey → CardCommand

pub data ErrorKind : Type 0 where
  not_found security_status_not_satisfied : ErrorKind
  other_kind : ℕ → ErrorKind

pub data DriveError : Type 0 where
  transport : ℕ → DriveError
  protocol : ErrorKind → DriveError

pub data Stage : Type 0 where
  replace_key store_protected_key update_metadata protect_puk : Stage

-- `panicked` is an `expect` that fails.
pub data PivError : Type 0 where
  drive : DriveError → PivError
  parse : ParseError → PivError
  random_failed : PivError
  management_key_update : Stage → DriveError → PivError
  panicked : PivError

pub record ManagementKeyUpdate : Type 0 where
  pub new_key_bytes : List ℕ
  pub algorithm : ManagementKeyAlgorithm
  pub touch : TouchPolicy
  pub protect : Bool
  pub pin : Option (List ℕ)
  pub access : Access

abbrev pub History : Type 0
History = List CardCommand

abbrev pub Card : Type 0
Card = History → CardCommand → Result (List ℕ) DriveError

-- An action returns or fails, and has sent commands.
abbrev pub Action : Type 0 → Type 0
Action A = History → Result A PivError × History

infixl 5 ◌>>=◌ ◌>>◌
abbrev pub continue :
    {A B : Type 0} → (A → Action B) → Result A PivError → History → Result B PivError × History
continue f (ok a) h = f a h
continue f (err e) h = (err e, h)

abbrev pub ◌>>=◌ : {A B : Type 0} → Action A → (A → Action B) → Action B
◌>>=◌ m f h = continue f (m h).0 (m h).1

abbrev pub ◌>>◌ : {B : Type 0} → Action (Unit {0}) → Action B → Action B
m >> k = m >>= λ _. k

abbrev pub pure : {A : Type 0} → A → Action A
pure a h = (ok a, h)

abbrev pub fail : {A : Type 0} → PivError → Action A
fail e h = (err e, h)

abbrev pub lift : {A : Type 0} → Result A PivError → Action A
lift r h = (r, h)

abbrev pub when : Bool → Action (Unit {0}) → Action (Unit {0})
when true m = m
when false m = pure tt

module _ (card : Card) where
  abbrev pub answer :
      (DriveError → PivError) → Result (List ℕ) DriveError → Result (List ℕ) PivError
  answer wrap (ok bytes) = ok bytes
  answer wrap (err e) = err (wrap e)

  -- One operation; a failure is wrapped as the caller says.
  unfoldable pub call : (DriveError → PivError) → CardCommand → Action (List ℕ)
  call wrap c h = (answer wrap (card h c), h ++ (c ∷ []))

  unfoldable pub perform : Stage → CardCommand → Action (Unit {0})
  unfolding call
  perform stage c = do answered ← call (management_key_update stage) c; pure tt

-- `read_object` where a missing object counts as unconfigured, and its value is parsed.
unfoldable pub parsed :
    {A : Type 0}
    → (List ℕ → Result A ParseError)
    → A
    → Result (List ℕ) DriveError
    → Result A PivError
parsed parser missing (ok value) = elim (parser value) [ ok a ↦ ok a | err e ↦ err (parse e) ]
parsed parser missing (err (protocol not_found)) = ok missing
parsed parser missing (err e) = err (drive e)

-- `random_puk_replacement`, only where protection is asked for.
unfoldable pub draw_replacement : Bool → Option (List ℕ) → Result (Option (List ℕ)) PivError
draw_replacement false random = ok none
draw_replacement true none = err random_failed
draw_replacement true (some bytes) = ok (some bytes)

pub record Preflight : Type 0 where
  pub replacement : Option (List ℕ)
  pub pivman : PivmanData
  pub protected : Option PivmanProtectedData

-- ADMIN DATA after the update.
unfoldable pub updated_data : PivmanData → Bool → PivmanData
unfolding set_stored_key set_puk_blocked
updated_data pivman protect =
    let unsalted : PivmanData =
      if has_derived_key pivman then record pivman { salt = none } else pivman in
    let stored = set_stored_key unsalted protect in
    if protect then set_puk_blocked stored true else stored

-- The new PRINTED value, and whether it is to be written.
unfoldable pub next_protected :
    ManagementKeyUpdate → PivmanProtectedData → PivmanProtectedData × Bool
next_protected update protected =
    if update.protect
    then (record { key = some update.new_key_bytes }, true)
    else (record { key = none }, elim protected.key [ none ↦ false | some k ↦ true ])

-- `check` is `ManagementKey::from_bytes`, `random` what the host's generator gives.
module _ (tlv : Tlv) (card : Card)
    (check : ManagementKeyAlgorithm → List ℕ → Option DriveError) where
  abbrev pub new_key : ManagementKeyUpdate → ManagementKey
  new_key update = record { algorithm = update.algorithm; bytes = update.new_key_bytes }

  unfoldable pub key_from_bytes : ManagementKeyUpdate → Result (Unit {0}) PivError
  key_from_bytes update = elim (check update.algorithm update.new_key_bytes) [
    | none ↦ ok tt
    | some e ↦ err (drive e)
  ]

  unfoldable pub read_pivman_data : Action PivmanData
  unfolding parsed
  read_pivman_data h =
      let c = read_object admin_data no_access in
      (parsed (from_value tlv) unconfigured (card h c), h ++ (c ∷ []))

  unfoldable pub read_pivman_protected : List ℕ → Action PivmanProtectedData
  unfolding parsed
  read_pivman_protected pin h =
      let c = read_object printed (pin_access pin) in
      (parsed (protected_from_value tlv) (record { key = none }) (card h c), h ++ (c ∷ []))

  unfoldable pub read_protected : Bool → Option (List ℕ) → Action (Option PivmanProtectedData)
  unfolding read_pivman_protected
  read_protected false pin = pure none
  read_protected true none = fail (drive (protocol security_status_not_satisfied))
  read_protected true (some pin) = do protected ← read_pivman_protected pin; pure (some protected)

  -- Everything before the replacement.
  unfoldable pub preflight : Option (List ℕ) → ManagementKeyUpdate → Action Preflight
  unfolding key_from_bytes draw_replacement read_pivman_data read_protected
  preflight random update = do
    lift (key_from_bytes update)
    replacement ← lift (draw_replacement update.protect random)
    pivman ← read_pivman_data
    protected ← read_protected (update.protect || has_stored_key pivman) update.pin
    pure (record { replacement = replacement; pivman = pivman; protected = protected })

  unfoldable pub write_protected :
      ManagementKeyUpdate → PivmanProtectedData → Option (List ℕ) → Action (Unit {0})
  unfolding perform
  write_protected update value none = fail panicked
  write_protected update value (some pin) = perform card store_protected_key (
      write_object printed (protected_to_value tlv value) (pin_and_management pin (new_key update)))

  unfoldable pub store_protected :
      ManagementKeyUpdate → Option (List ℕ) → Option PivmanProtectedData → Action (Unit {0})
  unfolding next_protected write_protected
  store_protected update pin none = pure tt
  store_protected update pin (some protected) =
      let (value, wanted) = next_protected update protected in
      when wanted (write_protected update value pin)

  unfoldable pub store_metadata : ManagementKeyUpdate → PivmanData → Action (Unit {0})
  unfolding updated_data perform bytes_eq
  store_metadata update pivman =
      let value = to_value tlv (updated_data pivman update.protect) in
      when (not (bytes_eq value (to_value tlv pivman))) (
        perform card update_metadata
          (write_object admin_data value (management_access (new_key update))))

  unfoldable pub block_puk : Option (List ℕ) → Option (List ℕ) → Action (Unit {0})
  unfolding perform
  block_puk none pin = pure tt
  block_puk (some replacement) none = fail panicked
  block_puk (some replacement) (some pin) =
      perform card protect_puk (pin_managed replacement (pin_access pin))

  -- The replacement and what follows it.
  unfoldable pub commit : ManagementKeyUpdate → Preflight → Action (Unit {0})
  unfolding perform store_protected store_metadata block_puk
  commit update state = do
    perform card replace_key (set_management_key (new_key update) update.touch update.access)
    store_protected update update.pin state.protected
    store_metadata update state.pivman
    block_puk state.replacement update.pin

  unfoldable pub set_management_key_synced :
      Option (List ℕ) → ManagementKeyUpdate → Action (Unit {0})
  unfolding preflight commit
  set_management_key_synced random update = do state ← preflight random update; commit update state
