-- ===== src/Cli/Select.antt =====
-- The choice of the device, crates/ckman/src/commands/mod.rs. Readers, connections and the probe are
-- parameters.
pub mod Chosen
use canokey_manager.Prelude.{
  ℕ, ◌≡◌, ◌⊎◌, inl, inr, sym, ap, ◌∙◌, Result-cases, Bool-cases, Bool, true, false, not, ◌&&◌, ◌||◌,
  Option, none, some, List, [], ◌∷◌, ◌==◌, if◌then◌else◌, Result, ok, err, ◌>>=◌, ok_injective,
  >>=-eq-ok,
}
use canokey_manager.Prelude.Bytes.{of_be32}
use canokey_manager.Cli.{DriveError, Message, describe_drive_error}

pub data SelectError : Type 0 where
  list_failed : ℕ → SelectError
  no_such_reader multiple_readers : List ℕ → SelectError
  cannot_determine : List ℕ → ℕ → SelectError
  cannot_connect : List ℕ → ℕ → SelectError
  no_canokey_in : List ℕ → SelectError
  cannot_probe : List ℕ → Message → SelectError
  no_serial multiple_serials : ℕ → SelectError
  no_canokey multiple_canokeys : SelectError

-- `str::contains`
abbrev is_prefix : List ℕ → List ℕ → Bool
is_prefix [] s = true
is_prefix (c ∷ p) [] = false
is_prefix (c ∷ p) (d ∷ s) = c == d && is_prefix p s

abbrev pub contains : List ℕ → List ℕ → Bool
contains [] p = is_prefix p []
contains (c ∷ s) p = is_prefix p (c ∷ s) || contains s p

abbrev pub filter : {A : Type 0} → (A → Bool) → List A → List A
filter p [] = []
filter p (x ∷ xs) = let rest = filter p xs in if p x then x ∷ rest else rest

unfoldable pub selection_targets :
    {R T E : Type 0} → List R → (R → Result (Option T) E) → Result (List T) E
selection_targets [] probe = ok []
selection_targets (reader ∷ readers) probe = do
  target ← probe reader
  targets ← selection_targets readers probe
  ok (elim target [ none ↦ targets | some t ↦ t ∷ targets ])

unfoldable pub only_match : {T E : Type 0} → List T → E → E → Result T E
only_match [] missing ambiguous = err missing
only_match (x ∷ []) missing ambiguous = ok x
only_match (x ∷ y ∷ xs) missing ambiguous = err ambiguous

-- `Target::serial` of the serial bytes that the profile has
unfoldable pub serial_of : Option (List ℕ) → Option ℕ
serial_of (some (a ∷ b ∷ c ∷ d ∷ [])) = some (of_be32 a b c d)
serial_of _ = none

pub record ConnectError : Type 0 where
  pub is_no_smartcard : Bool
  pub code : ℕ

pub record Target : Type 0 where
  pub reader : List ℕ
  pub serial : Option (List ℕ)

abbrev pub has_serial : ℕ → Target → Bool
has_serial serial target = elim (serial_of target.serial) [ none ↦ false | some n ↦ n == serial ]

-- `match targets.len()`
unfoldable pub by_count : List Target → Result Target SelectError
by_count [] = err no_canokey
by_count (target ∷ []) = ok target
by_count (target ∷ other ∷ targets) = err multiple_canokeys

-- `lowercase` is `str::to_lowercase`; `connect` opens a reader and says whether a CanoKey is in it;
-- `probe` gives the serial bytes of the profile.
module _ (lowercase : List ℕ → List ℕ) (readers : Result (List (List ℕ)) ℕ)
    (connect : List ℕ → Result Bool ConnectError)
    (probe : List ℕ → Result (Option (List ℕ)) DriveError) where
  unfoldable pub reader_matches : List ℕ → List ℕ → Bool
  reader_matches name pattern = contains (lowercase name) (lowercase pattern)

  abbrev pub probed : List ℕ → Result (Option (List ℕ)) DriveError → Result Target SelectError
  probed reader (ok serial) = ok (record { reader = reader; serial = serial })
  probed reader (err e) = err (cannot_probe reader (describe_drive_error e))

  abbrev probe_connected : List ℕ → Result Bool ConnectError → Result Target SelectError
  probe_connected reader (err e) = err (cannot_connect reader e.code)
  probe_connected reader (ok false) = err (no_canokey_in reader)
  probe_connected reader (ok true) = probed reader (probe reader)

  unfoldable pub probe_reader : List ℕ → Result Target SelectError
  probe_reader reader = probe_connected reader (connect reader)

  abbrev candidate_connected :
      List ℕ → Result Bool ConnectError → Result (Option Target) SelectError
  candidate_connected reader (err e) =
      if e.is_no_smartcard then ok none else err (cannot_determine reader e.code)
  candidate_connected reader (ok false) = ok none
  candidate_connected reader (ok true) = probed reader (probe reader) >>= λ target. ok (some target)

  -- The closure that `single_target` passes.
  unfoldable pub candidate : List ℕ → Result (Option Target) SelectError
  candidate reader = candidate_connected reader (connect reader)

  abbrev pub listed : Result (List (List ℕ)) ℕ → Result (List (List ℕ)) SelectError
  listed (ok names) = ok names
  listed (err e) = err (list_failed e)

  -- `single_target`, with a reader name, a serial number, or neither.
  unfoldable pub single_target : Option ℕ → Option (List ℕ) → Result Target SelectError
  unfolding by_count reader_matches selection_targets only_match probe_reader candidate serial_of
  single_target device (some name) = do
    names ← listed readers
    reader ←
        only_match (filter (λ r. reader_matches r name) names) (no_such_reader name)
          (multiple_readers name)
    probe_reader reader
  single_target (some serial) none = do
    names ← listed readers
    targets ← selection_targets names candidate
    only_match (filter (has_serial serial) targets) (no_serial serial) (multiple_serials serial)
  single_target none none = do
    names ← listed readers
    targets ← selection_targets names candidate
    by_count targets

  -- `targets_matching_reader`: a reader that fails is left out.
  abbrev reachable : Result Target SelectError → List Target → List Target
  reachable (ok target) targets = target ∷ targets
  reachable (err e) targets = targets

  unfoldable pub probe_all : Option (List ℕ) → List (List ℕ) → List Target
  unfolding probe_reader reader_matches
  probe_all pattern [] = []
  probe_all pattern (reader ∷ rest) =
      let targets = probe_all pattern rest in
      if elim pattern [ none ↦ false | some name ↦ not (reader_matches reader name) ]
      then targets
      else reachable (probe_reader reader) targets

  unfoldable pub targets_matching_reader : Option (List ℕ) → Result (List Target) SelectError
  unfolding probe_all
  targets_matching_reader pattern = listed readers >>= λ names. ok (probe_all pattern names)
