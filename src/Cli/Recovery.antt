-- ===== src/Cli/Recovery.antt =====
-- `ManagementKeyRecovery` of crates/ckman/src/commands/piv_recovery.rs: the file that keeps a new
-- management key while the card is changed. The text around the key is a parameter, and so are the
-- name that is drawn and the card operation, whose result may depend on the calls before; each run of
-- the operation is recorded with the world in which it was run.
pub mod Durable
mod Runs
use canokey_manager.Prelude.{
  ℕ, zero, suc, Bool, true, false, Option, none, some, List, [], ◌∷◌, ◌++◌, if◌then◌else◌, Result,
  ok, err,
}
use canokey_manager.Cli.Output.{
  FilePath, Files, World, Io, and_then, ◌>>=◌, pure, of_system, note, perform, same, remove, create,
  taken, require, write_all, Call, sync_file, sync_directory_of, draw_name, create_new, remove_file,
  OutputError, io_error, no_file_name, no_temporary, System,
}

abbrev pub already_exists : ℕ
already_exists = 17

pub data RecoveryError : Type 0 where
  not_created : OutputError → RecoveryError
  retained_at : FilePath → ℕ → RecoveryError

-- What a run returns, the world behind it, and the worlds in which the card operation was run.
pub record Recovered : Type 0 where
  pub outcome : Result (Unit {0}) RecoveryError
  pub world : World
  pub operated : List World

module _ (system : System) (contents : List ℕ) where
  -- The path asked for, or one with a name that is drawn.
  abbrev pub candidate : Option FilePath → Io FilePath
  candidate (some path) = pure path
  candidate none = λ w.
      (of_system (system.draw w.calls) >>= λ random. pure (system.temporary_name random))
        (note draw_name w)

  -- Writing, and making sure that the file and its name are on disk.
  unfoldable pub persist : FilePath → Io (Unit {0})
  unfolding write_all
  persist path = write_all system path contents >>= λ _.
      perform system (sync_file path) (same system) >>= λ _.
      perform system (sync_directory_of path) (same system)

  -- What could not be saved is removed again, if that works.
  unfoldable pub or_remove : FilePath → Result (Unit {0}) OutputError → Io FilePath
  unfolding remove
  or_remove path (ok _) w = (ok path, w)
  or_remove path (err e) w = (err e, (perform system (remove_file path) (remove system path) w).1)

  unfoldable pub write_new : FilePath → Io FilePath
  unfolding persist or_remove
  write_new path w = or_remove path (persist path w).0 (persist path w).1

  unfoldable pub create_at : FilePath → Io FilePath
  unfolding create write_new
  create_at path = perform system (create_new path) (create system path) >>= λ _. write_new path

  -- The attempts: a drawn name that is taken is passed over, one that was asked for is an error.
  abbrev pub on_taken : Option FilePath → Io FilePath → Io FilePath
  on_taken none again = again
  on_taken (some path) again = λ w. (err (io_error already_exists), w)

  unfoldable pub try_at : Option FilePath → Io FilePath → FilePath → Io FilePath
  unfolding create_at
  try_at requested again chosen = of_system (system.parent chosen) >>= λ parent.
      require system (system.file_name chosen) no_file_name >>= λ name. λ w.
        let path = system.join parent name in
        if taken system path w.files
        then on_taken requested again (note (create_new path) w)
        else create_at path w

  unfoldable pub create_recovery : ℕ → Option FilePath → Io FilePath
  unfolding try_at
  create_recovery zero requested w = (err no_temporary, w)
  create_recovery (suc rounds) requested w =
      let again = create_recovery rounds requested in
      (candidate requested >>= try_at requested again) w

  -- The file is removed behind a success; a failure of that is a warning only.
  unfoldable pub clean_up : FilePath → World → World
  unfolding remove
  clean_up path w =
      ((perform system (remove_file path) (remove system path) >>= λ _.
      perform system (sync_directory_of path) (same system))
        w).1

  -- `run`: where the operation fails the file stays.
  unfoldable pub finish :
      FilePath → Result (Unit {0}) ℕ → World → Result (Unit {0}) RecoveryError × World
  unfolding clean_up
  finish path (ok _) w = (ok tt, clean_up path w)
  finish path (err e) w = (err (retained_at path e), w)

  module _ (operation : World → Result (Unit {0}) ℕ) where
    -- The result of the operation, and the record that it was run.
    abbrev operate : World → Result (Unit {0}) ℕ × List World
    operate w = (operation w, w ∷ [])

    unfoldable pub finish_operated : FilePath → World → Result (Unit {0}) ℕ × List World → Recovered
    unfolding finish
    finish_operated path w (answer, operated) =
        let (outcome, world) = finish path answer w in
        record { outcome = outcome; world = world; operated = operated }

    unfoldable pub run_with : Result FilePath OutputError → World → Recovered
    unfolding finish_operated
    run_with (ok path) w = finish_operated path w (operate w)
    run_with (err e) w = record { outcome = err (not_created e); world = w; operated = [] }

    -- `create` and then `run`
    unfoldable pub with_recovery : Option FilePath → World → Recovered
    unfolding create_recovery run_with
    with_recovery requested w =
        run_with (create_recovery 8 requested w).0 (create_recovery 8 requested w).1
