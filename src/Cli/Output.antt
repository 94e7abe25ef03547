-- ===== src/Cli/Output.antt =====
-- `PreparedFile` of crates/ckman/src/commands/output.rs, over a file system that keeps the contents of
-- each path. What the operating system answers to a call may depend on the calls before. `write_all`
-- of the standard library writes byte by byte, and may fail before each; links and permissions are
-- answers of the system only.
pub mod Kept
pub mod Writing
pub mod Replacement
mod Runs
use canokey_manager.Prelude.{
  ℕ, zero, suc, Bool, true, false, not, ◌&&◌, Option, none, some, List, [], ◌∷◌, ◌++◌,
  if◌then◌else◌, Result, ok, err,
}
use canokey_manager.Prelude.Bytes.{bytes_eq}

abbrev pub FilePath : Type 0
FilePath = List ℕ

abbrev pub Files : Type 0
Files = FilePath → Option (List ℕ)

unfoldable pub set_file : Files → FilePath → Option (List ℕ) → Files
unfolding bytes_eq
set_file files path contents p = if bytes_eq p path then contents else files p

abbrev pub contents_or_empty : Option (List ℕ) → List ℕ
contents_or_empty none = []
contents_or_empty (some bytes) = bytes

unfoldable pub append_byte : Files → FilePath → ℕ → Files
unfolding set_file
append_byte files path b = set_file files path (some (contents_or_empty (files path) ++ (b ∷ [])))

unfoldable pub rename_file : Files → FilePath → FilePath → Files
unfolding set_file
rename_file files old new = set_file (set_file files new (files old)) old none

pub data Call : Type 0 where
  check_access permissions sync_file sync_directory_of : FilePath → Call
  draw_name : Call
  create_new write_byte remove_file : FilePath → Call
  rename_call : FilePath → FilePath → Call

-- What the destination is: a link to elsewhere, a file that is there, another thing, or nothing.
pub data Metadata : Type 0 where
  regular_file other_thing missing : Metadata

pub data OutputError : Type 0 where
  io_error : ℕ → OutputError
  not_regular no_file_name no_temporary already_written : OutputError
  saved_at : FilePath → ℕ → OutputError

-- The operating system. `resolve` follows a symbolic link; `parent` is the canonical directory.
pub record System : Type 0 where
  pub resolve : FilePath → Result FilePath ℕ
  pub metadata : FilePath → Result Metadata ℕ
  pub parent : FilePath → Result FilePath ℕ
  pub file_name : FilePath → Option FilePath
  pub join : FilePath → FilePath → FilePath
  pub temporary_name : List ℕ → FilePath
  pub draw : List Call → Result (List ℕ) ℕ
  pub fails : Call → List Call → Option ℕ

-- The files now, all that were before since the start, the newest first, and the calls made.
pub record World : Type 0 where
  pub files : Files
  pub past : List Files
  pub calls : List Call

abbrev pub Io : Type 0 → Type 0
Io A = World → Result A OutputError × World

abbrev pub and_then : {A B : Type 0} → (A → Io B) → Result A OutputError → Io B
and_then f (ok a) w = f a w
and_then f (err e) w = (err e, w)

infixl 5 ◌>>=◌
abbrev pub ◌>>=◌ : {A B : Type 0} → Io A → (A → Io B) → Io B
◌>>=◌ m f w = and_then f (m w).0 (m w).1

abbrev pub pure : {A : Type 0} → A → Io A
pure a w = (ok a, w)

abbrev pub of_system : {A : Type 0} → Result A ℕ → Io A
of_system (ok a) w = (ok a, w)
of_system (err e) w = (err (io_error e), w)

-- The world behind a call that has changed the files, or has not.
abbrev pub advance : Call → Files → World → World
advance c files w = record { files = files; past = w.files ∷ w.past; calls = w.calls ++ (c ∷ []) }

abbrev pub note : Call → World → World
note c w = record w { calls = w.calls ++ (c ∷ []) }

abbrev pub on_answer : Call → Files → Option ℕ → Io (Unit {0})
on_answer c files none w = (ok tt, advance c files w)
on_answer c files (some e) w = (err (io_error e), note c w)

pub record PreparedFile : Type 0 where
  pub destination : FilePath
  pub temporary : Option FilePath
  pub is_open : Bool

module _ (system : System) where
  -- A call that changes the files as given, or fails and changes nothing.
  abbrev pub perform : Call → (Files → Files) → Io (Unit {0})
  perform c change w = on_answer c (change w.files) (system.fails c w.calls) w

  abbrev pub same : Files → Files
  same files = files

  unfoldable pub remove : FilePath → Files → Files
  unfolding set_file
  remove path files = set_file files path none

  abbrev pub ignore :
      {A : Type 0} → Result A OutputError × World → Result (Unit {0}) OutputError × World
  ignore (r, w) = (ok tt, w)

  -- `Drop`: the temporary file is removed where it has not been published or kept.
  unfoldable pub drop_file : PreparedFile → Io (Unit {0})
  unfolding remove
  drop_file output w = elim output.temporary [
    | none ↦ (ok tt, w)
    | some path ↦ ignore (perform (remove_file path) (remove path) w)
  ]

  -- `?` while the output is alive: it is dropped.
  unfoldable pub or_drop : {A : Type 0} → PreparedFile → Result A OutputError → Io A
  unfolding drop_file
  or_drop output (ok a) w = (ok a, w)
  or_drop output (err e) w = (err e, (drop_file output w).1)

  unfoldable pub guarded_by : {A : Type 0} → PreparedFile → Io A → Io A
  unfolding or_drop
  guarded_by output m w = or_drop output (m w).0 (m w).1

  abbrev pub check_destination : FilePath → Metadata → Io Bool
  check_destination path regular_file = perform (check_access path) same >>= λ _. pure true
  check_destination path other_thing = λ w. (err not_regular, w)
  check_destination path missing = pure false

  unfoldable pub set_permissions : PreparedFile → Bool → Io PreparedFile
  unfolding guarded_by
  set_permissions output false = pure output
  set_permissions output true =
      guarded_by output (perform (permissions output.destination) same >>= λ _. pure output)

  unfoldable pub create : FilePath → Files → Files
  unfolding set_file
  create path files = set_file files path (some [])

  -- The attempts to create a temporary file: a name that is taken is passed over.
  abbrev pub taken : FilePath → Files → Bool
  taken path files = elim (files path) [ none ↦ false | some bytes ↦ true ]

  abbrev pub new_output : FilePath → FilePath → PreparedFile
  new_output destination temporary = record {
    destination = destination;
    temporary = some temporary;
    is_open = true;
  }

  unfoldable pub allocate : ℕ → FilePath → FilePath → Bool → Io PreparedFile
  unfolding set_permissions create
  allocate zero parent destination keep w = (err no_temporary, w)
  allocate (suc rounds) parent destination keep w =
      let again = allocate rounds parent destination keep in
      (of_system (system.draw w.calls) >>= λ random.
      let temporary = system.join parent (system.temporary_name random) in
      λ w1.
        if taken temporary w1.files
        then again (note (create_new temporary) w1)
        else (perform (create_new temporary) (create temporary) >>= λ _.
              set_permissions (new_output destination temporary) keep)
            w1)
        (note draw_name w)

  abbrev pub require : {A : Type 0} → Option A → OutputError → Io A
  require none e w = (err e, w)
  require (some a) e w = (ok a, w)

  -- The temporary file is created beside the destination.
  unfoldable pub prepare_beside : FilePath → Bool → Io PreparedFile
  unfolding allocate
  prepare_beside destination keep = of_system (system.parent destination) >>= λ parent.
      require (system.file_name destination) no_file_name >>= λ name.
      allocate 8 parent (system.join parent name) keep

  unfoldable pub prepare : FilePath → Bool → Io PreparedFile
  unfolding prepare_beside
  prepare path private = of_system (system.resolve path) >>= λ destination.
      of_system (system.metadata destination) >>= λ found.
      check_destination destination found >>= λ exists.
      prepare_beside destination (exists && not private)

  -- `write_all`
  unfoldable pub write_all : FilePath → List ℕ → Io (Unit {0})
  unfolding append_byte
  write_all path [] = pure tt
  write_all path (b ∷ bytes) =
      let rest = write_all path bytes in
      perform (write_byte path) (λ files. append_byte files path b) >>= λ _. rest

  abbrev pub published : PreparedFile → PreparedFile
  published output = record output { temporary = none; is_open = false }

  -- The file is renamed, or kept for recovery: then too `Drop` removes nothing.
  unfoldable pub publish : FilePath → FilePath → Io (Unit {0})
  unfolding rename_file
  publish temporary destination w =
      elim (system.fails (rename_call temporary destination) w.calls) [
        | none ↦ (
          ok tt,
          advance (rename_call temporary destination) (rename_file w.files temporary destination) w,
        )
        | some e ↦ (err (saved_at temporary e), note (rename_call temporary destination) w)
      ]

  unfoldable pub write_synced : FilePath → List ℕ → Io (Unit {0})
  unfolding write_all
  write_synced temporary bytes =
      write_all temporary bytes >>= λ _. perform (sync_file temporary) same

  -- `write` and the drop that follows it.
  unfoldable pub write_open : FilePath → FilePath → List ℕ → Io (Unit {0})
  unfolding write_synced publish guarded_by
  write_open temporary destination bytes =
      guarded_by (new_output destination temporary) (write_synced temporary bytes) >>= λ _.
      publish temporary destination

  unfoldable pub write : PreparedFile → List ℕ → Io (Unit {0})
  unfolding write_open
  write output bytes w = elim output.temporary [
    | none ↦ (err already_written, w)
    | some temporary ↦
        if output.is_open
        then write_open temporary output.destination bytes w
        else (err already_written, w)
  ]

  -- A file is prepared, its contents are produced, and written. An output that is not written is dropped.
  unfoldable pub save : FilePath → Bool → Result (List ℕ) ℕ → Io (Unit {0})
  unfolding prepare write guarded_by
  save path private produced = prepare path private >>= λ output.
      guarded_by output (of_system produced) >>= λ bytes. write output bytes
