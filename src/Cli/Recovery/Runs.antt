-- ===== src/Cli/Recovery/Runs.antt =====
-- A run with a recovery file, around an operation that fails.
use canokey_manager.Prelude.{ℕ, ◌≡◌, refl, none, some, List, [], ◌∷◌, Result, ok, err}
use canokey_manager.Cli.Output.{FilePath, Files, World, System, missing}
use canokey_manager.Cli.Recovery.{retained_at, with_recovery}
use canokey_manager.Cli.Recovery.Durable.{Preserves, IsDurable, with_recovery-IsDurable}

abbrev directory : FilePath
directory = b'd' ∷ []

abbrev system : System
system = record {
  resolve = λ path. ok path;
  metadata = λ path. ok missing;
  parent = λ path. ok directory;
  file_name = λ path. some path;
  join = λ parent name. name;
  temporary_name = λ random. random;
  draw = λ calls. ok (b'x' ∷ []);
  fails = λ call calls. none;
}

abbrev no_files : Files
no_files path = none

abbrev empty_world : World
empty_world = record { files = no_files; past = []; calls = [] }

abbrev recovery_text : List ℕ
recovery_text = 1 ∷ 2 ∷ 3 ∷ []

abbrev refused : World → Result (Unit {0}) ℕ
refused w = err 7

with_recovery-IsDurable_example :
    let r = with_recovery system recovery_text refused none empty_world in
    Preserves empty_world.files r.world.files
    × IsDurable system recovery_text refused empty_world.files r.outcome r.world r.operated
with_recovery-IsDurable_example =
    with_recovery-IsDurable system recovery_text refused none empty_world

recovery_run :
    (with_recovery system recovery_text refused none empty_world).outcome
    ≡ err (retained_at (b'x' ∷ []) 7)
unfolding with_recovery
recovery_run = refl
