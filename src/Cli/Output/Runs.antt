-- ===== src/Cli/Output/Runs.antt =====
-- A run of saving a file, in a system where every call succeeds.
use canokey_manager.Prelude.{ℕ, ◌≡◌, refl, false, none, some, List, [], ◌∷◌, ok}
use canokey_manager.Prelude.Bytes.{bytes_eq}
use canokey_manager.Cli.Output.{FilePath, Files, missing, System, World, save}
use canokey_manager.Cli.Output.Replacement.{AreApart, IsSaved, save-IsSaved}

abbrev directory : FilePath
directory = b'd' ∷ []

-- Temporary names begin with a dot, and the destination's with `k`.
abbrev system : System
system = record {
  resolve = λ path. ok path;
  metadata = λ path. ok missing;
  parent = λ path. ok directory;
  file_name = λ path. some (b'k' ∷ []);
  join = λ parent name. name;
  temporary_name = λ random. b'.' ∷ random;
  draw = λ calls. ok (b'x' ∷ []);
  fails = λ call calls. none;
}

abbrev no_files : Files
no_files path = none

abbrev empty_world : World
empty_world = record { files = no_files; past = []; calls = [] }

abbrev contents : List ℕ
contents = 1 ∷ 2 ∷ 3 ∷ []

apart : AreApart system directory (b'k' ∷ [])
unfolding bytes_eq
apart random = refl

save-IsSaved_example :
    IsSaved system
      (b'k' ∷ [])
      (ok contents)
      empty_world
      (save system (b'k' ∷ []) false (ok contents) empty_world)
save-IsSaved_example =
    save-IsSaved system (b'k' ∷ []) (b'k' ∷ []) directory (b'k' ∷ []) false (ok contents)
      empty_world refl refl refl apart

-- The run succeeds, and the destination has the contents.
save_run :
    (save system (b'k' ∷ []) false (ok contents) empty_world).1.files (b'k' ∷ []) ≡ some contents
unfolding save
save_run = refl
