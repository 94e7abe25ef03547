-- ===== src/Cli/Output/Kept.antt =====
-- Comparing the files that a run of crates/ckman/src/commands/output.rs passes through.
use canokey_manager.Prelude.{
  ◌≡◌, ◌∙◌, refl, sym, ap, false, Option, none, some, List, [], ◌∷◌, ◌++◌, Result, ok, err, All,
  All-append, append_assoc, subst, ℕ,
}
use canokey_manager.Prelude.Bytes.{bytes_eq, bytes_eq_refl}
use canokey_manager.Cli.Output.{FilePath, Files, set_file, OutputError, saved_at, World}

-- The files differ at the path at most.
abbrev pub AgreesExcept : FilePath → Files → Files → Type 0
AgreesExcept path files files' = (p : FilePath) → bytes_eq p path ≡ false → files' p ≡ files p

-- So do all that were seen on the way from one world to the other.
abbrev pub ChangesOnly : FilePath → World → World → Type 0
ChangesOnly path w w' =
    (newer : List Files) × (w'.past ≡ newer ++ w.past)
    × All (AgreesExcept path w.files) newer
    × AgreesExcept path w.files w'.files

pub ChangesOnly-refl : (path : FilePath) (w : World) → ChangesOnly path w w
ChangesOnly-refl path w = ([], refl, tt, λ p h. refl)

pub All-map :
    {A : Type 0} (P Q : A → Type 0) (xs : List A) → ((a : A) → P a → Q a) → All P xs → All Q xs
All-map P Q [] f h = tt
All-map P Q (x ∷ xs) f (h, each) = (f x h, All-map P Q xs f each)

pub ChangesOnly-trans :
    (path : FilePath) (w w' w'' : World)
    → ChangesOnly path w w'
    → ChangesOnly path w' w''
    → ChangesOnly path w w''
ChangesOnly-trans path w w' w'' (newer, e, each, now) (newest, e', each', now') = (
  newest ++ newer,
  e' ∙ ap (λ l. newest ++ l) e ∙ sym (append_assoc newest newer w.past),
  All-append (AgreesExcept path w.files) newest newer
      (All-map (AgreesExcept path w'.files) (AgreesExcept path w.files) newest
        (λ f agree p h. agree p h ∙ now p h) each')
      each,
  λ p h. now' p h ∙ now p h,
)

pub set_file-other :
    (files : Files) (path : FilePath) (contents : Option (List ℕ))
    → AgreesExcept path files (set_file files path contents)
unfolding set_file
set_file-other files path contents p h = rw h refl

pub set_file-same :
    (files : Files) (path : FilePath) (contents : Option (List ℕ))
    → set_file files path contents path ≡ contents
unfolding set_file
set_file-same files path contents = rw (bytes_eq_refl path) refl

-- The destination is as it was, now and in all states that could be seen on the way.
abbrev pub Kept : FilePath → World → World → Type 0
Kept destination w w' =
    (newer : List Files) × (w'.past ≡ newer ++ w.past)
    × All (λ files. files destination ≡ w.files destination) newer
    × (w'.files destination ≡ w.files destination)

pub Kept-refl : (destination : FilePath) (w : World) → Kept destination w w
Kept-refl destination w = ([], refl, tt, refl)

pub Kept-trans :
    (destination : FilePath) (w w' w'' : World)
    → Kept destination w w'
    → Kept destination w' w''
    → Kept destination w w''
Kept-trans destination w w' w'' (newer, e, each, now) (newest, e', each', now') = (
  newest ++ newer,
  e' ∙ ap (λ l. newest ++ l) e ∙ sym (append_assoc newest newer w.past),
  All-append (λ files. files destination ≡ w.files destination) newest newer
      (All-map (λ files. files destination ≡ w'.files destination)
        (λ files. files destination ≡ w.files destination) newest (λ f agree. agree ∙ now) each')
      each,
  now' ∙ now,
)

pub ChangesOnly-Kept :
    (temporary destination : FilePath) (w w' : World)
    → bytes_eq destination temporary ≡ false
    → ChangesOnly temporary w w'
    → Kept destination w w'
ChangesOnly-Kept temporary destination w w' apart (newer, e, each, now) = (
  newer,
  e,
  All-map (AgreesExcept temporary w.files) (λ files. files destination ≡ w.files destination) newer
      (λ f agree. agree destination apart) each,
  now destination apart,
)

-- How a write ends: the destination has the new contents and the temporary file is gone; or it is as
-- it was, and where the failure says that the output was saved, it has been, in full.
abbrev pub Outcome :
    FilePath → FilePath → List ℕ → Option (List ℕ) → Result (Unit {0}) OutputError → World → Type 0
Outcome temporary destination bytes old (ok _) w =
    (w.files destination ≡ some bytes) × (w.files temporary ≡ none)
Outcome temporary destination bytes old (err (saved_at path e)) w =
    (path ≡ temporary) × (w.files temporary ≡ some bytes) × (w.files destination ≡ old)
Outcome temporary destination bytes old (err _) w = w.files destination ≡ old

-- The destination is seen with the old contents only, until the end.
abbrev pub IsReplaced :
    FilePath → FilePath → List ℕ → World → Result (Unit {0}) OutputError × World → Type 0
IsReplaced temporary destination bytes w r =
    (newer : List Files) × (r.1.past ≡ newer ++ w.past)
    × All (λ files. files destination ≡ w.files destination) newer
    × Outcome temporary destination bytes (w.files destination) r.0 r.1

pub IsReplaced-later :
    (temporary destination : FilePath) (bytes : List ℕ) (w w' : World)
    (r : Result (Unit {0}) OutputError × World)
    → Kept destination w w'
    → IsReplaced temporary destination bytes w' r
    → IsReplaced temporary destination bytes w r
IsReplaced-later temporary destination bytes w w' r (newer, e, each, now)
      (newest, e', each', outcome) =
    (
      newest ++ newer,
      e' ∙ ap (λ l. newest ++ l) e ∙ sym (append_assoc newest newer w.past),
      All-append (λ files. files destination ≡ w.files destination) newest newer
          (All-map (λ files. files destination ≡ w'.files destination)
            (λ files. files destination ≡ w.files destination) newest (λ f agree. agree ∙ now)
            each')
          each,
      subst (λ old. Outcome temporary destination bytes old r.0 r.1) now outcome,
    )
