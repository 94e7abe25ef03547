-- ===== src/Cli/Output/Replacement.antt =====
-- Saving a file as crates/ckman/src/commands/output.rs does replaces the destination at once.
use canokey_manager.Prelude.{
  ◌≡◌, ◌∙◌, refl, sym, ap, inl, inr, Bool, true, false, not, Option, some, List, [], ◌∷◌, ◌++◌,
  Result, ok, err, All, All-append, append_assoc, Option-cases, Result-cases, Bool-cases, subst, ℕ,
  zero, suc,
}
use canokey_manager.Prelude.Bytes.{bytes_eq}
use canokey_manager.Cli.Output.{
  FilePath, Files, check_access, prepare_beside, save, permissions, draw_name, create_new,
  regular_file, other_thing, missing, OutputError, io_error, not_regular, no_file_name,
  no_temporary, already_written, saved_at, System, World, ◌>>=◌, of_system, advance, note,
  PreparedFile, drop_file, or_drop, taken, new_output, allocate, prepare, guarded_by,
  set_permissions, create, write,
}
use canokey_manager.Cli.Output.Kept.{
  ChangesOnly, All-map, set_file-other, set_file-same, Kept, Kept-refl, Kept-trans,
  ChangesOnly-Kept, Outcome,
}
use canokey_manager.Cli.Output.Writing.{drop_file-ChangesOnly, write_open-IsReplaced}

module _ (system : System) where
  -- Whatever is drawn, the temporary file is another one than the destination.
  abbrev pub AreApart : FilePath → FilePath → Type 0
  AreApart parent destination =
      (random : List ℕ)
      → bytes_eq destination (system.join parent (system.temporary_name random)) ≡ false

  -- A prepared output: its temporary file is new, and empty.
  abbrev IsPrepared : FilePath → FilePath → PreparedFile → World → Type 0
  IsPrepared parent destination output w =
      (random : List ℕ) × (output
        ≡ new_output system destination (system.join parent (system.temporary_name random)))
      × (w.files (system.join parent (system.temporary_name random)) ≡ some [])

  abbrev Allocated : FilePath → FilePath → Result PreparedFile OutputError → World → Type 0
  Allocated parent destination (ok output) w = IsPrepared parent destination output w
  Allocated parent destination (err (saved_at path e)) w = ⊥
  Allocated parent destination (err _) w = Unit

  set_permissions-Allocated :
      (keep : Bool) (parent destination : FilePath) (random : List ℕ) (w : World)
      → AreApart parent destination
      → let temporary = system.join parent (system.temporary_name random) in
        w.files temporary ≡ some []
        → let r = set_permissions system (new_output system destination temporary) keep w in
          Kept destination w r.1 × Allocated parent destination r.0 r.1
  unfolding set_permissions guarded_by or_drop
  set_permissions-Allocated false parent destination random w apart there =
      (Kept-refl destination w, (random, refl, there))
  set_permissions-Allocated true parent destination random w apart there =
      let temporary = system.join parent (system.temporary_name random) in
      elim (Option-cases (system.fails (permissions destination) w.calls)) [
        | inl e ↦ rw e ((w.files ∷ [], refl, (refl, tt), refl), (random, refl, there))
        | inr (x, e) ↦
            let w1 = note (permissions destination) w in
            rw e (
              ChangesOnly-Kept temporary destination w1
                  (drop_file system (new_output system destination temporary) w1).1 (apart random)
                  (drop_file-ChangesOnly system destination temporary w1),
              tt,
            )
      ]

  allocate-Allocated :
      (rounds : ℕ) (parent destination : FilePath) (keep : Bool) (w : World)
      → AreApart parent destination
      → let r = allocate system rounds parent destination keep w in
        Kept destination w r.1 × Allocated parent destination r.0 r.1
  unfolding allocate create
  allocate-Allocated zero parent destination keep w apart = (Kept-refl destination w, tt)
  allocate-Allocated (suc rounds) parent destination keep w apart =
      elim (Result-cases (system.draw w.calls)) [
        | inr (x, d) ↦ rw d (Kept-refl destination w, tt)
        | inl (random, d) ↦
            let temporary = system.join parent (system.temporary_name random) in
            elim (Bool-cases (taken system temporary w.files)) [
              | inl t ↦ rw d (
                  rw t (
                    allocate-Allocated rounds parent destination keep
                      (note (create_new temporary) (note draw_name w)) apart))
              | inr t ↦
                  elim (Option-cases
                    (system.fails (create_new temporary) (w.calls ++ (draw_name ∷ [])))) [
                      | inr (x, e) ↦ rw d (rw t (rw e (Kept-refl destination w, tt)))
                      | inl e ↦
                          let w1 = note draw_name w in
                          let w2 =
                            advance (create_new temporary) (create system temporary w.files) w1 in
                          let made : ChangesOnly temporary w1 w2 = (
                            w.files ∷ [],
                            refl,
                            ((λ p h. refl), tt),
                            set_file-other w.files temporary (some []),
                          ) in
                          let (kept, end) =
                            set_permissions-Allocated keep parent destination random w2 apart
                              (set_file-same w.files temporary (some [])) in
                          rw d (
                            rw t (
                              rw e (
                                Kept-trans destination w w2
                                    (set_permissions system
                                      (new_output system destination temporary) keep w2).1
                                    (ChangesOnly-Kept temporary destination w1 w2 (apart random)
                                      made)
                                    kept,
                                end,
                              )))
                    ]
            ]
      ]

  prepare_beside-Allocated :
      (path parent name : FilePath) (keep : Bool) (w : World)
      → system.parent path ≡ ok parent
      → system.file_name path ≡ some name
      → AreApart parent (system.join parent name)
      → let r = prepare_beside system path keep w in
        Kept (system.join parent name) w r.1 × Allocated parent (system.join parent name) r.0 r.1
  unfolding prepare_beside
  prepare_beside-Allocated path parent name keep w p n apart =
      rw p (rw n (allocate-Allocated 8 parent (system.join parent name) keep w apart))

  prepare-Allocated :
      (path target parent name : FilePath) (private : Bool) (w : World)
      → system.resolve path ≡ ok target
      → system.parent target ≡ ok parent
      → system.file_name target ≡ some name
      → AreApart parent (system.join parent name)
      → let r = prepare system path private w in
        Kept (system.join parent name) w r.1 × Allocated parent (system.join parent name) r.0 r.1
  unfolding prepare
  prepare-Allocated path target parent name private w t p n apart =
      elim (Result-cases (system.metadata target)) [
        | inr (x, m) ↦ rw t (rw m (Kept-refl (system.join parent name) w, tt))
        | inl (other_thing, m) ↦ rw t (rw m (Kept-refl (system.join parent name) w, tt))
        | inl (missing, m) ↦
            rw t (rw m (prepare_beside-Allocated target parent name false w p n apart))
        | inl (regular_file, m) ↦ elim (Option-cases (system.fails (check_access target) w.calls)) [
          | inr (x, e) ↦ rw t (rw m (rw e (Kept-refl (system.join parent name) w, tt)))
          | inl e ↦
              let w1 = advance (check_access target) w.files w in
              let (kept, end) =
                prepare_beside-Allocated target parent name (not private) w1 p n apart in
              rw t (
                rw m (
                  rw e (
                    Kept-trans (system.join parent name) w w1
                        (prepare_beside system target (not private) w1).1
                        (w.files ∷ [], refl, (refl, tt), refl) kept,
                    end,
                  )))
        ]
      ]

  -- How saving ends: the destination has what was produced, or it is as it was.
  abbrev pub SaveOutcome :
      FilePath
      → Result (List ℕ) ℕ
      → Option (List ℕ)
      → Result (Unit {0}) OutputError
      → World
      → Type 0
  SaveOutcome destination produced old (ok _) w =
      (bytes : List ℕ) × (produced ≡ ok bytes) × (w.files destination ≡ some bytes)
  SaveOutcome destination produced old (err (saved_at path e)) w =
      (bytes : List ℕ) × (produced ≡ ok bytes)
      × (w.files path ≡ some bytes)
      × (w.files destination ≡ old)
  SaveOutcome destination produced old (err _) w = w.files destination ≡ old

  abbrev pub IsSaved :
      FilePath → Result (List ℕ) ℕ → World → Result (Unit {0}) OutputError × World → Type 0
  IsSaved destination produced w r =
      (newer : List Files) × (r.1.past ≡ newer ++ w.past)
      × All (λ files. files destination ≡ w.files destination) newer
      × SaveOutcome destination produced (w.files destination) r.0 r.1

  Outcome-SaveOutcome :
      (temporary destination : FilePath) (bytes : List ℕ) (old : Option (List ℕ))
      (r : Result (Unit {0}) OutputError) (w : World)
      → Outcome temporary destination bytes old r w
      → SaveOutcome destination (ok bytes) old r w
  Outcome-SaveOutcome temporary destination bytes old (ok _) w o = (bytes, refl, o.0)
  Outcome-SaveOutcome temporary destination bytes old (err (saved_at path e)) w
        (same_path, saved, kept) =
      (bytes, refl, ap w.files same_path ∙ saved, kept)
  Outcome-SaveOutcome temporary destination bytes old (err (io_error e)) w o = o
  Outcome-SaveOutcome temporary destination bytes old (err not_regular) w o = o
  Outcome-SaveOutcome temporary destination bytes old (err no_file_name) w o = o
  Outcome-SaveOutcome temporary destination bytes old (err no_temporary) w o = o
  Outcome-SaveOutcome temporary destination bytes old (err already_written) w o = o

  not_prepared :
      (parent destination : FilePath) (produced : Result (List ℕ) ℕ) (e : OutputError)
      (w w' : World)
      → Allocated parent destination (err e) w'
      → Kept destination w w'
      → IsSaved destination produced w (err e, w')
  not_prepared parent destination produced (saved_at p e) w w' a k = absurd a
  not_prepared parent destination produced (io_error e) w w' a k = k
  not_prepared parent destination produced not_regular w w' a k = k
  not_prepared parent destination produced no_file_name w w' a k = k
  not_prepared parent destination produced no_temporary w w' a k = k
  not_prepared parent destination produced already_written w w' a k = k

  IsSaved-later :
      (destination : FilePath) (produced : Result (List ℕ) ℕ) (w w' : World)
      (r : Result (Unit {0}) OutputError × World)
      → Kept destination w w'
      → IsSaved destination produced w' r
      → IsSaved destination produced w r
  IsSaved-later destination produced w w' r (newer, e, each, now) (newest, e', each', outcome) = (
    newest ++ newer,
    e' ∙ ap (λ l. newest ++ l) e ∙ sym (append_assoc newest newer w.past),
    All-append (λ files. files destination ≡ w.files destination) newest newer
        (All-map (λ files. files destination ≡ w'.files destination)
          (λ files. files destination ≡ w.files destination) newest (λ f agree. agree ∙ now) each')
        each,
    subst (λ old. SaveOutcome destination produced old r.0 r.1) now outcome,
  )

  produced-IsSaved :
      (parent destination : FilePath) (random : List ℕ) (produced : Result (List ℕ) ℕ) (w : World)
      → let temporary = system.join parent (system.temporary_name random) in
        bytes_eq destination temporary ≡ false
        → w.files temporary ≡ some []
        → let output = new_output system destination temporary in
          IsSaved destination produced w (
            (guarded_by system output (of_system produced) >>= λ bytes. write system output bytes)
              w)
  unfolding guarded_by or_drop write
  produced-IsSaved parent destination random (err x) w apart there =
      let temporary = system.join parent (system.temporary_name random) in
      ChangesOnly-Kept temporary destination w
        (drop_file system (new_output system destination temporary) w).1 apart
        (drop_file-ChangesOnly system destination temporary w)
  produced-IsSaved parent destination random (ok bytes) w apart there =
      let temporary = system.join parent (system.temporary_name random) in
      let (newer, e, each, outcome) =
        write_open-IsReplaced system temporary destination bytes w apart there in
      (
        newer,
        e,
        each,
        Outcome-SaveOutcome temporary destination bytes (w.files destination) _ _ outcome,
      )

  -- Saving to a path replaces the file there at once, given that a temporary file is never named like
  -- it: in every state that can be seen before the end, the destination has its old contents. In the
  -- end it has all that was produced where saving succeeds. Otherwise it is as it was, and where the
  -- failure says that the output was saved elsewhere, all of it is there.
  pub save-IsSaved :
      (path target parent name : FilePath) (private : Bool) (produced : Result (List ℕ) ℕ)
      (w : World)
      → system.resolve path ≡ ok target
      → system.parent target ≡ ok parent
      → system.file_name target ≡ some name
      → AreApart parent (system.join parent name)
      → IsSaved (system.join parent name) produced w (save system path private produced w)
  unfolding save guarded_by or_drop write
  save-IsSaved path target parent name private produced w t p n apart =
      let destination = system.join parent name in
      let (kept, made) = prepare-Allocated path target parent name private w t p n apart in
      let w1 = (prepare system path private w).1 in
      elim (Result-cases (prepare system path private w).0) [
        | inr (x, e) ↦ rw e (not_prepared parent destination produced x w w1 (rw e at made) kept)
        | inl (output, e) ↦
            let (random, o, there) = rw e at made in
            rw e (
              rw o (
                IsSaved-later destination produced w w1 _ kept
                  (produced-IsSaved parent destination random produced w1 (apart random) there)))
      ]
