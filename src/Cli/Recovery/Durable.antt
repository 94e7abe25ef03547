-- ===== src/Cli/Recovery/Durable.antt =====
-- The recovery file of crates/ckman/src/commands/piv_recovery.rs is new, and there while the card is
-- changed.
use canokey_manager.Prelude.{
  ℕ, zero, suc, ◌≡◌, ◌∙◌, refl, inl, inr, false, Option, none, some, List, [], ◌∷◌, Result, ok, err,
  Option-cases, Result-cases, Bool-cases,
}
use canokey_manager.Prelude.Bytes.{bytes_eq, bytes_eq_sound}
use canokey_manager.Cli.Output.{
  FilePath, Files, sync_file, sync_directory_of, draw_name, create_new, remove_file, OutputError,
  System, World, Io, advance, note, remove, create, taken, write_all,
}
use canokey_manager.Cli.Output.Kept.{
  AgreesExcept, ChangesOnly, ChangesOnly-trans, set_file-other, set_file-same,
}
use canokey_manager.Cli.Output.Writing.{Appended, write_all-Appended}
use canokey_manager.Cli.Recovery.{
  RecoveryError, not_created, retained_at, persist, or_remove, write_new, create_at, on_taken,
  try_at, create_recovery, clean_up, finish, finish_operated, run_with, with_recovery,
}

-- Every file that was there is as it was.
abbrev pub Preserves : Files → Files → Type 0
Preserves files files' =
    (p : FilePath) (bytes : List ℕ) → files p ≡ some bytes → files' p ≡ some bytes

AgreesExcept-Preserves :
    (path : FilePath) (files files' : Files)
    → files path ≡ none
    → AgreesExcept path files files'
    → Preserves files files'
AgreesExcept-Preserves path files files' new agree p bytes there =
    elim (Bool-cases (bytes_eq p path)) [
      | inr apart ↦ agree p apart ∙ there
      | inl same_path ↦ absurd (cc (bytes_eq_sound p path same_path, new, there))
    ]

module _ (system : System) (contents : List ℕ) where
  abbrev Written : FilePath → Result (Unit {0}) OutputError → World → Type 0
  Written path (ok _) w = w.files path ≡ some contents
  Written path (err e) w = Unit

  Appended-Written :
      (path : FilePath) (r : Result (Unit {0}) OutputError) (w : World)
      → Appended system path contents r w
      → Written path r w
  Appended-Written path (ok _) w a = a
  Appended-Written path (err e) w a = tt

  persist-Written :
      (path : FilePath) (w : World)
      → w.files path ≡ some []
      → let r = persist system contents path w in ChangesOnly path w r.1 × Written path r.0 r.1
  unfolding persist
  persist-Written path w there =
      let (only, whole) = write_all-Appended system path [] contents w there in
      let w1 = (write_all system path contents w).1 in
      elim (Result-cases (write_all system path contents w).0) [
        | inr (x, e) ↦ rw e (only, tt)
        | inl (_, e) ↦ elim (Option-cases (system.fails (sync_file path) w1.calls)) [
          | inr (x, f) ↦ rw e (rw f (only, tt))
          | inl f ↦
              let w2 = advance (sync_file path) w1.files w1 in
              let step : ChangesOnly path w1 w2 =
                (w1.files ∷ [], refl, ((λ p h. refl), tt), λ p h. refl) in
              let so_far = ChangesOnly-trans path w w1 w2 only step in
              elim (Option-cases (system.fails (sync_directory_of path) w2.calls)) [
                | inr (x, g) ↦ rw e (rw f (rw g (so_far, tt)))
                | inl g ↦
                    let w3 = advance (sync_directory_of path) w1.files w2 in
                    let step3 : ChangesOnly path w2 w3 =
                      (w1.files ∷ [], refl, ((λ p h. refl), tt), λ p h. refl) in
                    rw e (rw f (rw g (ChangesOnly-trans path w w2 w3 so_far step3, rw e at whole)))
              ]
        ]
      ]

  -- The path of a file that was created is new, and the file has the contents.
  abbrev Created : Files → FilePath → Result FilePath OutputError → World → Type 0
  Created files path (ok p) w = (p ≡ path) × (w.files path ≡ some contents)
  Created files path (err e) w = Unit

  create_at-Created :
      (path : FilePath) (w : World)
      → let r = create_at system contents path w in
        AgreesExcept path w.files r.1.files × Created w.files path r.0 r.1
  unfolding create_at create write_new or_remove remove
  create_at-Created path w = elim (Option-cases (system.fails (create_new path) w.calls)) [
    | inr (x, e) ↦ rw e ((λ p h. refl), tt)
    | inl e ↦
        let w1 = advance (create_new path) (create system path w.files) w in
        let made : AgreesExcept path w.files w1.files = set_file-other w.files path (some []) in
        let ((_, _, _, kept), written) =
          persist-Written path w1 (set_file-same w.files path (some [])) in
        let w2 = (persist system contents path w1).1 in
        let both : AgreesExcept path w.files w2.files = λ p h. kept p h ∙ made p h in
        elim (Result-cases (persist system contents path w1).0) [
          | inl (_, f) ↦ rw e (rw f (both, (refl, rw f at written)))
          | inr (x, f) ↦ elim (Option-cases (system.fails (remove_file path) w2.calls)) [
            | inr (y, g) ↦ rw e (rw f (rw g (both, tt)))
            | inl g ↦
                rw e (rw f (rw g ((λ p h. set_file-other w2.files path none p h ∙ both p h), tt)))
          ]
        ]
  ]

  abbrev CreatedNew : Files → Result FilePath OutputError → World → Type 0
  CreatedNew files (ok path) w = (files path ≡ none) × (w.files path ≡ some contents)
  CreatedNew files (err e) w = Unit

  abbrev LeavesFiles : Files → Result FilePath OutputError × World → Type 0
  LeavesFiles files r = Preserves files r.1.files × CreatedNew files r.0 r.1

  unchanged_files : (files : Files) → Preserves files files
  unchanged_files files p b h = h

  on_taken-LeavesFiles :
      (requested : Option FilePath) (again : Io FilePath) (w : World)
      → ((v : World) → LeavesFiles v.files (again v))
      → LeavesFiles w.files (on_taken system contents requested again w)
  on_taken-LeavesFiles none again w each = each w
  on_taken-LeavesFiles (some path) again w each = (unchanged_files w.files, tt)

  created_new :
      (files : Files) (path : FilePath) (r : Result FilePath OutputError) (w : World)
      → files path ≡ none
      → Created files path r w
      → CreatedNew files r w
  created_new files path (ok p) w new (same_path, whole) = rw same_path (new, whole)
  created_new files path (err e) w new c = tt

  taken-none :
      (path : FilePath) (files : Files) → taken system path files ≡ false → files path ≡ none
  taken-none path files h = elim (Option-cases (files path)) [
    | inl e ↦ e
    | inr (b, e) ↦ absurd (cc (rw (e, taken) at h))
  ]

  try_at-LeavesFiles :
      (requested : Option FilePath) (again : Io FilePath) (chosen : FilePath) (w : World)
      → ((v : World) → LeavesFiles v.files (again v))
      → LeavesFiles w.files (try_at system contents requested again chosen w)
  unfolding try_at
  try_at-LeavesFiles requested again chosen w each = elim (Result-cases (system.parent chosen)) [
    | inr (x, p) ↦ rw p (unchanged_files w.files, tt)
    | inl (parent, p) ↦ elim (Option-cases (system.file_name chosen)) [
      | inl n ↦ rw p (rw n (unchanged_files w.files, tt))
      | inr (name, n) ↦
          let path = system.join parent name in
          elim (Bool-cases (taken system path w.files)) [
            | inl t ↦
                rw p (
                  rw n
                    (rw t (on_taken-LeavesFiles requested again (note (create_new path) w) each)))
            | inr t ↦
                let new = taken-none path w.files t in
                let (agree, made) = create_at-Created path w in
                rw p (
                  rw n (
                    rw t (
                      AgreesExcept-Preserves path w.files (create_at system contents path w).1.files
                          new agree,
                      created_new w.files path (create_at system contents path w).0
                          (create_at system contents path w).1 new made,
                    )))
          ]
    ]
  ]

  create_recovery-LeavesFiles :
      (rounds : ℕ) (requested : Option FilePath) (w : World)
      → LeavesFiles w.files (create_recovery system contents rounds requested w)
  unfolding create_recovery
  create_recovery-LeavesFiles zero requested w = (unchanged_files w.files, tt)
  create_recovery-LeavesFiles (suc rounds) (some path) w =
      try_at-LeavesFiles (some path) (create_recovery system contents rounds (some path)) path w
        (create_recovery-LeavesFiles rounds (some path))
  create_recovery-LeavesFiles (suc rounds) none w = elim (Result-cases (system.draw w.calls)) [
    | inr (x, d) ↦ rw d (unchanged_files w.files, tt)
    | inl (random, d) ↦ rw d (
        try_at-LeavesFiles none (create_recovery system contents rounds none)
          (system.temporary_name random) (note draw_name w)
          (create_recovery-LeavesFiles rounds none))
  ]

  module _ (operation : World → Result (Unit {0}) ℕ) where
    -- The card operation was run while a new file had the contents.
    abbrev pub WasCovered : Files → Result (Unit {0}) ℕ → FilePath → World → Type 0
    WasCovered files answer path w =
        (files path ≡ none) × (w.files path ≡ some contents) × (operation w ≡ answer)

    -- Where nothing was created the operation was not run; otherwise it was run once.
    abbrev pub IsDurable : Files → Result (Unit {0}) RecoveryError → World → List World → Type 0
    IsDurable files (err (not_created e)) w operated = operated ≡ []
    IsDurable files (err (retained_at path e)) w operated =
        (operated ≡ w ∷ []) × WasCovered files (err e) path w
    IsDurable files (ok _) w operated =
        (path : FilePath) × (v : World) × (operated ≡ v ∷ []) × WasCovered files (ok tt) path v

    clean_up-Preserves :
        (path : FilePath) (files : Files) (w : World)
        → files path ≡ none
        → Preserves files w.files
        → Preserves files (clean_up system contents path w).files
    unfolding clean_up remove
    clean_up-Preserves path files w new kept p b h =
        elim (Option-cases (system.fails (remove_file path) w.calls)) [
          | inr (x, e) ↦ rw (e, clean_up) (kept p b h)
          | inl e ↦
              let w1 = advance (remove_file path) (remove system path w.files) w in
              let apart : bytes_eq p path ≡ false = elim (Bool-cases (bytes_eq p path)) [
                | inr a ↦ a
                | inl a ↦ absurd (cc (bytes_eq_sound p path a, new, h))
              ] in
              let still = set_file-other w.files path none p apart ∙ kept p b h in
              elim (Option-cases (system.fails (sync_directory_of path) w1.calls)) [
                | inr (x, f) ↦ rw (e, f, clean_up, remove) still
                | inl f ↦ rw (e, f, clean_up, remove) still
              ]
        ]

    -- A file that is there before is never changed or removed. The operation on the card runs at most
    -- once, only when a new file has the recovery text, all of it, and not at all where that file could
    -- not be made; its result decides the outcome, and where it fails the file is still there, as the
    -- failure says.
    pub with_recovery-IsDurable :
        (requested : Option FilePath) (w : World)
        → let r = with_recovery system contents operation requested w in
          Preserves w.files r.world.files × IsDurable w.files r.outcome r.world r.operated
    unfolding with_recovery run_with finish_operated finish
    with_recovery-IsDurable requested w =
        let (kept, made) = create_recovery-LeavesFiles 8 requested w in
        let w1 = (create_recovery system contents 8 requested w).1 in
        elim (Result-cases (create_recovery system contents 8 requested w).0) [
          | inr (x, e) ↦ rw e (kept, refl)
          | inl (path, e) ↦
              let (new, whole) = rw e at made in
              elim (Result-cases (operation w1)) [
                | inr (x, o) ↦ rw e (rw o (kept, (refl, (new, whole, o))))
                | inl (_, o) ↦ rw e (
                    rw o (
                      clean_up-Preserves path w.files w1 new kept,
                      (path, w1, refl, (new, whole, o)),
                    ))
              ]
        ]
