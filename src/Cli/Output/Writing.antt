-- ===== src/Cli/Output/Writing.antt =====
-- `PreparedFile::write` of crates/ckman/src/commands/output.rs replaces the destination at once.
use canokey_manager.Prelude.{
  ◌≡◌, ◌∙◌, refl, sym, ap, inl, inr, false, none, some, List, [], ◌∷◌, ◌++◌, Result, ok, err,
  append_assoc, append-nil, Option-cases, Result-cases, ℕ,
}
use canokey_manager.Prelude.Bytes.{bytes_eq}
use canokey_manager.Cli.Output.{
  FilePath, Files, set_file, contents_or_empty, append_byte, rename_file, Call, sync_file,
  write_byte, remove_file, rename_call, OutputError, io_error, not_regular, no_file_name,
  no_temporary, already_written, saved_at, System, World, advance, perform, remove, drop_file,
  or_drop, new_output, write_all, write_synced, guarded_by, publish, write_open,
}
use canokey_manager.Cli.Output.Kept.{
  AgreesExcept, ChangesOnly, ChangesOnly-refl, ChangesOnly-trans, set_file-other, set_file-same,
  Kept, Kept-trans, ChangesOnly-Kept, IsReplaced, IsReplaced-later,
}

module _ (system : System) where
  perform-ChangesOnly :
      (path : FilePath) (c : Call) (change : Files → Files) (w : World)
      → AgreesExcept path w.files (change w.files)
      → ChangesOnly path w (perform system c change w).1
  perform-ChangesOnly path c change w agree = elim (Option-cases (system.fails c w.calls)) [
    | inl e ↦ rw e (w.files ∷ [], refl, ((λ p h. refl), tt), agree)
    | inr (x, e) ↦ rw e ([], refl, tt, λ p h. refl)
  ]

  -- What `write_all` leaves: the whole of the bytes behind those that were there, or an error.
  abbrev pub Appended : FilePath → List ℕ → Result (Unit {0}) OutputError → World → Type 0
  Appended path whole (ok _) w = w.files path ≡ some whole
  Appended path whole (err (saved_at p e)) w = ⊥
  Appended path whole (err _) w = Unit

  pub write_all-Appended :
      (path : FilePath) (before bytes : List ℕ) (w : World)
      → w.files path ≡ some before
      → let r = write_all system path bytes w in
        ChangesOnly path w r.1 × Appended path (before ++ bytes) r.0 r.1
  unfolding write_all append_byte
  write_all-Appended path before [] w there =
      (ChangesOnly-refl path w, there ∙ ap some (sym (append-nil before)))
  write_all-Appended path before (b ∷ bytes) w there =
      elim (Option-cases (system.fails (write_byte path) w.calls)) [
        | inr (x, e) ↦ rw e (([], refl, tt, λ p h. refl), tt)
        | inl e ↦
            let w1 = advance (write_byte path) (append_byte w.files path b) w in
            let there1 : append_byte w.files path b path ≡ some (before ++ (b ∷ [])) =
              set_file-same w.files path _
              ∙ ap (λ o. some (contents_or_empty o ++ (b ∷ []))) there in
            let (only, whole) = write_all-Appended path (before ++ (b ∷ [])) bytes w1 there1 in
            let first : ChangesOnly path w w1 =
              (w.files ∷ [], refl, ((λ p h. refl), tt), set_file-other w.files path _) in
            rw e (
              ChangesOnly-trans path w w1 (write_all system path bytes w1).1 first only,
              rw (append_assoc before (b ∷ []) bytes) at whole,
            )
      ]

  pub drop_file-ChangesOnly :
      (destination temporary : FilePath) (w : World)
      → ChangesOnly temporary w (drop_file system (new_output system destination temporary) w).1
  unfolding drop_file remove
  drop_file-ChangesOnly destination temporary w =
      perform-ChangesOnly temporary (remove_file temporary) (remove system temporary) w
        (set_file-other w.files temporary none)

  failed :
      (temporary destination : FilePath) (bytes : List ℕ) (e : OutputError) (w w' w'' : World)
      → Appended temporary bytes (err e) w'
      → Kept destination w w''
      → IsReplaced temporary destination bytes w (err e, w'')
  failed temporary destination bytes (saved_at p e) w w' w'' a k = absurd a
  failed temporary destination bytes (io_error e) w w' w'' a k = k
  failed temporary destination bytes not_regular w w' w'' a k = k
  failed temporary destination bytes no_file_name w w' w'' a k = k
  failed temporary destination bytes no_temporary w w' w'' a k = k
  failed temporary destination bytes already_written w w' w'' a k = k

  publish-IsReplaced :
      (temporary destination : FilePath) (bytes : List ℕ) (w : World)
      → bytes_eq destination temporary ≡ false
      → w.files temporary ≡ some bytes
      → IsReplaced temporary destination bytes w (publish system temporary destination w)
  unfolding publish rename_file
  publish-IsReplaced temporary destination bytes w apart there =
      elim (Option-cases (system.fails (rename_call temporary destination) w.calls)) [
        | inr (x, e) ↦ rw (e, publish) ([], refl, tt, (refl, there, refl))
        | inl e ↦
            rw (e, publish)
              (
                w.files ∷ [],
                refl,
                (refl, tt),
                (
                  set_file-other (set_file w.files destination (w.files temporary)) temporary none
                        destination apart
                      ∙ set_file-same w.files destination (w.files temporary)
                      ∙ there,
                  set_file-same (set_file w.files destination (w.files temporary)) temporary none,
                ),
              )
      ]

  write_synced-Appended :
      (path : FilePath) (bytes : List ℕ) (w : World)
      → w.files path ≡ some []
      → let r = write_synced system path bytes w in
        ChangesOnly path w r.1 × Appended path bytes r.0 r.1
  unfolding write_synced
  write_synced-Appended path bytes w there =
      let (only, whole) = write_all-Appended path [] bytes w there in
      let w1 = (write_all system path bytes w).1 in
      elim (Result-cases (write_all system path bytes w).0) [
        | inr (x, e) ↦ rw e (only, rw e at whole)
        | inl (_, e) ↦ elim (Option-cases (system.fails (sync_file path) w1.calls)) [
          | inr (x, f) ↦ rw e (rw f (only, tt))
          | inl f ↦
              let step : ChangesOnly path w1 (advance (sync_file path) w1.files w1) =
                (w1.files ∷ [], refl, ((λ p h. refl), tt), λ p h. refl) in
              rw e (
                rw f (
                  ChangesOnly-trans path w w1 (advance (sync_file path) w1.files w1) only step,
                  rw e at whole,
                ))
        ]
      ]

  pub write_open-IsReplaced :
      (temporary destination : FilePath) (bytes : List ℕ) (w : World)
      → bytes_eq destination temporary ≡ false
      → w.files temporary ≡ some []
      → IsReplaced temporary destination bytes w (write_open system temporary destination bytes w)
  unfolding write_open guarded_by or_drop
  write_open-IsReplaced temporary destination bytes w apart there =
      let (only, whole) = write_synced-Appended temporary bytes w there in
      let w1 = (write_synced system temporary bytes w).1 in
      let kept : Kept destination w w1 = ChangesOnly-Kept temporary destination w w1 apart only in
      elim (Result-cases (write_synced system temporary bytes w).0) [
        | inr (x, e) ↦
            let w2 = (drop_file system (new_output system destination temporary) w1).1 in
            rw e (
              failed temporary destination bytes x w w1 w2 (rw e at whole) (
                Kept-trans destination w w1 w2 kept (
                  ChangesOnly-Kept temporary destination w1 w2 apart
                    (drop_file-ChangesOnly destination temporary w1))))
        | inl (_, e) ↦ rw e (
            IsReplaced-later temporary destination bytes w w1 _ kept
              (publish-IsReplaced temporary destination bytes w1 apart (rw e at whole)))
      ]
