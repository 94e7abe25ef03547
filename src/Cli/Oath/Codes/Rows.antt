-- ===== src/Cli/Oath/Codes/Rows.antt =====
-- The rows that `write_account_codes` of crates/ckman/src/commands/oath.rs has written when it ends.
use canokey_manager.Prelude.{
  ℕ, ◌≡◌, ◌∙◌, refl, sym, ap, inl, inr, ◌⊎◌, subst, Bool, List, [], ◌∷◌, ◌++◌, map, Result, ok, err,
  All, Result-cases, append_assoc, append-nil,
}
use canokey_manager.Cli.Effects.{OnlyQuiet, Quiet}
use canokey_manager.Cli.Oath.{Entry, Event, written, Failure, of_account, other_failure, Host}
use canokey_manager.Cli.Oath.Session.{Command}
use canokey_manager.Cli.Oath.Codes.{Row, row_line, write_rows}

-- The lines that were given out, in order.
abbrev pub written_line : Event → List (List ℕ)
written_line (written line) = line ∷ []
written_line _ = []

abbrev pub written_lines : List Event → List (List ℕ)
written_lines [] = []
written_lines (v ∷ h) = written_line v ++ written_lines h

written_lines-append :
    (h h' : List Event) → written_lines (h ++ h') ≡ written_lines h ++ written_lines h'
written_lines-append [] h' = refl
written_lines-append (v ∷ h) h' =
    rw (written_lines-append h h')
      (sym (append_assoc (written_line v) (written_lines h) (written_lines h')))

abbrev pub WritesNothing : Event → Type 0
WritesNothing v = written_line v ≡ []

quiet_lines : (sent : List Event) → All WritesNothing sent → written_lines sent ≡ []
quiet_lines [] q = refl
quiet_lines (v ∷ sent) (q, each) = rw q (quiet_lines sent each)

OnlyQuiet-written :
    (h h' : List Event) → OnlyQuiet WritesNothing h h' → written_lines h' ≡ written_lines h
OnlyQuiet-written h h' (sent, each, e) = rw e (
    written_lines-append h sent
    ∙ ap (λ l. written_lines h ++ l) (quiet_lines sent each)
    ∙ append-nil (written_lines h))

module _ (host : Host) (single : Bool) (longest : ℕ) (calculate : Entry → Command (List ℕ)) where
  unfoldable pub lines_of : List (Row × List ℕ) → List (List ℕ)
  unfolding row_line
  lines_of done = map (λ pair. row_line single longest pair.0 pair.1) done

  -- Rows with their codes, where each code was calculated when `lines` and the lines of the rows
  -- before it had been written, and no more.
  abbrev pub InTurn : List (List ℕ) → List (Row × List ℕ) → Type 0
  InTurn lines [] = Unit
  InTurn lines ((row, code) ∷ done) =
      ((before : List Event) × ((calculate row.1 before).0 ≡ ok code)
        × (written_lines before ≡ lines))
      × InTurn (lines ++ (row_line single longest row code ∷ [])) done

  -- The first row that is left could not be calculated, when those lines had been written; nothing
  -- happens behind its calculation.
  abbrev pub IsUncalculated : List (List ℕ) → List Row → Failure → List Event → Type 0
  IsUncalculated lines [] e h = ⊥
  IsUncalculated lines (row ∷ rest) e h =
      (before : List Event) × (cause : Failure) × ((calculate row.1 before).0 ≡ err cause)
      × (e ≡ of_account row.0 cause)
      × (written_lines before ≡ lines)
      × (h ≡ (calculate row.1 before).1)

  -- The last line could not be written; nothing happens behind the attempt.
  abbrev pub IsUnwritten : Failure → List Event → Type 0
  IsUnwritten e h =
      (before : List Event) × (line : List ℕ) × (code : ℕ) × (host.write_line line before
        ≡ err code)
      × (e ≡ other_failure code)
      × (h ≡ before ++ (written line ∷ []))

  -- How the loop ends.
  abbrev pub Ends : List (List ℕ) → List Row → Result (Unit {0}) Failure → List Event → Type 0
  Ends lines rest (ok _) h = rest ≡ []
  Ends lines rest (err e) h = IsUncalculated lines rest e h ⊎ IsUnwritten e h

  abbrev pub IsWritten : List Row → List Event → Result (Unit {0}) Failure × List Event → Type 0
  IsWritten rows h r =
      (done : List (Row × List ℕ)) × (rest : List Row) × (rows ≡ map (λ pair. pair.0) done ++ rest)
      × InTurn (written_lines h) done
      × (written_lines r.1 ≡ written_lines h ++ lines_of done)
      × Ends (written_lines h ++ lines_of done) rest r.0 r.1

  -- A row that was calculated and written, in front of the others.
  IsWritten-step :
      (row : Row) (rows : List Row) (code : List ℕ) (h h' : List Event)
      (r : Result (Unit {0}) Failure × List Event)
      → (calculate row.1 h).0 ≡ ok code
      → written_lines h' ≡ written_lines h ++ (row_line single longest row code ∷ [])
      → IsWritten rows h' r
      → IsWritten (row ∷ rows) h r
  unfolding lines_of
  IsWritten-step row rows code h h' r c one (done, rest, split, each, lines, left) =
      let line = row_line single longest row code in
      let total : written_lines h' ++ lines_of done ≡ written_lines h ++ (line ∷ lines_of done) =
        ap (λ l. l ++ lines_of done) one
        ∙ append_assoc (written_lines h) (line ∷ []) (lines_of done) in
      (
        (row, code) ∷ done,
        rest,
        ap (λ l. row ∷ l) split,
        ((h, c, refl), subst (λ l. InTurn l done) one each),
        lines ∙ total,
        subst (λ l. Ends l rest r.0 r.1) total left,
      )

  -- Where a calculation writes nothing itself, the lines written are those of the first rows, in the
  -- order of the rows, each with the code that was calculated for it when all lines before it had been
  -- written. All rows are written where the loop succeeds. It fails where the next row cannot be
  -- calculated, whose name the error then has, or where the last of these lines cannot be given out.
  pub write_rows-IsWritten :
      ((entry : Entry) → Quiet WritesNothing (calculate entry))
      → (rows : List Row) (h : List Event)
      → IsWritten rows h (write_rows host single longest calculate rows h)
  unfolding write_rows lines_of
  write_rows-IsWritten quiet [] h = ([], [], refl, tt, sym (append-nil (written_lines h)), refl)
  write_rows-IsWritten quiet (row ∷ rows) h =
      let h1 = (calculate row.1 h).1 in
      let same : written_lines h1 ≡ written_lines h = OnlyQuiet-written h h1 (quiet row.1 h) in
      let none_yet = sym (append-nil (written_lines h)) in
      elim (Result-cases (calculate row.1 h).0) [
        | inr (e, c) ↦
            rw c ([], row ∷ rows, refl, tt, same ∙ none_yet, inl (h, e, c, refl, none_yet, refl))
        | inl (code, c) ↦
            let line = row_line single longest row code in
            let one : written_lines (h1 ++ (written line ∷ [])) ≡ written_lines h ++ (line ∷ []) =
              written_lines-append h1 (written line ∷ []) ∙ ap (λ l. l ++ (line ∷ [])) same in
            elim (Result-cases (host.write_line line h1)) [
              | inr (e, w) ↦ rw c (
                  rw w (
                    ((row, code) ∷ []),
                    rows,
                    refl,
                    ((h, c, refl), tt),
                    one,
                    inr (h1, line, e, w, refl, refl),
                  ))
              | inl (_, w) ↦ rw c (
                  rw w (
                    IsWritten-step row rows code h (h1 ++ (written line ∷ [])) _ c one
                      (write_rows-IsWritten quiet rows (h1 ++ (written line ∷ [])))))
            ]
      ]
