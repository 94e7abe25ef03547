-- ===== src/Driver/Exchanges.antt =====
-- The runs of `execute` of crates/ckman-core/src/lib.rs.
use canokey_manager.Prelude.{
  ℕ, zero, suc, ◌<◌, ◌≡◌, ◌≢◌, refl, sym, subst, ◌⊎◌, inl, inr, List, [], ◌∷◌, ◌++◌, Result, ok,
  err, Result-cases, arith,
}
use canokey_manager.Driver.{
  exchange_step, finished, Operation, DriveFailure, transport, protocol, out_of_fuel, Log, Exchange,
  protocol_result, next_round, exchange_loop, execute,
}

module _ {S T : Type 0} (operation : Operation S T) (exchange : Exchange) where
  -- From a state to a later one, by commands that the operation gives and answers that it is given.
  pub data Reaches : S → Log → S → Log → Type 0 where
    here : {s : S} {log : Log} → Reaches s log s log
    round :
        {s s' s'' : S} {log log' : Log} (c response : List ℕ)
        → operation.command s ≡ ok c
        → exchange log c ≡ ok response
        → operation.advance s response ≡ ok (exchange_step, s')
        → Reaches s' (log ++ (c ∷ [])) s'' log'
        → Reaches s log s'' log'

  -- The operation itself fails: it gives no command, or it does not accept an answer or gives no
  -- result behind one.
  abbrev pub IsFailure : ℕ → S → Log → Log → Type 0
  IsFailure e last before log' =
      ((operation.command last ≡ err e) × (log' ≡ before))
      ⊎ ((c response : List ℕ) × (operation.command last ≡ ok c)
          × (exchange before c ≡ ok response)
          × (log' ≡ before ++ (c ∷ []))
          × ((operation.advance last response ≡ err e)
              ⊎ ((end : S) × (operation.advance last response ≡ ok (finished, end))
                  × (operation.take_result end ≡ err e))))

  -- How a run of the loop ends.
  abbrev pub IsEnd : S → Log → Result T DriveFailure → Log → Type 0
  IsEnd s log (ok result) log' =
      (last : S) × (before : Log) × (c response : List ℕ) × (end : S) × Reaches s log last before
      × (operation.command last ≡ ok c)
      × (exchange before c ≡ ok response)
      × (operation.advance last response ≡ ok (finished, end))
      × (operation.take_result end ≡ ok result)
      × (log' ≡ before ++ (c ∷ []))
  IsEnd s log (err (transport e)) log' =
      (last : S) × (before : Log) × (c : List ℕ) × Reaches s log last before
      × (operation.command last ≡ ok c)
      × (exchange before c ≡ err e)
      × (log' ≡ before ++ (c ∷ []))
  IsEnd s log (err (protocol e)) log' =
      (last : S) × (before : Log) × Reaches s log last before × IsFailure e last before log'
  IsEnd s log (err out_of_fuel) log' = Unit

  IsEnd-round :
      (s s' : S) (log log' : Log) (c response : List ℕ) (r : Result T DriveFailure)
      → operation.command s ≡ ok c
      → exchange log c ≡ ok response
      → operation.advance s response ≡ ok (exchange_step, s')
      → IsEnd s' (log ++ (c ∷ [])) r log'
      → IsEnd s log r log'
  IsEnd-round s s' log log' c response (ok t) a b d (last, before, x, y, end, run, p, q, m, n, o) =
      (last, before, x, y, end, round c response a b d run, p, q, m, n, o)
  IsEnd-round s s' log log' c response (err (transport e)) a b d (last, before, x, run, p, q, o) =
      (last, before, x, round c response a b d run, p, q, o)
  IsEnd-round s s' log log' c response (err (protocol e)) a b d (last, before, run, rest) =
      (last, before, round c response a b d run, rest)
  IsEnd-round s s' log log' c response (err out_of_fuel) a b d end = tt

  exchange_loop-IsEnd :
      (fuel : ℕ) (s : S) (log : Log)
      → let r = exchange_loop operation exchange fuel s log in IsEnd s log r.0 r.1
  unfolding exchange_loop
  exchange_loop-IsEnd zero s log = tt
  exchange_loop-IsEnd (suc fuel) s log = elim (Result-cases (operation.command s)) [
    | inr (x, a) ↦ rw a (s, log, here, inl (a, refl))
    | inl (c, a) ↦ elim (Result-cases (exchange log c)) [
      | inr (x, b) ↦ rw a (rw b (s, log, c, here, a, b, refl))
      | inl (response, b) ↦ elim (Result-cases (operation.advance s response)) [
        | inr (x, d) ↦ rw a (rw b (rw d (s, log, here, inr (c, response, a, b, refl, inl d))))
        | inl ((exchange_step, s'), d) ↦
            let r = exchange_loop operation exchange fuel s' (log ++ (c ∷ [])) in
            rw a (
              rw b (
                rw d (
                  IsEnd-round s s' log r.1 c response r.0 a b d
                    (exchange_loop-IsEnd fuel s' (log ++ (c ∷ []))))))
        | inl ((finished, s'), d) ↦ elim (Result-cases (operation.take_result s')) [
          | inr (x, t) ↦
              rw a
                (rw b (rw d (rw t (s, log, here, inr (c, response, a, b, refl, inr (s', d, t))))))
          | inl (result, t) ↦
              rw a (rw b (rw d (rw t (s, log, c, response, s', here, a, b, d, t, refl))))
        ]
      ]
    ]
  ]

  -- The operation comes nearer to its end with every answer that it accepts.
  abbrev pub Approaches : (S → ℕ) → Type 0
  Approaches rank =
      (s s' : S) (response : List ℕ)
      → operation.advance s response ≡ ok (exchange_step, s')
      → rank s' < rank s

  protocol_result-ends : (r : Result T ℕ) → protocol_result r ≢ err out_of_fuel
  protocol_result-ends (ok t) e = cc
  protocol_result-ends (err x) e = cc

  exchange_loop-ends :
      (rank : S → ℕ) (fuel : ℕ) (s : S) (log : Log)
      → Approaches rank
      → rank s < fuel
      → (exchange_loop operation exchange fuel s log).0 ≢ err out_of_fuel
  unfolding exchange_loop
  exchange_loop-ends rank zero s log nearer enough = absurd (omega arith)
  exchange_loop-ends rank (suc fuel) s log nearer enough =
      elim (Result-cases (operation.command s)) [
        | inr (x, a) ↦ rw a (λ e. cc)
        | inl (c, a) ↦ elim (Result-cases (exchange log c)) [
          | inr (x, b) ↦ rw a (rw b (λ e. cc))
          | inl (response, b) ↦ elim (Result-cases (operation.advance s response)) [
            | inr (x, d) ↦ rw a (rw b (rw d (λ e. cc)))
            | inl ((exchange_step, s'), d) ↦
                let closer : rank s' < rank s = nearer s s' response d in
                rw a (
                  rw b
                    (rw d (exchange_loop-ends rank fuel s' (log ++ (c ∷ [])) nearer (omega arith))))
            | inl ((finished, s'), d) ↦
                rw a (rw b (rw d (protocol_result-ends (operation.take_result s'))))
          ]
        ]
      ]

  -- An operation that comes nearer to its end with every answer that it accepts is driven to an end,
  -- given fuel for its distance. A result is the operation's own, behind the last answer; each
  -- command that it gave was exchanged once, in order, with the answer fed back; and behind a failure
  -- of the transport nothing more is sent. Any other failure is the operation's own, at a command, at an
  -- answer or at its result.
  pub execute-IsEnd :
      (rank : S → ℕ) (fuel : ℕ) (s : S) (log : Log)
      → Approaches rank
      → operation.start ≡ ok (exchange_step, s)
      → rank s < fuel
      → let r = execute operation exchange fuel log in (r.0 ≢ err out_of_fuel) × IsEnd s log r.0 r.1
  unfolding execute
  execute-IsEnd rank fuel s log nearer started enough =
      subst
        (λ o.
          let r = next_round operation exchange (exchange_loop operation exchange fuel) o log in
          (r.0 ≢ err out_of_fuel) × IsEnd s log r.0 r.1)
        (sym started)
        (exchange_loop-ends rank fuel s log nearer enough, exchange_loop-IsEnd fuel s log)
