-- ===== src/Driver/Runs.antt =====
-- Driving an operation of two exchanges.
use canokey_manager.Prelude.{ℕ, zero, suc, ◌≡◌, ◌≢◌, refl, List, [], ◌∷◌, Result, ok, err, arith}
use canokey_manager.Driver.{
  Step, exchange_step, finished, Operation, out_of_fuel, Log, Exchange, execute,
}
use canokey_manager.Driver.Exchanges.{Approaches, IsEnd, execute-IsEnd}

-- The state counts the exchanges that are left, after this one.
abbrev advance_state : ℕ → List ℕ → Result (Step × ℕ) ℕ
advance_state zero response = ok (finished, zero)
advance_state (suc left) response = ok (exchange_step, left)

abbrev two_exchanges : Operation ℕ (List ℕ)
two_exchanges = record {
  start = ok (exchange_step, 1);
  command = λ left. ok (left ∷ []);
  advance = advance_state;
  take_result = λ left. ok (7 ∷ []);
}

abbrev echo : Exchange
echo log c = ok c

abbrev left_over : ℕ → ℕ
left_over left = left

nearer : Approaches two_exchanges echo left_over
nearer zero s' response e = absurd (cc)
nearer (suc left) s' response e = let same_state : left ≡ s' = cc in omega arith

abbrev start_log : Log
start_log = []

execute-IsEnd_example :
    let r = execute two_exchanges echo 2 start_log in
    (r.0 ≢ err out_of_fuel) × IsEnd two_exchanges echo 1 start_log r.0 r.1
execute-IsEnd_example =
    execute-IsEnd two_exchanges echo left_over 2 1 start_log nearer refl (omega arith)
