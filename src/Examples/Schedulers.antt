-- ===== src/Examples/Schedulers.antt =====
-- A scheduler with events that post smaller ones.
use cbgp.Base.{ℕ, zero, suc, ◌+◌, ◌≤◌, ◌≡◌, refl, false, some, List, [], ◌∷◌, arith, length}
use cbgp.Scheduler.{Scheduler, Reaction, Ending, success, run_loop, run}
use cbgp.Scheduler.Order.{InOrder, run-InOrder}
use cbgp.Scheduler.Limits.{Stops, run-ends}

abbrev smaller : ℕ → List ℕ
smaller zero = []
smaller (suc n) = n ∷ []

abbrev count_down : ℕ → ℕ → Reaction ℕ ℕ
count_down e w = record { world = w + e; posts = smaller e; cancels = false; code = 0 }

abbrev initial : Scheduler ℕ ℕ
initial = record {
  world = 0;
  events = 2 ∷ 1 ∷ [];
  cancelled = false;
  cur_time = 0;
  max_time = 0;
  processed = [];
  posted = 2 ∷ 1 ∷ [];
}

abbrev finish : Scheduler ℕ ℕ
finish = record {
  world = 4;
  events = 0 ∷ [];
  cancelled = false;
  cur_time = 4;
  max_time = 0;
  processed = 2 ∷ 1 ∷ 1 ∷ 0 ∷ [];
  posted = 2 ∷ 1 ∷ 1 ∷ 0 ∷ 0 ∷ [];
}

four_steps : run count_down 4 4 initial ≡ some (finish, success)
unfolding run run_loop
four_steps = refl

run-InOrder_example : InOrder finish
run-InOrder_example = run-InOrder count_down 4 4 initial finish success refl four_steps

run-ends_example :
    (t : Scheduler ℕ ℕ) × (x : Ending) × (n : ℕ) × (run count_down 4 4 initial ≡ some (t, x))
    × (length t.processed ≡ length initial.processed + n)
    × (n ≤ 4)
    × Stops 4 n t x
run-ends_example = run-ends count_down 4 4 initial (omega arith) (omega arith)
