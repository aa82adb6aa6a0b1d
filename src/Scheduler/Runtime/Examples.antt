-- ===== src/Scheduler/Runtime/Examples.antt =====
-- A runtime with two countdown tasks for crates/sage-ir/src/check/infer/runtime.rs.
use mathlib.Core.List.{Memᴰ}
use sage_dev.Prelude.{List, ℕ, zero, suc, ◌≡◌, ◌≢◌, refl, none, some, [], ◌∷◌, arith, lookup}
use sage_dev.Scheduler.{Poll, enqueue, enqueue_all}
use sage_dev.Scheduler.Queue.{Sound}
use sage_dev.Scheduler.Runtime.{
  Waker, task_waker, other, enqueued, called, Runtime, signals, signals_of, own_tasks, elsewhere,
  deliver, wake_variable,
}
use sage_dev.Scheduler.Runtime.Waiting.{Delivered, wake_variable-wakes}
use sage_dev.Scheduler.Runtime.Draining.{Paying, Drained, drain-Drained}

-- A future that wakes itself while it counts down.
abbrev ticking : ℕ → ℕ → Poll ℕ (Unit {0})
ticking id zero = record { future = 0; output = some tt; woken = [] }
ticking id (suc n) = record { future = n; output = none; woken = id ∷ [] }

ticking-Paying : Paying ticking (λ n. n)
ticking-Paying id zero = omega arith
ticking-Paying id (suc n) = omega arith

-- A task of this runtime, a main task with a queue of its own, and a main task that sets a flag.
abbrev waiters : List (ℕ × Waker)
waiters = (1, task_waker 40 1 0) ∷ (7, task_waker 41 7 5) ∷ (8, other 42) ∷ []

abbrev runtime : Runtime ℕ
runtime = record {
  next_id = 2;
  ready_queue = 0;
  ready = record { queue = 0 ∷ []; queued = 0 ∷ [] };
  tasks = (1, 2) ∷ (0, 3) ∷ [];
  waiting = (9, waiters) ∷ [];
}

runtime-Sound : Sound runtime.ready
runtime-Sound = record { once = (refl, tt); agree = λ u. refl }

wake_variable-wakes_example :
    Delivered runtime (λ w. Memᴰ w waiters) (wake_variable runtime 9)
    × (lookup 9 (wake_variable runtime 9).0.waiting ≡ none)
    × ((v : ℕ) → 9 ≢ v → lookup v (wake_variable runtime 9).0.waiting ≡ lookup v runtime.waiting)
wake_variable-wakes_example = wake_variable-wakes runtime 9 runtime-Sound

-- The wakers of the two main tasks do not reach the queue of the runtime.
woken_elsewhere :
    ((wake_variable runtime 9).0.ready.queue ≡ 0 ∷ 1 ∷ [])
    × ((wake_variable runtime 9).1 ≡ enqueued 5 7 ∷ called 42 ∷ [])
unfolding wake_variable deliver signals_of signals own_tasks elsewhere enqueue_all enqueue
woken_elsewhere = (refl, refl)

drain-Drained_example : Drained ticking (λ n. n) 7 runtime
drain-Drained_example =
    drain-Drained ticking (λ n. n) 7 runtime runtime-Sound ticking-Paying (omega arith)
