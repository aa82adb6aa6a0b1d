-- ===== src/Scheduler/Examples.antt =====
-- Countdown futures for `ScopedTasks` of crates/sage-ir/src/check/infer/runtime.rs.
use sage_dev.Prelude.{ℕ, zero, suc, refl, none, some, [], ◌∷◌, arith}
use sage_dev.Scheduler.{ReadyQueue, Poll, ScopedTasks}
use sage_dev.Scheduler.Queue.{Sound}
use sage_dev.Scheduler.Tasks.{Wf}
use sage_dev.Scheduler.Progress.{Lawful, Progressed, poll_next-Progressed}

abbrev two_ready : ReadyQueue
two_ready = record { queue = 0 ∷ 1 ∷ []; queued = 0 ∷ 1 ∷ [] }

two_ready-Sound : Sound two_ready
two_ready-Sound = record { once = (refl, (refl, tt)); agree = λ u. refl }

-- A future that wakes itself while it counts down.
abbrev countdown : ℕ → ℕ → Poll ℕ ℕ
countdown id zero = record { future = 0; output = some 7; woken = [] }
countdown id (suc n) = record { future = n; output = none; woken = id ∷ [] }

countdown-Lawful : Lawful countdown (λ n. n) 2
countdown-Lawful i zero lt = (λ u h. absurd (cc h), λ h. cc)
countdown-Lawful i (suc n) lt = (λ u h. ground arith, λ h. omega arith)

abbrev two_tasks : ScopedTasks ℕ
two_tasks = record { ready = two_ready; tasks = some 3 ∷ some 1 ∷ []; live = 2 }

two_tasks-Wf : Wf two_tasks
two_tasks-Wf = record { sound = two_ready-Sound; known = λ u h. ground arith; counted = refl }

poll_next-Progressed_example : Progressed countdown (λ n. n) 7 two_tasks
poll_next-Progressed_example =
    poll_next-Progressed countdown (λ n. n) 7 two_tasks two_tasks-Wf countdown-Lawful (omega arith)
