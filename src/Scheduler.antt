-- ===== src/Scheduler.antt =====
-- crates/sage-ir/src/check/infer/runtime.rs: the ready queue and the set of scoped tasks. A future is a
-- parameter `F` with `poll`, which returns the future as it stands then, its output if it is done, and
-- the tasks that it woke. A task is its number; wakers enqueue the task they are made for.
pub mod Queue
pub mod Tasks
pub mod Progress
pub mod Runtime
pub mod Examples
use sage_dev.Prelude.{
  ℕ, zero, suc, ◌+◌, ◌%◌, ◌^◌, Bool, true, false, not, Option, none, some, List, [], ◌∷◌, ◌++◌,
  ◌==◌, length, get_elem?, set, contains, set_insert, keep, is_empty, Outcome, ok, panicked,
  out_of_fuel, ◌>>=◌, expect, if◌then◌else◌,
}

pub record ReadyQueue : Type 0 where
  pub queue : List ℕ
  pub queued : List ℕ

unfoldable pub empty : ReadyQueue
empty = record { queue = []; queued = [] }

-- `insert` of a set says whether the value is new.
unfoldable pub enqueue : ReadyQueue → ℕ → ReadyQueue
enqueue q value =
    if contains q.queued value
    then q
    else record { queue = q.queue ++ value ∷ []; queued = set_insert value q.queued }

unfoldable pub pop : ReadyQueue → Option (ℕ × ReadyQueue)
pop q = elim q.queue [
  | [] ↦ none
  | value ∷ rest ↦
      some (value, record { queue = rest; queued = keep (λ u. not (u == value)) q.queued })
]

unfoldable pub remove : ReadyQueue → ℕ → ReadyQueue
remove q value =
    if contains q.queued value
    then record {
      queue = keep (λ u. not (u == value)) q.queue;
      queued = keep (λ u. not (u == value)) q.queued;
    }
    else q

-- What the wakers that a poll calls do.
unfoldable pub enqueue_all : ReadyQueue → List ℕ → ReadyQueue
enqueue_all q [] = q
enqueue_all q (u ∷ us) = enqueue_all (enqueue q u) us

pub record Poll (F T : Type 0) : Type 0 where
  pub future : F
  pub output : Option T
  pub woken : List ℕ

pub record ScopedTasks (F : Type 0) : Type 0 where
  pub ready : ReadyQueue
  pub tasks : List (Option F)
  pub live : ℕ

-- What `poll_next` returns: a task and its output, nothing left, or no task that is ready.
pub data Next (T : Type 0) : Type 0 where
  completed : ℕ → T → Next T
  finished : Next T
  pending : Next T

-- `live -= 1`, which overflows at 0.
abbrev pub one_less : ℕ → Outcome ℕ
one_less zero = panicked
one_less (suc n) = ok n

module _ {F : Type 0} where
  unfoldable pub new : ScopedTasks F
  new = record { ready = empty; tasks = []; live = 0 }

  unfoldable pub spawn : ScopedTasks F → F → ScopedTasks F × ℕ
  spawn s future =
      let id = length s.tasks % 2 ^ 32 in
      (
        record {
          ready = enqueue s.ready id;
          tasks = s.tasks ++ some future ∷ [];
          live = s.live + 1;
        },
        id,
      )

  unfoldable pub dropped : List (Option F) → List (Option F)
  dropped [] = []
  dropped (task ∷ tasks) = none ∷ dropped tasks

  unfoldable pub cancel_all : ScopedTasks F → ScopedTasks F
  cancel_all s = record { ready = empty; tasks = dropped s.tasks; live = 0 }

  module _ {T : Type 0} (poll : ℕ → F → Poll F T) where
    unfoldable pub poll_next : ℕ → ScopedTasks F → Outcome (ScopedTasks F × Next T)
    poll_next zero s = out_of_fuel
    poll_next (suc f) s = elim (pop s.ready) [
      | none ↦ elim (s.live == 0) [ true ↦ ok (s, finished) | false ↦ ok (s, pending) ]
      | some r ↦ elim (get_elem? s.tasks r.0) [
        | none ↦ panicked
        | some slot ↦ elim slot [
          | none ↦ poll_next f (record s { ready = r.1 })
          | some future ↦
              let p = poll r.0 future in
              elim p.output [
                | none ↦ poll_next f (record s {
                  ready = enqueue_all r.1 p.woken;
                  tasks = set s.tasks r.0 (some p.future);
                })
                | some output ↦ one_less s.live >>= λ live. ok (
                  record {
                    ready = enqueue_all r.1 p.woken;
                    tasks = set s.tasks r.0 none;
                    live = live;
                  },
                  completed r.0 output,
                )
              ]
        ]
      ]
    ]
