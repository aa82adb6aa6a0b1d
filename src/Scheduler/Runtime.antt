-- ===== src/Scheduler/Runtime.antt =====
-- `Runtime` of crates/sage-ir/src/check/infer/runtime.rs: the waiting lists of variables and the loop
-- `drain`. Queues are shared by their `Arc`, whose identity is a number; `will_wake` compares the
-- identities of wakers. What a waker does to anything but the runtime's own queue is reported as a list
-- of signals.
pub mod Signals
pub mod Waiting
pub mod Draining
pub mod Examples
use sage_dev.Prelude.{
  ℕ, zero, suc, ◌+◌, ◌^◌, Bool, true, false, not, ◌&&◌, Option, none, some, List, [], ◌∷◌, ◌++◌,
  ◌==◌, ltb, any, keep, is_empty, lookup, insert, without, Outcome, ok, panicked, out_of_fuel,
  ◌>>=◌, ◌>>◌, assert, if◌then◌else◌,
}
use sage_dev.Scheduler.{ReadyQueue, Poll, empty, enqueue, enqueue_all, pop}

-- A waker: a `TaskWake` with the queue and the task that it enqueues and, for a scoped task, the waker of
-- its coordinator; or one of another kind.
pub data Waker : Type 0 where
  task_waker : (identity task queue : ℕ) → Waker
  scoped_task_waker : (identity task queue : ℕ) → Waker → Waker
  other : (identity : ℕ) → Waker

abbrev pub identity : Waker → ℕ
identity (task_waker id task queue) = id
identity (scoped_task_waker id task queue coordinator) = id
identity (other id) = id

-- What a wake does: a task is enqueued in a queue, or a waker of another kind is called.
pub data Signal : Type 0 where
  enqueued : (queue task : ℕ) → Signal
  called : (identity : ℕ) → Signal

-- `TaskWake::wake`, the coordinator last.
unfoldable pub signals : Waker → List Signal
signals (task_waker id task queue) = enqueued queue task ∷ []
signals (scoped_task_waker id task queue coordinator) = enqueued queue task ∷ signals coordinator
signals (other id) = called id ∷ []

-- The tasks that go to the queue `own`, and the signals that go elsewhere.
unfoldable pub own_tasks : ℕ → List Signal → List ℕ
own_tasks own [] = []
own_tasks own (enqueued queue task ∷ rest) =
    let tasks = own_tasks own rest in if queue == own then task ∷ tasks else tasks
own_tasks own (called id ∷ rest) = own_tasks own rest

unfoldable pub elsewhere : ℕ → List Signal → List Signal
elsewhere own [] = []
elsewhere own (enqueued queue task ∷ rest) =
    let sent = elsewhere own rest in if queue == own then sent else enqueued queue task ∷ sent
elsewhere own (called id ∷ rest) = called id ∷ elsewhere own rest

-- `ready_queue` is the identity of the runtime's own queue.
pub record Runtime (F : Type 0) : Type 0 where
  pub next_id : ℕ
  pub ready_queue : ℕ
  pub ready : ReadyQueue
  pub tasks : List (ℕ × F)
  pub waiting : List (ℕ × List (ℕ × Waker))

-- `*existing == task_id && registered.will_wake(waker)`.
abbrev pub same_waiter : ℕ → Waker → ℕ × Waker → Bool
same_waiter task waker (existing, registered) =
    existing == task && identity registered == identity waker

-- The waiters of a variable.
abbrev pub waiters_of : ℕ → List (ℕ × List (ℕ × Waker)) → List (ℕ × Waker)
waiters_of var waiting = elim (lookup var waiting) [ none ↦ [] | some waiters ↦ waiters ]

-- `for (_, waker) in waiters { waker.wake() }`.
unfoldable pub signals_of : List (ℕ × Waker) → List Signal
signals_of [] = []
signals_of ((task, waker) ∷ rest) = signals waker ++ signals_of rest

abbrev pub keys {ℓ} : {V : Type ℓ} → List (ℕ × V) → List ℕ
keys [] = []
keys ((k, v) ∷ m) = k ∷ keys m

-- `get_mut`: the first binding of a key is replaced.
abbrev pub update {ℓ} : {V : Type ℓ} → ℕ → V → List (ℕ × V) → List (ℕ × V)
update k v [] = []
update k v ((j, w) ∷ m) = if j == k then (j, v) ∷ m else (j, w) ∷ update k v m

-- `waiters.retain(|(task, _)| *task != id)` in every list.
unfoldable pub retain_waiters : ℕ → List (ℕ × List (ℕ × Waker)) → List (ℕ × List (ℕ × Waker))
retain_waiters id [] = []
retain_waiters id ((var, waiters) ∷ rest) =
    (var, keep (λ (w : ℕ × Waker). not (w.0 == id)) waiters) ∷ retain_waiters id rest

-- All wakers of a drained map.
unfoldable pub signals_of_all : List (ℕ × List (ℕ × Waker)) → List Signal
signals_of_all [] = []
signals_of_all ((var, waiters) ∷ rest) = signals_of waiters ++ signals_of_all rest

unfoldable pub waited_on : ℕ → List (ℕ × List (ℕ × Waker)) → List ℕ
waited_on task [] = []
waited_on task ((var, waiters) ∷ rest) =
    let found = waited_on task rest in
    if any (λ (w : ℕ × Waker). w.0 == task) waiters then var ∷ found else found

module _ {F : Type 0} where
  unfoldable pub new : ℕ → Runtime F
  new ready_queue = record {
    next_id = 0;
    ready_queue = ready_queue;
    ready = empty;
    tasks = [];
    waiting = [];
  }

  -- `next_id += 1` on a `u32`.
  unfoldable pub alloc_task_id : Runtime F → Outcome (Runtime F × ℕ)
  alloc_task_id r = do
    assert (ltb (r.next_id + 1) (2 ^ 32))
    ok (record r { next_id = r.next_id + 1 }, r.next_id)

  unfoldable pub spawn : Runtime F → F → Outcome (Runtime F)
  spawn r future = do
    allocated ← alloc_task_id r
    let r1 = allocated.0
    let id = allocated.1
    assert (elim (lookup id r1.tasks) [ none ↦ true | some old ↦ false ])
    ok (record r1 { tasks = insert id future r1.tasks; ready = enqueue r1.ready id })

  unfoldable pub wait_on : Runtime F → ℕ → ℕ → Waker → Runtime F
  wait_on r var task waker =
      let waiters = waiters_of var r.waiting in
      if any (same_waiter task waker) waiters
      then r
      else record r { waiting = insert var (waiters ++ (task, waker) ∷ []) (without var r.waiting) }

  -- The runtime after the wakes, and what they did elsewhere.
  unfoldable pub deliver : Runtime F → List Signal → Runtime F × List Signal
  deliver r sent = (
    record r { ready = enqueue_all r.ready (own_tasks r.ready_queue sent) },
    elsewhere r.ready_queue sent,
  )

  unfoldable pub wake_variable : Runtime F → ℕ → Runtime F × List Signal
  wake_variable r var = elim (lookup var r.waiting) [
    | none ↦ (r, [])
    | some waiters ↦ deliver (record r { waiting = without var r.waiting }) (signals_of waiters)
  ]

  unfoldable pub variables_waited_on_by : Runtime F → ℕ → List ℕ
  variables_waited_on_by r task = waited_on task r.waiting

  unfoldable pub wake_all : Runtime F → Runtime F × List Signal
  wake_all r =
      let woken = deliver (record r { waiting = [] }) (signals_of_all r.waiting) in
      (record woken.0 { ready = enqueue_all woken.0.ready (keys woken.0.tasks) }, woken.1)

  unfoldable pub is_quiescent : Runtime F → Bool
  is_quiescent r = is_empty r.tasks && is_empty r.ready.queue

  module _ (poll : ℕ → F → Poll F (Unit {0})) where
    unfoldable pub drain : ℕ → Runtime F → Outcome (Runtime F)
    drain zero r = out_of_fuel
    drain (suc f) r = elim (pop r.ready) [
      | none ↦ ok r
      | some popped ↦ elim (lookup popped.0 r.tasks) [
        | none ↦ drain f (record r { ready = popped.1 })
        | some future ↦
            let p = poll popped.0 future in
            elim p.output [
              | none ↦ drain f (record r {
                ready = enqueue_all popped.1 p.woken;
                tasks = update popped.0 p.future r.tasks;
              })
              | some done ↦ drain f (record r {
                ready = enqueue_all popped.1 p.woken;
                tasks = without popped.0 r.tasks;
                waiting = retain_waiters popped.0 r.waiting;
              })
            ]
      ]
    ]
