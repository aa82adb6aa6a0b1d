-- ===== src/Scheduler/Runtime/Waiting.antt =====
-- `wait_on`, `wake_variable` and `wake_all` of crates/sage-ir/src/check/infer/runtime.rs.
use mathlib.Core.List.{Memᴰ}
use mathlib.Core.List.Memᴰ
use sage_dev.Prelude.{
  ◌↔◌, ◌⊎◌, ◌∙◌, sym, ℕ, ◌≡◌, ◌≢◌, refl, inl, inr, Bool, true, false, ◌||◌, Bool-cases, none, some,
  Option-cases, List, [], ◌∷◌, ◌++◌, ==_self, ==_ne, arith, contains, any, lookup, insert, without,
  lookup-without_ne,
}
use sage_dev.Scheduler.{enqueue_all}
use sage_dev.Scheduler.Queue.{Sound, enqueue_all-Sound}
use sage_dev.Scheduler.Runtime.{
  Waker, Runtime, Signal, enqueued, identity, same_waiter, waiters_of, own_tasks, signals_of,
  signals_of_all, keys, wait_on, deliver, wake_variable, wake_all,
}
use sage_dev.Scheduler.Runtime.Signals.{
  Emits, Foreign, WaitsIn, signals_of-EmitsIn, signals_of_all-WaitsIn, own_tasks_iff, elsewhere_iff,
}

any-append :
    (p : ℕ × Waker → Bool) (xs ys : List (ℕ × Waker)) → any p (xs ++ ys) ≡ (any p xs || any p ys)
any-append p [] ys = refl
any-append p (x ∷ xs) ys = ground (arith, any-append p xs ys)

lookup-without_self {ℓ} : {V : Type ℓ} (k : ℕ) (m : List (ℕ × V)) → lookup k (without k m) ≡ none
lookup-without_self k [] = refl
lookup-without_self k ((j, v) ∷ m) = ground (arith, lookup-without_self k m)

module _ {F : Type 0} (r : Runtime F) (var task : ℕ) (waker : Waker) where
  abbrev added : Runtime F
  added = record r {
    waiting = insert var (waiters_of var r.waiting ++ (task, waker) ∷ []) (without var r.waiting);
  }

  wait_same :
      any (same_waiter task waker) (waiters_of var r.waiting) ≡ true → wait_on r var task waker ≡ r
  unfolding wait_on
  wait_same h = rw h refl

  wait_new :
      any (same_waiter task waker) (waiters_of var r.waiting) ≡ false
      → wait_on r var task waker ≡ added
  unfolding wait_on
  wait_new h = rw h refl

  added_waiter : any (same_waiter task waker) (waiters_of var added.waiting) ≡ true
  added_waiter = ground (
    arith,
    ==_self var,
    ==_self task,
    ==_self (identity waker),
    any-append (same_waiter task waker) (waiters_of var r.waiting) ((task, waker) ∷ []),
  )

-- After `wait_on` the task waits on the variable with that waker, whoever waited before still does, the
-- other variables are as before, and asking again changes nothing.
pub wait_on-waits :
    {F : Type 0} (r : Runtime F) (var task : ℕ) (waker : Waker)
    → (any (same_waiter task waker) (waiters_of var (wait_on r var task waker).waiting) ≡ true)
      × ((p : ℕ × Waker → Bool)
          → any p (waiters_of var r.waiting) ≡ true
          → any p (waiters_of var (wait_on r var task waker).waiting) ≡ true)
      × ((v : ℕ)
          → var ≢ v
          → waiters_of v (wait_on r var task waker).waiting ≡ waiters_of v r.waiting)
      × (wait_on (wait_on r var task waker) var task waker ≡ wait_on r var task waker)
wait_on-waits r var task waker =
    elim (Bool-cases (any (same_waiter task waker) (waiters_of var r.waiting))) [
      | inl there ↦
          let e : wait_on r var task waker ≡ r = wait_same r var task waker there in
          (rw e there, λ p h. rw e h, λ v ne. rw e refl, rw (e, e) refl)
      | inr new ↦
          let e = wait_new r var task waker new in
          let mine = added_waiter r var task waker in
          (
            rw e mine,
            λ p h. rw e (
                ground (
                  arith,
                  ==_self var,
                  any-append p (waiters_of var r.waiting) ((task, waker) ∷ []),
                )),
            λ v ne. rw e (ground (arith, ==_ne var v ne, lookup-without_ne var v r.waiting ne)),
            rw e (wait_same (added r var task waker) var task waker mine),
          )
    ]

-- The signals of `waiters` reach the own queue of `r` and the others.
abbrev pub Delivered :
    {F : Type 0} → Runtime F → (ℕ × Waker → Type 0) → Runtime F × List Signal → Type 0
Delivered r Waiter (r', sent) =
    Sound r'.ready
    × ((task : ℕ)
        → (contains r'.ready.queue task ≡ true) ↔ (
            (contains r.ready.queue task ≡ true)
            ⊎ ((w : ℕ × Waker) × Waiter w × Emits w.1 (enqueued r.ready_queue task))))
    × ((s : Signal)
        → Memᴰ s sent ↔ (((w : ℕ × Waker) × Waiter w × Emits w.1 s) × Foreign r.ready_queue s))

either : (a b : Bool) → ((a || b) ≡ true) ↔ ((a ≡ true) ⊎ (b ≡ true))
either true b = (λ h. inl refl, λ h. refl)
either false b = (λ h. inr h, λ h. elim h [ inl bad ↦ absurd (cc bad) | inr good ↦ good ])

deliver-Delivered :
    {F : Type 0} (r : Runtime F) (sent : List Signal) (Waiter : ℕ × Waker → Type 0)
    → Sound r.ready
    → ((s : Signal) → Memᴰ s sent ↔ ((w : ℕ × Waker) × Waiter w × Emits w.1 s))
    → Delivered r Waiter (deliver r sent)
unfolding deliver
deliver-Delivered r sent Waiter s wake_iff =
    let own : ℕ = r.ready_queue in
    let (sound, has, short) = enqueue_all-Sound r.ready (own_tasks own sent) s in
    (
      sound,
      λ task.
          let (split, join) =
            either (contains r.ready.queue task) (contains (own_tasks own sent) task) in
          let (found, listed) = own_tasks_iff own sent task in
          let (from, to) = wake_iff (enqueued own task) in
          (
            λ h. elim (split (sym (has task) ∙ h)) [
              | inl old ↦ inl old
              | inr new ↦ inr (from (found new))
            ],
            λ h. elim h [
              | inl old ↦ has task ∙ join (inl old)
              | inr new ↦ has task ∙ join (inr (listed (to new)))
            ],
          ),
      λ signal.
          let (out, back) = elsewhere_iff own sent signal in
          let (from, to) = wake_iff signal in
          (
            λ m. let (inside, foreign) = out m in (from inside, foreign),
            λ (wakes, foreign). back (to wakes, foreign),
          ),
    )

module _ {F : Type 0} (r : Runtime F) (var : ℕ) where
  wake_none : lookup var r.waiting ≡ none → wake_variable r var ≡ (r, [])
  unfolding wake_variable
  wake_none h = ground arith

  abbrev silenced : Runtime F
  silenced = record r { waiting = without var r.waiting }

  wake_some :
      (waiters : List (ℕ × Waker))
      → lookup var r.waiting ≡ some waiters
      → wake_variable r var ≡ deliver silenced (signals_of waiters)
  unfolding wake_variable
  wake_some waiters h = ground arith

deliver-waiting :
    {F : Type 0} (r : Runtime F) (sent : List Signal) → (deliver r sent).0.waiting ≡ r.waiting
unfolding deliver
deliver-waiting r sent = refl

-- With a sound ready queue, waking a variable wakes everyone who waits on it and nobody else: the runtime's
-- own queue gains exactly the tasks whose wakers, or coordinators, belong to it; what wakers of other
-- queues or of another kind do is done elsewhere, and nothing else is. The queue stays sound, the
-- variable is forgotten, and the other variables are left alone.
pub wake_variable-wakes :
    {F : Type 0} (r : Runtime F) (var : ℕ)
    → Sound r.ready
    → Delivered r (λ w. Memᴰ w (waiters_of var r.waiting)) (wake_variable r var)
      × (lookup var (wake_variable r var).0.waiting ≡ none)
      × ((v : ℕ) → var ≢ v → lookup v (wake_variable r var).0.waiting ≡ lookup v r.waiting)
wake_variable-wakes r var s = elim (Option-cases (lookup var r.waiting)) [
  | inl nobody ↦
      let e = wake_none r var nobody in
      let empty_list : waiters_of var r.waiting ≡ [] = rw (waiters_of, nobody) refl in
      (
        rw (e, empty_list)
            (
              s,
              λ task. (
                λ h. inl h,
                λ h. elim h [ inl old ↦ old | inr (w, m, wakes) ↦ absurd (Memᴰ.not-nil m) ],
              ),
              λ signal. (
                λ m. absurd (Memᴰ.not-nil m),
                λ ((w, m, wakes), foreign). absurd (Memᴰ.not-nil m),
              ),
            ),
        rw e nobody,
        λ v ne. rw e refl,
      )
  | inr (waiters, found) ↦
      let e = wake_some r var waiters found in
      let same : waiters_of var r.waiting ≡ waiters = rw (waiters_of, found) refl in
      let after : (wake_variable r var).0.waiting ≡ without var r.waiting =
        rw e (deliver-waiting (silenced r var) (signals_of waiters)) in
      (
        rw (e, same)
            (deliver-Delivered (silenced r var) (signals_of waiters) (λ w. Memᴰ w waiters) s
              (λ x. signals_of-EmitsIn waiters x)),
        rw after (lookup-without_self var r.waiting),
        λ v ne. rw after (lookup-without_ne var v r.waiting ne),
      )
]

-- With a sound ready queue, `wake_all` enqueues every task of the runtime and wakes everyone who waits on any
-- variable, in the runtime's own queue or elsewhere; nobody waits afterwards.
pub wake_all-wakes :
    {F : Type 0} (r : Runtime F)
    → Sound r.ready
    → Sound (wake_all r).0.ready
      × ((task : ℕ)
          → contains (keys r.tasks) task ≡ true
          → contains (wake_all r).0.ready.queue task ≡ true)
      × ((w : ℕ × Waker) (task : ℕ)
          → WaitsIn r.waiting w
          → Emits w.1 (enqueued r.ready_queue task)
          → contains (wake_all r).0.ready.queue task ≡ true)
      × ((s : Signal)
          → Memᴰ s (wake_all r).1
            ↔ (((w : ℕ × Waker) × WaitsIn r.waiting w × Emits w.1 s) × Foreign r.ready_queue s))
      × ((wake_all r).0.waiting ≡ [])
unfolding wake_all deliver
wake_all-wakes r s =
    let r1 : Runtime _ = record r { waiting = [] } in
    let sent : List Signal = signals_of_all r.waiting in
    let (sound, gained, out) =
      deliver-Delivered r1 sent (WaitsIn r.waiting) s (λ x. signals_of_all-WaitsIn r.waiting x) in
    let (sound', has, short) =
      enqueue_all-Sound (enqueue_all r.ready (own_tasks r.ready_queue sent)) (keys r.tasks) sound in
    (
      sound',
      λ task h. ground (arith, has task),
      λ w task waits wakes.
          let there = (gained task).1 (inr (w, waits, wakes)) in ground (arith, has task),
      out,
      refl,
    )
