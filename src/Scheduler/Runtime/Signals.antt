-- ===== src/Scheduler/Runtime/Signals.antt =====
-- What wakers of crates/sage-ir/src/check/infer/runtime.rs do, and to which queue.
use mathlib.Core.List.{Memᴰ}
use mathlib.Core.List.Memᴰ
use sage_dev.Prelude.{
  ℕ, ◌≡◌, ◌≢◌, ◌↔◌, sym, ap, subst, refl, inl, inr, true, Bool-cases, List, [], ◌∷◌, ◌==◌, ==_self,
  ==_iff, ne-of-==, arith, contains,
}
use sage_dev.Scheduler.Runtime.{
  Waker, task_waker, scoped_task_waker, other, Signal, enqueued, called, signals, own_tasks,
  elsewhere, signals_of, signals_of_all,
}

-- A waker does this when it is woken, by itself or through its coordinator.
pub data Emits : Waker → Signal → Type 0 where
  direct : {id task queue : ℕ} → Emits (task_waker id task queue) (enqueued queue task)
  scoped :
      {id task queue : ℕ} {coordinator : Waker}
      → Emits (scoped_task_waker id task queue coordinator) (enqueued queue task)
  coordinated :
      {id task queue : ℕ} {coordinator : Waker} {s : Signal}
      → Emits coordinator s
      → Emits (scoped_task_waker id task queue coordinator) s
  calls : {id : ℕ} → Emits (other id) (called id)

-- A signal to anything but the queue `own`.
abbrev pub Foreign : ℕ → Signal → Type 0
Foreign own (enqueued queue task) = queue ≢ own
Foreign own (called id) = Unit {0}

-- A waiter in the list does this.
abbrev pub EmitsIn : List (ℕ × Waker) → Signal → Type 0
EmitsIn waiters s = (w : ℕ × Waker) × Memᴰ w waiters × Emits w.1 s

signals_complete : {w : Waker} {s : Signal} → Emits w s → Memᴰ s (signals w)
unfolding signals
signals_complete direct = Memᴰ.head refl
signals_complete scoped = Memᴰ.head refl
signals_complete (coordinated rest) = Memᴰ.tail (signals_complete rest)
signals_complete calls = Memᴰ.head refl

signals_sound : (w : Waker) (s : Signal) → Memᴰ s (signals w) → Emits w s
unfolding signals
signals_sound (task_waker id task queue) s m =
    subst (λ x. Emits (task_waker id task queue) x) (sym (Memᴰ.eq_of_singleton m)) direct
signals_sound (scoped_task_waker id task queue coordinator) s m = elim (Memᴰ.cases_cons m) [
  | inl e ↦ subst (λ x. Emits (scoped_task_waker id task queue coordinator) x) (sym e) scoped
  | inr rest ↦ coordinated (signals_sound coordinator s rest)
]
signals_sound (other id) s m = subst (λ x. Emits (other id) x) (sym (Memᴰ.eq_of_singleton m)) calls

-- The signals of a list of waiters.
pub signals_of-EmitsIn :
    (ws : List (ℕ × Waker)) (s : Signal) → Memᴰ s (signals_of ws) ↔ EmitsIn ws s
unfolding signals_of
signals_of-EmitsIn [] s = (λ m. absurd (Memᴰ.not-nil m), λ (w, m, wakes). absurd (Memᴰ.not-nil m))
signals_of-EmitsIn ((task, waker) ∷ ws) s =
    let (sound, complete) = signals_of-EmitsIn ws s in
    (
      λ m. elim (Memᴰ.append_cases (signals waker) m) [
        | inl mine ↦ ((task, waker), Memᴰ.head refl, signals_sound waker s mine)
        | inr rest ↦ let (w, inside, wakes) = sound rest in (w, Memᴰ.tail inside, wakes)
      ],
      λ (w, inside, wakes). elim (Memᴰ.cases_cons inside) [
        | inl e ↦
            let mine : Emits waker s = subst (λ (x : ℕ × Waker). Emits x.1 s) e wakes in
            Memᴰ.append_left (signals_of ws) (signals_complete mine)
        | inr rest ↦ Memᴰ.append_right (signals waker) (complete (w, rest, wakes))
      ],
    )

-- A waiter of some variable.
abbrev pub WaitsIn : List (ℕ × List (ℕ × Waker)) → ℕ × Waker → Type 0
WaitsIn waiting w = (entry : ℕ × List (ℕ × Waker)) × Memᴰ entry waiting × Memᴰ w entry.1

pub signals_of_all-WaitsIn :
    (waiting : List (ℕ × List (ℕ × Waker))) (s : Signal)
    → Memᴰ s (signals_of_all waiting) ↔ ((w : ℕ × Waker) × WaitsIn waiting w × Emits w.1 s)
unfolding signals_of_all
signals_of_all-WaitsIn [] s =
    (λ m. absurd (Memᴰ.not-nil m), λ (w, (entry, m, inside), wakes). absurd (Memᴰ.not-nil m))
signals_of_all-WaitsIn ((var, ws) ∷ rest) s =
    let (sound, complete) = signals_of_all-WaitsIn rest s in
    let (sound_here, complete_here) = signals_of-EmitsIn ws s in
    (
      λ m. elim (Memᴰ.append_cases (signals_of ws) m) [
        | inl mine ↦
            let (w, inside, wakes) = sound_here mine in
            (w, ((var, ws), Memᴰ.head refl, inside), wakes)
        | inr later ↦
            let (w, (entry, found, inside), wakes) = sound later in
            (w, (entry, Memᴰ.tail found, inside), wakes)
      ],
      λ (w, (entry, found, inside), wakes). elim (Memᴰ.cases_cons found) [
        | inl e ↦
            let here : Memᴰ w ws = subst (λ (x : ℕ × List (ℕ × Waker)). Memᴰ w x.1) e inside in
            Memᴰ.append_left (signals_of_all rest) (complete_here (w, here, wakes))
        | inr later ↦
            Memᴰ.append_right (signals_of ws) (complete (w, (entry, later, inside), wakes))
      ],
    )

queue_of : ℕ → Signal → ℕ
queue_of default (enqueued queue task) = queue
queue_of default (called id) = default

task_of : ℕ → Signal → ℕ
task_of default (enqueued queue task) = task
task_of default (called id) = default

-- The tasks for the own queue.
pub own_tasks_iff :
    (own : ℕ) (sent : List Signal) (task : ℕ)
    → (contains (own_tasks own sent) task ≡ true) ↔ Memᴰ (enqueued own task) sent
unfolding own_tasks
own_tasks_iff own [] task = (λ h. absurd (cc h), λ m. absurd (Memᴰ.not-nil m))
own_tasks_iff own (called id ∷ sent) task =
    let (sound, complete) = own_tasks_iff own sent task in
    (
      λ h. Memᴰ.tail (sound h),
      λ m. elim (Memᴰ.cases_cons m) [ inl e ↦ absurd (cc e) | inr rest ↦ complete rest ],
    )
own_tasks_iff own (enqueued queue t ∷ sent) task =
    let (sound, complete) = own_tasks_iff own sent task in
    elim (Bool-cases (queue == own)) [
      | inl same ↦
          let e : queue ≡ own = (==_iff queue own).0 same in
          (
            λ h. elim (Bool-cases (t == task)) [
              | inl first ↦
                  let e' : t ≡ task = (==_iff t task).0 first in
                  Memᴰ.head (λ i. enqueued (sym e i) (sym e' i))
              | inr later ↦ Memᴰ.tail (sound (ground arith))
            ],
            λ m. elim (Memᴰ.cases_cons m) [
              | inl e' ↦
                  let at : t ≡ task = sym (unfold task_of in ap (task_of 0) e') in
                  ground (arith, ==_self task)
              | inr rest ↦ let found = complete rest in ground arith
            ],
          )
      | inr differ ↦ (
        λ h. Memᴰ.tail (sound (ground arith)),
        λ m. elim (Memᴰ.cases_cons m) [
          | inl e' ↦
              let at : own ≡ queue = unfold queue_of in ap (queue_of 0) e' in
              absurd (ground (arith, ==_self own))
          | inr rest ↦ let found = complete rest in ground arith
        ],
      )
    ]

-- The signals for anything else.
pub elsewhere_iff :
    (own : ℕ) (sent : List Signal) (s : Signal)
    → Memᴰ s (elsewhere own sent) ↔ (Memᴰ s sent × Foreign own s)
unfolding elsewhere
elsewhere_iff own [] s = (λ m. absurd (Memᴰ.not-nil m), λ (m, foreign). m)
elsewhere_iff own (called id ∷ sent) s =
    let (sound, complete) = elsewhere_iff own sent s in
    (
      λ m. elim (Memᴰ.cases_cons m) [
        | inl e ↦ (Memᴰ.head e, subst (λ x. Foreign own x) (sym e) tt)
        | inr rest ↦ let (found, foreign) = sound rest in (Memᴰ.tail found, foreign)
      ],
      λ (m, foreign). elim (Memᴰ.cases_cons m) [
        | inl e ↦ Memᴰ.head e
        | inr rest ↦ Memᴰ.tail (complete (rest, foreign))
      ],
    )
elsewhere_iff own (enqueued queue t ∷ sent) s =
    let (sound, complete) = elsewhere_iff own sent s in
    elim (Bool-cases (queue == own)) [
      | inl same ↦ rw same (
        λ m. let (found, foreign) = sound m in (Memᴰ.tail found, foreign),
        λ (m, foreign). elim (Memᴰ.cases_cons m) [
          | inl e ↦ absurd (subst (λ x. Foreign own x) e foreign ((==_iff queue own).0 same))
          | inr rest ↦ complete (rest, foreign)
        ],
      )
      | inr differ ↦ rw differ (
        λ m. elim (Memᴰ.cases_cons m) [
          | inl e ↦ (Memᴰ.head e, subst (λ x. Foreign own x) (sym e) (ne-of-== queue own differ))
          | inr rest ↦ let (found, foreign) = sound rest in (Memᴰ.tail found, foreign)
        ],
        λ (m, foreign). elim (Memᴰ.cases_cons m) [
          | inl e ↦ Memᴰ.head e
          | inr rest ↦ Memᴰ.tail (complete (rest, foreign))
        ],
      )
    ]
