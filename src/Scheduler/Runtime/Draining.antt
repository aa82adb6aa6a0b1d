-- ===== src/Scheduler/Runtime/Draining.antt =====
-- The loop `drain` of crates/sage-ir/src/check/infer/runtime.rs.
use sage_dev.Prelude.{
  ℕ, zero, suc, ◌+◌, ◌≤◌, ◌<◌, ◌≡◌, ◌≢◌, ◌∙◌, ap, sym, subst, ◌⊎◌, inl, inr, not, ◌&&◌, Bool-cases,
  none, some, Option-cases, List, [], ◌∷◌, ◌==◌, ne-of-==, arith, length, any, keep, lookup,
  without, lookup-without_ne, ok, if◌then◌else◌,
}
use sage_dev.Scheduler.{ReadyQueue, Poll, pop, enqueue_all}
use sage_dev.Scheduler.Queue.{Sound, Popped, pop-Popped, enqueue_all-Sound}
use sage_dev.Scheduler.Runtime.{Waker, Runtime, update, retain_waiters, waited_on, drain}

keep-no_task :
    (id task : ℕ) (ws : List (ℕ × Waker))
    → any (λ (w : ℕ × Waker). w.0 == task) (keep (λ (w : ℕ × Waker). not (w.0 == id)) ws)
      ≡ (not (task == id) && any (λ (w : ℕ × Waker). w.0 == task) ws)
keep-no_task id task [] = ground arith
keep-no_task id task ((t, w) ∷ ws) = ground (arith, keep-no_task id task ws)

-- A retained list has no waiter `id`, and the others as before.
waited_on-retain :
    (id task : ℕ) (m : List (ℕ × List (ℕ × Waker)))
    → waited_on task (retain_waiters id m) ≡ (if task == id then [] else waited_on task m)
unfolding retain_waiters waited_on
waited_on-retain id task [] = ground arith
waited_on-retain id task ((v, ws) ∷ m) =
    ground (arith, waited_on-retain id task m, keep-no_task id task ws)

lookup-update-none {ℓ} :
    {V : Type ℓ} (k j : ℕ) (v : V) (m : List (ℕ × V))
    → lookup j (update k v m) ≡ none
    → lookup j m ≡ none
lookup-update-none k j v [] h = h
lookup-update-none k j v ((i, w) ∷ m) h = ground (arith, lookup-update-none k j v m)

module _ {F : Type 0} (poll : ℕ → F → Poll F (Unit {0})) (cost : F → ℕ) where
  -- A poll wakes no more than the cost of its future goes down, to nothing when it is done.
  abbrev pub Paying : Type 0
  Paying =
      (i : ℕ) (f : F)
      → length (poll i f).woken
          + elim (poll i f).output [ none ↦ cost (poll i f).future | some done ↦ 0 ]
        ≤ cost f

  abbrev pub total : List (ℕ × F) → ℕ
  total [] = 0
  total ((i, f) ∷ m) = cost f + total m

  total-update :
      (k : ℕ) (f g : F) (m : List (ℕ × F))
      → lookup k m ≡ some f
      → total (update k g m) + cost f ≡ total m + cost g
  total-update k f g [] h = cc
  total-update k f g ((i, x) ∷ m) h = elim (Bool-cases (i == k)) [
    | inl same ↦ let e : x ≡ f = ground arith in rw (same, e) (omega arith)
    | inr differ ↦ let ih = total-update k f g m (ground arith) in rw differ (omega arith)
  ]

  total-without-le : (k : ℕ) (m : List (ℕ × F)) → total (without k m) ≤ total m
  total-without-le k [] = omega arith
  total-without-le k ((i, x) ∷ m) = ground (arith, total-without-le k m)

  total-without :
      (k : ℕ) (f : F) (m : List (ℕ × F))
      → lookup k m ≡ some f
      → total (without k m) + cost f ≤ total m
  total-without k f [] h = cc
  total-without k f ((i, x) ∷ m) h = elim (Bool-cases (i == k)) [
    | inl same ↦
        let e : x ≡ f = ground arith in let le = total-without-le k m in rw (same, e) (omega arith)
    | inr differ ↦ let ih = total-without k f m (ground arith) in rw differ (omega arith)
  ]

  -- From `r` on: nobody starts to wait, and a task that finishes waits on nothing.
  pub record Quieter (r r' : Runtime F) : Type 0 where
    pub idle : (id : ℕ) → waited_on id r.waiting ≡ [] → waited_on id r'.waiting ≡ []
    pub finished :
        (id : ℕ)
        → lookup id r.tasks ≢ none
        → lookup id r'.tasks ≡ none
        → waited_on id r'.waiting ≡ []

  abbrev pub Drained : ℕ → Runtime F → Type 0
  Drained f r =
      (r' : Runtime F) × (drain poll f r ≡ ok r')
      × Sound r'.ready
      × (r'.ready.queue ≡ [])
      × Quieter r r'

  -- One round that goes on in the state `t`.
  Drained-later :
      (f : ℕ) (r t : Runtime F)
      → drain poll (suc f) r ≡ drain poll f t
      → ((id : ℕ) → waited_on id r.waiting ≡ [] → waited_on id t.waiting ≡ [])
      → ((id : ℕ)
          → lookup id t.tasks ≡ none
          → (lookup id r.tasks ≡ none) ⊎ (waited_on id t.waiting ≡ []))
      → Drained f t
      → Drained (suc f) r
  Drained-later f r t e idle gone (r', run, sound, empty_queue, quiet) = (
    r',
    e ∙ run,
    sound,
    empty_queue,
    record {
      idle = λ id h. quiet.idle id (idle id h);
      finished = λ id was now. elim (Option-cases (lookup id t.tasks)) [
        | inl missing ↦ elim (gone id missing) [
          | inl never ↦ absurd (was never)
          | inr quiet_now ↦ quiet.idle id quiet_now
        ]
        | inr (f', there) ↦ quiet.finished id (λ h. cc) now
      ];
    },
  )

  module _ (f : ℕ) (r : Runtime F) where
    round_over : pop r.ready ≡ none → drain poll (suc f) r ≡ ok r
    unfolding drain
    round_over e = ground arith

    module _ (id : ℕ) (q : ReadyQueue) (e : pop r.ready ≡ some (id, q)) where
      round_unknown :
          lookup id r.tasks ≡ none → drain poll (suc f) r ≡ drain poll f (record r { ready = q })
      unfolding drain
      round_unknown at = ground arith

      abbrev waiting_on : F → Runtime F
      waiting_on k = record r {
        ready = enqueue_all q (poll id k).woken;
        tasks = update id (poll id k).future r.tasks;
      }

      abbrev without_task : F → Runtime F
      without_task k = record r {
        ready = enqueue_all q (poll id k).woken;
        tasks = without id r.tasks;
        waiting = retain_waiters id r.waiting;
      }

      round_waiting :
          (k : F)
          → lookup id r.tasks ≡ some k
          → (poll id k).output ≡ none
          → drain poll (suc f) r ≡ drain poll f (waiting_on k)
      unfolding drain
      round_waiting k at out = ground arith

      round_done :
          (k : F) (o : Unit {0})
          → lookup id r.tasks ≡ some k
          → (poll id k).output ≡ some o
          → drain poll (suc f) r ≡ drain poll f (without_task k)
      unfolding drain
      round_done k o at out = ground arith

  -- For futures whose wakes are paid for, and with more fuel than tasks wait and futures may still wake,
  -- `drain` returns from every sound queue: the queue is empty then, no task starts to wait, and a task
  -- that has finished waits on no variable.
  pub drain-Drained :
      (f : ℕ) (r : Runtime F)
      → Sound r.ready
      → Paying
      → length r.ready.queue + total r.tasks < f
      → Drained f r
  drain-Drained zero r s pays h = elim h [ ]
  drain-Drained (suc f) r s pays h = elim (Option-cases (pop r.ready)) [
    | inl e ↦ (
      r,
      round_over f r e,
      s,
      subst (Popped r.ready) e (pop-Popped r.ready s),
      record { idle = λ id x. x; finished = λ id was now. absurd (was now) },
    )
    | inr ((id, q), e) ↦
        let (taken, sound) = subst (Popped r.ready) e (pop-Popped r.ready s) in
        let shorter : length r.ready.queue ≡ suc (length q.queue) = ap length taken in
        elim (Option-cases (lookup id r.tasks)) [
          | inl unknown ↦
              Drained-later f r (record r { ready = q }) (round_unknown f r id q e unknown)
                (λ i x. x) (λ i x. inl x)
                (drain-Drained f (record r { ready = q }) sound pays (omega arith))
          | inr (k, at) ↦
              let (sound', has, short) = enqueue_all-Sound q (poll id k).woken sound in
              let paid = pays id k in
              elim (Option-cases (poll id k).output) [
                | inl out ↦
                    let cost_now : length (poll id k).woken + cost (poll id k).future ≤ cost k =
                      rw out at paid in
                    let sums = total-update id k (poll id k).future r.tasks at in
                    Drained-later f r (waiting_on f r id q e k) (round_waiting f r id q e k at out)
                      (λ i x. x) (λ i x. inl (lookup-update-none id i (poll id k).future r.tasks x))
                      (drain-Drained f (waiting_on f r id q e k) sound' pays (omega arith))
                | inr (o, out) ↦
                    let cost_now : length (poll id k).woken + 0 ≤ cost k = rw out at paid in
                    let sums = total-without id k r.tasks at in
                    Drained-later f r (without_task f r id q e k) (round_done f r id q e k o at out)
                      (λ i x. ground (arith, waited_on-retain id i r.waiting))
                      (λ i x. elim (Bool-cases (i == id)) [
                        | inl same ↦ inr (ground (arith, waited_on-retain id i r.waiting))
                        | inr differ ↦ inl (
                            sym (lookup-without_ne id i r.tasks (λ y. ne-of-== i id differ (sym y)))
                            ∙ x)
                      ])
                      (drain-Drained f (without_task f r id q e k) sound' pays (omega arith))
              ]
        ]
  ]
