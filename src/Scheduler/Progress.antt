-- ===== src/Scheduler/Progress.antt =====
-- The loop of `poll_next` of crates/sage-ir/src/check/infer/runtime.rs.
use sage_dev.Prelude.{
  ℕ, zero, suc, ◌+◌, ◌≤◌, ◌<◌, ◌≡◌, ◌≢◌, ◌∙◌, ap, sym, subst, refl, inl, inr, true, false,
  Bool-cases, Option, none, some, Option-cases, List, [], ◌∷◌, ◌==◌, ==_self, ==_iff, ne-of-==,
  arith, length, length-set, get_elem?, get_elem?-some, get_elem?-set, set, contains, ok,
}
use sage_dev.Scheduler.{
  ReadyQueue, Poll, ScopedTasks, Next, completed, finished, pending, pop, enqueue_all, one_less,
  poll_next,
}
use sage_dev.Scheduler.Queue.{Sound, Popped, pop-Popped, enqueue_all-Sound}
use sage_dev.Scheduler.Tasks.{Wf, count_live-set-none, count_live-set-some}

module _ {F T : Type 0} (poll : ℕ → F → Poll F T) (cost : F → ℕ) where
  -- Polling wakes known tasks alone, and a pending future wakes no more than its cost goes down.
  abbrev pub Lawful : ℕ → Type 0
  Lawful n =
      (i : ℕ) (f : F)
      → i < n
      → ((u : ℕ) → contains (poll i f).woken u ≡ true → u < n)
        × ((poll i f).output ≡ none → length (poll i f).woken + cost (poll i f).future ≤ cost f)

  abbrev pub total : List (Option F) → ℕ
  total [] = 0
  total (none ∷ ts) = total ts
  total (some f ∷ ts) = cost f + total ts

  total-set-some :
      (ts : List (Option F)) (i : ℕ) (f g : F)
      → get_elem? ts i ≡ some (some f)
      → total (set ts i (some g)) + cost f ≡ total ts + cost g
  total-set-some [] i f g h = cc
  total-set-some (t ∷ ts) zero f g h = let e : t ≡ some f = cc in rw e (omega arith)
  total-set-some (none ∷ ts) (suc i) f g h = total-set-some ts i f g h
  total-set-some (some k ∷ ts) (suc i) f g h = omega (arith, total-set-some ts i f g h)

  -- What `poll_next` did: a task that has just given its output is gone and no longer counted; all
  -- tasks are done exactly when it says so; and it reports waiting only with an empty queue.
  abbrev pub Polled : ScopedTasks F → ScopedTasks F → Next T → Type 0
  Polled s s' (completed id output) =
      (s'.live + 1 ≡ s.live)
      × (get_elem? s'.tasks id ≡ some none)
      × ((f : F) × ((poll id f).output ≡ some output))
  Polled s s' finished = (s'.live ≡ s.live) × (s'.live ≡ 0) × (s'.ready.queue ≡ [])
  Polled s s' pending = (s'.live ≡ s.live) × (s'.live ≢ 0) × (s'.ready.queue ≡ [])

  abbrev pub Progressed : ℕ → ScopedTasks F → Type 0
  Progressed f s =
      (s' : ScopedTasks F) × (r : Next T) × (poll_next poll f s ≡ ok (s', r))
      × Wf s'
      × (length s'.tasks ≡ length s.tasks)
      × Polled s s' r

  Polled-live :
      (s t s' : ScopedTasks F) (r : Next T) → t.live ≡ s.live → Polled t s' r → Polled s s' r
  Polled-live s t s' (completed id output) e h = (h.0 ∙ e, h.1, h.2)
  Polled-live s t s' finished e h = (h.0 ∙ e, h.1, h.2)
  Polled-live s t s' pending e h = (h.0 ∙ e, h.1, h.2)

  Progressed-later :
      (f : ℕ) (s t : ScopedTasks F)
      → poll_next poll (suc f) s ≡ poll_next poll f t
      → t.live ≡ s.live
      → length t.tasks ≡ length s.tasks
      → Progressed f t
      → Progressed (suc f) s
  Progressed-later f s t e live len (s', r, run, w, n, polled) =
      (s', r, e ∙ run, w, n ∙ len, Polled-live s t s' r live polled)

  module _ (s : ScopedTasks F) (w : Wf s) (id : ℕ) (q : ReadyQueue)
      (taken : s.ready.queue ≡ id ∷ q.queue) (sound : Sound q) where
    -- The state after the pop.
    popped_known : (u : ℕ) → contains q.queue u ≡ true → u < length s.tasks
    popped_known u h = w.known u (rw taken (ground arith))

    popped-Wf : Wf (record s { ready = q })
    popped-Wf = record { sound = sound; known = popped_known; counted = w.counted }

    module _ (f : F) (at : get_elem? s.tasks id ≡ some (some f)) (lawful : Lawful (length s.tasks))
        (here : id < length s.tasks) where
      polled_known :
          (slot : Option F) (u : ℕ)
          → contains (enqueue_all q (poll id f).woken).queue u ≡ true
          → u < length (set s.tasks id slot)
      polled_known slot u h =
          let (sound', has, short) = enqueue_all-Sound q (poll id f).woken sound in
          let law = (lawful id f here).0 u in
          ground (arith, has u, popped_known u, length-set s.tasks id slot)

      abbrev waiting : ScopedTasks F
      waiting = record s {
        ready = enqueue_all q (poll id f).woken;
        tasks = set s.tasks id (some (poll id f).future);
      }

      waiting-Wf : Wf waiting
      waiting-Wf = record {
        sound = (enqueue_all-Sound q (poll id f).woken sound).0;
        known = polled_known (some (poll id f).future);
        counted = w.counted ∙ sym (count_live-set-some s.tasks id f (poll id f).future at);
      }

      abbrev done : ℕ → ScopedTasks F
      done live = record {
        ready = enqueue_all q (poll id f).woken;
        tasks = set s.tasks id none;
        live = live;
      }

      done-Wf : (live : ℕ) → s.live ≡ suc live → Wf (done live)
      done-Wf live e = record {
        sound = (enqueue_all-Sound q (poll id f).woken sound).0;
        known = polled_known none;
        counted = omega (arith, w.counted, count_live-set-none s.tasks id f at);
      }

  one_less-suc : (n : ℕ) → n ≢ 0 → (m : ℕ) × (n ≡ suc m) × (one_less n ≡ ok m)
  one_less-suc zero h = absurd (h refl)
  one_less-suc (suc n) h = (n, refl, refl)

  -- One round of the loop on each branch.
  module _ (f : ℕ) (s : ScopedTasks F) where
    round_finished :
        pop s.ready ≡ none → (s.live == 0) ≡ true → poll_next poll (suc f) s ≡ ok (s, finished)
    unfolding poll_next
    round_finished e z = ground arith

    round_pending :
        pop s.ready ≡ none → (s.live == 0) ≡ false → poll_next poll (suc f) s ≡ ok (s, pending)
    unfolding poll_next
    round_pending e z = ground arith

    module _ (id : ℕ) (q : ReadyQueue) (e : pop s.ready ≡ some (id, q)) where
      round_gone :
          get_elem? s.tasks id ≡ some none
          → poll_next poll (suc f) s ≡ poll_next poll f (record s { ready = q })
      unfolding poll_next
      round_gone at = ground arith

      round_waiting :
          (k : F)
          → get_elem? s.tasks id ≡ some (some k)
          → (poll id k).output ≡ none
          → poll_next poll (suc f) s
            ≡ poll_next poll f (record s {
              ready = enqueue_all q (poll id k).woken;
              tasks = set s.tasks id (some (poll id k).future);
            })
      unfolding poll_next
      round_waiting k at out = ground arith

      round_done :
          (k : F) (o : T) (m : ℕ)
          → get_elem? s.tasks id ≡ some (some k)
          → (poll id k).output ≡ some o
          → one_less s.live ≡ ok m
          → poll_next poll (suc f) s
            ≡ ok (
              record {
                ready = enqueue_all q (poll id k).woken;
                tasks = set s.tasks id none;
                live = m;
              },
              completed id o,
            )
      unfolding poll_next
      round_done k o m at out less = ground arith

  pop-Popped_eq : (q : ReadyQueue) (o : Option (ℕ × ReadyQueue)) → Sound q → pop q ≡ o → Popped q o
  pop-Popped_eq q o s e = subst (Popped q) e (pop-Popped q s)

  -- For well-behaved futures, and with more fuel than tasks wait and futures may still wake, `poll_next`
  -- returns from every well-formed set of tasks, keeps it well formed, and does what `Polled` says: it
  -- gives the output of a task that is then gone and no longer counted, or says that all are done
  -- exactly if none is live, or waits with an empty queue.
  pub poll_next-Progressed :
      (f : ℕ) (s : ScopedTasks F)
      → Wf s
      → Lawful (length s.tasks)
      → length s.ready.queue + total s.tasks < f
      → Progressed f s
  poll_next-Progressed zero s w lawful h = elim h [ ]
  poll_next-Progressed (suc f) s w lawful h = elim (Option-cases (pop s.ready)) [
    | inl e ↦
        let empty_queue : s.ready.queue ≡ [] = pop-Popped_eq s.ready none w.sound e in
        elim (Bool-cases (s.live == 0)) [
          | inl z ↦ (
            s,
            finished,
            round_finished f s e z,
            w,
            refl,
            (refl, (==_iff s.live 0).0 z, empty_queue),
          )
          | inr z ↦
              (s, pending, round_pending f s e z, w, refl, (refl, ne-of-== s.live 0 z, empty_queue))
        ]
    | inr ((id, q), e) ↦
        let (taken, sound) = pop-Popped_eq s.ready (some (id, q)) w.sound e in
        let shorter : length s.ready.queue ≡ suc (length q.queue) = ap length taken in
        let known : id < length s.tasks = w.known id (rw taken (ground (arith, ==_self id))) in
        let (slot, at) = get_elem?-some s.tasks id known in
        elim (Option-cases slot) [
          | inl gone ↦
              let at' : get_elem? s.tasks id ≡ some none = at ∙ ap some gone in
              let t : ScopedTasks F = record s { ready = q } in
              Progressed-later f s t (round_gone f s id q e at') refl refl
                (poll_next-Progressed f t (popped-Wf s w id q taken sound) lawful (omega arith))
          | inr (k, there) ↦
              let at' : get_elem? s.tasks id ≡ some (some k) = at ∙ ap some there in
              elim (Option-cases (poll id k).output) [
                | inl out ↦
                    let t : ScopedTasks F = waiting s w id q taken sound k at' lawful known in
                    let same : length t.tasks ≡ length s.tasks =
                      length-set s.tasks id (some (poll id k).future) in
                    let (sound', has, short) = enqueue_all-Sound q (poll id k).woken sound in
                    let spent = (lawful id k known).1 out in
                    let sums = total-set-some s.tasks id k (poll id k).future at' in
                    Progressed-later f s t (round_waiting f s id q e k at' out) refl same (
                      poll_next-Progressed f t (waiting-Wf s w id q taken sound k at' lawful known)
                        (subst Lawful (sym same) lawful) (omega arith))
                | inr (o, out) ↦
                    let one_gone = count_live-set-none s.tasks id k at' in
                    let (m, e', less) =
                      one_less-suc s.live (λ z. absurd (omega (arith, w.counted))) in
                    (
                      done s w id q taken sound k at' lawful known m,
                      completed id o,
                      round_done f s id q e k o m at' out less,
                      done-Wf s w id q taken sound k at' lawful known m e',
                      length-set s.tasks id none,
                      (
                        omega arith,
                        ground (arith, get_elem?-set s.tasks id none id known, ==_self id),
                        (k, out),
                      ),
                    )
              ]
        ]
  ]
