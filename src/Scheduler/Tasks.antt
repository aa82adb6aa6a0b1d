-- ===== src/Scheduler/Tasks.antt =====
-- The invariant of `ScopedTasks` of crates/sage-ir/src/check/infer/runtime.rs, and the operations that do
-- not poll.
use sage_dev.Prelude.{
  ℕ, zero, suc, ◌+◌, ◌%◌, ◌^◌, ◌<◌, ◌≡◌, ◌∙◌, ap, sym, refl, true, Option, none, some, List, [],
  ◌∷◌, ◌++◌, ==_self, arith, length, length-append, get_elem?, set, contains,
}
use sage_dev.Scheduler.{ScopedTasks, empty, enqueue, new, spawn, dropped, cancel_all}
use sage_dev.Scheduler.Queue.{Sound, empty-Sound, enqueue-Sound}

module _ {F : Type 0} where
  abbrev pub count_live : List (Option F) → ℕ
  count_live [] = 0
  count_live (none ∷ tasks) = count_live tasks
  count_live (some f ∷ tasks) = suc (count_live tasks)

  -- A sound queue of known tasks, and a count of the ones that are not done.
  pub record Wf (s : ScopedTasks F) : Type 0 where
    pub sound : Sound s.ready
    pub known : (u : ℕ) → contains s.ready.queue u ≡ true → u < length s.tasks
    pub counted : s.live ≡ count_live s.tasks

  pub new-Wf : Wf (new {F = F})
  unfolding new empty
  new-Wf = record { sound = empty-Sound; known = λ u h. absurd (cc h); counted = refl }

  count_live-append :
      (ts : List (Option F)) (f : F) → count_live (ts ++ some f ∷ []) ≡ count_live ts + 1
  count_live-append [] f = refl
  count_live-append (none ∷ ts) f = count_live-append ts f
  count_live-append (some g ∷ ts) f = omega (arith, count_live-append ts f)

  count_live-dropped : (ts : List (Option F)) → count_live (dropped ts) ≡ 0
  unfolding dropped
  count_live-dropped [] = refl
  count_live-dropped (t ∷ ts) = count_live-dropped ts

  -- While task numbers last, `spawn` gives the next number to the future, which is queued, and
  -- keeps a well-formed set of tasks well formed.
  pub spawn-Wf :
      (s : ScopedTasks F) (f : F)
      → Wf s
      → length s.tasks < 2 ^ 32
      → Wf (spawn s f).0
        × ((spawn s f).1 ≡ length s.tasks)
        × ((spawn s f).0.tasks ≡ s.tasks ++ some f ∷ [])
        × (contains (spawn s f).0.ready.queue (length s.tasks) ≡ true)
  unfolding spawn
  spawn-Wf s f w room =
      let id : length s.tasks % 2 ^ 32 ≡ length s.tasks = omega arith in
      let (sound, has, again) = enqueue-Sound s.ready (length s.tasks) w.sound in
      (
        record {
          sound = rw id sound;
          known = λ u h.
              let h' : contains (enqueue s.ready (length s.tasks)).queue u ≡ true = rw id at h in
              ground (arith, has u, w.known u, length-append s.tasks (some f ∷ []));
          counted = omega (arith, w.counted, count_live-append s.tasks f);
        },
        id,
        refl,
        rw id (has (length s.tasks) ∙ ground (arith, ==_self (length s.tasks))),
      )

  -- `cancel_all` leaves a well-formed set of tasks in which no future is live.
  pub cancel_all-Wf :
      (s : ScopedTasks F)
      → Wf (cancel_all s) × ((cancel_all s).live ≡ 0) × (count_live (cancel_all s).tasks ≡ 0)
  unfolding cancel_all empty
  cancel_all-Wf s = (
    record {
      sound = empty-Sound;
      known = λ u h. absurd (cc h);
      counted = sym (count_live-dropped s.tasks);
    },
    refl,
    count_live-dropped s.tasks,
  )

  pub count_live-set-none :
      (ts : List (Option F)) (i : ℕ) (f : F)
      → get_elem? ts i ≡ some (some f)
      → count_live (set ts i none) + 1 ≡ count_live ts
  count_live-set-none [] i f h = cc
  count_live-set-none (t ∷ ts) zero f h = let e : t ≡ some f = cc in rw e (omega arith)
  count_live-set-none (none ∷ ts) (suc i) f h = count_live-set-none ts i f h
  count_live-set-none (some g ∷ ts) (suc i) f h = omega (arith, count_live-set-none ts i f h)

  pub count_live-set-some :
      (ts : List (Option F)) (i : ℕ) (f g : F)
      → get_elem? ts i ≡ some (some f)
      → count_live (set ts i (some g)) ≡ count_live ts
  count_live-set-some [] i f g h = cc
  count_live-set-some (t ∷ ts) zero f g h = let e : t ≡ some f = cc in rw e refl
  count_live-set-some (none ∷ ts) (suc i) f g h = count_live-set-some ts i f g h
  count_live-set-some (some k ∷ ts) (suc i) f g h = ap suc (count_live-set-some ts i f g h)
