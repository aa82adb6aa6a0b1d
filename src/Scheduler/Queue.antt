-- ===== src/Scheduler/Queue.antt =====
-- `ReadyQueue` of crates/sage-ir/src/check/infer/runtime.rs: its invariant and its operations.
use sage_dev.Prelude.{
  ℕ, ◌+◌, ◌≤◌, ◌≡◌, ◌∙◌, ap, sym, refl, inl, inr, Bool, true, false, not, ◌||◌, Bool-cases, Option,
  none, some, List, [], ◌∷◌, ◌++◌, ◌==◌, arith, length, length-append, contains, keep,
}
use sage_dev.Version.Tree.Reads.{contains-append, contains-keep_ne}
use sage_dev.Scheduler.{ReadyQueue, empty, enqueue, pop, remove, enqueue_all}

abbrev pub Distinct : List ℕ → Type 0
Distinct [] = Unit {0}
Distinct (x ∷ xs) = (contains xs x ≡ false) × Distinct xs

-- The queue has no value twice, and the set has what the queue has.
pub record Sound (q : ReadyQueue) : Type 0 where
  pub once : Distinct q.queue
  pub agree : (u : ℕ) → contains q.queued u ≡ contains q.queue u

pub empty-Sound : Sound empty
unfolding empty
empty-Sound = record { once = tt; agree = λ u. refl }

Distinct-snoc :
    (xs : List ℕ) (v : ℕ) → Distinct xs → contains xs v ≡ false → Distinct (xs ++ v ∷ [])
Distinct-snoc [] v d out = (refl, tt)
Distinct-snoc (x ∷ xs) v d out =
    (ground (arith, d.0, contains-append xs (v ∷ []) x), Distinct-snoc xs v d.1 (ground arith))

Distinct-keep : (xs : List ℕ) (v : ℕ) → Distinct xs → Distinct (keep (λ u. not (u == v)) xs)
Distinct-keep [] v d = tt
Distinct-keep (x ∷ xs) v d = elim (Bool-cases (x == v)) [
  | inl same ↦ rw same (Distinct-keep xs v d.1)
  | inr differ ↦ rw differ (ground (arith, d.0, contains-keep_ne xs v x), Distinct-keep xs v d.1)
]

enqueue-length : (q : ReadyQueue) (v : ℕ) → length (enqueue q v).queue ≤ length q.queue + 1
unfolding enqueue
enqueue-length q v = ground (arith, length-append q.queue (v ∷ []))

-- Enqueueing keeps a sound queue sound, adds the value, and does nothing for a value that waits
-- already.
pub enqueue-Sound :
    (q : ReadyQueue) (v : ℕ)
    → Sound q
    → Sound (enqueue q v)
      × ((u : ℕ) → contains (enqueue q v).queue u ≡ (contains q.queue u || v == u))
      × (contains q.queue v ≡ true → enqueue q v ≡ q)
unfolding enqueue
enqueue-Sound q v s = elim (Bool-cases (contains q.queued v)) [
  | inl there ↦ (rw there s, λ u. ground (arith, s.agree u, s.agree v), λ h. rw there refl)
  | inr new ↦ (
    rw new (record {
      once = Distinct-snoc q.queue v s.once (sym (s.agree v) ∙ new);
      agree = λ u. ground (
        arith,
        s.agree u,
        contains-append q.queue (v ∷ []) u,
        contains-append q.queued (v ∷ []) u,
      );
    }),
    λ u. ground (arith, contains-append q.queue (v ∷ []) u),
    λ h. absurd (cc (s.agree v)),
  )
]

-- What `pop` may return.
abbrev pub Popped : ReadyQueue → Option (ℕ × ReadyQueue) → Type 0
Popped q none = q.queue ≡ []
Popped q (some r) = (q.queue ≡ r.0 ∷ r.1.queue) × Sound r.1

pop_parts :
    (xs qs : List ℕ)
    → Sound (record { queue = xs; queued = qs })
    → Popped (record { queue = xs; queued = qs }) (pop (record { queue = xs; queued = qs }))
unfolding pop
pop_parts [] qs s = refl
pop_parts (v ∷ rest) qs s = (
  refl,
  record {
    once = s.once.1;
    agree = λ u. let same = s.agree u in ground (arith, s.once.0, contains-keep_ne qs v u);
  },
)

-- `pop` takes the first of a sound queue and leaves the rest, sound again; it returns nothing only
-- from an empty queue.
pub pop-Popped : (q : ReadyQueue) → Sound q → Popped q (pop q)
pop-Popped q s = pop_parts q.queue q.queued s

keep_out : (xs : List ℕ) (v : ℕ) → contains xs v ≡ false → keep (λ u. not (u == v)) xs ≡ xs
keep_out [] v h = refl
keep_out (x ∷ xs) v h =
    let (differ, out) = or_false (x == v) (contains xs v) h in
    rw differ (ap (◌∷◌ x) (keep_out xs v out))
  where
    or_false : (a b : Bool) → (a || b) ≡ false → (a ≡ false) × (b ≡ false)
    or_false false b e = (refl, e)
    or_false true b e = cc

-- `remove` takes a value out of a sound queue wherever it waits, keeps the queue sound, and leaves
-- the order of the others.
pub remove-Sound :
    (q : ReadyQueue) (v : ℕ)
    → Sound q
    → Sound (remove q v) × ((remove q v).queue ≡ keep (λ u. not (u == v)) q.queue)
unfolding remove
remove-Sound q v s = elim (Bool-cases (contains q.queued v)) [
  | inl there ↦ (
    rw there (record {
      once = Distinct-keep q.queue v s.once;
      agree = λ u.
          ground (arith, s.agree u, contains-keep_ne q.queue v u, contains-keep_ne q.queued v u);
    }),
    rw there refl,
  )
  | inr absent ↦ (rw absent s, rw absent (sym (keep_out q.queue v (sym (s.agree v) ∙ absent))))
]

pub enqueue_all-Sound :
    (q : ReadyQueue) (us : List ℕ)
    → Sound q
    → Sound (enqueue_all q us)
      × ((u : ℕ) → contains (enqueue_all q us).queue u ≡ (contains q.queue u || contains us u))
      × (length (enqueue_all q us).queue ≤ length q.queue + length us)
unfolding enqueue_all
enqueue_all-Sound q [] s = (s, λ u. ground arith, omega arith)
enqueue_all-Sound q (v ∷ us) s =
    let (s', has, same) = enqueue-Sound q v s in
    let (s'', has', short) = enqueue_all-Sound (enqueue q v) us s' in
    (s'', λ u. ground (arith, has u, has' u), let one = enqueue-length q v in omega arith)
