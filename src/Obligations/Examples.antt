-- ===== src/Obligations/Examples.antt =====
-- Two obligations of crates/sage-ir/src/check/infer/obligations.rs, one stalled on variable 3.
use sage_dev.Prelude.{ℕ, ◌≡◌, ◌↔◌, refl, true, not, none, List, [], ◌∷◌, contains, is_empty}
use sage_dev.Obligations.{
  Obligation, ObligationState, ready, stalled, terminal, prove, same_state, has_pending,
  ready_indices, pending_indices, wake,
}
use sage_dev.Obligations.Waking.{passes, indices_iff, Roused, wake-ready_indices}

abbrev request : ObligationState → List ℕ → Obligation
request state stalled_on = record {
  goal = prove 0;
  assumptions = 0;
  assumptions_complete = true;
  local_crate = 0;
  canonical_goal = 5;
  mapping = 6;
  provenance = [];
  recoveries = [];
  state = state;
  stalled_on = stalled_on;
  last_attempted_revision = none;
}

abbrev requests : List Obligation
requests = request terminal [] ∷ request stalled (2 ∷ 3 ∷ []) ∷ []

indices_iff_example :
    ((k : ℕ)
      → (contains (ready_indices requests) k ≡ passes (λ o. same_state o.state ready) requests k)
        × (contains (pending_indices requests) k
            ≡ passes (λ o. not (same_state o.state terminal)) requests k))
    × (has_pending requests ≡ not (is_empty (pending_indices requests)))
indices_iff_example = indices_iff requests

wake-ready_indices_example :
    ((contains (ready_indices (wake requests (3 ∷ []))) 1 ≡ true)
      ↔ Roused (3 ∷ []) (request stalled (2 ∷ 3 ∷ [])))
    × (contains (pending_indices (wake requests (3 ∷ []))) 1
        ≡ contains (pending_indices requests) 1)
wake-ready_indices_example =
    wake-ready_indices requests (3 ∷ []) 1 (request stalled (2 ∷ 3 ∷ [])) refl
