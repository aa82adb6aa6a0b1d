-- ===== src/Solver/Subst/Examples.antt =====
-- Two existential variables and a rigid one, for crates/sage-ir/src/check/solve/result.rs.
use sage_dev.Prelude.{ℕ, ◌≡◌, refl, [], ◌∷◌, ◌++◌, List}
use sage_dev.Version.Domain.{any}
use sage_dev.Solver.Subst.{
  type, existential_input, rigid_placeholder, CanonicalVarInfo, SubstEntry, accepted, rejected,
  rigid_key, find_var, check_key, validate, insert_placed, sort_placed, substitution,
}
use sage_dev.Solver.Subst.Validation.{value_of, Ordered, substitution-Ordered}
use sage_dev.Solver.Subst.Faults.{keys_of, Fault, substitution-Fault}

abbrev variables : List CanonicalVarInfo
variables =
    record { param = 5; kind = type; role = existential_input; relative_universe = 0; domain = any }
    ∷ record {
      param = 6;
      kind = type;
      role = rigid_placeholder;
      relative_universe = 0;
      domain = any;
    }
    ∷ record {
      param = 7;
      kind = type;
      role = existential_input;
      relative_universe = 1;
      domain = any;
    }
    ∷ []

abbrev entry : ℕ → ℕ → SubstEntry
entry key value = record { key = key; value = value }

sorts :
    substitution variables (entry 7 70 ∷ entry 5 50 ∷ []) ≡ accepted (entry 5 50 ∷ entry 7 70 ∷ [])
unfolding substitution validate check_key find_var sort_placed insert_placed
sorts = refl

refuses : substitution variables (entry 7 70 ∷ entry 6 60 ∷ []) ≡ rejected (rigid_key 6)
unfolding substitution validate check_key find_var
refuses = refl

substitution-Ordered_example :
    Ordered variables 0 (entry 5 50 ∷ entry 7 70 ∷ [])
    × ((key : ℕ)
        → value_of key (entry 5 50 ∷ entry 7 70 ∷ []) ≡ value_of key (entry 7 70 ∷ entry 5 50 ∷ []))
substitution-Ordered_example =
    substitution-Ordered variables (entry 7 70 ∷ entry 5 50 ∷ []) (entry 5 50 ∷ entry 7 70 ∷ [])
      sorts

substitution-Fault_example :
    (before : List SubstEntry) × (e : SubstEntry) × (rest : List SubstEntry) × (sorted : List
      SubstEntry)
    × (entry 7 70 ∷ entry 6 60 ∷ [] ≡ before ++ (e ∷ rest))
    × (substitution variables before ≡ accepted sorted)
    × Fault variables (keys_of before) e.key (rigid_key 6)
substitution-Fault_example =
    substitution-Fault variables (entry 7 70 ∷ entry 6 60 ∷ []) (rigid_key 6) refuses
