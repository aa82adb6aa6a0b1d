-- ===== src/Obligations.antt =====
-- crates/sage-ir/src/check/infer/obligations.rs: the proof requests that a body check keeps. Goals,
-- mappings, spans and recoveries are numbers that stand for values compared by equality.
pub mod Waking
pub mod Examples
use sage_dev.Prelude.{
  ℕ, zero, suc, Bool, true, false, not, ◌&&◌, Option, List, [], ◌∷◌, ◌++◌, ◌==◌, length, contains,
  any, is_empty, if◌then◌else◌,
}

pub data ObligationReason : Type 0 where
  explicit function_call adt_well_formedness binary_operator : ObligationReason

pub record ObligationProvenance : Type 0 where
  pub span : ℕ
  pub reason : ObligationReason

pub record ObligationRecovery : Type 0 where
  pub slot : ℕ
  pub span : ℕ
  pub watched_types : List ℕ

pub data ObligationState : Type 0 where
  ready stalled terminal : ObligationState

pub data ObligationGoal : Type 0 where
  prove : ℕ → ObligationGoal
  normalize : ℕ → ℕ → ObligationGoal

pub record Obligation : Type 0 where
  pub goal : ObligationGoal
  pub assumptions : ℕ
  pub assumptions_complete : Bool
  pub local_crate : ℕ
  pub canonical_goal : ℕ
  pub mapping : ℕ
  pub provenance : List ObligationProvenance
  pub recoveries : List ObligationRecovery
  pub state : ObligationState
  pub stalled_on : List ℕ
  pub last_attempted_revision : Option ℕ

abbrev pub same_state : ObligationState → ObligationState → Bool
same_state ready ready = true
same_state stalled stalled = true
same_state terminal terminal = true
same_state _ _ = false

abbrev pub same_numbers : List ℕ → List ℕ → Bool
same_numbers [] [] = true
same_numbers (a ∷ as') (b ∷ bs) = a == b && same_numbers as' bs
same_numbers _ _ = false

abbrev pub same_recoveries : List ObligationRecovery → List ObligationRecovery → Bool
same_recoveries [] [] = true
same_recoveries (a ∷ as') (b ∷ bs) =
    (a.slot == b.slot && (a.span == b.span && same_numbers a.watched_types b.watched_types))
    && same_recoveries as' bs
same_recoveries _ _ = false

abbrev pub is_prove : ObligationGoal → Bool
is_prove (prove goal) = true
is_prove (normalize alias expected) = false

unfoldable pub same_dedup_key : Obligation → Obligation → Bool
same_dedup_key a b =
    is_prove a.goal
    && (is_prove b.goal
        && (same_recoveries a.recoveries b.recoveries
            && (a.canonical_goal == b.canonical_goal && a.mapping == b.mapping)))

unfoldable pub has_pending : List Obligation → Bool
has_pending obligations = any (λ o. not (same_state o.state terminal)) obligations

-- The positions, from `i` on, of the obligations that pass a test.
unfoldable pub indices_from : (Obligation → Bool) → ℕ → List Obligation → List ℕ
indices_from p i [] = []
indices_from p i (o ∷ rest) =
    let found = indices_from p (suc i) rest in if p o then i ∷ found else found

unfoldable pub ready_indices : List Obligation → List ℕ
ready_indices obligations = indices_from (λ o. same_state o.state ready) 0 obligations

unfoldable pub pending_indices : List Obligation → List ℕ
pending_indices obligations = indices_from (λ o. not (same_state o.state terminal)) 0 obligations

-- Stalled, on one of the variables.
abbrev pub woken_by : List ℕ → Obligation → Bool
woken_by variables o =
    same_state o.state stalled && any (λ variable. contains variables variable) o.stalled_on

unfoldable pub wake_each : List ℕ → List Obligation → List Obligation
wake_each variables [] = []
wake_each variables (o ∷ rest) =
    (if woken_by variables o then record o { state = ready } else o) ∷ wake_each variables rest

unfoldable pub wake : List Obligation → List ℕ → List Obligation
wake obligations variables =
    if is_empty variables then obligations else wake_each variables obligations

-- `StagedObligationBatch`.
pub record StagedBatch : Type 0 where
  pub environments : List (ℕ × ObligationProvenance)

unfoldable pub new_batch : StagedBatch
new_batch = record { environments = [] }

unfoldable pub push_parameter_env : StagedBatch → ℕ → ℕ → ObligationReason → StagedBatch
push_parameter_env batch environment span reason = record {
  environments = batch.environments ++ (environment, record { span = span; reason = reason }) ∷ [];
}

unfoldable pub is_empty_batch : StagedBatch → Bool
is_empty_batch batch = is_empty batch.environments
