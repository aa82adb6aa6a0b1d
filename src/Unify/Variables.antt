-- ===== src/Unify/Variables.antt =====
-- `unify_variables` of crates/sage-ir/src/check/infer/unify.rs: two inference variables.
use sage_dev.Prelude.{
  ℕ, ◌≡◌, ◌≢◌, ◌∙◌, ap, sym, refl, inl, inr, Bool, Option, none, some, Option-cases, min, arith, ok,
}
use sage_dev.Ty.{infer_var, Cell}
use sage_dev.Stash.{Stash}
use sage_dev.Version.Domain.{InferDomain, intersect}
use sage_dev.Version.Tree
use sage_dev.Version.Tree.{VarInfo}
use sage_dev.EGraph.{EGraph, find, ty_at, current_universe}
use sage_dev.EGraph.Facts.{effective_domain, lower_universe}
use sage_dev.EGraph.Find.{Wf, Classes, find-root, chain_InRange}
use sage_dev.EGraph.Writes.{mutable_live}
use sage_dev.EGraph.Within.{Within-Wf}
use sage_dev.EGraph.Evolves.{still_mutable}
use sage_dev.EGraph.Union.{merged}
use sage_dev.EGraph.Universes.{current_universe-Same}
use sage_dev.EGraph.Domains.{domain_in, effective_domain-view}
use sage_dev.EGraph.Kept.{view-Same}
use sage_dev.Version.Tree.Ancestry.{ancestors-Upward}
use sage_dev.Unify.{done, failed, domain_conflict, unify_variables}
use sage_dev.Unify.Meeting.{
  compatible_domain-none, compatible_domain-some, intersect_absorbs, Alike, Alike-trans,
  lower_universe-Alike, narrow_joined,
}

-- What becomes of two variables, by the domain and the universe that they have in common.
abbrev pub Decided :
    EGraph
    → Stash Cell
    → ℕ
    → (ℕ → ℕ)
    → ℕ × ℕ × ℕ × ℕ
    → InferDomain
    → InferDomain
    → ℕ
    → Option InferDomain
    → Type 0
Decided g stash v ρ (left, right, i, j) a b universe none =
    unify_variables stash v g left right i j
    ≡ ok (g, failed (domain_conflict left (some a) right (some b)))
Decided g stash v ρ (left, right, i, j) a b universe (some d) =
    (g' : EGraph) × (unify_variables stash v g left right i j ≡ ok (g', done tt))
    × Classes g' v (merged left right ρ)
    × (effective_domain g' stash v right ≡ ok (some d))
    × (current_universe g' v i ≡ ok universe)
    × (current_universe g' v j ≡ ok universe)

min_twice : (a b : ℕ) → (min a (min a b) ≡ min a b) × (min b (min a b) ≡ min a b)
min_twice a b = (ground arith, ground arith)

module _ (g : EGraph) (stash : Stash Cell) (v : ℕ) (ρ : ℕ → ℕ) (left right i j : ℕ)
    (info_i info_j : VarInfo) (a b : InferDomain) (ui uj : ℕ) (w : Wf g)
    (mutable : Tree.assert_mutable g.versions v ≡ ok tt) (classes : Classes g v ρ)
    (left_root : ρ left ≡ left) (right_root : ρ right ≡ right)
    (left_ty : ty_at stash left ≡ ok (infer_var i))
    (right_ty : ty_at stash right ≡ ok (infer_var j)) (differ : i ≢ j)
    (known_i : Tree.get_variable g.versions v i ≡ ok info_i)
    (known_j : Tree.get_variable g.versions v j ≡ ok info_j)
    (left_domain : effective_domain g stash v left ≡ ok (some a))
    (right_domain : effective_domain g stash v right ≡ ok (some b))
    (now_i : current_universe g v i ≡ ok ui) (now_j : current_universe g v j ≡ ok uj) where
  at_left : find g v left ≡ ok left
  at_left = find-root g v w (mutable_live g v mutable) ρ left classes ∙ ap ok left_root

  at_right : find g v right ≡ ok right
  at_right = find-root g v w (mutable_live g v mutable) ρ right classes ∙ ap ok right_root

  -- Both variables come down to the lower of the two universes.
  both_lowered :
      (g1 : EGraph) × (g2 : EGraph) × (lower1 : Bool) × (lower2 : Bool) × (lower_universe g v i
          (min ui uj)
        ≡ ok (g1, lower1))
      × (lower_universe g1 v j (min ui uj) ≡ ok (g2, lower2))
      × Alike g g2 v ρ
      × (current_universe g2 v i ≡ ok (min ui uj))
      × (current_universe g2 v j ≡ ok (min ui uj))
  both_lowered =
      let (g1, lower1, run1, alike1, after1, others1) =
        lower_universe-Alike g v i (min ui uj) info_i ρ ui w mutable classes known_i now_i in
      let same : (k : ℕ) (info : VarInfo)
          → Tree.get_variable g.versions v k ≡ ok info
          → Tree.get_variable g1.versions v k ≡ ok info =
        λ k info known. rw alike1.within.versions_eq known in
      let (g2, lower2, run2, alike2, after2, others2) =
        lower_universe-Alike g1 v j (min ui uj) info_j ρ uj (Within-Wf alike1.within w)
          (still_mutable alike1.within mutable) alike1.classes (same j info_j known_j)
          (others1 j info_j differ known_j ∙ now_j) in
      (
        g1,
        g2,
        lower1,
        lower2,
        run1,
        run2,
        Alike-trans alike1 alike2,
        others2 i info_i (λ e. differ (sym e)) (same i info_i known_i)
            ∙ after1
            ∙ ap ok (min_twice ui uj).0,
        after2 ∙ ap ok (min_twice ui uj).1,
      )

  meeting_variables :
      (d : InferDomain)
      → intersect a b ≡ some d
      → Decided g stash v ρ (left, right, i, j) a b (min ui uj) (some d)
  unfolding unify_variables
  meeting_variables d common =
      let compatible =
        compatible_domain-some g stash v left right i j a b at_left at_right left_ty right_ty
          left_domain right_domain d common in
      let (g1, g2, _, _, run1, run2, alike, after_i, after_j) = both_lowered in
      let w2 = Within-Wf alike.within w in
      let mutable2 = still_mutable alike.within mutable in
      let (chain, found, up) = ancestors-Upward g.versions v w.shaped (mutable_live g v mutable) in
      let range = chain_InRange g v w (mutable_live g v mutable) chain up in
      let typed : ty_at stash (ρ right) ≡ ok (infer_var j) = rw right_root right_ty in
      let known_j' : Tree.get_variable g2.versions v j ≡ ok info_j =
        rw alike.within.versions_eq known_j in
      let known_i' : Tree.get_variable g2.versions v i ≡ ok info_i =
        rw alike.within.versions_eq known_i in
      let before : effective_domain g2 stash v right ≡ ok (some b) =
        effective_domain-view g2 stash v chain ρ w2 mutable2 alike.classes
          (rw alike.within.versions_eq found) (rw alike.within.length_eq range) right (infer_var j)
          j info_j typed refl known_j'
        ∙ rw (domain_in, view-Same (λ s. s.domains) g g2 chain alike.domains) refl
        ∙ sym (
            effective_domain-view g stash v chain ρ w mutable classes found range right
              (infer_var j) j info_j typed refl known_j)
        ∙ right_domain in
      let (g3, g4, changed, run3, run4, w4, classes4, after, same) =
        narrow_joined g2 stash v ρ left right i j w2 mutable2 alike.classes left_root right_root
          left_ty right_ty info_j b d known_j' before (intersect_absorbs a b d common) in
      (
        g4,
        ground arith,
        classes4,
        after,
        current_universe-Same g2 g4 v i info_i w2 w4 mutable2 known_i' same ∙ after_i,
        current_universe-Same g2 g4 v j info_j w2 w4 mutable2 known_j' same ∙ after_j,
      )

  parting_variables :
      intersect a b ≡ none → Decided g stash v ρ (left, right, i, j) a b (min ui uj) none
  unfolding unify_variables
  parting_variables apart =
      let compatible =
        compatible_domain-none g stash v left right i j a b at_left at_right left_ty right_ty
          left_domain right_domain apart in
      ground arith

  -- In a mutable version of a well-formed graph in which every class has a root, let two roots be different
  -- variables that the version sees. Unifying them returns. If their domains have something in common, it
  -- succeeds, joins the two classes and no other, leaves the common domain as that of the joined class, and
  -- the lower of the two universes as that of both variables. Otherwise it fails with the conflict of the
  -- two domains and leaves the graph as it was.
  pub unify_variables-decides :
      Decided g stash v ρ (left, right, i, j) a b (min ui uj) (intersect a b)
  unify_variables-decides = elim (Option-cases (intersect a b)) [
    | inl apart ↦ rw apart (parting_variables apart)
    | inr (d, common) ↦ rw common (meeting_variables d common)
  ]
