-- ===== src/EGraph/Union.antt =====
-- `union` of crates/sage-ir/src/check/infer/egraph.rs on the classes that the versions see.
use sage_dev.Prelude.{
  ℕ, ◌≡◌, ◌≢◌, ◌∙◌, sym, refl, inl, inr, Bool-cases, Option-cases, List, [], ◌∷◌, ◌==◌, ==_iff,
  ne-of-==, arith, ok, if◌then◌else◌,
}
use sage_dev.Ty.{Ty, Cell}
use sage_dev.Stash.{Stash}
use sage_dev.Version.Tree.{assert_mutable}
use sage_dev.Version.Tree.Wf.{Above}
use sage_dev.Version.Tree.Ancestry.{Upward}
use sage_dev.EGraph.{
  EGraph, ty_at, as_infer_var, oriented, union, set_parent, push_work, mark_semantic_change,
}
use sage_dev.EGraph.Forest.{parent, Chain-root, Forest-linked}
use sage_dev.EGraph.Find.{Wf, Classes, parents_along, find-root}
use sage_dev.EGraph.Writes.{
  Step, Step-Wf, Step-trans, Step-Classes, Step-Forest, mutable_live, set_parent-Step,
  push_work-Step, mark-Step,
}

-- The class of `c` joins that of `r`.
abbrev pub merged : ℕ → ℕ → (ℕ → ℕ) → ℕ → ℕ
merged c r ρ p = if ρ p == c then r else ρ p

-- `ρ` names the roots that version `v` now sees, and no version that does not see `v` notices.
pub record Rerooted (g g' : EGraph) (v : ℕ) (ρ : ℕ → ℕ) : Type 0 where
  pub wf : Wf g'
  pub versions_eq : g'.versions ≡ g.versions
  pub classes : Classes g' v ρ
  pub others :
      (u : ℕ) (σ : ℕ → ℕ) → (Above g.versions.nodes v u → ⊥) → Classes g u σ → Classes g' u σ

-- The outcome of joining the class of `c` to that of `r` in version `v`.
abbrev pub Joined : EGraph → EGraph → ℕ → ℕ → ℕ → (ℕ → ℕ) → Type 0
Joined g g' v c r ρ = Rerooted g g' v (merged c r ρ)

merged_self : (c : ℕ) (ρ : ℕ → ℕ) (p : ℕ) → merged c c ρ p ≡ ρ p
merged_self c ρ p = elim (Bool-cases (ρ p == c)) [
  | inl same ↦ rw same (sym ((==_iff (ρ p) c).0 same))
  | inr differ ↦ rw differ refl
]

module _ (g : EGraph) (v : ℕ) (ρ : ℕ → ℕ) (w : Wf g) (classes : Classes g v ρ) where
  pub Joined-refl : (c : ℕ) → Joined g g v c c ρ
  Joined-refl c = record {
    wf = w;
    versions_eq = refl;
    classes = λ chain up p. rw (merged_self c ρ p) (classes chain up p);
    others = λ u σ apart h. h;
  }

  module _ (mutable : assert_mutable g.versions v ≡ ok tt) where
    -- A root has no parent.
    root_of :
        (chain : List ℕ)
        → Upward g.versions.nodes v chain
        → (p : ℕ) → parent (parents_along g chain) (ρ p) ≡ ρ p
    root_of chain up p = Chain-root (classes chain up p).1

    -- Two distinct roots are linked, queued and marked.
    link_roots :
        (a b : ℕ) (t : Ty)
        → ρ a ≢ ρ b
        → (g1 : EGraph) × (g2 : EGraph) × (g' : EGraph) × (set_parent g v (ρ a) (ρ b) ≡ ok g1)
          × (push_work g1 v (ρ a) ≡ ok g2)
          × (mark_semantic_change g2 v (as_infer_var t) ≡ ok g')
          × Joined g g' v (ρ a) (ρ b) ρ
    link_roots a b t ne =
        let (g1, run1, s1) = set_parent-Step g v (ρ a) (ρ b) w mutable in
        let live = mutable_live g v mutable in
        let w1 = Step-Wf s1 w in
        let (g2, run2, s2) = push_work-Step g1 v (ρ a) w1 (rw s1.versions_eq live) in
        let w2 = Step-Wf s2 w1 in
        let e2 : g2.versions ≡ g.versions = s2.versions_eq ∙ s1.versions_eq in
        let (g3, run3, s3) = mark-Step g2 v (as_infer_var t) w2 (rw e2 live) in
        let s : Step g g3 v ((ρ a, ρ b) ∷ []) = Step-trans (Step-trans s1 s2) s3 in
        (
          g1,
          g2,
          g3,
          run1,
          run2,
          run3,
          record {
            wf = Step-Wf s w;
            versions_eq = s.versions_eq;
            classes = Step-Forest (merged (ρ a) (ρ b) ρ) s (λ chain up.
                Forest-linked (parents_along g chain) (ρ a) (ρ b) (root_of chain up a)
                  (root_of chain up b) ne ρ (classes chain up));
            others = λ u σ apart h. Step-Classes u σ s apart h;
          },
        )

-- In a mutable version of a well-formed graph in which every class has a root, if the stash holds
-- the types of both roots, `union` returns, joins the class of one root to the other's, which it
-- returns, keeps the graph well formed, and leaves the classes of every version alone that does
-- not see this one.
pub union-Joined :
    (g : EGraph) (stash : Stash Cell) (v : ℕ) (ρ : ℕ → ℕ) (left right : ℕ) (lt rt : Ty)
    → Wf g
    → Classes g v ρ
    → assert_mutable g.versions v ≡ ok tt
    → ty_at stash (ρ left) ≡ ok lt
    → ty_at stash (ρ right) ≡ ok rt
    → (g' : EGraph) × (union g stash v left right ≡ ok (g', (oriented lt (ρ left) (ρ right)).1))
      × Joined g g' v (oriented lt (ρ left) (ρ right)).0 (oriented lt (ρ left) (ρ right)).1 ρ
unfolding union
union-Joined g stash v ρ left right lt rt w classes mutable el er =
    let live = mutable_live g v mutable in
    let found_l = find-root g v w live ρ left classes in
    let found_r = find-root g v w live ρ right classes in
    elim (Bool-cases (ρ left == ρ right)) [
      | inl same ↦
          let e : ρ left ≡ ρ right = (==_iff (ρ left) (ρ right)).0 same in
          elim (Option-cases (as_infer_var lt)) [
            | inl rigid ↦ (
              g,
              ground arith,
              rw (oriented, rigid) (rw e (Joined-refl g v ρ w classes (ρ right))),
            )
            | inr (index, var) ↦
                (g, ground arith, rw (oriented, var) (rw e (Joined-refl g v ρ w classes (ρ right))))
          ]
      | inr differ ↦
          let ne : ρ left ≢ ρ right = ne-of-== (ρ left) (ρ right) differ in
          elim (Option-cases (as_infer_var lt)) [
            | inl rigid ↦
                let (g1, g2, g', run1, run2, run3, joined) =
                  link_roots g v ρ w classes mutable right left rt (λ h. ne (sym h)) in
                (g', ground arith, rw (oriented, rigid) joined)
            | inr (index, var) ↦
                let (g1, g2, g', run1, run2, run3, joined) =
                  link_roots g v ρ w classes mutable left right lt ne in
                (g', ground arith, rw (oriented, var) joined)
          ]
    ]
