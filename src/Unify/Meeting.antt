-- ===== src/Unify/Meeting.antt =====
-- The steps of `unify_variables` of crates/sage-ir/src/check/infer/unify.rs: the common domain, the lowering of
-- universes, and the union with its narrowed domain.
use sage_dev.Prelude.{
  ℕ, ◌≡◌, ◌≢◌, ◌∙◌, ap, sym, subst, refl, not, Bool, none, some, leb, min, arith, ok, if◌then◌else◌,
}
use sage_dev.Ty.{infer_var, Cell}
use sage_dev.Stash.{Stash}
use sage_dev.Version.Domain.{InferDomain, any, integer, float, intersect}
use sage_dev.Version.Tree
use sage_dev.Version.Tree.{VarInfo}
use sage_dev.EGraph.{EGraph, find, ty_at, union, current_universe}
use sage_dev.EGraph.Facts.{effective_domain, set_domain_in, lower_universe}
use sage_dev.EGraph.Find.{Wf, Classes, chain_InRange}
use sage_dev.EGraph.Writes.{mutable_live}
use sage_dev.EGraph.Within.{
  Within, Within-trans, Within-Wf, union-Within, Quiet-Classes, lower_universe-Quiet,
  set_domain_in-Quiet,
}
use sage_dev.EGraph.Evolves.{still_mutable}
use sage_dev.EGraph.Union.{merged, union-Joined}
use sage_dev.EGraph.Universes.{lower_universe-lowers}
use sage_dev.EGraph.Domains.{domain_in, effective_domain-view, set_domain_in-narrows}
use sage_dev.EGraph.Kept.{
  Same, Same-trans, view-Same, domains-Apart, ceilings-Apart, union-Same, lower_universe-Same,
  set_domain_in-Same,
}
use sage_dev.Version.Tree.Ancestry.{ancestors-Upward}
use sage_dev.Unify.{done, failed, domain_conflict, semantic_domain, conflict, compatible_domain}

module _ (g : EGraph) (stash : Stash Cell) (v : ℕ) (left right i j : ℕ) (a b : InferDomain)
    (at_left : find g v left ≡ ok left) (at_right : find g v right ≡ ok right)
    (left_ty : ty_at stash left ≡ ok (infer_var i))
    (right_ty : ty_at stash right ≡ ok (infer_var j))
    (left_domain : effective_domain g stash v left ≡ ok (some a))
    (right_domain : effective_domain g stash v right ≡ ok (some b)) where
  conflict-variables :
      conflict g stash v left right ≡ ok (domain_conflict left (some a) right (some b))
  unfolding conflict semantic_domain
  conflict-variables = ground arith

  pub compatible_domain-none :
      intersect a b ≡ none
      → compatible_domain g stash v left right
        ≡ ok (failed (domain_conflict left (some a) right (some b)))
  unfolding compatible_domain
  compatible_domain-none apart = ground (arith, conflict-variables)

  pub compatible_domain-some :
      (d : InferDomain)
      → intersect a b ≡ some d
      → compatible_domain g stash v left right ≡ ok (done (some d))
  unfolding compatible_domain
  compatible_domain-some d common = ground arith

-- What two variables have in common, the second admits as its own.
pub intersect_absorbs : (a b d : InferDomain) → intersect a b ≡ some d → intersect b d ≡ some d
unfolding intersect
intersect_absorbs any any d e = ground arith
intersect_absorbs any integer d e = ground arith
intersect_absorbs any float d e = ground arith
intersect_absorbs integer any d e = ground arith
intersect_absorbs integer integer d e = ground arith
intersect_absorbs float any d e = ground arith
intersect_absorbs float float d e = ground arith
intersect_absorbs integer float d e = absurd (ground arith)
intersect_absorbs float integer d e = absurd (ground arith)

-- A graph in which the same version sees the same classes, variables and domains.
pub record Alike (g g' : EGraph) (v : ℕ) (ρ : ℕ → ℕ) : Type 0 where
  pub within : Within g g' v
  pub classes : Classes g' v ρ
  pub domains : Same (λ s. s.domains) g g'

pub Alike-trans :
    {g g' g'' : EGraph} {v : ℕ} {ρ : ℕ → ℕ} → Alike g g' v ρ → Alike g' g'' v ρ → Alike g g'' v ρ
Alike-trans a b = record {
  within = Within-trans a.within b.within;
  classes = b.classes;
  domains = Same-trans a.domains b.domains;
}

lower_is_min : (u ceiling : ℕ) → (if leb u ceiling then u else ceiling) ≡ min u ceiling
lower_is_min u ceiling = ground arith

pub lower_universe-Alike :
    (g : EGraph) (v index ceiling : ℕ) (info : VarInfo) (ρ : ℕ → ℕ) (u : ℕ)
    → Wf g
    → Tree.assert_mutable g.versions v ≡ ok tt
    → Classes g v ρ
    → Tree.get_variable g.versions v index ≡ ok info
    → current_universe g v index ≡ ok u
    → (g' : EGraph) × (lowers : Bool) × (lower_universe g v index ceiling ≡ ok (g', lowers))
      × Alike g g' v ρ
      × (current_universe g' v index ≡ ok (min u ceiling))
      × ((j : ℕ) (other : VarInfo)
          → index ≢ j
          → Tree.get_variable g.versions v j ≡ ok other
          → current_universe g' v j ≡ current_universe g v j)
lower_universe-Alike g v index ceiling info ρ u w mutable classes known now =
    let (u', g', now', run, _, after, others) =
      lower_universe-lowers g v index ceiling info w mutable known in
    let same : u' ≡ u = ground arith in
    let quiet = lower_universe-Quiet v g index ceiling run in
    (
      g',
      not (leb u' ceiling),
      run,
      record {
        within = quiet.within;
        classes = Quiet-Classes v ρ quiet classes;
        domains = lower_universe-Same v g index ceiling run;
      },
      after ∙ ap ok (lower_is_min u' ceiling) ∙ ap (λ x. ok (min x ceiling)) same,
      others,
    )

module _ (g : EGraph) (stash : Stash Cell) (v : ℕ) (ρ : ℕ → ℕ) (left right i j : ℕ) (w : Wf g)
    (mutable : Tree.assert_mutable g.versions v ≡ ok tt) (classes : Classes g v ρ)
    (left_root : ρ left ≡ left) (right_root : ρ right ≡ right)
    (left_ty : ty_at stash left ≡ ok (infer_var i))
    (right_ty : ty_at stash right ≡ ok (infer_var j)) where
  merged-right : merged left right ρ right ≡ right
  merged-right = ground arith

  merged-left : merged left right ρ left ≡ right
  merged-left = ground arith

  union_variables :
      (g' : EGraph) × (union g stash v left right ≡ ok (g', right))
      × Wf g'
      × Classes g' v (merged left right ρ)
  union_variables =
      let at_left : ty_at stash (ρ left) ≡ ok (infer_var i) = rw left_root left_ty in
      let at_right : ty_at stash (ρ right) ≡ ok (infer_var j) = rw right_root right_ty in
      let (g', run, joined) =
        union-Joined g stash v ρ left right (infer_var i) (infer_var j) w classes mutable at_left
          at_right in
      (
        g',
        run ∙ ap (λ x. ok (g', x)) right_root,
        joined.wf,
        subst (λ x. Classes g' v (merged x right ρ)) left_root
            (subst (λ x. Classes g' v (merged (ρ left) x ρ)) right_root joined.classes),
      )

  pub narrow_joined :
      (info : VarInfo) (b d : InferDomain)
      → Tree.get_variable g.versions v j ≡ ok info
      → effective_domain g stash v right ≡ ok (some b)
      → intersect b d ≡ some d
      → (g1 : EGraph) × (g2 : EGraph) × (changed : Bool) × (union g stash v left right
          ≡ ok (g1, right))
        × (set_domain_in g1 stash v right d ≡ ok (g2, changed))
        × Wf g2
        × Classes g2 v (merged left right ρ)
        × (effective_domain g2 stash v right ≡ ok (some d))
        × Same (λ s. s.universe_ceilings) g g2
  narrow_joined info b d known before meet =
      let (g1, run, w1, classes1) = union_variables in
      let σ : ℕ → ℕ = merged left right ρ in
      let within = union-Within v g stash left right run in
      let same = union-Same (λ s. s.domains) v domains-Apart g stash left right run in
      let mutable1 = still_mutable within mutable in
      let live = mutable_live g v mutable in
      let (chain, found, up) = ancestors-Upward g.versions v w.shaped live in
      let range = chain_InRange g v w live chain up in
      let found1 : Tree.ancestors g1.versions v ≡ ok chain = rw within.versions_eq found in
      let known1 : Tree.get_variable g1.versions v j ≡ ok info = rw within.versions_eq known in
      let typed : ty_at stash (ρ right) ≡ ok (infer_var j) = rw right_root right_ty in
      let typed1 : ty_at stash (σ right) ≡ ok (infer_var j) = rw merged-right right_ty in
      let at_g =
        effective_domain-view g stash v chain ρ w mutable classes found range right (infer_var j) j
          info typed refl known in
      let at_g1 =
        effective_domain-view g1 stash v chain σ w1 mutable1 classes1 found1
          (rw within.length_eq range) right (infer_var j) j info typed1 refl known1 in
      let shown : domain_in g1 chain info.initial_domain (σ right)
          ≡ domain_in g chain info.initial_domain (ρ right) =
        ap (λ x. domain_in g1 chain info.initial_domain x) merged-right
        ∙ rw (domain_in, view-Same (λ s. s.domains) g g1 chain same) refl
        ∙ ap (λ x. domain_in g chain info.initial_domain x) (sym right_root) in
      let before1 : effective_domain g1 stash v right ≡ ok (some b) =
        at_g1 ∙ ap (λ x. ok (some x)) shown ∙ sym at_g ∙ before in
      let (g2, run2, after, others) =
        set_domain_in-narrows g1 stash v σ right (infer_var j) j info b d w1 mutable1 classes1
          typed1 refl known1 before1 meet in
      let quiet = set_domain_in-Quiet v g1 stash right d run2 in
      let ceilings =
        Same-trans (union-Same (λ s. s.universe_ceilings) v ceilings-Apart g stash left right run)
          (set_domain_in-Same v g1 stash right d run2) in
      (
        g1,
        g2,
        _,
        run,
        run2,
        Within-Wf quiet.within w1,
        Quiet-Classes v σ quiet classes1,
        after,
        ceilings,
      )
