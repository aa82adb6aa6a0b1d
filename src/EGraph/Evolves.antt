-- ===== src/EGraph/Evolves.antt =====
-- What a version sees after calls of crates/sage-ir/src/check/infer/egraph.rs that work in it: its
-- classes are joined, never split.
use sage_dev.Prelude.{
  ℕ, ◌≡◌, ◌∙◌, sym, ap, subst, Option-cases, given, Bool-cases, ◌==◌, ==_iff, inl, inr, Outcome, ok,
  arith, if◌then◌else◌,
}
use sage_dev.Ty.{Ty, Cell}
use sage_dev.Stash.{Stash}
use sage_dev.Version.Tree
use sage_dev.Version.Tree.Ancestry.{ancestors-Upward}
use sage_dev.EGraph.{EGraph, as_infer_var, oriented, ty_at, find_mut, union}
use sage_dev.EGraph.Find.{Wf, Classes, find-root, parents_along}
use sage_dev.EGraph.Forest.{Forest-root}
use sage_dev.EGraph.Writes.{mutable_live}
use sage_dev.EGraph.Union.{merged, union-Joined}
use sage_dev.EGraph.Compress.{find_mut-Rerooted}
use sage_dev.EGraph.Within.{
  Within, Within-refl, Within-trans, Within-Wf, Quiet, Quiet-Classes, find_mut-Within, union-Within,
}

-- `σ` names the roots that `v` sees in `g`, and two types of one class of `ρ` are of one class of `σ`.
pub record Coarsened (g : EGraph) (v : ℕ) (ρ σ : ℕ → ℕ) : Type 0 where
  pub classes : Classes g v σ
  pub together : (p q : ℕ) → ρ p ≡ ρ q → σ p ≡ σ q

pub record Evolves (g g' : EGraph) (v : ℕ) : Type 0 where
  pub within : Within g g' v
  pub coarsened :
      Wf g
      → Tree.assert_mutable g.versions v ≡ ok tt
      → (ρ : ℕ → ℕ) → Classes g v ρ
      → (σ : ℕ → ℕ) × Coarsened g' v ρ σ

pub Evolves-refl : (g : EGraph) (v : ℕ) → Evolves g g v
Evolves-refl g v = record {
  within = Within-refl g v;
  coarsened = λ w m ρ classes. (ρ, record { classes = classes; together = λ p q e. e });
}

pub still_mutable :
    {g g' : EGraph} {v : ℕ}
    → Within g g' v
    → Tree.assert_mutable g.versions v ≡ ok tt
    → Tree.assert_mutable g'.versions v ≡ ok tt
still_mutable {v} e m = ap (λ t. Tree.assert_mutable t v) e.versions_eq ∙ m

pub Coarsened-trans :
    {g g' : EGraph} {v : ℕ} {ρ σ τ : ℕ → ℕ}
    → Coarsened g v ρ σ
    → Coarsened g' v σ τ
    → Coarsened g' v ρ τ
Coarsened-trans a b = record {
  classes = b.classes;
  together = λ p q e. b.together p q (a.together p q e);
}

pub Evolves-trans :
    {g g' g'' : EGraph} {v : ℕ} → Evolves g g' v → Evolves g' g'' v → Evolves g g'' v
Evolves-trans a b = record {
  within = Within-trans a.within b.within;
  coarsened = λ w m ρ classes.
      let (σ, first) = a.coarsened w m ρ classes in
      let (τ, second) =
        b.coarsened (Within-Wf a.within w) (still_mutable a.within m) σ first.classes in
      (τ, Coarsened-trans first second);
}

pub Quiet-Evolves : {g g' : EGraph} {v : ℕ} → Quiet g g' v → Evolves g g' v
Quiet-Evolves {v} q = record {
  within = q.within;
  coarsened =
      λ w m ρ classes. (ρ, record { classes = Quiet-Classes v ρ q classes; together = λ p r e. e });
}

-- The name of a root's class is the root.
pub root_twice :
    (g : EGraph) (v : ℕ) (ρ : ℕ → ℕ) (p : ℕ)
    → Wf g
    → Tree.assert_mutable g.versions v ≡ ok tt
    → Classes g v ρ
    → ρ (ρ p) ≡ ρ p
root_twice g v ρ p w m classes =
    let (chain, run, up) = ancestors-Upward g.versions v w.shaped (mutable_live g v m) in
    Forest-root (parents_along g chain) ρ p (classes chain up)

-- `find_mut` keeps the classes and returns the root.
pub find_mut-keeps :
    (v : ℕ) (g : EGraph) (p : ℕ) (ρ : ℕ → ℕ) {r : EGraph × ℕ}
    → find_mut g v p ≡ ok r
    → Wf g
    → Tree.assert_mutable g.versions v ≡ ok tt
    → Classes g v ρ
    → Classes r.0 v ρ × (r.1 ≡ ρ p)
find_mut-keeps v g p ρ {r} e w m classes =
    let (found, g', run, rerooted) = find_mut-Rerooted g v ρ p w classes m in
    let same : (g', ρ p) ≡ r = cc in
    (subst (λ x. Classes x.0 v ρ) same rerooted.classes, sym (ap (λ x. x.1) same))

pub find_mut-Evolves :
    (v : ℕ) (g : EGraph) (p : ℕ) {r : EGraph × ℕ} → find_mut g v p ≡ ok r → Evolves g r.0 v
find_mut-Evolves v g p e = record {
  within = find_mut-Within v g p e;
  coarsened = λ w m ρ classes.
      (ρ, record { classes = (find_mut-keeps v g p ρ e w m classes).0; together = λ q s h. h });
}

same_result {ℓ} : {A : Type ℓ} {run : Outcome A} {a b : A} → run ≡ ok a → run ≡ ok b → a ≡ b
same_result e f = cc

merged-oriented :
    (t : Ty) (left right : ℕ) (ρ : ℕ → ℕ)
    → merged (oriented t (ρ left) (ρ right)).0 (oriented t (ρ left) (ρ right)).1 ρ left
      ≡ merged (oriented t (ρ left) (ρ right)).0 (oriented t (ρ left) (ρ right)).1 ρ right
merged-oriented t left right ρ = elim (Option-cases (as_infer_var t)) [
  | inl rigid ↦ rw (oriented, rigid) (ground arith)
  | inr (index, variable) ↦ rw (oriented, variable) (ground arith)
]

-- `union` joins the two classes.
pub union-joins :
    (v : ℕ) (g : EGraph) (stash : Stash Cell) (left right : ℕ) (ρ : ℕ → ℕ) {r : EGraph × ℕ}
    → union g stash v left right ≡ ok r
    → Wf g
    → Tree.assert_mutable g.versions v ≡ ok tt
    → Classes g v ρ
    → (σ : ℕ → ℕ) × Coarsened r.0 v ρ σ × (σ left ≡ σ right)
unfolding union
union-joins v g stash left right ρ {r} e w m classes =
    let live = mutable_live g v m in
    let found_l = find-root g v w live ρ left classes in
    let found_r = find-root g v w live ρ right classes in
    elim (Bool-cases (ρ left == ρ right)) [
      | inl same ↦
          let q : g ≡ r.0 = ground arith in
          (
            ρ,
            record { classes = subst (λ x. Classes x v ρ) q classes; together = λ p s h. h },
            (==_iff (ρ left) (ρ right)).0 same,
          )
      | inr differ ↦
          given (ty_at stash (ρ left)) (λ bad. absurd (ground arith))
            λ lt read_l.
              given (ty_at stash (ρ right)) (λ bad. absurd (ground arith))
                λ rt read_r.
                  let (g', run, joined) =
                    union-Joined g stash v ρ left right lt rt w classes m read_l read_r in
                  let pair = oriented lt (ρ left) (ρ right) in
                  let q : g' ≡ r.0 = ap (λ x. x.0) (same_result run e) in
                  (
                    merged pair.0 pair.1 ρ,
                    record {
                      classes = subst (λ x. Classes x v (merged pair.0 pair.1 ρ)) q joined.classes;
                      together = λ p s h. ap (λ t. if t == pair.0 then pair.1 else t) h;
                    },
                    merged-oriented lt left right ρ,
                  )
    ]

pub union-Evolves :
    (v : ℕ) (g : EGraph) (stash : Stash Cell) (left right : ℕ) {r : EGraph × ℕ}
    → union g stash v left right ≡ ok r
    → Evolves g r.0 v
union-Evolves v g stash left right e = record {
  within = union-Within v g stash left right e;
  coarsened = λ w m ρ classes.
      let (σ, coarsened, joined) = union-joins v g stash left right ρ e w m classes in
      (σ, coarsened);
}
