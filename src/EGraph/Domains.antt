-- ===== src/EGraph/Domains.antt =====
-- `effective_domain` and `set_domain_in` of crates/sage-ir/src/check/infer/egraph.rs.
use sage_dev.Prelude.{
  ℕ, ◌≡◌, ◌≢◌, ◌∙◌, ap, sym, refl, inl, inr, true, false, not, Bool-cases, none, some, Option-cases,
  List, [], ◌∷◌, ==_self, ==_ne, arith, length, length-set, get_elem?, get_elem?-lt, get_elem?-set,
  set, insert, lookup, Outcome, ok, panicked, out_of_fuel, ◌>>=◌,
}
use sage_dev.Ty.{Ty, Cell}
use sage_dev.Stash.{Stash}
use sage_dev.Version.Domain.{InferDomain, any, integer, float, intersect, same_domain}
use sage_dev.Version.Tree
use sage_dev.Version.Tree.{VarInfo}
use sage_dev.Version.Tree.Ancestry.{Upward, ancestors-Upward}
use sage_dev.EGraph.{EGraph, VersionState, marked, find, ty_at, as_infer_var}
use sage_dev.EGraph.Facts.{effective_domain, set_domain_in}
use sage_dev.EGraph.Find.{Wf, Classes, view, InRange, nearest-view, chain_InRange, find-root}
use sage_dev.EGraph.Writes.{live-state, mutable_live, write}
use sage_dev.EGraph.Universes.{view-write, mark-run}
use sage_dev.EGraph.Within.{Quiet, Quiet-Classes, Within-Wf, set_domain_in-Quiet}
use sage_dev.EGraph.Evolves.{root_twice}

-- The domain of a class's root as a chain of versions shows it.
abbrev pub domain_in : EGraph → List ℕ → InferDomain → ℕ → InferDomain
domain_in g chain initial root = elim (lookup root (view (λ s. s.domains) g.states chain)) [
  | none ↦ initial
  | some d ↦ d
]

same_domain_eq : (a b : InferDomain) → same_domain a b ≡ true → a ≡ b
same_domain_eq any any e = refl
same_domain_eq integer integer e = refl
same_domain_eq float float e = refl
same_domain_eq _ _ e = absurd (ground arith)

same_domain_self : (a : InferDomain) → same_domain a a ≡ true
same_domain_self any = refl
same_domain_self integer = refl
same_domain_self float = refl

module _ (g : EGraph) (stash : Stash Cell) (v : ℕ) (chain : List ℕ) (ρ : ℕ → ℕ) (w : Wf g)
    (mutable : Tree.assert_mutable g.versions v ≡ ok tt) (classes : Classes g v ρ)
    (found : Tree.ancestors g.versions v ≡ ok chain) (range : InRange (length g.states) chain) where
  -- What the version shows of the domain of an unresolved class.
  pub effective_domain-view :
      (p : ℕ) (t : Ty) (index : ℕ) (info : VarInfo)
      → ty_at stash (ρ p) ≡ ok t
      → as_infer_var t ≡ some index
      → Tree.get_variable g.versions v index ≡ ok info
      → effective_domain g stash v p ≡ ok (some (domain_in g chain info.initial_domain (ρ p)))
  unfolding effective_domain
  effective_domain-view p t index info read variable known =
      let at_root = find-root g v w (mutable_live g v mutable) ρ p classes in
      let near = nearest-view (λ s. s.domains) g.states chain (ρ p) range in
      ground (arith, at_root, near)

abbrev narrowing : VersionState → ℕ → InferDomain → VersionState
narrowing state root d = record state { domains = insert root d state.domains }

-- The graph after a successful narrowing.
abbrev narrowed : EGraph → ℕ → VersionState → ℕ → ℕ → InferDomain → EGraph
narrowed g v state index root d =
    write (write g v (narrowing state root d)) v (marked (some index) (narrowing state root d))

module _ (g : EGraph) (v : ℕ) (state : VersionState) (index root : ℕ) (d : InferDomain) (w : Wf g)
    (read : get_elem? g.states v ≡ some state) where
  narrowing-read :
      get_elem? (set g.states v (narrowing state root d)) v ≡ some (narrowing state root d)
  narrowing-read = ground (
    arith,
    get_elem?-set g.states v (narrowing state root d) v (get_elem?-lt g.states v read),
    ==_self v,
  )

  narrowing-Wf : Wf (write g v (narrowing state root d))
  narrowing-Wf = record {
    shaped = w.shaped;
    same_length = length-set g.states v (narrowing state root d) ∙ w.same_length;
  }

  view-narrowed :
      (chain : List ℕ)
      → Upward g.versions.nodes v chain
      → view (λ s. s.domains) (narrowed g v state index root d).states chain
        ≡ (root, d) ∷ view (λ s. s.domains) g.states chain
  view-narrowed chain up =
      view-write (λ s. s.domains) (write g v (narrowing state root d)) v (narrowing state root d)
        (marked (some index) (narrowing state root d)) [] chain narrowing-Wf narrowing-read refl up
      ∙ view-write (λ s. s.domains) g v state (narrowing state root d) ((root, d) ∷ []) chain w read
          refl up

  module _ (stash : Stash Cell) (p : ℕ) (t : Ty) (a : InferDomain)
      (mutable : Tree.assert_mutable g.versions v ≡ ok tt) (at_root : find g v p ≡ ok root)
      (typed : ty_at stash root ≡ ok t) (variable : as_infer_var t ≡ some index)
      (now : effective_domain g stash v root ≡ ok (some a)) (meet : intersect a d ≡ some d) where
    narrow_kept : same_domain a d ≡ true → set_domain_in g stash v p d ≡ ok (g, false)
    unfolding set_domain_in
    narrow_kept same = let self = same_domain_self d in ground arith

    narrow_down :
        same_domain a d ≡ false
        → set_domain_in g stash v p d ≡ ok (narrowed g v state index root d, true)
    unfolding set_domain_in
    narrow_down differ =
        let self = same_domain_self d in
        let marks =
          mark-run (write g v (narrowing state root d)) v (narrowing state root d) (some index)
            narrowing-read in
        ground (arith, narrowing-read)

bind_same {ℓ κ} :
    {A : Type ℓ} {B : Type κ} (run : Outcome A) {next next' : A → Outcome B}
    → ((value : A) → next value ≡ next' value)
    → (run >>= next) ≡ (run >>= next')
bind_same panicked same = refl
bind_same out_of_fuel same = refl
bind_same (ok value) same = same value

-- A class's domain, where two graphs agree on its root and on what is recorded for it.
effective_domain-same :
    (g g' : EGraph) (stash : Stash Cell) (v q root : ℕ) (chain : List ℕ)
    → g'.versions ≡ g.versions
    → Tree.ancestors g.versions v ≡ ok chain
    → InRange (length g.states) chain
    → InRange (length g'.states) chain
    → find g v q ≡ ok root
    → find g' v q ≡ ok root
    → lookup root (view (λ s. s.domains) g'.states chain)
      ≡ lookup root (view (λ s. s.domains) g.states chain)
    → effective_domain g' stash v q ≡ effective_domain g stash v q
unfolding effective_domain
effective_domain-same g g' stash v q root chain same found range range' at_q at_q' e =
    let near = nearest-view (λ s. s.domains) g.states chain root range in
    let near' = nearest-view (λ s. s.domains) g'.states chain root range' in
    rw (at_q, at_q')
      (bind_same (ty_at stash root) (λ t. elim (Option-cases (as_infer_var t)) [
        | inl rigid ↦ ground arith
        | inr (index, variable) ↦
            rw (variable, same)
              (bind_same (Tree.get_variable g.versions v index)
                (λ info. ground (arith, near, near')))
      ]))

-- In a mutable version of a well-formed graph in which every class has a root, let the root of a type be a
-- variable that the version sees. With a domain that is at least as narrow as the one of the type's class,
-- `set_domain_in` returns, says whether the domain changed, leaves the new domain as the domain of the
-- class, and the domain of every other class as it was.
pub set_domain_in-narrows :
    (g : EGraph) (stash : Stash Cell) (v : ℕ) (ρ : ℕ → ℕ) (p : ℕ) (t : Ty) (index : ℕ)
    (info : VarInfo) (a d : InferDomain)
    → Wf g
    → Tree.assert_mutable g.versions v ≡ ok tt
    → Classes g v ρ
    → ty_at stash (ρ p) ≡ ok t
    → as_infer_var t ≡ some index
    → Tree.get_variable g.versions v index ≡ ok info
    → effective_domain g stash v p ≡ ok (some a)
    → intersect a d ≡ some d
    → (g' : EGraph) × (set_domain_in g stash v p d ≡ ok (g', not (same_domain a d)))
      × (effective_domain g' stash v p ≡ ok (some d))
      × ((q : ℕ) → ρ q ≢ ρ p → effective_domain g' stash v q ≡ effective_domain g stash v q)
set_domain_in-narrows g stash v ρ p t index info a d w mutable classes typed variable known now
      meet =
    let live = mutable_live g v mutable in
    let (state, read) = live-state g v w live in
    let (chain, found, up) = ancestors-Upward g.versions v w.shaped live in
    let range = chain_InRange g v w live chain up in
    let twice = root_twice g v ρ p w mutable classes in
    let shown = effective_domain-view g stash v chain ρ w mutable classes found range in
    let at_p = find-root g v w live ρ p classes in
    let typed_twice : ty_at stash (ρ (ρ p)) ≡ ok t = rw twice typed in
    let now_root : effective_domain g stash v (ρ p) ≡ ok (some a) =
      shown (ρ p) t index info typed_twice variable known
      ∙ ap (λ x. ok (some (domain_in g chain info.initial_domain x))) twice
      ∙ sym (shown p t index info typed variable known)
      ∙ now in
    elim (Bool-cases (same_domain a d)) [
      | inl same ↦ (
        g,
        rw same (
            narrow_kept g v state index (ρ p) d w read stash p t a mutable at_p typed variable
              now_root meet same),
        now ∙ ap (λ x. ok (some x)) (same_domain_eq a d same),
        λ q apart. refl,
      )
      | inr differ ↦
          let g' : EGraph = narrowed g v state index (ρ p) d in
          let run =
            narrow_down g v state index (ρ p) d w read stash p t a mutable at_p typed variable
              now_root meet differ in
          let quiet : Quiet g g' v = set_domain_in-Quiet v g stash p d run in
          let w' : Wf g' = Within-Wf quiet.within w in
          let classes' : Classes g' v ρ = Quiet-Classes v ρ quiet classes in
          let range' : InRange (length g'.states) chain = chain_InRange g' v w' live chain up in
          let seen = view-narrowed g v state index (ρ p) d w read chain up in
          (
            g',
            rw differ run,
            effective_domain-view g' stash v chain ρ w' mutable classes' found range' p t index info
                  typed variable known
                ∙ ap (λ x. ok (some x)) (rw (domain_in, seen, ==_self (ρ p)) refl),
            λ q apart.
                effective_domain-same g g' stash v q (ρ q) chain refl found range range'
                  (find-root g v w live ρ q classes) (find-root g' v w' live ρ q classes')
                  (rw (seen, ==_ne (ρ p) (ρ q) (λ e. apart (sym e))) refl),
          )
    ]
