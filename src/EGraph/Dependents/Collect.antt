-- ===== src/EGraph/Dependents/Collect.antt =====
-- `add_dependent` and `collect_dependents` of crates/sage-ir/src/check/infer/egraph.rs.
use sage_dev.Prelude.{
  ℕ, ◌≡◌, ◌≢◌, ◌∙◌, ap, sym, subst, refl, inl, inr, Bool, true, false, Bool-cases, ◌&&◌, ◌||◌, none,
  some, List, [], ◌∷◌, ◌==◌, ==_self, ==_iff, arith, length, get_elem?, get_elem?-some,
  get_elem?-lt, get_elem?-set, contains, set_insert, set_extend, insert, ok, if◌then◌else◌,
}
use sage_dev.Version.Tree.{assert_mutable}
use sage_dev.Version.Tree.Reads.{contains-append}
use sage_dev.Version.Tree.Ancestry.{Upward, ancestors-Upward}
use sage_dev.EGraph.{EGraph, VersionState}
use sage_dev.EGraph.Find.{Wf, InRange, Classes, chain_InRange}
use sage_dev.EGraph.Writes.{
  Step, Step-Wf, Step-write, Step-Classes, Step-Forest, Upward-head, live-state, mutable_live,
  write,
}
use sage_dev.EGraph.Union.{Rerooted}
use sage_dev.EGraph.Dependents.{dependents_of, add_dependent, collect_along, collect_dependents}

-- Some version on the chain lists `q` for `p`.
abbrev pub lists : List VersionState → List ℕ → ℕ → ℕ → Bool
lists states [] p q = false
lists states (v ∷ rest) p q =
    elim (get_elem? states v) [ none ↦ false | some state ↦ contains (dependents_of state p) q ]
    || lists states rest p q

pub contains-set_insert :
    (n : ℕ) (xs : List ℕ) (u : ℕ) → contains (set_insert n xs) u ≡ (contains xs u || n == u)
contains-set_insert n xs u = elim (Bool-cases (contains xs n)) [
  | inl there ↦ ground arith
  | inr new ↦ ground (arith, contains-append xs (n ∷ []) u)
]

contains-set_extend :
    (xs ys : List ℕ) (u : ℕ) → contains (set_extend xs ys) u ≡ (contains xs u || contains ys u)
contains-set_extend xs [] u = ground arith
contains-set_extend xs (y ∷ ys) u =
    ground (arith, contains-set_extend (set_insert y xs) ys u, contains-set_insert y xs u)

collect_along-lists :
    (g : EGraph) (chain : List ℕ) (p : ℕ) (found : List ℕ)
    → InRange (length g.states) chain
    → (l : List ℕ) × (collect_along g chain p found ≡ ok l)
      × ((q : ℕ) → contains l q ≡ (contains found q || lists g.states chain p q))
unfolding collect_along
collect_along-lists g [] p found h = (found, refl, λ q. ground arith)
collect_along-lists g (v ∷ rest) p found h =
    let (state, read) = get_elem?-some g.states v h.0 in
    let (l, run, has) =
      collect_along-lists g rest p (set_extend found (dependents_of state p)) h.1 in
    (
      l,
      rw read run,
      λ q. rw read (ground (arith, has q, contains-set_extend found (dependents_of state p) q)),
    )

lists-else :
    (states states' : List VersionState) (v p q : ℕ) (chain : List ℕ)
    → ((u : ℕ) → v ≢ u → get_elem? states' u ≡ get_elem? states u)
    → contains chain v ≡ false
    → lists states' chain p q ≡ lists states chain p q
lists-else states states' v p q [] same out = refl
lists-else states states' v p q (u ∷ rest) same out =
    let read : get_elem? states' u ≡ get_elem? states u = same u (ground arith) in
    rw (read, lists-else states states' v p q rest same (ground arith)) refl

abbrev depending : VersionState → ℕ → ℕ → VersionState
depending state arg_ty parent_ty = record state {
  dependents = insert arg_ty (set_insert parent_ty (dependents_of state arg_ty)) state.dependents;
}

depending-reads :
    (state : VersionState) (arg_ty parent_ty p : ℕ)
    → dependents_of (depending state arg_ty parent_ty) p ≡ (
        if arg_ty == p
        then set_insert parent_ty (dependents_of state arg_ty)
        else dependents_of state p)
depending-reads state arg_ty parent_ty p = elim (Bool-cases (arg_ty == p)) [
  | inl same ↦ rw (dependents_of, same) refl
  | inr differ ↦ rw (dependents_of, differ) refl
]

dependents_of-depending :
    (state : VersionState) (arg_ty parent_ty p q : ℕ)
    → contains (dependents_of (depending state arg_ty parent_ty) p) q
      ≡ (contains (dependents_of state p) q || (arg_ty == p && parent_ty == q))
dependents_of-depending state arg_ty parent_ty p q = elim (Bool-cases (arg_ty == p)) [
  | inl same ↦
      let e : arg_ty ≡ p = (==_iff arg_ty p).0 same in
      let has = contains-set_insert parent_ty (dependents_of state arg_ty) q in
      rw (depending-reads state arg_ty parent_ty p, same)
        (subst
          (λ k.
            contains (set_insert parent_ty (dependents_of state arg_ty)) q
            ≡ (contains (dependents_of state k) q || (parent_ty == q)))
          e has)
  | inr differ ↦ rw (depending-reads state arg_ty parent_ty p, differ) (ground arith)
]

module _ (g : EGraph) (v : ℕ) (state : VersionState) (arg_ty parent_ty : ℕ) (w : Wf g)
    (read : get_elem? g.states v ≡ some state) where
  abbrev extended : EGraph
  extended = write g v (depending state arg_ty parent_ty)

  extended-Step : Step g extended v []
  extended-Step = Step-write g v state (depending state arg_ty parent_ty) [] w read refl

  extended-lists :
      (chain : List ℕ)
      → Upward g.versions.nodes v chain
      → (p q : ℕ)
      → lists extended.states chain p q
        ≡ (lists g.states chain p q || (arg_ty == p && parent_ty == q))
  extended-lists chain up p q =
      let (rest, e, out) = Upward-head w.shaped up in
      let same = lists-else g.states extended.states v p q rest extended-Step.others out in
      let fresh : get_elem? extended.states v ≡ some (depending state arg_ty parent_ty) = ground (
        arith,
        get_elem?-set g.states v (depending state arg_ty parent_ty) v
            (get_elem?-lt g.states v read),
        ==_self v,
      ) in
      let has = dependents_of-depending state arg_ty parent_ty p q in
      rw (e, fresh, read, same, has)
        (shuffle (contains (dependents_of state p) q) (arg_ty == p && parent_ty == q)
          (lists g.states rest p q))
    where
      shuffle : (a b c : Bool) → ((a || b) || c) ≡ ((a || c) || b)
      shuffle true b c = refl
      shuffle false true true = refl
      shuffle false true false = refl
      shuffle false false true = refl
      shuffle false false false = refl

-- In a mutable version of a well-formed graph in which every class has a root, `add_dependent`
-- returns and changes neither the version's classes nor those of a version that does not see it,
-- and `collect_dependents` in the version then lists for the type what it listed before and the
-- new dependent, and for every other type what it listed before.
pub add_dependent-collects :
    (g : EGraph) (v arg_ty parent_ty : ℕ) (ρ : ℕ → ℕ)
    → Wf g
    → Classes g v ρ
    → assert_mutable g.versions v ≡ ok tt
    → (g' : EGraph) × (add_dependent g v arg_ty parent_ty ≡ ok g')
      × Rerooted g g' v ρ
      × ((p : ℕ)
          → (l : List ℕ) × (l' : List ℕ) × (collect_dependents g v p ≡ ok l)
            × (collect_dependents g' v p ≡ ok l')
            × ((q : ℕ) → contains l' q ≡ (contains l q || (arg_ty == p && parent_ty == q))))
unfolding add_dependent collect_dependents
add_dependent-collects g v arg_ty parent_ty ρ w classes mutable =
    let live = mutable_live g v mutable in
    let (state, read) = live-state g v w live in
    let (chain, run, up) = ancestors-Upward g.versions v w.shaped live in
    let g' : EGraph = extended g v state arg_ty parent_ty w read in
    let s : Step g g' v [] = extended-Step g v state arg_ty parent_ty w read in
    let range : InRange (length g.states) chain = chain_InRange g v w live chain up in
    let range' : InRange (length g'.states) chain = rw s.length_eq range in
    (
      g',
      rw (mutable, read) refl,
      record {
        wf = Step-Wf s w;
        versions_eq = s.versions_eq;
        classes = Step-Forest ρ s classes;
        others = λ u σ apart h. Step-Classes u σ s apart h;
      },
      λ p.
          let (l, run_l, has) = collect_along-lists g chain p [] range in
          let (l', run_l', has') = collect_along-lists g' chain p [] range' in
          (
            l,
            l',
            rw run run_l,
            rw run run_l',
            λ q.
                has' q
                ∙ extended-lists g v state arg_ty parent_ty w read chain up p q
                ∙ ap (λ b. b || (arg_ty == p && parent_ty == q)) (sym (has q)),
          ),
    )
