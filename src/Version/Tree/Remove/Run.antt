-- ===== src/Version/Tree/Remove/Run.antt =====
-- The recursion of `remove_subtree` of crates/sage-ir/src/check/infer/version.rs.
use sage_dev.Prelude.{
  ℕ, zero, suc, ◌+◌, ◌≤◌, ◌<◌, ◌≡◌, ◌∙◌, sym, refl, ◌⊎◌, ◌↔◌, inl, inr, some, true, false, List, [],
  ◌∷◌, ◌++◌, length, length-set, contains, arith, Bool-cases, ◌==◌, ok, Outcome, get_elem?, set,
  get_elem?-some, get_elem?-lt, ==_self, ==_iff,
}
use sage_dev.Version.Tree.{VersionNode, Removal, live_in, remove_each, remove_subtree, tombstone}
use sage_dev.Version.Tree.Wf.{
  parent_in, children_in, owned_in, Linked, Above, here, up, Above-trans, Above-live, Above-down,
}
use sage_dev.Version.Tree.Reads.{
  live_in-set, parent_in-set, children_in-set, owned_variables-set, contains-append,
}
use sage_dev.Version.Tree.Remove.{
  Cleared, Cleared-iff, Cleared-Linked, Cleared-trans, AboveAny, AboveAny-parents,
}
use sage_dev.Version.Tree.Shape.{parent_in-lt}

-- A removal that returns with the versions of `Gone` cleared.
abbrev pub Clears : (ℕ → Type 0) → List VersionNode → List ℕ → Outcome Removal → Type 0
Clears Gone nodes out r =
    (nodes' : List VersionNode) × (out' : List ℕ) × (r ≡ ok (nodes', out'))
    × Cleared Gone nodes nodes' out out'

down_closed :
    (nodes : List VersionNode) (c u p : ℕ)
    → parent_in nodes u ≡ some p
    → Above nodes c p
    → Above nodes c u
down_closed nodes c u p e h = up e h

next_or_first :
    (nodes m : List VersionNode) (c : ℕ) (cs : List ℕ)
    → ((u : ℕ) → parent_in m u ≡ parent_in nodes u)
    → (u : ℕ) → (Above nodes c u ⊎ AboveAny m cs u) ↔ AboveAny nodes (c ∷ cs) u
next_or_first nodes m c cs same u = (
  λ h. elim h [ inl a ↦ inl a | inr a ↦ inr (AboveAny-parents m nodes cs u (λ w. sym (same w)) a) ],
  λ h. elim h [ inl a ↦ inl a | inr a ↦ inr (AboveAny-parents nodes m cs u same a) ],
)

-- Clearing the children of a version one by one.
remove_each-Clears :
    (sub : List VersionNode → ℕ → List ℕ → Outcome Removal) (v : ℕ) (cs : List ℕ)
    (nodes : List VersionNode) (out : List ℕ)
    → ((m : List VersionNode) (c : ℕ) (o : List ℕ)
        → Linked m
        → length m ≡ length nodes
        → parent_in m c ≡ some v
        → Clears (Above m c) m o (sub m c o))
    → Linked nodes
    → ((c : ℕ) → contains cs c ≡ true → parent_in nodes c ≡ some v)
    → Clears (AboveAny nodes cs) nodes out (remove_each sub cs nodes out)
unfolding remove_each
remove_each-Clears sub v [] nodes out one k below = (
  nodes,
  out,
  refl,
  record {
    length_eq = refl;
    parent_eq = λ u. refl;
    owned_eq = λ u. refl;
    dead = λ u g. absurd g;
    kept = λ u. inl (refl, refl);
    shrunk = λ u c h. h;
    earlier = λ u h. h;
    reported = λ u h. inl h;
    complete = λ u l g. absurd g;
  },
)
remove_each-Clears sub v (c ∷ cs) nodes out one k below =
    let (m, o, run, first) = one nodes c out k refl (below c (ground (arith, ==_self c))) in
    let k' : Linked m = Cleared-Linked first k (down_closed nodes c) in
    let (n, o', run', rest) =
      remove_each-Clears sub v cs m o
        (λ m' c' o'' kk len par. one m' c' o'' kk (len ∙ first.length_eq) par) k'
        (λ d h. first.parent_eq d ∙ below d (ground arith)) in
    (
      n,
      o',
      rw run run',
      Cleared-iff (next_or_first nodes m c cs first.parent_eq) (Cleared-trans first rest),
    )

-- Clearing the children clears what lies below `v`; `v` itself comes last.
module _ (v : ℕ) (nodes m : List VersionNode) (node node' : VersionNode) (out o : List ℕ)
    (read : get_elem? nodes v ≡ some node) (read' : get_elem? m v ≡ some node') (k : Linked nodes)
    (r : Cleared (AboveAny nodes node.children) nodes m out o) where
  children_eq : children_in nodes v ≡ node.children
  children_eq = rw (read, children_in)

  in_range : v < length m
  in_range = get_elem?-lt m v read'

  AboveAny-Above :
      (cs : List ℕ)
      → ((c : ℕ) → contains cs c ≡ true → parent_in nodes c ≡ some v)
      → (u : ℕ) → AboveAny nodes cs u
      → Above nodes v u
  AboveAny-Above [] below u h = absurd h
  AboveAny-Above (c ∷ cs) below u (inl h) =
      Above-trans (up (below c (ground (arith, ==_self c))) here) h
  AboveAny-Above (c ∷ cs) below u (inr h) = AboveAny-Above cs (λ d e. below d (ground arith)) u h

  listed_below :
      (cs : List ℕ) (c u : ℕ) → contains cs c ≡ true → Above nodes c u → AboveAny nodes cs u
  listed_below [] c u h above = cc
  listed_below (d ∷ cs) c u h above = elim (Bool-cases (d == c)) [
    | inl same ↦ inl (let e : d ≡ c = (==_iff d c).0 same in rw e above)
    | inr differ ↦ inr (listed_below cs c u (ground arith) above)
  ]

  -- A live version below `v` lies at or below a child of `v`, or is `v`.
  below_child :
      (u : ℕ) → Above nodes v u → live_in nodes u ≡ true → (u ≡ v) ⊎ AboveAny nodes node.children u
  below_child u above live = elim (Above-down above) [
    | inl e ↦ inl (sym e)
    | inr (c, par, rest) ↦ inr (
        listed_below node.children c u
          (rw children_eq at (k.listed c v (Above-live k rest live) par)) rest)
  ]

  child_parent : (c : ℕ) → contains node.children c ≡ true → parent_in nodes c ≡ some v
  child_parent c h = k.child v c (rw children_eq h)

  dead_below : (u : ℕ) → Above nodes v u → live_in (set m v (tombstone node')) u ≡ false
  dead_below u above = elim (Bool-cases (v == u)) [
    | inl same ↦ ground (arith, live_in-set m v (tombstone node') u in_range)
    | inr differ ↦ elim (r.kept u) [
      | inl (e, _) ↦ elim (Bool-cases (live_in nodes u)) [
        | inl l ↦ elim (below_child u above l) [
          | inl q ↦ absurd (ground arith)
          | inr g ↦
              let d : live_in m u ≡ false = r.dead u g in
              ground (arith, live_in-set m v (tombstone node') u in_range)
        ]
        | inr l ↦ ground (arith, live_in-set m v (tombstone node') u in_range)
      ]
      | inr g ↦
          let d : live_in m u ≡ false = r.dead u g in
          ground (arith, live_in-set m v (tombstone node') u in_range)
    ]
  ]

  owned_below : (u : ℕ) → owned_in (set m v (tombstone node')) u ≡ owned_in nodes u
  owned_below u =
      let before = r.owned_eq u in
      ground (arith, owned_variables-set m v (tombstone node') u in_range)

  subtree-Cleared : Cleared (Above nodes v) nodes (set m v (tombstone node')) out (o ++ v ∷ [])
  subtree-Cleared = record {
    length_eq = length-set m v (tombstone node') ∙ r.length_eq;
    parent_eq = λ u. ground (arith, r.parent_eq u, parent_in-set m v (tombstone node') u in_range);
    owned_eq = owned_below;
    dead = dead_below;
    kept = λ u. elim (Bool-cases (v == u)) [
      | inl same ↦ inr (let e : v ≡ u = (==_iff v u).0 same in rw e here)
      | inr differ ↦ elim (r.kept u) [
        | inl (e, f) ↦ inl (
          ground (arith, live_in-set m v (tombstone node') u in_range),
          ground (arith, children_in-set m v (tombstone node') u in_range),
        )
        | inr g ↦ inr (AboveAny-Above node.children child_parent u g)
      ]
    ];
    shrunk =
        λ u c h. ground (arith, r.shrunk u c, children_in-set m v (tombstone node') u in_range);
    earlier = λ u h. ground (arith, r.earlier u, contains-append o (v ∷ []) u);
    reported = λ u h. elim (Bool-cases (v == u)) [
      | inl same ↦ inr (let e : v ≡ u = (==_iff v u).0 same in rw e here)
      | inr differ ↦ elim (r.reported u (ground (arith, contains-append o (v ∷ []) u))) [
        | inl h' ↦ inl h'
        | inr g ↦ inr (AboveAny-Above node.children child_parent u g)
      ]
    ];
    complete = λ u live above. elim (below_child u above live) [
      | inl e ↦ ground (arith, contains-append o (v ∷ []) u)
      | inr g ↦
          let found : contains o u ≡ true = r.complete u live g in
          ground (arith, contains-append o (v ∷ []) u)
    ];
  }

-- The whole subtree of a version in range is removed: with as much fuel as there are versions from
-- `v` on, the call returns, every version at or below `v` is dead, and all others are as they were.
pub remove_subtree-Clears :
    (f : ℕ) (nodes : List VersionNode) (v : ℕ) (out : List ℕ)
    → Linked nodes
    → v < length nodes
    → length nodes ≤ f + v
    → Clears (Above nodes v) nodes out (remove_subtree f nodes v out)
unfolding remove_subtree
remove_subtree-Clears zero nodes v out k lt fuel = absurd (omega arith)
remove_subtree-Clears (suc f) nodes v out k lt fuel =
    let (node, read) = get_elem?-some nodes v lt in
    let (m, o, run, r) =
      remove_each-Clears (remove_subtree f) v node.children nodes out
        (λ m' c o' k' len par.
          remove_subtree-Clears f m' c o' k' (parent_in-lt m' c v par)
            (omega (arith, k'.parent_lt c v par)))
        k (λ c h. k.child v c (rw (read, children_in) h)) in
    let (node', read') = get_elem?-some m v (omega (arith, r.length_eq)) in
    (
      set m v (tombstone node'),
      o ++ v ∷ [],
      rw (read, run, read') refl,
      subtree-Cleared v nodes m node node' out o read read' k r,
    )
