-- ===== src/Version/Tree/Ancestry.antt =====
-- The loops up the tree of crates/sage-ir/src/check/infer/version.rs: `is_ancestor` and the iterator
-- `ancestors`.
use sage_dev.Prelude.{
  ℕ, zero, suc, ◌<◌, ◌≡◌, ap, sym, refl, ◌≢◌, ◌↔◌, inl, inr, some, none, Option-cases, Bool-cases,
  ==_iff, Bool, true, false, List, [], ◌∷◌, arith, ◌==◌, length, contains, ok, get_elem?-some,
}
use sage_dev.Version.Tree.{
  VersionNode, VersionTree, is_live, ancestor_loop, is_ancestor, ancestors_loop, ancestors,
}
use sage_dev.Version.Tree.Wf.{parent_in, Shaped, Above, here, up, Above-cases}
use sage_dev.Version.Tree.Reads.{live_in-lt}

abbrev pub Decides : List VersionNode → ℕ → ℕ → ℕ → Type 0
Decides nodes f a v =
    (b : Bool) × (ancestor_loop f nodes a v ≡ ok b) × ((b ≡ true) ↔ Above nodes a v)

not-Above_root :
    {nodes : List VersionNode} {a v : ℕ} → parent_in nodes v ≡ none → a ≢ v → Above nodes a v → ⊥
not-Above_root e ne h = elim (Above-cases h) [ inl q ↦ ne q | inr (p, k, _) ↦ cc ]

ancestor_loop-Decides :
    (nodes : List VersionNode) (f a v : ℕ)
    → Shaped nodes
    → v < f
    → v < length nodes
    → Decides nodes f a v
unfolding ancestor_loop
ancestor_loop-Decides nodes zero a v s h lt = elim h [ ]
ancestor_loop-Decides nodes (suc f) a v s h lt = elim (Bool-cases (a == v)) [
  | inl same ↦
      let e : a ≡ v = (==_iff a v).0 same in
      (true, rw (same, ancestor_loop), (λ _. rw e here, λ _. refl))
  | inr differ ↦
      let ne : a ≢ v = ground arith in
      let (node, read) = get_elem?-some nodes v lt in
      elim (Option-cases node.parent) [
        | inl top ↦
            let root : parent_in nodes v ≡ none = ground arith in
            (false, ground arith, (λ t. cc, λ k. absurd (not-Above_root root ne k)))
        | inr (p, link) ↦
            let linked : parent_in nodes v ≡ some p = ground arith in
            let below : p < v = s.parent_lt v p linked in
            let (b, run, decide) =
              ancestor_loop-Decides nodes f a p s (omega arith) (omega arith) in
            (
              b,
              ground arith,
              (
                λ t. up linked (decide.0 t),
                λ k. elim (Above-cases k) [
                  | inl q ↦ absurd (ne q)
                  | inr (p', link', rest) ↦ decide.1 (let e : p' ≡ p = cc in rw e at rest)
                ],
              ),
            )
      ]
]

-- Between live versions of a well-formed tree `is_ancestor` returns, and says whether going up from
-- the second version reaches the first.
pub is_ancestor-Above :
    (t : VersionTree) (a v : ℕ)
    → Shaped t.nodes
    → is_live t a ≡ true
    → is_live t v ≡ true
    → (b : Bool) × (is_ancestor t a v ≡ ok b) × ((b ≡ true) ↔ Above t.nodes a v)
unfolding is_ancestor
is_ancestor-Above t a v s la lv =
    let (b, run, decide) =
      ancestor_loop-Decides t.nodes (suc v) a v s (omega arith) (live_in-lt t.nodes v lv) in
    (b, ground arith, decide)

-- The versions from `v` up to the root, in this order.
pub data Upward (nodes : List VersionNode) : ℕ → List ℕ → Type 0 where
  top : {v : ℕ} → parent_in nodes v ≡ none → Upward nodes v (v ∷ [])
  step :
      {v p : ℕ} {rest : List ℕ}
      → parent_in nodes v ≡ some p
      → Upward nodes p rest
      → Upward nodes v (v ∷ rest)

pub ancestors_loop-Upward :
    (nodes : List VersionNode) (f v : ℕ)
    → Shaped nodes
    → v < f
    → v < length nodes
    → (l : List ℕ) × (ancestors_loop f nodes v ≡ ok l) × Upward nodes v l
unfolding ancestors_loop
ancestors_loop-Upward nodes zero v s h lt = elim h [ ]
ancestors_loop-Upward nodes (suc f) v s h lt =
    let (node, read) = get_elem?-some nodes v lt in
    elim (Option-cases node.parent) [
      | inl root ↦ (v ∷ [], ground arith, top (ground arith))
      | inr (p, link) ↦
          let linked : parent_in nodes v ≡ some p = ground arith in
          let below : p < v = s.parent_lt v p linked in
          let (l, run, chain) = ancestors_loop-Upward nodes f p s (omega arith) (omega arith) in
          (v ∷ l, ground arith, step linked chain)
    ]

pub Upward-Above :
    {nodes : List VersionNode} {v : ℕ} {l : List ℕ}
    → Upward nodes v l
    → (a : ℕ) → (contains l a ≡ true) ↔ Above nodes a v
Upward-Above {nodes} (top {v} root) a = (
  λ c. let e : a ≡ v = ground arith in rw e here,
  λ k. elim (Bool-cases (v == a)) [
    | inl same ↦ ground arith
    | inr differ ↦ absurd (not-Above_root root (ground arith) k)
  ],
)
Upward-Above {nodes} (step {v} {p} {rest} link chain) a =
    let ih = Upward-Above chain a in
    (
      λ c. elim (Bool-cases (v == a)) [
        | inl same ↦ let e : a ≡ v = ground arith in rw e here
        | inr differ ↦ up link (ih.0 (ground arith))
      ],
      λ k. elim (Above-cases k) [
        | inl e ↦ ground arith
        | inr (p', link', above) ↦
            let e : p' ≡ p = cc in
            let found : contains rest a ≡ true = ih.1 (rw e at above) in ground arith
      ],
    )

-- The chain from a version is unique, and depends on the parents alone.
pub Upward-unique :
    {m n : List VersionNode} {v : ℕ} {k l : List ℕ}
    → ((u : ℕ) → contains k u ≡ true → parent_in n u ≡ parent_in m u)
    → Upward m v k
    → Upward n v l
    → k ≡ l
Upward-unique same (top r) (top r') = refl
Upward-unique same (top {v} r) (step link c) = absurd (cc (same v (ground arith)))
Upward-unique same (step {v} link c) (top r) = absurd (cc (same v (ground arith)))
Upward-unique same (step {v} {p} {rest} link c) (step {p = p'} link' c') =
    let e : p ≡ p' = cc (same v (ground arith)) in
    ap (◌∷◌ v) (Upward-unique (λ u h. same u (ground arith)) c (rw (sym e) at c'))

-- In a well-formed tree the iterator over the ancestors of a live version ends, and yields the
-- version and then its parents up to the root.
pub ancestors-Upward :
    (t : VersionTree) (v : ℕ)
    → Shaped t.nodes
    → is_live t v ≡ true
    → (l : List ℕ) × (ancestors t v ≡ ok l) × Upward t.nodes v l
unfolding ancestors
ancestors-Upward t v s lv =
    let (l, run, chain) =
      ancestors_loop-Upward t.nodes (suc v) v s (omega arith) (live_in-lt t.nodes v lv) in
    (l, ground arith, chain)
