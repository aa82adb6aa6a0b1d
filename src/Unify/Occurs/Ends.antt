-- ===== src/Unify/Occurs/Ends.antt =====
-- `occurs_in` of crates/sage-ir/src/check/infer/unify.rs ends: it visits every entry once at most.
use sage_dev.Prelude.{
  ℕ, zero, suc, ◌+◌, ◌≤◌, ◌<◌, ◌≡◌, ◌≢◌, sym, refl, Bool, true, false, Bool-cases, Option-cases,
  inl, inr, given, List, [], ◌∷◌, ◌==◌, contains, Outcome, ok, out_of_fuel, arith, length,
  get_elem?, get_elem?-lt, if◌then◌else◌,
}
use sage_dev.Ty.{Ty, Cell, named, associated, opaque, ptr, ty}
use sage_dev.Stash.{Stash, read_slice, read_ptr}
use sage_dev.Version.Tree.{is_live}
use sage_dev.Version.Tree.Ancestry.{ancestors-Upward}
use sage_dev.EGraph.{EGraph, bound_ty, ty_at, as_infer_var, find}
use sage_dev.EGraph.Find.{Wf, Classes, find-root, chain_InRange, nearest-view}
use sage_dev.EGraph.Facts.{get_bound}
use sage_dev.Skeleton.{decompose, decompose_ty, slice_at, pointers}
use sage_dev.Unify.{occurs_any, occurs_in}
use sage_dev.Unify.Occurs.{Found, occurs_in-Found}

-- How many of the first `n` entries were not visited.
abbrev unvisited : ℕ → List ℕ → ℕ
unvisited zero visited = 0
unvisited (suc k) visited = (if contains visited k then 0 else 1) + unvisited k visited

unvisited-nil : (n : ℕ) → unvisited n [] ≡ n
unvisited-nil zero = refl
unvisited-nil (suc k) = omega (arith, unvisited-nil k)

unvisited-le :
    (n : ℕ) (a b : List ℕ)
    → ((u : ℕ) → contains a u ≡ true → contains b u ≡ true)
    → unvisited n b ≤ unvisited n a
unvisited-le zero a b more = omega arith
unvisited-le (suc k) a b more = ground (arith, unvisited-le k a b more, more k)

unvisited-lt :
    (n root : ℕ) (visited : List ℕ)
    → root < n
    → contains visited root ≡ false
    → unvisited n (root ∷ visited) < unvisited n visited
unvisited-lt zero root visited lt new = absurd (omega arith)
unvisited-lt (suc k) root visited lt new = elim (Bool-cases (root == k)) [
  | inl last ↦ ground (arith, unvisited-le k visited (root ∷ visited) (λ u h. ground arith))
  | inr before ↦ ground (arith, unvisited-lt k root visited (ground arith) new)
]

module _ (stash : Stash Cell) where
  ty_at-ends : (p : ℕ) → ty_at stash p ≢ out_of_fuel
  unfolding ty_at read_ptr read_slice
  ty_at-ends p h = ground arith

  ty_at-lt : (p : ℕ) {t : Ty} → ty_at stash p ≡ ok t → p < length stash.entries
  unfolding ty_at read_ptr read_slice
  ty_at-lt p h = elim (Option-cases (get_elem? stash.entries p)) [
    | inl missing ↦ absurd (ground arith)
    | inr (e, here) ↦ get_elem?-lt stash.entries p here
  ]

  pointers-ends : (cs : List Cell) → pointers cs ≢ out_of_fuel
  unfolding pointers
  pointers-ends [] h = cc
  pointers-ends (ptr p ∷ cs) h = ground (arith, pointers-ends cs)
  pointers-ends (ty t ∷ cs) h = cc

  slice_at-ends : (i : ℕ) → slice_at stash i ≢ out_of_fuel
  unfolding slice_at read_slice
  slice_at-ends i h = elim (Option-cases (get_elem? stash.entries i)) [
    | inl missing ↦ ground arith
    | inr (e, here) ↦ ground (arith, pointers-ends e.contents)
  ]

  decompose_ty-ends : (t : Ty) → decompose_ty stash t ≢ out_of_fuel
  unfolding decompose_ty
  decompose_ty-ends (Ty.adt sym args) h = ground (arith, slice_at-ends args)
  decompose_ty-ends (Ty.alias (named a)) h = ground (arith, slice_at-ends a.args)
  decompose_ty-ends (Ty.alias (associated a)) h =
      ground (arith, slice_at-ends a.trait_ref.args, slice_at-ends a.args)
  decompose_ty-ends (Ty.alias (opaque a)) h = ground (arith, slice_at-ends a.args)
  decompose_ty-ends (Ty.tuple elems) h = ground (arith, slice_at-ends elems)
  decompose_ty-ends (Ty.fn_ptr params ret) h = ground (arith, slice_at-ends params)
  decompose_ty-ends _ h = ground arith

  decompose-ends : (p : ℕ) → decompose stash p ≢ out_of_fuel
  unfolding decompose
  decompose-ends p h =
      given (ty_at stash p) (λ bad. ground (arith, ty_at-ends p))
        λ t read. ground (arith, decompose_ty-ends t)

module _ (g : EGraph) (stash : Stash Cell) (v : ℕ) (ρ : ℕ → ℕ) (w : Wf g)
    (live : is_live g.versions v ≡ true) (classes : Classes g v ρ) where
  find-ends : (p : ℕ) → find g v p ≢ out_of_fuel
  find-ends p h = let found = find-root g v w live ρ p classes in cc

  get_bound-ends : (p : ℕ) → get_bound g v p ≢ out_of_fuel
  unfolding get_bound
  get_bound-ends p h =
      let (chain, run, up) = ancestors-Upward g.versions v w.shaped live in
      let read =
        nearest-view (λ s. s.bounds) g.states chain p (chain_InRange g v w live chain up) in
      ground arith

  occurs_any-ends :
      (needle m : ℕ) (sub : List ℕ → ℕ → Outcome (List ℕ × Bool))
      → ((old : List ℕ) (p : ℕ) (r : List ℕ × Bool)
          → sub old p ≡ ok r
          → Found g stash v needle old p r)
      → ((old : List ℕ) (p : ℕ)
          → unvisited (length stash.entries) old < m
          → sub old p ≢ out_of_fuel)
      → (old cs : List ℕ) → unvisited (length stash.entries) old < m
      → occurs_any sub old cs ≢ out_of_fuel
  unfolding occurs_any
  occurs_any-ends needle m sub found ends old [] lt h = cc
  occurs_any-ends needle m sub found ends old (c ∷ cs) lt h =
      given (sub old c) (λ bad. ground (arith, ends old c lt))
        λ r run. elim (Bool-cases r.1) [
          | inl hit ↦ ground arith
          | inr miss ↦
              let (searched, covered) = (found old c r run).1 miss in
              let le = unvisited-le (length stash.entries) old r.0 searched.grown in
              occurs_any-ends needle m sub found ends r.0 cs (omega arith) (ground arith)
        ]

  occurs_in-ends :
      (needle f : ℕ) (old : List ℕ) (p : ℕ)
      → unvisited (length stash.entries) old < f
      → occurs_in f g stash v needle old p ≢ out_of_fuel
  unfolding occurs_in
  occurs_in-ends needle zero old p lt h = absurd (omega arith)
  occurs_in-ends needle (suc f) old p lt h =
      given (find g v p) (λ bad. ground (arith, find-ends p))
        λ root found. elim (Bool-cases (contains old root)) [
          | inl again ↦ ground arith
          | inr new ↦
              given (ty_at stash root) (λ bad. ground (arith, ty_at-ends stash root))
                λ t read.
                  let less =
                    unvisited-lt (length stash.entries) root old (ty_at-lt stash root read) new in
                  elim (Option-cases (as_infer_var t)) [
                    | inr (index, variable) ↦ elim (Bool-cases (index == needle)) [
                      | inl hit ↦ ground arith
                      | inr miss ↦
                          given (get_bound g v root) (λ bad. ground (arith, get_bound-ends root))
                            λ bound bounded. elim (Option-cases (bound_ty bound)) [
                              | inl free ↦ ground arith
                              | inr (q, tied) ↦
                                  occurs_in-ends needle f (root ∷ old) q (omega arith)
                                    (ground arith)
                            ]
                    ]
                    | inl rigid ↦
                        given (decompose stash root)
                          (λ bad. ground (arith, decompose-ends stash root))
                          λ d parts.
                            occurs_any-ends needle f (occurs_in f g stash v needle)
                              (occurs_in-Found g stash v f needle)
                              (λ x q lt'. occurs_in-ends needle f x q lt') (root ∷ old) d.children
                              (omega arith) (ground arith)
                  ]
        ]

  -- In a live version of a well-formed graph in which every class has a root, one more round than the
  -- stash has entries is enough fuel for the search.
  pub occurs_in-returns :
      (needle p f : ℕ) → length stash.entries < f → occurs_in f g stash v needle [] p ≢ out_of_fuel
  occurs_in-returns needle p f lt =
      occurs_in-ends needle f [] p (omega (arith, unvisited-nil (length stash.entries)))
