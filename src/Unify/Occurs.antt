-- ===== src/Unify/Occurs.antt =====
-- `occurs_in` of crates/sage-ir/src/check/infer/unify.rs: a search through bounds and children.
pub mod Decides
pub mod Ends
use sage_dev.Prelude.{
  ℕ, zero, suc, ◌≡◌, ◌≢◌, ◌∙◌, sym, refl, ap, Bool, true, false, Bool-cases, Option-cases, inl, inr,
  given, none, some, List, [], ◌∷◌, ◌==◌, ==_iff, ==_self, ne-of-==, contains, Outcome, ok, arith,
}
use sage_dev.Ty.{Ty, infer_var, Cell}
use sage_dev.Stash.{Stash}
use sage_dev.EGraph.{EGraph, Bound, bound_ty, ty_at, as_infer_var, find}
use sage_dev.EGraph.Facts.{get_bound}
use sage_dev.Skeleton.{Decomposed, decompose, decompose_ty}
use sage_dev.Unify.{occurs_any, occurs_in}

pub as_infer_var-some : (t : Ty) {index : ℕ} → as_infer_var t ≡ some index → t ≡ infer_var index
as_infer_var-some (infer_var i) e = cc
as_infer_var-some _ e = cc

module _ (g : EGraph) (stash : Stash Cell) (v : ℕ) where
  -- One step from a root: to the bound of a variable, or to a child of a type.
  pub data Leads : ℕ → ℕ → Type 0 where
    bound_to :
        {p q index : ℕ} {b : Bound}
        → ty_at stash p ≡ ok (infer_var index)
        → get_bound g v p ≡ ok b
        → bound_ty b ≡ some q
        → Leads p q
    child :
        {p q : ℕ} {d : Decomposed}
        → decompose stash p ≡ ok d
        → contains d.children q ≡ true
        → Leads p q

  -- `Reaches p r`: the root `r` is that of `p`, or of something inside it.
  pub data Reaches : ℕ → ℕ → Type 0 where
    at_root : {p r : ℕ} → find g v p ≡ ok r → Reaches p r
    inside : {p q s r : ℕ} → find g v p ≡ ok q → Leads q s → Reaches s r → Reaches p r

  -- The variable `needle` is the root of `p`, or stands inside it.
  pub record Occurs (needle p : ℕ) : Type 0 where
    pub place : ℕ
    pub reached : Reaches p place
    pub variable : ty_at stash place ≡ ok (infer_var needle)

  -- What the search knows of a root once it has left it: the needle is not there, and what it leads to
  -- has been visited.
  pub record Explored (needle : ℕ) (visited : List ℕ) (q : ℕ) : Type 0 where
    pub absent : ty_at stash q ≢ ok (infer_var needle)
    pub onward : (s : ℕ) → Leads q s → (r : ℕ) × (find g v s ≡ ok r) × (contains visited r ≡ true)

  -- A search without success that took the set of visited roots from `old` to `visited`.
  pub record Searched (needle : ℕ) (old visited : List ℕ) : Type 0 where
    pub grown : (u : ℕ) → contains old u ≡ true → contains visited u ≡ true
    pub explored :
        (q : ℕ) → contains visited q ≡ true → contains old q ≡ false → Explored needle visited q

  abbrev pub Covered : List ℕ → ℕ → Type 0
  Covered visited p = (r : ℕ) × (find g v p ≡ ok r) × (contains visited r ≡ true)

  Searched-refl : (needle : ℕ) (visited : List ℕ) → Searched needle visited visited
  Searched-refl needle visited = record { grown = λ u h. h; explored = λ q h new. absurd (cc) }

  Explored-grown :
      {needle : ℕ} {a b : List ℕ} (q : ℕ)
      → ((u : ℕ) → contains a u ≡ true → contains b u ≡ true)
      → Explored needle a q
      → Explored needle b q
  Explored-grown q more x = record {
    absent = x.absent;
    onward = λ s leads. let (r, found, seen) = x.onward s leads in (r, found, more r seen);
  }

  Searched-trans :
      {needle : ℕ} {a b c : List ℕ}
      → Searched needle a b
      → Searched needle b c
      → Searched needle a c
  Searched-trans {needle} {a} {b} {c} x y = record {
    grown = λ u h. y.grown u (x.grown u h);
    explored = λ q seen new. elim (Bool-cases (contains b q)) [
      | inl before ↦ Explored-grown q y.grown (x.explored q before new)
      | inr after ↦ y.explored q seen after
    ];
  }

  -- The search of a root that was not visited before, through what it leads to.
  Searched-root :
      {needle : ℕ} (old visited : List ℕ) (root : ℕ)
      → Searched needle (root ∷ old) visited
      → (ty_at stash root ≢ ok (infer_var needle))
      → ((s : ℕ) → Leads root s → Covered visited s)
      → Searched needle old visited
  Searched-root old visited root x absent onward = record {
    grown = λ u h. x.grown u (ground arith);
    explored = λ q seen new. elim (Bool-cases (root == q)) [
      | inl same ↦
          let e : root ≡ q = (==_iff root q).0 same in
          rw (sym e) (record { absent = absent; onward = onward })
      | inr other ↦ x.explored q seen (ground arith)
    ];
  }

  abbrev pub Found : ℕ → List ℕ → ℕ → List ℕ × Bool → Type 0
  Found needle old p r =
      (r.1 ≡ true → Occurs needle p) × (r.1 ≡ false → Searched needle old r.0 × Covered r.0 p)

  occurs_any-Searched :
      (needle : ℕ) (sub : List ℕ → ℕ → Outcome (List ℕ × Bool))
      → ((old : List ℕ) (p : ℕ) (r : List ℕ × Bool) → sub old p ≡ ok r → Found needle old p r)
      → (old cs : List ℕ) (r : List ℕ × Bool) → occurs_any sub old cs ≡ ok r
      → (r.1 ≡ true → (c : ℕ) × (contains cs c ≡ true) × Occurs needle c)
        × (r.1 ≡ false → Searched needle old r.0 × ((c : ℕ) → contains cs c ≡ true → Covered r.0 c))
  unfolding occurs_any
  occurs_any-Searched needle sub each old [] r e = (
    λ h. absurd (ground arith),
    λ h.
        let same : r.0 ≡ old = ground arith in
        (rw same (Searched-refl needle old), λ c h. absurd (cc)),
  )
  occurs_any-Searched needle sub each old (c ∷ cs) r e =
      given (sub old c) (λ bad. absurd (ground arith))
        λ r1 run.
          let first = each old c r1 run in
          elim (Bool-cases r1.1) [
            | inl hit ↦
                let same : r1 ≡ r = ground arith in
                let missed : r.1 ≡ true = ap (λ x. x.1) (sym same) ∙ hit in
                (λ h. (c, ground (arith, ==_self c), first.0 hit), λ h. absurd (cc))
            | inr miss ↦
                let rest = occurs_any-Searched needle sub each r1.0 cs r (ground arith) in
                let (searched, covered) = first.1 miss in
                (
                  λ h. let (d, listed, occurs) = rest.0 h in (d, ground arith, occurs),
                  λ h.
                      let (searched', covered') = rest.1 h in
                      (
                        Searched-trans searched searched',
                        λ d listed. elim (Bool-cases (c == d)) [
                          | inl same ↦
                              let (root, found, seen) = covered in
                              let q : c ≡ d = (==_iff c d).0 same in
                              (root, rw (sym q) found, searched'.grown root seen)
                          | inr other ↦ covered' d (ground arith)
                        ],
                      ),
                )
          ]

  variable_childless :
      (p index : ℕ) (d : Decomposed)
      → ty_at stash p ≡ ok (infer_var index)
      → decompose stash p ≡ ok d
      → d.children ≡ []
  unfolding decompose decompose_ty
  variable_childless p index d read parts = ground arith

  variable-Leads :
      {p s : ℕ} (index : ℕ) (b : Bound)
      → ty_at stash p ≡ ok (infer_var index)
      → get_bound g v p ≡ ok b
      → Leads p s
      → bound_ty b ≡ some s
  variable-Leads {p} {s} index b read bounded (bound_to {b = b'} read' bounded' tied) =
      let same : b' ≡ b = cc in ap bound_ty (sym same) ∙ tied
  variable-Leads {p} {s} index b read bounded (child {d} parts listed) =
      let none_there = variable_childless p index d read parts in absurd (ground arith)

  rigid-Leads :
      {p s : ℕ} (t : Ty) (d : Decomposed)
      → ty_at stash p ≡ ok t
      → as_infer_var t ≡ none
      → decompose stash p ≡ ok d
      → Leads p s
      → contains d.children s ≡ true
  rigid-Leads t d read rigid parts (bound_to {index} read' bounded tied) =
      let same : t ≡ infer_var index = cc in absurd (ground arith)
  rigid-Leads {p} {s} t d read rigid parts (child {d = d'} parts' listed) =
      let same : d' ≡ d = cc in rw (sym same) listed

  Reached-Occurs :
      {needle p q s : ℕ} → find g v p ≡ ok q → Leads q s → Occurs needle s → Occurs needle p
  Reached-Occurs found leads o = record {
    place = o.place;
    reached = inside found leads o.reached;
    variable = o.variable;
  }

  pub occurs_in-Found :
      (f needle : ℕ) (old : List ℕ) (p : ℕ) (r : List ℕ × Bool)
      → occurs_in f g stash v needle old p ≡ ok r
      → Found needle old p r
  unfolding occurs_in
  occurs_in-Found zero needle old p r e = absurd (cc)
  occurs_in-Found (suc f) needle old p r e =
      given (find g v p) (λ bad. absurd (ground arith))
        λ root found. elim (Bool-cases (contains old root)) [
          | inl again ↦
              let same : r ≡ (old, false) = ground arith in
              rw same (λ h. absurd (cc), λ h. (Searched-refl needle old, (root, found, again)))
          | inr new ↦
              given (ty_at stash root) (λ bad. absurd (ground arith))
                λ root_ty read. elim (Option-cases (as_infer_var root_ty)) [
                  | inr (index, variable) ↦
                      let is_var = as_infer_var-some root_ty variable in
                      let read' : ty_at stash root ≡ ok (infer_var index) =
                        read ∙ ap (λ t. ok t) is_var in
                      elim (Bool-cases (index == needle)) [
                        | inl hit ↦
                            let same : r ≡ (root ∷ old, true) = ground arith in
                            let is_needle : index ≡ needle = (==_iff index needle).0 hit in
                            rw same (
                              λ h. record {
                                place = root;
                                reached = at_root found;
                                variable = rw is_needle at read';
                              },
                              λ h. absurd (cc),
                            )
                        | inr miss ↦
                            let absent : ty_at stash root ≢ ok (infer_var needle) =
                              λ h. ne-of-== index needle miss (cc) in
                            given (get_bound g v root) (λ bad. absurd (ground arith))
                              λ bound bounded. elim (Option-cases (bound_ty bound)) [
                                | inl free ↦
                                    let same : r ≡ (root ∷ old, false) = ground arith in
                                    rw same (
                                      λ h. absurd (cc),
                                      λ h. (
                                        Searched-root old (root ∷ old) root
                                            (Searched-refl needle (root ∷ old)) absent
                                            (λ s leads.
                                              let tied =
                                                variable-Leads index bound read' bounded leads in
                                              absurd (cc)),
                                        (root, found, ground (arith, ==_self root)),
                                      ),
                                    )
                                | inr (q, tied) ↦
                                    let onward : Leads root q = bound_to read' bounded tied in
                                    let rest =
                                      occurs_in-Found f needle (root ∷ old) q r (ground arith) in
                                    (
                                      λ h. Reached-Occurs found onward (rest.0 h),
                                      λ h.
                                          let (searched, covered) = rest.1 h in
                                          (
                                            Searched-root old r.0 root searched absent (λ s leads.
                                                let tied' =
                                                  variable-Leads index bound read' bounded leads in
                                                let agree : q ≡ s = cc in rw agree at covered),
                                            (
                                              root,
                                              found,
                                              searched.grown root (ground (arith, ==_self root)),
                                            ),
                                          ),
                                    )
                              ]
                      ]
                  | inl rigid ↦
                      given (decompose stash root) (λ bad. absurd (ground arith))
                        λ d parts.
                          let rest =
                            occurs_any-Searched needle (occurs_in f g stash v needle)
                              (occurs_in-Found f needle) (root ∷ old) d.children r (ground arith) in
                          (
                            λ h.
                                let (c, listed, occurs) = rest.0 h in
                                Reached-Occurs found (child parts listed) occurs,
                            λ h.
                                let (searched, covered) = rest.1 h in
                                (
                                  Searched-root old r.0 root searched
                                      (λ there.
                                        let same : root_ty ≡ infer_var needle = cc in
                                        absurd (ground arith))
                                      (λ s leads.
                                        covered s (rigid-Leads root_ty d read rigid parts leads)),
                                  (root, found, searched.grown root (ground (arith, ==_self root))),
                                ),
                          )
                ]
        ]
