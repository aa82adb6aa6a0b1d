-- ===== src/Unify/Occurs/Decides.antt =====
-- What `occurs_in` of crates/sage-ir/src/check/infer/unify.rs decides, and how much fuel it wants.
use sage_dev.Prelude.{
  ℕ, ◌≡◌, ◌↔◌, sym, refl, Bool, true, Bool-cases, inl, inr, List, [], contains, ok,
}
use sage_dev.Ty.{Cell}
use sage_dev.Stash.{Stash}
use sage_dev.EGraph.{EGraph}
use sage_dev.Unify.{occurs_in}
use sage_dev.Unify.Occurs.{Reaches, at_root, inside, Occurs, Searched, Covered, occurs_in-Found}

module _ (g : EGraph) (stash : Stash Cell) (v : ℕ) where
  Reaches-visited :
      {needle : ℕ} {visited : List ℕ} {p r : ℕ}
      → Searched g stash v needle [] visited
      → Covered g stash v visited p
      → Reaches g stash v p r
      → contains visited r ≡ true
  Reaches-visited {visited} searched (root, found, seen) (at_root {r} found') =
      let same : root ≡ r = cc in rw (sym same) seen
  Reaches-visited {visited} searched (root, found, seen) (inside {q} {s} found' leads rest) =
      let same : root ≡ q = cc in
      let explored = searched.explored q (rw (sym same) seen) refl in
      Reaches-visited searched (explored.onward s leads) rest

  -- A search from no visited type that returns says whether the variable occurs: as the root of the type,
  -- or in something that is reached through children and bounds.
  pub occurs_in_iff :
      (f needle p : ℕ) (r : List ℕ × Bool)
      → occurs_in f g stash v needle [] p ≡ ok r
      → (r.1 ≡ true) ↔ Occurs g stash v needle p
  occurs_in_iff f needle p r run =
      let found = occurs_in-Found g stash v f needle [] p r run in
      (
        found.0,
        λ o. elim (Bool-cases r.1) [
          | inl hit ↦ hit
          | inr miss ↦
              let (searched, covered) = found.1 miss in
              let seen = Reaches-visited searched covered o.reached in
              absurd ((searched.explored o.place seen refl).absent o.variable)
        ],
      )
