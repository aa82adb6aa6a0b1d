-- ===== src/EGraph/Chains.antt =====
-- When two graphs of crates/sage-ir/src/check/infer/egraph.rs show a version the same parents.
use sage_dev.Prelude.{
  ℕ, ◌<◌, ◌≡◌, ◌∙◌, refl, true, some, List, [], ◌∷◌, ==_self, arith, get_elem?, contains,
}
use sage_dev.Version.Tree.{VersionNode}
use sage_dev.Version.Tree.Wf.{parent_in}
use sage_dev.Version.Tree.Ancestry.{Upward, top, step}
use sage_dev.EGraph.{VersionState}
use sage_dev.EGraph.Find.{view}

-- A chain is read the same from states that agree on its versions.
pub view-agree {ℓ} :
    {V : Type ℓ} (field : VersionState → List (ℕ × V)) (states states' : List VersionState)
    (chain : List ℕ)
    → ((u : ℕ) → contains chain u ≡ true → get_elem? states' u ≡ get_elem? states u)
    → view field states' chain ≡ view field states chain
view-agree field states states' [] same = refl
view-agree field states states' (u ∷ rest) same =
    rw
      (
        same u (ground (arith, ==_self u)),
        view-agree field states states' rest (λ x h. same x (ground arith)),
      )
      refl

-- Tables that agree below `b` have the same chains there.
pub Upward-below :
    {m n : List VersionNode} {u : ℕ} {l : List ℕ} (b : ℕ)
    → ((v p : ℕ) → parent_in n v ≡ some p → p < v)
    → ((x : ℕ) → x < b → parent_in m x ≡ parent_in n x)
    → u < b
    → Upward n u l
    → Upward m u l
Upward-below b down same lt (top {v} e) = top (same v lt ∙ e)
Upward-below b down same lt (step {v} {p} e c) =
    step (same v lt ∙ e) (Upward-below b down same (omega (arith, down v p e)) c)

pub Upward-step :
    {nodes : List VersionNode} {v p : ℕ} {l : List ℕ}
    → parent_in nodes v ≡ some p
    → Upward nodes v l
    → (rest : List ℕ) × (l ≡ v ∷ rest) × Upward nodes p rest
Upward-step e (top no_parent) = absurd (cc)
Upward-step {nodes} {v} {p} e (step {p = q} {rest} f c) =
    let same : q ≡ p = cc in (rest, refl, rw same at c)
