-- ===== src/EGraph/Compress.antt =====
-- `find_mut` and `compress_path` of crates/sage-ir/src/check/infer/egraph.rs.
use sage_dev.Prelude.{
  ℕ, zero, suc, ◌<◌, ◌≡◌, ◌≢◌, ◌∙◌, subst, sym, refl, inl, inr, true, false, Bool-cases, List, [],
  ◌∷◌, ◌==◌, ==_self, arith, ok, length, ◌||◌,
}
use sage_dev.Version.Tree.{is_live, assert_mutable}
use sage_dev.Version.Tree
use sage_dev.Version.Tree.Ancestry.{Upward, ancestors-Upward}
use sage_dev.EGraph.{EGraph, find, find_mut, compress_loop, set_parent, get_parent, parent_bindings}
use sage_dev.EGraph.Forest.{
  parent, Chain, Chain-root, root, link, Chain-le, Forest-compressed, Chain-compressed, Forest-step,
}
use sage_dev.EGraph.Find.{Wf, Classes, parents_along, find-root, get_parent_lem, length-view}
use sage_dev.EGraph.Writes.{Step, Step-Wf, Step-Classes, Step-Forest, mutable_live, set_parent-Step}
use sage_dev.EGraph.Union.{Rerooted}

Rerooted-trans :
    {g g' g'' : EGraph} {v : ℕ} {ρ σ : ℕ → ℕ}
    → Rerooted g g' v ρ
    → Rerooted g' g'' v σ
    → Rerooted g g'' v σ
Rerooted-trans e f = record {
  wf = f.wf;
  versions_eq = f.versions_eq ∙ e.versions_eq;
  classes = f.classes;
  others = λ u τ apart h.
      f.others u τ (λ above. apart (rw e.versions_eq at above)) (e.others u τ apart h);
}

loop_stop :
    (f : ℕ) (g : EGraph) (v p q r : ℕ)
    → get_parent g v p ≡ ok q
    → (q == r || q == p) ≡ true
    → compress_loop (suc f) g v p r ≡ ok g
unfolding compress_loop
loop_stop f g v p q r read stop = ground arith

loop_go :
    (f : ℕ) (g g' : EGraph) (v p q r : ℕ)
    → get_parent g v p ≡ ok q
    → (q == r || q == p) ≡ false
    → set_parent g v p r ≡ ok g'
    → compress_loop (suc f) g v p r ≡ compress_loop f g' v q r
unfolding compress_loop
loop_go f g g' v p q r read go run = ground arith

-- A chain from `p` to another root starts with a link.
Chain-tail :
    {m : List (ℕ × ℕ)} {p k r : ℕ}
    → parent m p ≢ p
    → Chain m p k r
    → (l : ℕ) × (l < k) × Chain m (parent m p) l r
Chain-tail ne (root e) = absurd (ne e)
Chain-tail ne (link {k} up rest) = (k, omega arith, rest)

module _ (v : ℕ) (ρ : ℕ → ℕ) (chain : List ℕ) where
  -- One write of the loop.
  compress-Step :
      (g : EGraph) (p : ℕ)
      → Wf g
      → assert_mutable g.versions v ≡ ok tt
      → Upward g.versions.nodes v chain
      → Classes g v ρ
      → ρ p ≢ p
      → (g' : EGraph) × (set_parent g v p (ρ p) ≡ ok g')
        × Step g g' v ((p, ρ p) ∷ [])
        × Rerooted g g' v ρ
  compress-Step g p w mutable up classes low =
      let (g', run, s) = set_parent-Step g v p (ρ p) w mutable in
      (
        g',
        run,
        s,
        record {
          wf = Step-Wf s w;
          versions_eq = s.versions_eq;
          classes =
              Step-Forest ρ s (λ c u. Forest-compressed (parents_along g c) ρ (classes c u) p low);
          others = λ u τ apart h. Step-Classes u τ s apart h;
        },
      )

  compress_loop-Rerooted :
      (f : ℕ) (g : EGraph) (p k : ℕ)
      → Wf g
      → assert_mutable g.versions v ≡ ok tt
      → Tree.ancestors g.versions v ≡ ok chain
      → Upward g.versions.nodes v chain
      → Classes g v ρ
      → Chain (parents_along g chain) p k (ρ p)
      → k < f
      → (g' : EGraph) × (compress_loop f g v p (ρ p) ≡ ok g') × Rerooted g g' v ρ
  unfolding compress_loop
  compress_loop-Rerooted zero g p k w mutable found up classes c lt = elim lt [ ]
  compress_loop-Rerooted (suc f) g p k w mutable found up classes c lt =
      let m : List (ℕ × ℕ) = parents_along g chain in
      let read : get_parent g v p ≡ ok (parent m p) =
        get_parent_lem g v w (mutable_live g v mutable) chain found up p in
      elim (Bool-cases (parent m p == ρ p || parent m p == p)) [
        | inl stop ↦ (
          g,
          loop_stop f g v p (parent m p) (ρ p) read stop,
          record { wf = w; versions_eq = refl; classes = classes; others = λ u τ apart h. h },
        )
        | inr go ↦
            let other : parent m p ≢ p = λ e. ground (arith, ==_self p) in
            let low : ρ p ≢ p = λ e. other (let top = Chain-root c in rw e at top) in
            let (g', run, s, next) = compress-Step g p w mutable up classes low in
            let same : ρ (parent m p) ≡ ρ p = Forest-step m ρ p (classes chain up) in
            let (l, below, tail) = Chain-tail other c in
            let (l', le, tail') = Chain-compressed m ρ (classes chain up) p low tail (sym same) in
            let seen : Chain (parents_along g' chain) (parent m p) l' (ρ (parent m p)) =
              subst (λ t. Chain t (parent m p) l' (ρ (parent m p))) (sym (s.parents_eq chain up))
                (subst (λ r. Chain ((p, ρ p) ∷ m) (parent m p) l' r) (sym same) tail') in
            let (g'', run', last) =
              compress_loop-Rerooted f g' (parent m p) l' next.wf
                (subst (λ t. assert_mutable t v ≡ ok tt) (sym next.versions_eq) mutable)
                (subst (λ t. Tree.ancestors t v ≡ ok chain) (sym next.versions_eq) found)
                (subst (λ t. Upward t.nodes v chain) (sym next.versions_eq) up) next.classes seen
                (omega arith) in
            let run'' : compress_loop f g' v (parent m p) (ρ p) ≡ ok g'' =
              subst (λ r. compress_loop f g' v (parent m p) r ≡ ok g'') same run' in
            (
              g'',
              loop_go f g g' v p (parent m p) (ρ p) read go run ∙ run'',
              Rerooted-trans next last,
            )
      ]

-- In a mutable version of a well-formed graph in which every class has a root, `find_mut` returns
-- the root that `find` returns, and its path compression keeps the graph well formed and changes
-- neither the classes of the version nor those of a version that does not see it.
pub find_mut-Rerooted :
    (g : EGraph) (v : ℕ) (ρ : ℕ → ℕ) (p : ℕ)
    → Wf g
    → Classes g v ρ
    → assert_mutable g.versions v ≡ ok tt
    → (find g v p ≡ ok (ρ p)) × (g' : EGraph) × (find_mut g v p ≡ ok (g', ρ p)) × Rerooted g g' v ρ
unfolding find_mut
find_mut-Rerooted g v ρ p w classes mutable =
    let live = mutable_live g v mutable in
    let found = find-root g v w live ρ p classes in
    let (chain, run, up) = ancestors-Upward g.versions v w.shaped live in
    let (k, c) = classes chain up p in
    let short = Chain-le (length (parents_along g chain)) (parents_along g chain) (omega arith) c in
    let (g', run', rerooted) =
      compress_loop-Rerooted v ρ chain (suc (parent_bindings g.states chain)) g p k w mutable run up
        classes c (omega (arith, length-view g.states chain)) in
    (found, g', ground arith, rerooted)
