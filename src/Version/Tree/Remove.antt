-- ===== src/Version/Tree/Remove.antt =====
-- `remove_subtree` of crates/sage-ir/src/check/infer/version.rs: what it leaves of the node table.
pub mod Run
use sage_dev.Prelude.{
  ℕ, ◌≡◌, ◌∙◌, sym, refl, ◌↔◌, ◌⊎◌, inl, inr, some, none, Bool, true, false, List, [], ◌∷◌, length,
  contains, arith, Bool-cases, ◌==◌,
}
use sage_dev.Version.Tree.{VersionNode, live_in}
use sage_dev.Version.Tree.Wf.{parent_in, children_in, owned_in, Linked, Above, here, up}

-- `u` lies at or below one of the versions `cs`.
abbrev pub AboveAny : List VersionNode → List ℕ → ℕ → Type 0
AboveAny nodes [] u = ⊥
AboveAny nodes (c ∷ cs) u = Above nodes c u ⊎ AboveAny nodes cs u

-- `nodes'` is `nodes` with the versions of `Gone` dead and all others as they were; `out'` is `out`
-- with the versions that died.
pub record Cleared (Gone : ℕ → Type 0) (nodes nodes' : List VersionNode) (out out' : List ℕ)
    : Type 0 where
  pub length_eq : length nodes' ≡ length nodes
  pub parent_eq : (u : ℕ) → parent_in nodes' u ≡ parent_in nodes u
  pub owned_eq : (u : ℕ) → owned_in nodes' u ≡ owned_in nodes u
  pub dead : (u : ℕ) → Gone u → live_in nodes' u ≡ false
  pub kept :
      (u : ℕ)
      → ((live_in nodes' u ≡ live_in nodes u) × (children_in nodes' u ≡ children_in nodes u))
        ⊎ Gone u
  pub shrunk :
      (u c : ℕ) → contains (children_in nodes' u) c ≡ true → contains (children_in nodes u) c ≡ true
  pub earlier : (u : ℕ) → contains out u ≡ true → contains out' u ≡ true
  pub reported : (u : ℕ) → contains out' u ≡ true → (contains out u ≡ true) ⊎ Gone u
  pub complete : (u : ℕ) → live_in nodes u ≡ true → Gone u → contains out' u ≡ true

-- Going up is the same in tables with the same parents.
pub Above-parents :
    {m n : List VersionNode} {a v : ℕ}
    → ((u : ℕ) → parent_in n u ≡ parent_in m u)
    → Above m a v
    → Above n a v
Above-parents same here = here
Above-parents same (up {v} e rest) = up (same v ∙ e) (Above-parents same rest)

pub AboveAny-parents :
    (m n : List VersionNode) (cs : List ℕ) (u : ℕ)
    → ((u : ℕ) → parent_in n u ≡ parent_in m u)
    → AboveAny m cs u
    → AboveAny n cs u
AboveAny-parents m n [] u same h = h
AboveAny-parents m n (c ∷ cs) u same (inl h) = inl (Above-parents same h)
AboveAny-parents m n (c ∷ cs) u same (inr h) = inr (AboveAny-parents m n cs u same h)

-- Where the dead versions are closed downwards, the links stay right.
module _ {Gone : ℕ → Type 0} {m n : List VersionNode} {out out' : List ℕ}
    (r : Cleared Gone m n out out') (k : Linked m)
    (down : (u p : ℕ) → parent_in m u ≡ some p → Gone p → Gone u) where
  old_live : (u : ℕ) → live_in n u ≡ true → live_in m u ≡ true
  old_live u l = elim (r.kept u) [ inl (e, _) ↦ sym e ∙ l | inr g ↦ cc (r.dead u g) ]

  not_gone : (u p : ℕ) → live_in n u ≡ true → parent_in m u ≡ some p → Gone p → ⊥
  not_gone u p l e g = cc (r.dead u (down u p e g))

  pub Cleared-Linked : Linked n
  Cleared-Linked = record {
    parent_lt = λ v p e. k.parent_lt v p (sym (r.parent_eq v) ∙ e);
    parent_live = λ v p l e.
        let e' : parent_in m v ≡ some p = sym (r.parent_eq v) ∙ e in
        elim (r.kept p) [
          | inl (same, _) ↦ same ∙ k.parent_live v p (old_live v l) e'
          | inr g ↦ absurd (not_gone v p l e' g)
        ];
    listed = λ v p l e.
        let e' : parent_in m v ≡ some p = sym (r.parent_eq v) ∙ e in
        elim (r.kept p) [
          | inl (_, same) ↦ rw same (k.listed v p (old_live v l) e')
          | inr g ↦ absurd (not_gone v p l e' g)
        ];
    child = λ v c h. r.parent_eq c ∙ k.child v c (r.shrunk v c h);
  }

-- Two removals in a row.
module _ {A B : ℕ → Type 0} {l m n : List VersionNode} {o o' o'' : List ℕ} (r : Cleared A l m o o')
    (q : Cleared B m n o' o'') where
  pub Cleared-trans : Cleared (λ u. A u ⊎ B u) l n o o''
  Cleared-trans = record {
    length_eq = q.length_eq ∙ r.length_eq;
    parent_eq = λ u. q.parent_eq u ∙ r.parent_eq u;
    owned_eq = λ u. q.owned_eq u ∙ r.owned_eq u;
    dead = λ u g. elim g [
      | inl a ↦ elim (q.kept u) [ inl (e, _) ↦ e ∙ r.dead u a | inr b ↦ q.dead u b ]
      | inr b ↦ q.dead u b
    ];
    kept = λ u. elim (r.kept u) [
      | inl (e, f) ↦ elim (q.kept u) [ inl (e', f') ↦ inl (e' ∙ e, f' ∙ f) | inr b ↦ inr (inr b) ]
      | inr a ↦ inr (inl a)
    ];
    shrunk = λ u c h. r.shrunk u c (q.shrunk u c h);
    earlier = λ u h. q.earlier u (r.earlier u h);
    reported = λ u h. elim (q.reported u h) [
      | inl h' ↦ elim (r.reported u h') [ inl h'' ↦ inl h'' | inr a ↦ inr (inl a) ]
      | inr b ↦ inr (inr b)
    ];
    complete = λ u live g. elim g [
      | inl a ↦ q.earlier u (r.complete u live a)
      | inr b ↦ elim (r.kept u) [
        | inl (e, _) ↦ q.complete u (e ∙ live) b
        | inr a ↦ q.earlier u (r.complete u live a)
      ]
    ];
  }

-- The dead versions may be described another way.
pub Cleared-iff :
    {A B : ℕ → Type 0} {m n : List VersionNode} {o o' : List ℕ}
    → ((u : ℕ) → A u ↔ B u)
    → Cleared A m n o o'
    → Cleared B m n o o'
Cleared-iff same r = record {
  length_eq = r.length_eq;
  parent_eq = r.parent_eq;
  owned_eq = r.owned_eq;
  dead = λ u b. r.dead u ((same u).1 b);
  kept = λ u. elim (r.kept u) [ inl e ↦ inl e | inr a ↦ inr ((same u).0 a) ];
  shrunk = r.shrunk;
  earlier = r.earlier;
  reported = λ u h. elim (r.reported u h) [ inl e ↦ inl e | inr a ↦ inr ((same u).0 a) ];
  complete = λ u l b. r.complete u l ((same u).1 b);
}
