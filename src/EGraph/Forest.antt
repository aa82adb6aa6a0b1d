-- ===== src/EGraph/Forest.antt =====
-- Parent maps as the union-find of crates/sage-ir/src/check/infer/egraph.rs reads them: a missing key is
-- its own parent.
use sage_dev.Prelude.{
  ℕ, zero, suc, ◌≤◌, ◌<◌, ◌≡◌, ◌≢◌, ◌∙◌, ap, subst, sym, refl, inl, inr, true, false, none, some,
  Option-cases, Bool-cases, List, ◌∷◌, ◌==◌, ==_ne, ==_iff, ne-of-==, if◌then◌else◌, arith, length,
  Outcome, ok, out_of_fuel, lookup, without, lookup-without_ne, length-without-lt,
}

abbrev pub parent : List (ℕ × ℕ) → ℕ → ℕ
parent m p = elim (lookup p m) [ none ↦ p | some q ↦ q ]

-- `Chain m p k r`: `k` steps up from `p` end at the root `r`.
pub data Chain (m : List (ℕ × ℕ)) : ℕ → ℕ → ℕ → Type 0 where
  root : {r : ℕ} → parent m r ≡ r → Chain m r zero r
  link : {p k r : ℕ} → parent m p ≢ p → Chain m (parent m p) k r → Chain m p (suc k) r

-- Every class has the root that `ρ` names.
abbrev pub Forest : List (ℕ × ℕ) → (ℕ → ℕ) → Type 0
Forest m ρ = (p : ℕ) → (k : ℕ) × Chain m p k (ρ p)

-- The loop of `find`.
unfoldable pub chase : ℕ → List (ℕ × ℕ) → ℕ → Outcome ℕ
chase zero m p = out_of_fuel
chase (suc f) m p = elim (parent m p == p) [ true ↦ ok p | false ↦ chase f m (parent m p) ]

pub Chain-root : {m : List (ℕ × ℕ)} {p k r : ℕ} → Chain m p k r → parent m r ≡ r
Chain-root (root e) = e
Chain-root (link ne c) = Chain-root c

-- The number of steps and the root are determined.
pub Chain-unique :
    {m : List (ℕ × ℕ)} {p k r l s : ℕ} → Chain m p k r → Chain m p l s → (k ≡ l) × (r ≡ s)
Chain-unique (root e) (root e') = (refl, refl)
Chain-unique (root e) (link ne c) = absurd (ne e)
Chain-unique (link ne c) (root e) = absurd (ne e)
Chain-unique (link ne c) (link ne' c') = let (e, f) = Chain-unique c c' in (ap suc e, f)

parent-without : (m : List (ℕ × ℕ)) (p q : ℕ) → p ≢ q → parent (without p m) q ≡ parent m q
parent-without m p q ne = rw (lookup-without_ne p q m ne, parent)

-- A chain that starts below `p` does not use the bindings of `p`.
pub Chain-without :
    {m : List (ℕ × ℕ)} {q k r : ℕ} (p l s : ℕ)
    → Chain m p l s
    → k < l
    → Chain m q k r
    → Chain (without p m) q k r
Chain-without {m} p l s long lt (root {r} e) = elim (Bool-cases (p == r)) [
  | inl same ↦
      let q : p ≡ r = (==_iff p r).0 same in
      let u = Chain-unique (rw q at long) (root e) in absurd (omega arith)
  | inr differ ↦ root (parent-without m p r (ne-of-== p r differ) ∙ e)
]
Chain-without {m} p l s long lt (link {p = q} {k} ne c) = elim (Bool-cases (p == q)) [
  | inl same ↦
      let e : p ≡ q = (==_iff p q).0 same in
      let u = Chain-unique (rw e at long) (link ne c) in absurd (omega arith)
  | inr differ ↦
      let keep = parent-without m p q (ne-of-== p q differ) in
      link (λ h. ne (sym keep ∙ h)) (rw keep (Chain-without p l s long (omega arith) c))
]

-- So a chain is no longer than the map.
pub Chain-le : (n : ℕ) (m : List (ℕ × ℕ)) {p k r : ℕ} → length m ≤ n → Chain m p k r → k ≤ n
Chain-le n m h (root e) = omega arith
Chain-le zero m h (link {p} ne c) = elim (Option-cases (lookup p m)) [
  | inl missing ↦ absurd (ne (ground arith))
  | inr (q, bound) ↦ absurd (omega (arith, length-without-lt p m bound))
]
Chain-le (suc n) m h (link {p} {k} {r} ne c) = elim (Option-cases (lookup p m)) [
  | inl missing ↦ absurd (ne (ground arith))
  | inr (q, bound) ↦
      let shorter : length (without p m) < length m = length-without-lt p m bound in
      let rest = Chain-without p (suc k) r (link ne c) (omega arith) c in
      omega (arith, Chain-le n (without p m) (omega arith) rest)
]

chase-up :
    (f : ℕ) (m : List (ℕ × ℕ)) (p : ℕ) → parent m p ≢ p → chase (suc f) m p ≡ chase f m (parent m p)
unfolding chase
chase-up f m p ne = rw (==_ne (parent m p) p ne, chase) refl

chase-Chain : {m : List (ℕ × ℕ)} (f : ℕ) {p k r : ℕ} → k < f → Chain m p k r → chase f m p ≡ ok r
unfolding chase
chase-Chain zero h c = elim h [ ]
chase-Chain {m} (suc f) h (root {r} e) =
    let t : (parent m r == r) ≡ true = (==_iff (parent m r) r).1 e in rw (t, chase) refl
chase-Chain {m} (suc f) h (link {p} ne c) =
    chase-up f m p ne ∙ chase-Chain f {p = parent m p} (omega arith) c

-- With more fuel than bindings the loop ends at the root.
pub chase-root :
    (m : List (ℕ × ℕ)) (ρ : ℕ → ℕ) (p : ℕ) → Forest m ρ → chase (suc (length m)) m p ≡ ok (ρ p)
chase-root m ρ p forest =
    let (k, c) = forest p in
    chase-Chain (suc (length m)) (omega (arith, Chain-le (length m) m (omega arith) c)) c

-- The root of a root.
pub Forest-root : (m : List (ℕ × ℕ)) (ρ : ℕ → ℕ) (p : ℕ) → Forest m ρ → ρ (ρ p) ≡ ρ p
Forest-root m ρ p forest =
    let (k, c) = forest p in let (l, d) = forest (ρ p) in (Chain-unique d (root (Chain-root c))).1

Chain-parent : {m : List (ℕ × ℕ)} {p k r : ℕ} → Chain m p k r → (l : ℕ) × Chain m (parent m p) l r
Chain-parent {m} (root {r} e) = (zero, subst (λ q. Chain m q zero r) (sym e) (root e))
Chain-parent (link {k} ne c) = (k, c)

pub Forest-step : (m : List (ℕ × ℕ)) (ρ : ℕ → ℕ) (p : ℕ) → Forest m ρ → ρ (parent m p) ≡ ρ p
Forest-step m ρ p forest =
    let (l, c) = Chain-parent (forest p).1 in (Chain-unique (forest (parent m p)).1 c).1

-- Linking the root `c` below the root `r`: the class of `c` joins that of `r`.
module _ (m : List (ℕ × ℕ)) (c r : ℕ) (top_c : parent m c ≡ c) (top_r : parent m r ≡ r)
    (ne : c ≢ r) where
  parent-linked : (p : ℕ) → parent ((c, r) ∷ m) p ≡ (if c == p then r else parent m p)
  parent-linked p = ground arith

  abbrev pub joined : (ℕ → ℕ) → ℕ → ℕ
  joined ρ p = if ρ p == c then r else ρ p

  root_linked : Chain ((c, r) ∷ m) r zero r
  root_linked = root (ground (arith, parent-linked r))

  child_linked : Chain ((c, r) ∷ m) c 1 r
  child_linked =
      let e : parent ((c, r) ∷ m) c ≡ r = ground (arith, parent-linked c) in
      link (λ h. ne (sym h ∙ e)) (subst (λ q. Chain ((c, r) ∷ m) q zero r) (sym e) root_linked)

  Chain-linked :
      {p k s : ℕ} → Chain m p k s → (l : ℕ) × Chain ((c, r) ∷ m) p l (if s == c then r else s)
  Chain-linked (root {r = s} e) = elim (Bool-cases (s == c)) [
    | inl same ↦ let q : s ≡ c = (==_iff s c).0 same in (1, rw (same, q) child_linked)
    | inr differ ↦ (zero, rw differ (root (ground (arith, parent-linked s))))
  ]
  Chain-linked (link {p} {k} {r = s} up rest) =
      let other : c ≢ p = λ q. up (rw q at top_c) in
      let e : parent ((c, r) ∷ m) p ≡ parent m p = ground (arith, parent-linked p) in
      let (l, d) = Chain-linked rest in
      (
        suc l,
        link (λ h. up (sym e ∙ h))
            (subst (λ q. Chain ((c, r) ∷ m) q l (if s == c then r else s)) (sym e) d),
      )

  pub Forest-linked : (ρ : ℕ → ℕ) → Forest m ρ → Forest ((c, r) ∷ m) (joined ρ)
  Forest-linked ρ forest p = Chain-linked (forest p).1

-- Pointing `c` at its own root leaves every class alone.
module _ (m : List (ℕ × ℕ)) (ρ : ℕ → ℕ) (forest : Forest m ρ) (c : ℕ) (low : ρ c ≢ c) where
  parent-compressed : (p : ℕ) → parent ((c, ρ c) ∷ m) p ≡ (if c == p then ρ c else parent m p)
  parent-compressed p = ground arith

  root_compressed : Chain ((c, ρ c) ∷ m) (ρ c) zero (ρ c)
  root_compressed =
      let e : parent m (ρ c) ≡ ρ c = Chain-root (forest c).1 in
      root (ground (arith, parent-compressed (ρ c)))

  pub Chain-compressed :
      {p k s : ℕ} → Chain m p k s → s ≡ ρ p → (l : ℕ) × (l ≤ k) × Chain ((c, ρ c) ∷ m) p l s
  Chain-compressed (root {r = s} e) q = elim (Bool-cases (c == s)) [
    | inl same ↦ absurd (low (let w : c ≡ s = (==_iff c s).0 same in rw w (sym q)))
    | inr differ ↦ (zero, omega arith, root (ground (arith, parent-compressed s)))
  ]
  Chain-compressed (link {p} {k} {r = s} up rest) q = elim (Bool-cases (c == p)) [
    | inl same ↦
        let w : c ≡ p = (==_iff c p).0 same in
        let e : parent ((c, ρ c) ∷ m) p ≡ ρ c = ground (arith, parent-compressed p) in
        let t : s ≡ ρ c = q ∙ ap ρ (sym w) in
        (
          1,
          omega arith,
          rw t (
              link (λ h. low (sym e ∙ h ∙ sym w))
                (subst (λ x. Chain ((c, ρ c) ∷ m) x zero (ρ c)) (sym e) root_compressed)),
        )
    | inr differ ↦
        let e : parent ((c, ρ c) ∷ m) p ≡ parent m p = ground (arith, parent-compressed p) in
        let (l, le, d) = Chain-compressed rest (q ∙ sym (Forest-step m ρ p forest)) in
        (
          suc l,
          omega arith,
          link (λ h. up (sym e ∙ h)) (subst (λ x. Chain ((c, ρ c) ∷ m) x l s) (sym e) d),
        )
  ]

  pub Forest-compressed : Forest ((c, ρ c) ∷ m) ρ
  Forest-compressed p = let (l, le, d) = Chain-compressed (forest p).1 refl in (l, d)
