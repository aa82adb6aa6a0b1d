-- ===== src/Version/Tree/Reads.antt =====
-- How reading the node table of crates/sage-ir/src/check/infer/version.rs meets its two updates: a
-- node pushed at the end and a node replaced.
use sage_dev.Prelude.{
  ℕ, ◌<◌, ◌≡◌, ◌∙◌, ap, sym, refl, Bool, get_elem?-some, some, List, [], ◌∷◌, ◌++◌, arith, ◌==◌,
  if◌then◌else◌, length, get_elem?, set, get_elem?-set, get_elem?-lt, get_elem?-snoc, contains, not,
  ◌||◌, keep, true, false, ◌&&◌,
}
use sage_dev.Version.Tree.{VersionNode, live_in}
use sage_dev.Version.Tree.Wf.{parent_in, children_in, owned_in}

module _ (nodes : List VersionNode) (v : ℕ) (node : VersionNode) (u : ℕ) where
  pub live_in-set :
      v < length nodes
      → live_in (set nodes v node) u ≡ (if v == u then not node.removed else live_in nodes u)
  live_in-set h = ground (arith, get_elem?-set nodes v node u h)

  pub parent_in-set :
      v < length nodes
      → parent_in (set nodes v node) u ≡ (if v == u then node.parent else parent_in nodes u)
  parent_in-set h = ground (arith, get_elem?-set nodes v node u h)

  pub children_in-set :
      v < length nodes
      → children_in (set nodes v node) u ≡ (if v == u then node.children else children_in nodes u)
  children_in-set h = ground (arith, get_elem?-set nodes v node u h)

  pub owned_variables-set :
      v < length nodes
      → owned_in (set nodes v node) u ≡ (if v == u then node.owned_variables else owned_in nodes u)
  owned_variables-set h = ground (arith, get_elem?-set nodes v node u h)

module _ (nodes : List VersionNode) (node : VersionNode) (u : ℕ) where
  pub live_in-snoc :
      live_in (nodes ++ node ∷ []) u
      ≡ (if u == length nodes then not node.removed else live_in nodes u)
  live_in-snoc = ground (arith, get_elem?-snoc nodes node u)

  pub parent_in-snoc :
      parent_in (nodes ++ node ∷ []) u
      ≡ (if u == length nodes then node.parent else parent_in nodes u)
  parent_in-snoc = ground (arith, get_elem?-snoc nodes node u)

  pub children_in-snoc :
      children_in (nodes ++ node ∷ []) u
      ≡ (if u == length nodes then node.children else children_in nodes u)
  children_in-snoc = ground (arith, get_elem?-snoc nodes node u)

  pub owned_variables-snoc :
      owned_in (nodes ++ node ∷ []) u
      ≡ (if u == length nodes then node.owned_variables else owned_in nodes u)
  owned_variables-snoc = ground (arith, get_elem?-snoc nodes node u)

same_removed : (a b : Bool) → not a ≡ not b → a ≡ b
same_removed true true e = refl
same_removed false false e = refl
same_removed true false e = cc
same_removed false true e = cc

-- A version of which two tables tell the same has the same node in both.
pub node_same :
    (m n : List VersionNode) (u : ℕ)
    → u < length m
    → u < length n
    → live_in n u ≡ live_in m u
    → parent_in n u ≡ parent_in m u
    → children_in n u ≡ children_in m u
    → owned_in n u ≡ owned_in m u
    → get_elem? n u ≡ get_elem? m u
node_same m n u lt lt' live parent children owned =
    let (old, read) = get_elem?-some m u lt in
    let (new, read') = get_elem?-some n u lt' in
    let removed = same_removed new.removed old.removed (ground arith) in
    let parent' : new.parent ≡ old.parent = ground arith in
    let children' : new.children ≡ old.children = ground arith in
    let owned' : new.owned_variables ≡ old.owned_variables = ground arith in
    let same : new ≡ old = λ i. record {
      parent = parent' i;
      children = children' i;
      owned_variables = owned' i;
      removed = removed i;
    } in
    read' ∙ ap some same ∙ sym read

-- A live version is in range, and its node can be read.
pub live_in-node :
    (nodes : List VersionNode) (v : ℕ)
    → live_in nodes v ≡ true
    → (node : VersionNode) × (get_elem? nodes v ≡ some node) × (node.removed ≡ false)
live_in-node nodes v h = ground arith

pub live_in-lt : (nodes : List VersionNode) (v : ℕ) → live_in nodes v ≡ true → v < length nodes
live_in-lt nodes v h = let n = live_in-node nodes v h in get_elem?-lt nodes v n.1

pub contains-append :
    (xs ys : List ℕ) (n : ℕ) → contains (xs ++ ys) n ≡ (contains xs n || contains ys n)
contains-append [] ys n = refl
contains-append (x ∷ xs) ys n = ground (arith, contains-append xs ys n)

pub contains-keep_ne :
    (xs : List ℕ) (k n : ℕ)
    → contains (keep (λ c. not (c == k)) xs) n ≡ (contains xs n && not (n == k))
contains-keep_ne [] k n = refl
contains-keep_ne (x ∷ xs) k n = ground (arith, contains-keep_ne xs k n)

-- Dropping a number that is not there, and one that was just added.
pub keep_unlisted : (v : ℕ) (xs : List ℕ) → contains xs v ≡ false → keep (λ c. not (c == v)) xs ≡ xs
keep_unlisted v [] h = refl
keep_unlisted v (x ∷ xs) h =
    let rest : contains xs v ≡ false = ground arith in ground (arith, keep_unlisted v xs rest)

keep_snoc :
    (v : ℕ) (xs : List ℕ) → keep (λ c. not (c == v)) (xs ++ v ∷ []) ≡ keep (λ c. not (c == v)) xs
keep_snoc v [] = ground arith
keep_snoc v (x ∷ xs) = ground (arith, keep_snoc v xs)

pub keep_added :
    (v : ℕ) (xs : List ℕ) → contains xs v ≡ false → keep (λ c. not (c == v)) (xs ++ v ∷ []) ≡ xs
keep_added v xs h = keep_snoc v xs ∙ keep_unlisted v xs h
