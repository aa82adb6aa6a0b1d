-- ===== src/Version/Tree/Reown.antt =====
-- `reown_variables` of crates/sage-ir/src/check/infer/version.rs.
use sage_dev.Prelude.{
  ℕ, ◌<◌, ◌≡◌, ◌∙◌, refl, ◌≢◌, inl, inr, some, none, Option, Option-cases, true, ◌||◌, List, [],
  ◌∷◌, ◌++◌, length, length-set, contains, arith, ◌==◌, ==_self, if◌then◌else◌, ok, get_elem?,
  get_elem?-lt, get_elem?-some, get_elem?-set, get_elem?-set_ne, set,
}
use sage_dev.Version.Tree.Wf.{owned_in}
use sage_dev.Version.Tree.{
  VersionNode, VersionTree, VarInfo, live_in, is_live, reown_each, reown_variables, parent_of,
}
use sage_dev.Version.Tree.Wf.{Shaped, SameShape, set_owned-SameShape, parent_in}
use sage_dev.Version.Tree.Reads.{live_in-node, contains-append}
use sage_dev.Version.Tree.Variables.{owner_in}
use sage_dev.Version.Tree.Owners.{Owning, owned_in-set, owner_in-lt}

-- A variable's entry once the variables `own` belong to `p`.
abbrev pub reowned : List ℕ → ℕ → ℕ → Option VarInfo → Option VarInfo
reowned own p i none = none
reowned own p i (some info) = some (if contains own i then record info { owner = p } else info)

reown_each-reowned :
    (p : ℕ) (own : List ℕ) (variables : List VarInfo)
    → ((i : ℕ) → contains own i ≡ true → i < length variables)
    → (variables' : List VarInfo) × (reown_each p own variables ≡ ok variables')
      × (length variables' ≡ length variables)
      × ((i : ℕ) → get_elem? variables' i ≡ reowned own p i (get_elem? variables i))
unfolding reown_each
reown_each-reowned p [] variables h = (
  variables,
  refl,
  refl,
  λ i. elim (Option-cases (get_elem? variables i)) [ inl e ↦ rw e | inr (info, e) ↦ rw e ],
)
reown_each-reowned p (k ∷ own) variables h =
    let (info, read) = get_elem?-some variables k (h k (ground (arith, ==_self k))) in
    let next : List VarInfo = set variables k (record info { owner = p }) in
    let len : length next ≡ length variables = length-set variables k (record info { owner = p }) in
    let (variables', run, len', each) =
      reown_each-reowned p own next (λ i e. omega (arith, h i (ground arith), len)) in
    (
      variables',
      rw read run,
      len' ∙ len,
      λ i. ground (
        arith,
        each i,
        get_elem?-set variables k (record info { owner = p }) i (get_elem?-lt variables k read),
      ),
    )

-- The entry of a variable after `child`'s variables have passed to `p`.
abbrev pub moved : ℕ → ℕ → Option VarInfo → Option VarInfo
moved child p none = none
moved child p (some info) = some (if info.owner == child then record info { owner = p } else info)

-- What a commit does to the ownership of variables.
pub record Reowned (t t' : VersionTree) (child p : ℕ) : Type 0 where
  pub same_shape : SameShape t.nodes t'.nodes
  pub owning : Owning t'
  pub same_count : length t'.variables ≡ length t.variables
  pub variables_eq : (i : ℕ) → get_elem? t'.variables i ≡ moved child p (get_elem? t.variables i)

owner_in-get :
    (t : VersionTree) (i : ℕ) (info : VarInfo)
    → get_elem? t.variables i ≡ some info
    → owner_in t.variables i ≡ some info.owner
owner_in-get t i info e = rw (e, owner_in)

-- The variables that a node lists are the ones it owns.
listed-moved :
    (t : VersionTree) (child p i : ℕ)
    → Owning t
    → reowned (owned_in t.nodes child) p i (get_elem? t.variables i)
      ≡ moved child p (get_elem? t.variables i)
listed-moved t child p i w = elim (Option-cases (get_elem? t.variables i)) [
  | inl e ↦ rw e
  | inr (info, e) ↦
      let own : owner_in t.variables i ≡ some info.owner = owner_in-get t i info e in
      ground (arith, w.lists i info.owner own, w.owned i child)
]

SameShape-trans : {l m n : List VersionNode} → SameShape l m → SameShape m n → SameShape l n
SameShape-trans a b = record {
  length_eq = b.length_eq ∙ a.length_eq;
  live_eq = λ v. b.live_eq v ∙ a.live_eq v;
  parent_eq = λ v. b.parent_eq v ∙ a.parent_eq v;
  children_eq = λ v. b.children_eq v ∙ a.children_eq v;
}

module _ (t : VersionTree) (child p : ℕ) (w : Owning t) (node entry : VersionNode) (ne : child ≢ p)
    (read : get_elem? t.nodes child ≡ some node) (read' : get_elem? t.nodes p ≡ some entry)
    (variables : List VarInfo) (count : length variables ≡ length t.variables)
    (each : (i : ℕ) → get_elem? variables i ≡ moved child p (get_elem? t.variables i)) where
  emptied : List VersionNode
  emptied = set t.nodes child (record node { owned_variables = [] })

  joined : List ℕ
  joined = entry.owned_variables ++ node.owned_variables

  read_parent : get_elem? emptied p ≡ some entry
  unfolding emptied
  read_parent = get_elem?-set_ne t.nodes child p (record node { owned_variables = [] }) ne ∙ read'

  reowned_tree : VersionTree
  reowned_tree = record {
    nodes = set emptied p (record entry { owned_variables = joined });
    variables = variables;
  }

  owned-reowned :
      (u : ℕ)
      → owned_in reowned_tree.nodes u
        ≡ (if p == u then joined else if child == u then [] else owned_in t.nodes u)
  unfolding reowned_tree emptied
  owned-reowned u = ground (
    arith,
    owned_in-set emptied p entry joined u read_parent,
    owned_in-set t.nodes child node [] u read,
  )

  owner-reowned :
      (i : ℕ)
      → owner_in reowned_tree.variables i ≡ elim (owner_in t.variables i) [
        | none ↦ none
        | some o ↦ some (if o == child then p else o)
      ]
  unfolding reowned_tree
  owner-reowned i = ground (arith, each i)

  contains-joined :
      (i : ℕ)
      → contains joined i ≡ (contains (owned_in t.nodes p) i || contains (owned_in t.nodes child) i)
  unfolding joined
  contains-joined i = ground (arith, contains-append entry.owned_variables node.owned_variables i)

  SameShape-reowned : SameShape t.nodes reowned_tree.nodes
  unfolding reowned_tree emptied
  SameShape-reowned =
      SameShape-trans (set_owned-SameShape t.nodes child node [] read)
        (set_owned-SameShape emptied p entry joined read_parent)

  Owning-reowned : Owning reowned_tree
  Owning-reowned = record {
    in_range = λ i o h. ground (
      arith,
      owner-reowned i,
      SameShape-reowned.length_eq,
      w.in_range i o,
      get_elem?-lt t.nodes p read',
    );
    lists = λ i o h.
        ground (
          arith,
          owner-reowned i,
          owned-reowned o,
          contains-joined i,
          w.lists i o,
          w.lists i child,
        );
    owned = λ i o h.
        ground (
          arith,
          owner-reowned i,
          owned-reowned o,
          contains-joined i,
          w.owned i o,
          w.owned i child,
        );
  }

  reown-run :
      live_in t.nodes child ≡ true
      → live_in t.nodes p ≡ true
      → node.parent ≡ some p
      → reown_each p node.owned_variables t.variables ≡ ok variables
      → reown_variables t child p ≡ ok reowned_tree
  unfolding reown_variables parent_of reowned_tree emptied joined
  reown-run lc lp link run = ground (arith, ==_self p, read_parent)

-- When, in a well-formed tree whose variable tables agree, a live child's variables pass to its
-- parent, the call returns, each of them is owned by the parent and keeps its universe and domain,
-- every other variable is as before, the tables agree, and so does the shape of the tree with the
-- old one.
pub reown_variables-Reowned :
    (t : VersionTree) (child p : ℕ)
    → Shaped t.nodes
    → Owning t
    → is_live t child ≡ true
    → parent_in t.nodes child ≡ some p
    → (t' : VersionTree) × (reown_variables t child p ≡ ok t') × Reowned t t' child p
reown_variables-Reowned t child p s w live link =
    let live_p = s.parent_live child p live link in
    let (node, read, _) = live_in-node t.nodes child live in
    let (entry, read', _) = live_in-node t.nodes p live_p in
    let below = s.parent_lt child p link in
    let ne : child ≢ p = omega arith in
    let own : node.owned_variables ≡ owned_in t.nodes child = rw (read, owned_in) in
    let (variables, run, count, each) =
      reown_each-reowned p node.owned_variables t.variables
        (λ i h. owner_in-lt t.variables i child (w.owned i child (rw own at h))) in
    let each' : (i : ℕ) → get_elem? variables i ≡ moved child p (get_elem? t.variables i) =
      λ i. each i ∙ (rw own (listed-moved t child p i w)) in
    (
      reowned_tree t child p w node entry ne read read' variables count each',
      reown-run t child p w node entry ne read read' variables count each' live live_p
          (rw (read, parent_in) at link) run,
      record {
        same_shape = SameShape-reowned t child p w node entry ne read read' variables count each';
        owning = Owning-reowned t child p w node entry ne read read' variables count each';
        same_count = unfold reowned_tree in count;
        variables_eq = unfold reowned_tree in each';
      },
    )
