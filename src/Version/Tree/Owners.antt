-- ===== src/Version/Tree/Owners.antt =====
-- Allocation and re-owning of variables: `alloc_var_in_domain` and `reown_variables` of
-- crates/sage-ir/src/check/infer/version.rs.
use sage_dev.Prelude.{
  ℕ, ◌^◌, ◌<◌, ◌≡◌, refl, some, true, ◌&&◌, List, [], ◌∷◌, ◌++◌, length, contains, is_empty, arith,
  ◌==◌, if◌then◌else◌, ok, get_elem?, get_elem?-lt, get_elem?-beyond, get_elem?-snoc, get_elem?-set,
  set, assert,
}
use sage_dev.Version.Domain.{InferDomain}
use sage_dev.Version.Tree.Wf.{owned_in}
use sage_dev.Version.Tree.{
  VersionNode, VersionTree, VarInfo, is_live, assert_mutable, alloc_var_in_domain, as_u32,
}
use sage_dev.Version.Tree.Wf.{SameShape, set_owned-SameShape, children_in}
use sage_dev.Version.Tree.Reads.{live_in-node, contains-append}
use sage_dev.Version.Tree.Branch.{as_u32_small}
use sage_dev.Version.Tree.Variables.{owner_in}

-- Mutation is allowed exactly in a live version with no live child.
pub assert_mutable_lem :
    (t : VersionTree) (v : ℕ)
    → assert_mutable t v ≡ assert (is_live t v && is_empty (children_in t.nodes v))
unfolding assert_mutable
assert_mutable_lem t v = ground arith

-- The variables that the nodes list and the owners in the variable table agree.
pub record Owning (t : VersionTree) : Type 0 where
  pub in_range : (i o : ℕ) → owner_in t.variables i ≡ some o → o < length t.nodes
  pub lists : (i o : ℕ) → owner_in t.variables i ≡ some o → contains (owned_in t.nodes o) i ≡ true
  pub owned : (i o : ℕ) → contains (owned_in t.nodes o) i ≡ true → owner_in t.variables i ≡ some o

pub owned_in-set :
    (nodes : List VersionNode) (v : ℕ) (node : VersionNode) (owned : List ℕ) (u : ℕ)
    → get_elem? nodes v ≡ some node
    → owned_in (set nodes v (record node { owned_variables = owned })) u
      ≡ (if v == u then owned else owned_in nodes u)
owned_in-set nodes v node owned u e = ground (
  arith,
  get_elem?-set nodes v (record node { owned_variables = owned }) u (get_elem?-lt nodes v e),
)

pub owner_in-set :
    (variables : List VarInfo) (i : ℕ) (info : VarInfo) (o j : ℕ)
    → get_elem? variables i ≡ some info
    → owner_in (set variables i (record info { owner = o })) j
      ≡ (if i == j then some o else owner_in variables j)
owner_in-set variables i info o j e =
    ground
      (arith, get_elem?-set variables i (record info { owner = o }) j (get_elem?-lt variables i e))

pub owner_in-lt :
    (variables : List VarInfo) (i o : ℕ) → owner_in variables i ≡ some o → i < length variables
owner_in-lt variables i o h = ground (arith, get_elem?-beyond variables i)

-- What an allocation does.
pub record Allocated (t t' : VersionTree) (v : ℕ) (info : VarInfo) (index : ℕ) : Type 0 where
  pub fresh : index ≡ length t.variables
  pub same_shape : SameShape t.nodes t'.nodes
  pub variables_eq : t'.variables ≡ t.variables ++ info ∷ []
  pub owned_eq :
      (u : ℕ)
      → owned_in t'.nodes u
        ≡ (if v == u then owned_in t.nodes u ++ index ∷ [] else owned_in t.nodes u)

-- In a live version without children, and while the counter has room, allocation returns the next
-- number and records the variable with its owner, universe and domain.
pub alloc_var_in_domain-Allocated :
    (t : VersionTree) (v universe : ℕ) (domain : InferDomain)
    → is_live t v ≡ true
    → children_in t.nodes v ≡ []
    → length t.variables < 2 ^ 32
    → (t' : VersionTree) × (alloc_var_in_domain t v universe domain ≡ ok (t', length t.variables))
      × Allocated t t' v
          (record { owner = v; creation_universe = universe; initial_domain = domain })
          (length t.variables)
unfolding alloc_var_in_domain
alloc_var_in_domain-Allocated t v universe domain live leaf room =
    let (node, read, alive) = live_in-node t.nodes v live in
    let index : ℕ = length t.variables in
    let small : as_u32 index ≡ index = as_u32_small index room in
    let free = assert_mutable_lem t v in
    (
      record {
        nodes =
            set t.nodes v (record node { owned_variables = node.owned_variables ++ index ∷ [] });
        variables =
            t.variables
            ++ record { owner = v; creation_universe = universe; initial_domain = domain } ∷ [];
      },
      ground arith,
      record {
        fresh = refl;
        same_shape = set_owned-SameShape t.nodes v node (node.owned_variables ++ index ∷ []) read;
        variables_eq = refl;
        owned_eq =
            λ u. ground (arith, owned_in-set t.nodes v node (node.owned_variables ++ index ∷ []) u);
      },
    )

-- If the variable lists of the versions agree with the owners in the variable table, they agree after
-- an allocation, as `Allocated` describes it, to a version of the tree that owns the new variable.
pub Allocated-Owning :
    {t t' : VersionTree} {v index : ℕ} {info : VarInfo}
    → Allocated t t' v info index
    → info.owner ≡ v
    → v < length t.nodes
    → Owning t
    → Owning t'
Allocated-Owning {t} {t'} {v} {index} {info} a e lt w = record {
  in_range = λ i o h. ground (
    arith,
    a.variables_eq,
    a.same_shape.length_eq,
    get_elem?-snoc t.variables info i,
    w.in_range i o,
  );
  lists = λ i o h. ground (
    arith,
    a.variables_eq,
    a.fresh,
    a.owned_eq o,
    get_elem?-snoc t.variables info i,
    w.lists i o,
    contains-append (owned_in t.nodes o) (index ∷ []) i,
  );
  owned = λ i o h. ground (
    arith,
    a.variables_eq,
    a.fresh,
    a.owned_eq o,
    get_elem?-snoc t.variables info i,
    w.owned i o,
    owner_in-lt t.variables i o,
    contains-append (owned_in t.nodes o) (index ∷ []) i,
  );
}
