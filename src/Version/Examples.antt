-- ===== src/Version/Examples.antt =====
-- Small version trees for crates/sage-ir/src/check/infer/version.rs, and its theorems on them.
use sage_dev.Prelude.{
  ℕ, zero, suc, ◌<◌, ◌≡◌, ◌↔◌, refl, arith, Bool, true, false, ◌&&◌, none, some, List, [], ◌∷◌,
  contains, get_elem?, ok,
}
use sage_dev.Ty
use sage_dev.Version.Domain.{any, integer, float, intersect, admits}
use sage_dev.Version.Domain.Lattice.{admits_meet, admits-intersect}
use sage_dev.Version.Tree.Wf.{owned_in}
use sage_dev.Version.Tree.{
  VersionTree, VarInfo, is_live, branch_from, is_ancestor, ancestors, remove, get_variable,
  visible_variables, alloc_var_in_domain, reown_variables,
}
use sage_dev.Version.Tree.Wf.{Shaped, parent_in, children_in, Above}
use sage_dev.Version.Tree.Branch.{Branched, branch_from-Branched}
use sage_dev.Version.Tree.Ancestry.{Upward, is_ancestor-Above, ancestors-Upward}
use sage_dev.Version.Tree.Discard.{Removed, remove-Removed}
use sage_dev.Version.Tree.Variables.{owner_in, get_variable_iff, visible_variables_iff}
use sage_dev.Version.Tree.Owners.{Owning, Allocated, alloc_var_in_domain-Allocated}
use sage_dev.Version.Tree.Reown.{Reowned, reown_variables-Reowned}

-- Version 0 above 1 above 2, with a variable of the root and one of the leaf.
abbrev pub family : VersionTree
family = record {
  nodes =
      record { parent = none; children = 1 ∷ []; owned_variables = 0 ∷ []; removed = false }
      ∷ record { parent = some 0; children = 2 ∷ []; owned_variables = []; removed = false }
      ∷ record { parent = some 1; children = []; owned_variables = 1 ∷ []; removed = false }
      ∷ [];
  variables =
      record { owner = 0; creation_universe = 0; initial_domain = any }
      ∷ record { owner = 2; creation_universe = 3; initial_domain = integer }
      ∷ [];
}

pub family-Shaped : Shaped family.nodes
family-Shaped = record {
  root_live = refl;
  root_parent = refl;
  rooted = single_root;
  linked = record { parent_lt = falling; parent_live = alive; listed = listing; child = back };
}
  where
    single_root : (v : ℕ) → v < 3 → parent_in family.nodes v ≡ none → v ≡ 0
    single_root zero h e = refl
    single_root (suc zero) h e = cc
    single_root (suc (suc zero)) h e = cc
    single_root (suc (suc (suc v))) h e = omega arith

    falling : (v p : ℕ) → parent_in family.nodes v ≡ some p → p < v
    falling zero p e = cc
    falling (suc zero) p e = ground arith
    falling (suc (suc zero)) p e = ground arith
    falling (suc (suc (suc v))) p e = cc

    alive :
        (v p : ℕ)
        → is_live family v ≡ true
        → parent_in family.nodes v ≡ some p
        → is_live family p ≡ true
    alive zero p l e = cc
    alive (suc zero) p l e = let q : p ≡ 0 = ground arith in rw q refl
    alive (suc (suc zero)) p l e = let q : p ≡ 1 = ground arith in rw q refl
    alive (suc (suc (suc v))) p l e = cc

    listing :
        (v p : ℕ)
        → is_live family v ≡ true
        → parent_in family.nodes v ≡ some p
        → contains (children_in family.nodes p) v ≡ true
    listing zero p l e = cc
    listing (suc zero) p l e = let q : p ≡ 0 = ground arith in rw q refl
    listing (suc (suc zero)) p l e = let q : p ≡ 1 = ground arith in rw q refl
    listing (suc (suc (suc v))) p l e = cc

    back :
        (v c : ℕ)
        → contains (children_in family.nodes v) c ≡ true
        → parent_in family.nodes c ≡ some v
    back zero c h = let q : c ≡ 1 = ground arith in rw q refl
    back (suc zero) c h = let q : c ≡ 2 = ground arith in rw q refl
    back (suc (suc zero)) c h = cc
    back (suc (suc (suc v))) c h = cc

pub family-Owning : Owning family
family-Owning = record { in_range = ranged; lists = listed; owned = owning }
  where
    ranged : (i o : ℕ) → owner_in family.variables i ≡ some o → o < 3
    ranged zero o h = ground arith
    ranged (suc zero) o h = ground arith
    ranged (suc (suc i)) o h = cc

    listed :
        (i o : ℕ)
        → owner_in family.variables i ≡ some o
        → contains (owned_in family.nodes o) i ≡ true
    listed zero o h = let q : o ≡ 0 = ground arith in rw q refl
    listed (suc zero) o h = let q : o ≡ 2 = ground arith in rw q refl
    listed (suc (suc i)) o h = cc

    owning :
        (i o : ℕ)
        → contains (owned_in family.nodes o) i ≡ true
        → owner_in family.variables i ≡ some o
    owning i zero h = let q : i ≡ 0 = ground arith in rw q refl
    owning i (suc zero) h = cc
    owning i (suc (suc zero)) h = let q : i ≡ 1 = ground arith in rw q refl
    owning i (suc (suc (suc o))) h = cc

admits-intersect_example :
    admits_meet (intersect any integer) Ty.bool ≡ (admits any Ty.bool && admits integer Ty.bool)
admits-intersect_example = admits-intersect any integer Ty.bool

branch_from-Branched_example :
    (t' : VersionTree) × (branch_from family 2 ≡ ok (t', 3)) × Branched family t' 2 3
branch_from-Branched_example = branch_from-Branched family 2 refl (omega arith)

is_ancestor-Above_example :
    (b : Bool) × (is_ancestor family 0 2 ≡ ok b) × ((b ≡ true) ↔ Above family.nodes 0 2)
is_ancestor-Above_example = is_ancestor-Above family 0 2 family-Shaped refl refl

ancestors-Upward_example : (l : List ℕ) × (ancestors family 2 ≡ ok l) × Upward family.nodes 2 l
ancestors-Upward_example = ancestors-Upward family 2 family-Shaped refl

remove-Removed_example :
    (t' : VersionTree) × (out : List ℕ) × (remove family 1 ≡ ok (t', out)) × Removed family t' 1 out
remove-Removed_example = remove-Removed family 1 family-Shaped refl (λ e. omega arith)

abbrev leaf_variable : VarInfo
leaf_variable = record { owner = 2; creation_universe = 3; initial_domain = integer }

get_variable_iff_example :
    (get_variable family 2 1 ≡ ok leaf_variable)
    ↔ ((get_elem? family.variables 1 ≡ some leaf_variable) × Above family.nodes 2 2)
get_variable_iff_example = get_variable_iff family 2 1 leaf_variable family-Shaped refl

visible_variables_iff_example :
    (l : List ℕ) × (visible_variables family 1 ≡ ok l)
    × ((k : ℕ) → (contains l k ≡ true) ↔ ((info : VarInfo) × (get_variable family 1 k ≡ ok info)))
visible_variables_iff_example = visible_variables_iff family 1 family-Shaped refl (omega arith)

alloc_var_in_domain-Allocated_example :
    (t' : VersionTree) × (alloc_var_in_domain family 2 4 float ≡ ok (t', 2))
    × Allocated family t' 2 (record { owner = 2; creation_universe = 4; initial_domain = float }) 2
alloc_var_in_domain-Allocated_example =
    alloc_var_in_domain-Allocated family 2 4 float refl refl (omega arith)

reown_variables-Reowned_example :
    (t' : VersionTree) × (reown_variables family 2 1 ≡ ok t') × Reowned family t' 2 1
reown_variables-Reowned_example =
    reown_variables-Reowned family 2 1 family-Shaped family-Owning refl refl
