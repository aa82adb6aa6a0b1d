-- ===== src/Version/Tree/Shape.antt =====
-- `branch_from` of crates/sage-ir/src/check/infer/version.rs and the well-formedness of the tree.
use sage_dev.Prelude.{ℕ, ◌<◌, ◌≡◌, some, true, List, [], ◌∷◌, arith, length, get_elem?-beyond}
use sage_dev.Version.Tree.{VersionNode, VersionTree, is_live}
use sage_dev.Version.Tree.Wf.{parent_in, children_in, Shaped}
use sage_dev.Version.Tree.Reads.{live_in-lt, contains-append}
use sage_dev.Version.Tree.Branch.{Branched}

pub parent_in-lt :
    (nodes : List VersionNode) (v p : ℕ) → parent_in nodes v ≡ some p → v < length nodes
parent_in-lt nodes v p h = ground (arith, get_elem?-beyond nodes v)

module _ {t t' : VersionTree} {parent child : ℕ} (b : Branched t t' parent child)
    (s : Shaped t.nodes) (live : is_live t parent ≡ true) where
  -- A branch of a live version of a well-formed tree, as `Branched` describes it, is well formed.
  pub Branched-Shaped : Shaped t'.nodes
  Branched-Shaped = record {
    root_live = ground (arith, b.live_eq 0, s.root_live);
    root_parent =
        ground (arith, b.fresh, b.parent_eq 0, s.root_parent, live_in-lt t.nodes parent live);
    rooted = λ v h k. ground (arith, b.fresh, b.grown, b.parent_eq v, s.rooted v);
    linked = record {
      parent_lt = λ v p h.
          ground (arith, b.fresh, b.parent_eq v, s.parent_lt v p, live_in-lt t.nodes parent live);
      parent_live = λ v p l h.
          ground (arith, b.fresh, b.live_eq v, b.live_eq p, b.parent_eq v, s.parent_live v p);
      listed = λ v p l h. ground (
        arith,
        b.fresh,
        b.live_eq v,
        b.parent_eq v,
        b.children_eq p,
        s.listed v p,
        s.parent_lt v p,
        contains-append (children_in t.nodes p) (child ∷ []) v,
        parent_in-lt t.nodes v p,
      );
      child = λ v c h. ground (
        arith,
        b.fresh,
        b.parent_eq c,
        b.children_eq v,
        s.child v c,
        contains-append (children_in t.nodes v) (child ∷ []) c,
        parent_in-lt t.nodes c v,
      );
    };
  }
