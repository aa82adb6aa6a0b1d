-- ===== src/Version/Tree/Discard.antt =====
-- `VersionTree::remove` of crates/sage-ir/src/check/infer/version.rs as a whole.
use sage_dev.Prelude.{
  ℕ, ◌&&◌, ◌≡◌, ◌∙◌, sym, refl, ◌≢◌, ◌⊎◌, inl, inr, some, Bool-cases, Option-cases, not, true,
  false, List, [], length, length-set, contains, keep, arith, ◌==◌, ==_ne, if◌then◌else◌, ok,
  get_elem?, get_elem?-some, set, get_elem?-lt,
}
use sage_dev.Version.Tree.{
  VersionNode, VersionTree, live_in, is_live, remove, remove_subtree, parent_of,
}
use sage_dev.Version.Tree.Wf.{
  parent_in, children_in, owned_in, Linked, Shaped, Above, here, up, Above-le,
}
use sage_dev.Version.Tree.Reads.{
  keep_unlisted, live_in-set, parent_in-set, children_in-set, owned_variables-set, live_in-lt,
  live_in-node, contains-keep_ne,
}
use sage_dev.Version.Tree.Remove.{Cleared, Cleared-Linked}
use sage_dev.Version.Tree.Remove.Run.{remove_subtree-Clears}

-- What `remove` does to the tree: exactly the versions at or below `v` die.
pub record Removed (t t' : VersionTree) (v : ℕ) (out : List ℕ) : Type 0 where
  pub shaped : Shaped t'.nodes
  pub same_variables : t'.variables ≡ t.variables
  pub length_eq : length t'.nodes ≡ length t.nodes
  pub parent_eq : (u : ℕ) → parent_in t'.nodes u ≡ parent_in t.nodes u
  pub owned_eq : (u : ℕ) → owned_in t'.nodes u ≡ owned_in t.nodes u
  pub children_eq :
      (u : ℕ)
      → (Above t.nodes v u → ⊥)
      → children_in t'.nodes u ≡ keep (λ c. not (c == v)) (children_in t.nodes u)
  pub dead : (u : ℕ) → Above t.nodes v u → is_live t' u ≡ false
  pub kept : (u : ℕ) → (is_live t' u ≡ is_live t u) ⊎ Above t.nodes v u
  pub reported : (u : ℕ) → contains out u ≡ true → Above t.nodes v u
  pub complete : (u : ℕ) → is_live t u ≡ true → Above t.nodes v u → contains out u ≡ true

dropped : ℕ → VersionNode → VersionNode
dropped v entry = record entry { children = keep (λ c. not (c == v)) entry.children }

-- The parent drops the removed child.
module _ (m : List VersionNode) (v p : ℕ) (entry : VersionNode) (read : get_elem? m p ≡ some entry)
    (gone : live_in m v ≡ false) (k : Linked m) where
  live-dropped : (u : ℕ) → live_in (set m p (dropped v entry)) u ≡ live_in m u
  unfolding dropped
  live-dropped u = ground (arith, live_in-set m p (dropped v entry) u (get_elem?-lt m p read))

  parent-dropped : (u : ℕ) → parent_in (set m p (dropped v entry)) u ≡ parent_in m u
  unfolding dropped
  parent-dropped u = ground (arith, parent_in-set m p (dropped v entry) u (get_elem?-lt m p read))

  owned-dropped : (u : ℕ) → owned_in (set m p (dropped v entry)) u ≡ owned_in m u
  unfolding dropped
  owned-dropped u =
      ground (arith, owned_variables-set m p (dropped v entry) u (get_elem?-lt m p read))

  children-dropped :
      (u c : ℕ)
      → contains (children_in (set m p (dropped v entry)) u) c ≡ (
          if p == u
          then contains (children_in m u) c && not (c == v)
          else contains (children_in m u) c)
  unfolding dropped
  children-dropped u c = ground (
    arith,
    children_in-set m p (dropped v entry) u (get_elem?-lt m p read),
    contains-keep_ne entry.children v c,
  )

  dropped-Linked : Linked (set m p (dropped v entry))
  dropped-Linked = record {
    parent_lt = λ u q e. k.parent_lt u q (sym (parent-dropped u) ∙ e);
    parent_live = λ u q l e.
        live-dropped q ∙ k.parent_live u q (sym (live-dropped u) ∙ l) (sym (parent-dropped u) ∙ e);
    listed = λ u q l e.
        let l' : live_in m u ≡ true = sym (live-dropped u) ∙ l in
        let found = k.listed u q l' (sym (parent-dropped u) ∙ e) in
        let other : u ≢ v = λ e'. cc (rw e' at l') in
        ground (arith, children-dropped q u, ==_ne u v other);
    child = λ u c h. parent-dropped c ∙ k.child u c (ground (arith, children-dropped u c));
  }

-- The pieces of `remove` put together.
module _ (t : VersionTree) (v p : ℕ) (node : VersionNode) (s : Shaped t.nodes)
    (read : get_elem? t.nodes v ≡ some node) (alive : node.removed ≡ false)
    (link : node.parent ≡ some p) (ne : v ≢ 0) (m : List VersionNode) (out : List ℕ)
    (run : remove_subtree (length t.nodes) t.nodes v [] ≡ ok (m, out))
    (r : Cleared (Above t.nodes v) t.nodes m [] out) (entry : VersionNode)
    (read' : get_elem? m p ≡ some entry) where
  removed_tree : VersionTree
  removed_tree = record t { nodes = set m p (dropped v entry) }

  remove-run : remove t v ≡ ok (removed_tree, out)
  unfolding remove parent_of removed_tree dropped
  remove-run = ground (arith, ==_ne v 0 ne)

  gone : live_in m v ≡ false
  gone = r.dead v here

  same_live : (u : ℕ) → live_in removed_tree.nodes u ≡ live_in m u
  unfolding removed_tree
  same_live = live-dropped m v p entry read' gone (Cleared-Linked r s.linked (λ u q e h. up e h))

  same_parent : (u : ℕ) → parent_in removed_tree.nodes u ≡ parent_in t.nodes u
  unfolding removed_tree
  same_parent u =
      parent-dropped m v p entry read' gone (Cleared-Linked r s.linked (λ u q e h. up e h)) u
      ∙ r.parent_eq u

  same_length : length removed_tree.nodes ≡ length t.nodes
  unfolding removed_tree
  same_length = length-set m p (dropped v entry) ∙ r.length_eq

  root_stays : is_live removed_tree 0 ≡ true
  root_stays = elim (r.kept 0) [
    | inl (e, _) ↦ same_live 0 ∙ e ∙ s.root_live
    | inr above ↦ absurd (omega (arith, Above-le s above))
  ]

  removed-Shaped : Shaped removed_tree.nodes
  unfolding removed_tree
  removed-Shaped = record {
    root_live = root_stays;
    root_parent = same_parent 0 ∙ s.root_parent;
    rooted = λ u h e. s.rooted u (omega (arith, same_length)) (sym (same_parent u) ∙ e);
    linked = dropped-Linked m v p entry read' gone (Cleared-Linked r s.linked (λ u q e h. up e h));
  }

  -- Only the parent lists `v`, so that dropping it from any other list changes nothing.
  same_children :
      (u : ℕ)
      → (Above t.nodes v u → ⊥)
      → children_in removed_tree.nodes u ≡ keep (λ c. not (c == v)) (children_in t.nodes u)
  unfolding removed_tree dropped
  same_children u apart = elim (r.kept u) [
    | inr above ↦ absurd (apart above)
    | inl (_, same) ↦
        let over = children_in-set m p (dropped v entry) u (get_elem?-lt m p read') in
        elim (Bool-cases (p == u)) [
          | inl at ↦ ground (arith, same)
          | inr differ ↦
              let unlisted : contains (children_in t.nodes u) v ≡ false =
                elim (Bool-cases (contains (children_in t.nodes u) v)) [
                  | inr fresh ↦ fresh
                  | inl listed ↦
                      let back = s.child u v listed in
                      let above : parent_in t.nodes v ≡ some p = rw (read, parent_in) link in
                      absurd (ground arith)
                ] in
              let kept = keep_unlisted v (children_in t.nodes u) unlisted in ground (arith, same)
        ]
  ]

  removed_tree-Removed : Removed t removed_tree v out
  removed_tree-Removed = record {
    shaped = removed-Shaped;
    same_variables = unfold removed_tree in refl;
    length_eq = same_length;
    parent_eq = same_parent;
    owned_eq = λ u.
        unfold removed_tree in
        owned-dropped m v p entry read' gone (Cleared-Linked r s.linked (λ u q e h. up e h)) u
        ∙ r.owned_eq u;
    children_eq = same_children;
    dead = λ u h. same_live u ∙ r.dead u h;
    kept = λ u. elim (r.kept u) [ inl (e, _) ↦ inl (same_live u ∙ e) | inr h ↦ inr h ];
    reported = λ u h. elim (r.reported u h) [ inl e ↦ cc | inr g ↦ g ];
    complete = r.complete;
  }

-- In a well-formed tree a live version other than the root can be removed: `remove` returns, the
-- versions at or below it are dead and the live ones among them are reported, all others are as
-- live as before, and the tree stays well formed.
pub remove-Removed :
    (t : VersionTree) (v : ℕ)
    → Shaped t.nodes
    → is_live t v ≡ true
    → v ≢ 0
    → (t' : VersionTree) × (out : List ℕ) × (remove t v ≡ ok (t', out)) × Removed t t' v out
remove-Removed t v s live ne =
    let (node, read, alive) = live_in-node t.nodes v live in
    let lt = live_in-lt t.nodes v live in
    elim (Option-cases node.parent) [
      | inl top ↦ absurd (ne (s.rooted v lt (rw (read, parent_in) top)))
      | inr (p, link) ↦
          let below = s.parent_lt v p (rw (read, parent_in) link) in
          let (m, out, run, r) =
            remove_subtree-Clears (length t.nodes) t.nodes v [] s.linked lt (omega arith) in
          let (entry, read') = get_elem?-some m p (omega (arith, r.length_eq)) in
          (
            removed_tree t v p node s read alive link ne m out run r entry read',
            out,
            remove-run t v p node s read alive link ne m out run r entry read',
            removed_tree-Removed t v p node s read alive link ne m out run r entry read',
          )
    ]
