-- ===== src/Ribs/Shadowing.antt =====
-- Shadowing and scopes in crates/sage-ir/src/check/resolve/ribs.rs.
use sage_dev.Prelude.{
  ℕ, ◌≡◌, ◌≢◌, ◌∙◌, ap, refl, Bool, true, false, ◌&&◌, Option, none, some, List, [], ◌∷◌, ◌++◌,
  ◌==◌, arith, or_else, if◌then◌else◌,
}
use sage_dev.Ribs.{
  Namespace, type, Resolution, param, Entry, Ribs, push_scope, pop_scope, add, add_param,
  add_params, add_generic_params, is_for, same_namespace, lookup_scope, lookup,
}

lookup_scope-snoc :
    (scope : List Entry) (e : Entry) (name : ℕ) (ns : Namespace)
    → lookup_scope (scope ++ e ∷ []) name ns
      ≡ (if is_for name ns e then some e.resolution else lookup_scope scope name ns)
unfolding lookup_scope
lookup_scope-snoc [] e name ns = ground arith
lookup_scope-snoc (x ∷ scope) e name ns = ground (arith, lookup_scope-snoc scope e name ns)

or_else-if :
    (b : Bool) (e : Resolution) (x y : Option Resolution)
    → or_else (if b then some e else x) y ≡ (if b then some e else or_else x y)
or_else-if true e x y = refl
or_else-if false e x y = refl

-- When there is a scope, an added entry hides what the name meant in its namespace, and no other
-- name.
pub lookup-add :
    (scopes : Ribs) (added : ℕ) (added_ns : Namespace) (entry : Resolution) (name : ℕ)
    (ns : Namespace)
    → scopes ≢ []
    → lookup (add scopes added added_ns entry) name ns
      ≡ (if added == name && same_namespace added_ns ns then some entry else lookup scopes name ns)
unfolding add lookup
lookup-add [] added added_ns entry name ns h = absurd (h refl)
lookup-add (scope ∷ []) added added_ns entry name ns h =
    lookup_scope-snoc scope (record { name = added; ns = added_ns; resolution = entry }) name ns
lookup-add (scope ∷ next ∷ rest) added added_ns entry name ns h =
    rw (lookup-add (next ∷ rest) added added_ns entry name ns (λ e. cc)) (
      or_else-if (added == name && same_namespace added_ns ns) entry (lookup (next ∷ rest) name ns)
        (lookup_scope scope name ns))

pop_scope-push : (scopes : Ribs) → pop_scope (push_scope scopes) ≡ scopes
unfolding pop_scope push_scope
pop_scope-push [] = refl
pop_scope-push (scope ∷ []) = refl
pop_scope-push (scope ∷ next ∷ rest) = ap (◌∷◌ scope) (pop_scope-push (next ∷ rest))

pop_scope-add :
    (scopes : Ribs) (name : ℕ) (ns : Namespace) (entry : Resolution)
    → pop_scope (add scopes name ns entry) ≡ pop_scope scopes
unfolding pop_scope add
pop_scope-add [] name ns entry = refl
pop_scope-add (scope ∷ []) name ns entry = refl
pop_scope-add (scope ∷ next ∷ []) name ns entry = refl
pop_scope-add (scope ∷ next ∷ third ∷ rest) name ns entry =
    ap (◌∷◌ scope) (pop_scope-add (next ∷ third ∷ rest) name ns entry)

pop_scope-add_params :
    (name_of : ℕ → Option ℕ) (gps : List ℕ) (scopes : Ribs)
    → pop_scope (add_params name_of scopes gps) ≡ pop_scope scopes
unfolding add_params
pop_scope-add_params name_of [] scopes = refl
pop_scope-add_params name_of (gp ∷ gps) scopes =
    pop_scope-add_params name_of gps (add_param scopes gp (name_of gp)) ∙ one (name_of gp)
  where
    one : (o : Option ℕ) → pop_scope (add_param scopes gp o) ≡ pop_scope scopes
    one none = refl
    one (some name) = pop_scope-add scopes name type (param gp)

-- Closing a scope of generic parameters, after any further entry, gives back the scopes from before,
-- whatever the parameters are called.
pub pop_scope-restores :
    (name_of : ℕ → Option ℕ) (scopes : Ribs) (gps : List ℕ) (name : ℕ) (ns : Namespace)
    (entry : Resolution)
    → (pop_scope (add_generic_params name_of scopes gps) ≡ scopes)
      × (pop_scope (add (add_generic_params name_of scopes gps) name ns entry) ≡ scopes)
unfolding add_generic_params
pop_scope-restores name_of scopes gps name ns entry =
    let opened = pop_scope-add_params name_of gps (push_scope scopes) ∙ pop_scope-push scopes in
    (opened, pop_scope-add (add_params name_of (push_scope scopes) gps) name ns entry ∙ opened)
