-- ===== src/Ribs.antt =====
-- crates/sage-ir/src/check/resolve/ribs.rs, and `Namespace` of mod.rs beside it: the scopes that a body
-- check looks names up in. The last scope is the innermost, and the last entry of a scope hides the
-- ones before it. Names, locals, parameters and symbols are numbers; `name_of` stands for the
-- database's names of generic parameters.
pub mod Shadowing
pub mod Examples
use sage_dev.Prelude.{
  ℕ, Bool, true, false, ◌&&◌, Option, none, some, List, [], ◌∷◌, ◌++◌, ◌==◌, or_else,
}
use sage_dev.Ty.{Ty}

pub data MacroKind : Type 0 where
  bang attr derive : MacroKind

pub data Namespace : Type 0 where
  type value : Namespace
  macro : MacroKind → Namespace

pub data Resolution : Type 0 where
  local : ℕ → Resolution
  param : ℕ → Resolution
  sym : ℕ → Resolution
  self_ty : Ty → Resolution

unfoldable pub sym_of : Resolution → Option ℕ
sym_of (sym s) = some s
sym_of _ = none

abbrev pub same_kind : MacroKind → MacroKind → Bool
same_kind bang bang = true
same_kind attr attr = true
same_kind derive derive = true
same_kind _ _ = false

abbrev pub same_namespace : Namespace → Namespace → Bool
same_namespace type type = true
same_namespace value value = true
same_namespace (macro a) (macro b) = same_kind a b
same_namespace _ _ = false

pub record Entry : Type 0 where
  pub name : ℕ
  pub ns : Namespace
  pub resolution : Resolution

abbrev pub Ribs : Type 0
Ribs = List (List Entry)

unfoldable pub new : Ribs
new = []

unfoldable pub push_scope : Ribs → Ribs
push_scope scopes = scopes ++ [] ∷ []

-- `Vec::pop`.
unfoldable pub pop_scope : Ribs → Ribs
pop_scope [] = []
pop_scope (scope ∷ []) = []
pop_scope (scope ∷ next ∷ rest) = scope ∷ pop_scope (next ∷ rest)

-- Nothing happens when there is no scope.
unfoldable pub add : Ribs → ℕ → Namespace → Resolution → Ribs
add [] name ns entry = []
add (scope ∷ []) name ns entry =
    (scope ++ record { name = name; ns = ns; resolution = entry } ∷ []) ∷ []
add (scope ∷ next ∷ rest) name ns entry = scope ∷ add (next ∷ rest) name ns entry

abbrev pub add_param : Ribs → ℕ → Option ℕ → Ribs
add_param scopes gp none = scopes
add_param scopes gp (some name) = add scopes name type (param gp)

unfoldable pub add_params : (ℕ → Option ℕ) → Ribs → List ℕ → Ribs
add_params name_of scopes [] = scopes
add_params name_of scopes (gp ∷ gps) = add_params name_of (add_param scopes gp (name_of gp)) gps

unfoldable pub add_generic_params : (ℕ → Option ℕ) → Ribs → List ℕ → Ribs
add_generic_params name_of scopes gps = add_params name_of (push_scope scopes) gps

abbrev pub is_for : ℕ → Namespace → Entry → Bool
is_for name ns entry = entry.name == name && same_namespace entry.ns ns

-- From the last entry back.
unfoldable pub lookup_scope : List Entry → ℕ → Namespace → Option Resolution
lookup_scope [] name ns = none
lookup_scope (entry ∷ rest) name ns =
    or_else (lookup_scope rest name ns)
      (elim (is_for name ns entry) [ true ↦ some entry.resolution | false ↦ none ])

-- From the innermost scope out.
unfoldable pub lookup : Ribs → ℕ → Namespace → Option Resolution
lookup [] name ns = none
lookup (scope ∷ rest) name ns = or_else (lookup rest name ns) (lookup_scope scope name ns)
