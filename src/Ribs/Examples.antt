-- ===== src/Ribs/Examples.antt =====
-- Two scopes of crates/sage-ir/src/check/resolve/ribs.rs, the inner one hiding a name of the outer one.
use sage_dev.Prelude.{◌≡◌, some, [], ◌∷◌}
use sage_dev.Ribs.{type, value, local, param, sym, Ribs, lookup, add, add_generic_params, pop_scope}
use sage_dev.Ribs.Shadowing.{lookup-add, pop_scope-restores}

abbrev scopes : Ribs
scopes =
    (record { name = 4; ns = value; resolution = sym 1 } ∷ [])
    ∷ (record { name = 4; ns = value; resolution = local 2 } ∷ [])
    ∷ []

lookup-add_example : lookup (add scopes 4 value (local 3)) 4 value ≡ some (local 3)
lookup-add_example = lookup-add scopes 4 value (local 3) 4 value (λ e. cc)

pop_scope-restores_example :
    (pop_scope (add_generic_params some scopes (4 ∷ 5 ∷ [])) ≡ scopes)
    × (pop_scope (add (add_generic_params some scopes (4 ∷ 5 ∷ [])) 4 type (param 9)) ≡ scopes)
pop_scope-restores_example = pop_scope-restores some scopes (4 ∷ 5 ∷ []) 4 type (param 9)
