-- ===== src/Prelude/Maps.antt =====
-- Finite maps (the source's hash maps) as association lists over the native numbers; `insert` puts
-- the new binding in front of the old ones that it hides.
use Prim.Native.Nat.{ℕ, ◌<◌, ◌≤◌}
use mathlib.Core.Path.{◌≡◌, refl}
use mathlib.Core.Logic.{◌≢◌}
use mathlib.Core.List.{List, [], ◌∷◌, ◌++◌}
use mathlib.Core.Option.{Option, none, some}
use native.Mathlib.Omega.{arith}
use sage_dev.Prelude.Tests.{◌==◌, if◌then◌else◌}
use sage_dev.Prelude.Lists.{length}

module _ {ℓ} {V : Type ℓ} where
  abbrev pub lookup : ℕ → List (ℕ × V) → Option V
  lookup k [] = none
  lookup k ((j, v) ∷ m) = if j == k then some v else lookup k m

  abbrev pub insert : ℕ → V → List (ℕ × V) → List (ℕ × V)
  insert k v m = (k, v) ∷ m

  -- `HashMap::extend`: the bindings of `new` hide those of `m`.
  abbrev pub extend : List (ℕ × V) → List (ℕ × V) → List (ℕ × V)
  extend m new = new ++ m

  abbrev pub or_else : Option V → Option V → Option V
  or_else (some v) o = some v
  or_else none o = o

  pub lookup-append :
      (k : ℕ) (m n : List (ℕ × V)) → lookup k (m ++ n) ≡ or_else (lookup k m) (lookup k n)
  lookup-append k [] n = refl
  lookup-append k ((j, v) ∷ m) n = ground (arith, lookup-append k m n)

  -- All bindings of a key removed.
  abbrev pub without : ℕ → List (ℕ × V) → List (ℕ × V)
  without k [] = []
  without k ((j, v) ∷ m) = if j == k then without k m else (j, v) ∷ without k m

  pub lookup-without_ne : (k j : ℕ) (m : List (ℕ × V)) → k ≢ j → lookup j (without k m) ≡ lookup j m
  lookup-without_ne k j [] h = refl
  lookup-without_ne k j ((i, v) ∷ m) h = ground (arith, lookup-without_ne k j m h)

  pub length-without-le : (k : ℕ) (m : List (ℕ × V)) → length (without k m) ≤ length m
  length-without-le k [] = omega arith
  length-without-le k ((i, v) ∷ m) = ground (arith, length-without-le k m)

  pub length-without-lt :
      (k : ℕ) (m : List (ℕ × V)) {v : V} → lookup k m ≡ some v → length (without k m) < length m
  length-without-lt k [] h = cc
  length-without-lt k ((i, w) ∷ m) {v} h =
      ground (arith, length-without-le k m, length-without-lt k m {v = v})
