-- ===== src/Prelude/Outcomes.antt =====
-- What a run of the modelled code comes to: a value, a failed assertion (a panic), or a loop whose
-- fuel is used up.
use mathlib.Core.Path.{◌≡◌, refl}
use mathlib.Core.Bool.{Bool, true, false}
use mathlib.Core.Option.{Option, none, some}

pub data Outcome {ℓ} (A : Type ℓ) : Type ℓ where
  ok : A → Outcome A
  panicked : Outcome A
  out_of_fuel : Outcome A

abbrev pub ◌>>=◌ {ℓ κ} : {A : Type ℓ} {B : Type κ} → Outcome A → (A → Outcome B) → Outcome B
out_of_fuel >>= next = out_of_fuel
panicked >>= next = panicked
ok value >>= next = next value

abbrev pub ◌>>◌ {κ} : {B : Type κ} → Outcome (Unit {0}) → Outcome B → Outcome B
run >> after = run >>= λ done. after

infixl 5 ◌>>=◌ ◌>>◌
-- `assert!`.
abbrev pub assert : Bool → Outcome (Unit {0})
assert true = ok tt
assert false = panicked

-- `expect`, `unwrap` and an index that is checked.
abbrev pub expect {ℓ} : {A : Type ℓ} → Option A → Outcome A
expect none = panicked
expect (some a) = ok a

pub >>=-eq-ok {ℓ κ} :
    {A : Type ℓ} {B : Type κ} (run : Outcome A) (next : A → Outcome B) {result : B}
    → (run >>= next) ≡ ok result
    → (value : A) × (run ≡ ok value) × (next value ≡ ok result)
>>=-eq-ok panicked next e = cc
>>=-eq-ok out_of_fuel next e = cc
>>=-eq-ok (ok value) next e = (value, refl, e)

pub assert-eq-ok : (b : Bool) → assert b ≡ ok tt → b ≡ true
assert-eq-ok true h = refl
assert-eq-ok false h = cc

pub expect-eq-ok {ℓ} : {A : Type ℓ} (o : Option A) {a : A} → expect o ≡ ok a → o ≡ some a
expect-eq-ok none h = cc
expect-eq-ok (some x) h = cc

abbrev pub fails {ℓ} : {A : Type ℓ} → Outcome A → Bool
fails (ok value) = false
fails _ = true

-- To split on how a run ends.
pub given {ℓ κ} :
    {A : Type ℓ} {P : Type κ} (run : Outcome A)
    → (fails run ≡ true → P)
    → ((value : A) → run ≡ ok value → P)
    → P
given panicked bad good = bad refl
given out_of_fuel bad good = bad refl
given (ok value) bad good = good value refl
