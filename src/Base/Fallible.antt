-- ===== src/Base/Fallible.antt =====
-- What a C function does when it does not return: an assertion that aborts, or undefined behaviour.
use mathlib.Core.Bool.{Bool, true, false}
use mathlib.Core.Option.{Option, none, some}

-- `aborted` is a failed `IOTJS_ASSERT`; `overrun` an access outside a block; `null_pointer` one
-- through NULL; `dangling` one through a freed pointer; `uninitialized` a read of an unset variable;
-- `diverged` a loop that has used up its fuel; `overflow` a signed addition out of range.
pub data Fault : Type 0 where
  aborted overrun null_pointer dangling uninitialized diverged overflow : Fault

pub data Outcome {ℓ} (A : Type ℓ) : Type ℓ where
  ok : A → Outcome A
  fault : Fault → Outcome A

-- A function goes on only after one that has returned.
infixl 5 ◌>>=◌
abbrev pub ◌>>=◌ {ℓ κ} :
    {A : Type ℓ} {B : Type κ} (m : Outcome A) (next : A → Outcome B) → Outcome B
fault why >>= next = fault why
ok value >>= next = next value

infixl 5 ◌>>◌
abbrev pub ◌>>◌ {κ} : {B : Type κ} (m : Outcome (Unit {0})) (rest : Outcome B) → Outcome B
m >> rest = m >>= λ done. rest

-- `IOTJS_ASSERT`
abbrev pub assert : Bool → Outcome (Unit {0})
assert true = ok tt
assert false = fault Fault.aborted

abbrev pub or_fault {ℓ} : {A : Type ℓ} → Fault → Option A → Outcome A
or_fault e none = fault e
or_fault e (some a) = ok a
