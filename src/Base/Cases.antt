-- ===== src/Base/Cases.antt =====
-- What the constructors of an option and of a Boolean tell apart.
use mathlib.Core.Path.{◌≡◌}
use mathlib.Core.Bool.{true, false}
use mathlib.Core.Option.{none, some}
use native.Mathlib.Omega.{arith}

pub some_eq {ℓ} : {A : Type ℓ} {a b : A} → some a ≡ some b → a ≡ b
some_eq e = cc

pub none-some {ℓ} : {A : Type ℓ} {a : A} → none ≡ some a → ⊥
none-some e = ground arith

pub true-false : true ≡ false → ⊥
true-false e = ground arith
