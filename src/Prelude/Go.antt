-- ===== src/Prelude/Go.antt =====
-- Go's run-time behaviour that the model keeps: panics, busy waits, indexing and slicing.
use Prim.Native.Nat.{ℕ, ◌-◌}
use mathlib.Core.Path.{◌≡◌, refl}
use mathlib.Core.Bool.{◌&&◌}
use mathlib.Core.Option.{none, some}
use mathlib.Core.List.{List}
use wing_binlog_go.Prelude.Tests.{leb, if◌then◌else◌}
use wing_binlog_go.Prelude.Lists.{length, get_elem?, take, drop}

-- What a call does: it returns, it panics, or it stands in the busy wait of a full send queue.
-- `no_fuel` is no behaviour of Go: the fuel of a loop of the model ran out.
pub data Outcome {ℓ} (A : Type ℓ) : Type ℓ where
  ok : A → Outcome A
  panic : Outcome A
  spins : Outcome A
  no_fuel : Outcome A

infixl 5 ◌>>=◌
abbrev pub ◌>>=◌ {ℓ κ} : {A : Type ℓ} {B : Type κ} → Outcome A → (A → Outcome B) → Outcome B
ok a >>= f = f a
panic >>= f = panic
spins >>= f = spins
no_fuel >>= f = no_fuel

-- `xs[i]`
abbrev pub index {ℓ} : {A : Type ℓ} → List A → ℕ → Outcome A
index xs i = elim (get_elem? xs i) [ none ↦ panic | some a ↦ ok a ]

-- `xs[lo:hi]` for `hi` at most the length of `xs`.
abbrev pub slice {ℓ} : {A : Type ℓ} → List A → ℕ → ℕ → Outcome (List A)
slice xs lo hi = if leb lo hi && leb hi (length xs) then ok (take (hi - lo) (drop lo xs)) else panic

-- A sequence that returns has a first part that returns.
pub >>=-eq-ok {ℓ κ} :
    {A : Type ℓ} {B : Type κ} (m : Outcome A) (f : A → Outcome B) (b : B)
    → (m >>= f) ≡ ok b
    → (a : A) × (m ≡ ok a) × (f a ≡ ok b)
>>=-eq-ok (ok a) f b h = (a, refl, h)
>>=-eq-ok panic f b h = cc
>>=-eq-ok spins f b h = cc
>>=-eq-ok no_fuel f b h = cc

pub ok-injective {ℓ} : {A : Type ℓ} {a b : A} → Outcome.ok a ≡ ok b → a ≡ b
ok-injective e = cc
