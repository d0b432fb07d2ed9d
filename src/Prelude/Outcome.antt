-- ===== src/Prelude/Outcome.antt =====
-- Rust's `Result<A, E>` for the parts whose errors are not `AppError`, with `?` as a bind.
use mathlib.Core.Path.{◌≡◌, refl}
use mathlib.Core.Logic.{◌⊎◌, inl, inr}
use mathlib.Core.Bool.{Bool, true, false, not}
use bilive_rec.Prelude.Tests.{if◌then◌else◌}

pub data Outcome (E A : Type 0) : Type 0 where
  ok : A → Outcome E A
  err : E → Outcome E A

infixl 5 ◌>>=◌
abbrev pub ◌>>=◌ : {E A B : Type 0} → Outcome E A → (A → Outcome E B) → Outcome E B
ok a >>= f = f a
err e >>= f = err e

module _ {E A : Type 0} where
  pub Outcome-cases : (r : Outcome E A) → ((a : A) × (r ≡ ok a)) ⊎ ((e : E) × (r ≡ err e))
  Outcome-cases (ok a) = inl (a, refl)
  Outcome-cases (err e) = inr (e, refl)

  pub ok_inj : {a b : A} → ◌≡◌ {A = Outcome E A} (ok a) (ok b) → a ≡ b
  ok_inj h = cc

-- The two steps of a chain that succeeds.
pub chain_ok :
    {E A B : Type 0} (m : Outcome E A) (f : A → Outcome E B) (b : B)
    → (m >>= f) ≡ ok b
    → (a : A) × (m ≡ ok a) × (f a ≡ ok b)
chain_ok (ok a) f b h = (a, refl, h)
chain_ok (err e) f b h = cc

-- A guard that lets through: `if !b { return Err(e) }`.
pub guard_ok :
    {E A : Type 0} (b : Bool) (e : E) (m : Outcome E A) (a : A)
    → (if not b then err e else m) ≡ ok a
    → (b ≡ true) × (m ≡ ok a)
guard_ok true e m a h = (refl, h)
guard_ok false e m a h = absurd cc

-- A guard on the failure itself: `if b { return Err(e) }`.
pub stop_ok :
    {E A : Type 0} (b : Bool) (e : E) (m : Outcome E A) (a : A)
    → (if b then err e else m) ≡ ok a
    → (b ≡ false) × (m ≡ ok a)
stop_ok false e m a h = (refl, h)
stop_ok true e m a h = absurd cc
