-- ===== src/Prelude/Panics.antt =====
-- Rust's indexing, slicing and subtraction of usize, each with its panic: `none`.
use bilive_rec.Prelude.Tests.{leb, ltb, if◌then◌else◌}
use bilive_rec.Prelude.Lists.{length}
use bilive_rec.Prelude.Bytes.{byte_at, take, drop}
use Prim.Native.Nat.{ℕ, ◌+◌, ◌-◌, ◌<◌, ◌≤◌}
use mathlib.Core.Path.{◌≡◌, refl, ap}
use mathlib.Core.Bool.{true, ◌&&◌}
use mathlib.Core.Option.{Option, none, some}
use mathlib.Core.List.{List}
use native.Mathlib.Omega.{arith}
use bilive_rec.Prelude.Outcome.{Outcome, ok, err}

infixl 55 ◌>>=◌
abbrev pub ◌>>=◌ : {A B : Type 0} → Option A → (A → Option B) → Option B
none >>= f = none
some x >>= f = f x

-- data[i]
unfoldable pub index : List ℕ → ℕ → Option ℕ
index bytes i = if ltb i (length bytes) then some (byte_at bytes i) else none

-- data[from..to]
unfoldable pub slice : List ℕ → ℕ → ℕ → Option (List ℕ)
slice bytes from to =
    if leb from to && leb to (length bytes) then some (take (to - from) (drop from bytes)) else none

-- data[from..]
unfoldable pub slice_from : List ℕ → ℕ → Option (List ℕ)
slice_from bytes from = if leb from (length bytes) then some (drop from bytes) else none

-- a - b, where the checks of overflow are on; without them a wrong offset would follow.
unfoldable pub minus : ℕ → ℕ → Option ℕ
minus a b = if leb b a then some (a - b) else none

-- Result::expect
unfoldable pub expect : {E A : Type 0} → Outcome E A → Option A
expect (ok x) = some x
expect (err e) = none

pub index-some :
    (bytes : List ℕ) (i : ℕ) → i < length bytes → index bytes i ≡ some (byte_at bytes i)
unfolding index
index-some bytes i h =
    let inside : ltb i (length bytes) ≡ true = ground (arith, h) in rw inside refl

pub slice-some :
    (bytes : List ℕ) (from n : ℕ)
    → from + n ≤ length bytes
    → slice bytes from (from + n) ≡ some (take n (drop from bytes))
unfolding slice
slice-some bytes from n h =
    let ordered : leb from (from + n) ≡ true = ground arith in
    let inside : leb (from + n) (length bytes) ≡ true = ground (arith, h) in
    let size : from + n - from ≡ n = omega arith in rw (ordered, inside, size) refl

pub slice_from-some :
    (bytes : List ℕ) (from : ℕ)
    → from ≤ length bytes
    → slice_from bytes from ≡ some (drop from bytes)
unfolding slice_from
slice_from-some bytes from h =
    let inside : leb from (length bytes) ≡ true = ground (arith, h) in rw inside refl

pub minus-some : (a b : ℕ) → b ≤ a → minus a b ≡ some (a - b)
unfolding minus
minus-some a b h = let inside : leb b a ≡ true = ground (arith, h) in rw inside refl

pub bind_some :
    {A B : Type 0} {x : Option A} {a : A} (f : A → Option B) → x ≡ some a → (x >>= f) ≡ f a
bind_some f e = ap (λ o. o >>= f) e
