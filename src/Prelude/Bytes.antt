-- ===== src/Prelude/Bytes.antt =====
-- Slices of bytes as lists of native numbers, and Rust's big-endian conversions.
use Prim.Native.Nat.{ℕ, zero, suc, ◌+◌, ◌-◌, ◌*◌, ◌/◌, ◌%◌, ◌<◌, ◌≤◌, ◌^◌}
use mathlib.Core.Path.{◌≡◌, refl, ap}
use mathlib.Core.List.{List, [], ◌∷◌, ◌++◌}
use native.Mathlib.Omega.{arith}
use native.Mathlib.Nat.{zero-add, suc-add}
use mathlib.Core.Bool.{Bool, true, false, ◌&&◌}
use bilive_rec.Prelude.Tests.{◌==◌}
use bilive_rec.Prelude.Lists.{length}

abbrev pub IsByte : ℕ → Type 0
IsByte b = b < 256

-- data[i], for an index that is in range.
abbrev pub byte_at : List ℕ → ℕ → ℕ
byte_at [] i = 0
byte_at (b ∷ bs) zero = b
byte_at (b ∷ bs) (suc i) = byte_at bs i

-- `==` of two byte vectors.
abbrev pub bytes_eq : List ℕ → List ℕ → Bool
bytes_eq [] [] = true
bytes_eq [] (y ∷ ys) = false
bytes_eq (x ∷ xs) [] = false
bytes_eq (x ∷ xs) (y ∷ ys) = x == y && bytes_eq xs ys

module _ {A : Type 0} where
  -- data[..n] and data[n..], which stop at the end of the data.
  abbrev pub take : ℕ → List A → List A
  take zero xs = []
  take (suc n) [] = []
  take (suc n) (x ∷ xs) = x ∷ take n xs

  abbrev pub drop : ℕ → List A → List A
  drop zero xs = xs
  drop (suc n) [] = []
  drop (suc n) (x ∷ xs) = drop n xs

  -- The equation between the length and the offset is apart, so that an offset may be any term.
  pub take-append : (xs ys : List A) (n : ℕ) → length xs ≡ n → take n (xs ++ ys) ≡ xs
  take-append [] ys zero e = refl
  take-append [] ys (suc n) e = absurd (omega (arith, e))
  take-append (x ∷ xs) ys zero e = absurd (omega (arith, e))
  take-append (x ∷ xs) ys (suc n) e = ap (λ t. x ∷ t) (take-append xs ys n (omega (arith, e)))

  pub drop-append : (xs ys : List A) (n : ℕ) → length xs ≡ n → drop n (xs ++ ys) ≡ ys
  drop-append [] ys zero e = refl
  drop-append [] ys (suc n) e = absurd (omega (arith, e))
  drop-append (x ∷ xs) ys zero e = absurd (omega (arith, e))
  drop-append (x ∷ xs) ys (suc n) e = drop-append xs ys n (omega (arith, e))

  -- Inside the first part, only that part is cut.
  pub drop-append_left :
      (xs ys : List A) (n : ℕ) → n ≤ length xs → drop n (xs ++ ys) ≡ drop n xs ++ ys
  drop-append_left xs ys zero e = refl
  drop-append_left [] ys (suc n) e = absurd (omega (arith, e))
  drop-append_left (x ∷ xs) ys (suc n) e = drop-append_left xs ys n (omega (arith, e))

  pub length-drop : (xs : List A) (n : ℕ) → length (drop n xs) ≡ length xs - n
  length-drop xs zero = omega arith
  length-drop [] (suc n) = omega arith
  length-drop (x ∷ xs) (suc n) = omega (arith, length-drop xs n)

  pub drop_all : (xs : List A) (n : ℕ) → length xs ≤ n → drop n xs ≡ []
  drop_all [] zero h = refl
  drop_all [] (suc n) h = refl
  drop_all (x ∷ xs) zero h = absurd (omega (arith, h))
  drop_all (x ∷ xs) (suc n) h = drop_all xs n (omega (arith, h))

  pub length-take : (xs : List A) (n : ℕ) → n ≤ length xs → length (take n xs) ≡ n
  length-take xs zero h = refl
  length-take [] (suc n) h = absurd (omega (arith, h))
  length-take (x ∷ xs) (suc n) h = omega (arith, length-take xs n (omega (arith, h)))

  pub take-drop : (xs : List A) (n : ℕ) → take n xs ++ drop n xs ≡ xs
  take-drop xs zero = refl
  take-drop [] (suc n) = refl
  take-drop (x ∷ xs) (suc n) = ap (λ t. x ∷ t) (take-drop xs n)

  pub drop-drop : (xs : List A) (m n : ℕ) → drop (m + n) xs ≡ drop n (drop m xs)
  drop-drop xs zero n = rw (zero-add n) refl
  drop-drop [] (suc m) zero = rw (suc-add m 0) refl
  drop-drop [] (suc m) (suc n) = rw (suc-add m (suc n)) refl
  drop-drop (x ∷ xs) (suc m) n = rw (suc-add m n) (drop-drop xs m n)

-- The first byte, and bytes further on, of data that is cut or put together.
pub byte_at-drop : (bytes : List ℕ) (n : ℕ) → byte_at bytes n ≡ byte_at (drop n bytes) 0
byte_at-drop [] zero = refl
byte_at-drop (b ∷ bytes) zero = refl
byte_at-drop [] (suc n) = refl
byte_at-drop (b ∷ bytes) (suc n) = byte_at-drop bytes n

pub byte_at-append : (xs ys : List ℕ) → 0 < length xs → byte_at (xs ++ ys) 0 ≡ byte_at xs 0
byte_at-append [] ys h = absurd (omega (arith, h))
byte_at-append (x ∷ xs) ys h = refl

pub byte_at-take : (xs : List ℕ) (n : ℕ) → 0 < n → byte_at (take n xs) 0 ≡ byte_at xs 0
byte_at-take xs zero h = absurd (omega (arith, h))
byte_at-take [] (suc n) h = refl
byte_at-take (x ∷ xs) (suc n) h = refl

-- u32::from_be_bytes
unfoldable pub from_be_bytes : ℕ → ℕ → ℕ → ℕ → ℕ
from_be_bytes a b c d = a * 2 ^ 24 + b * 2 ^ 16 + c * 2 ^ 8 + d

-- The byte of weight 2 ^ 24, 2 ^ 16, 2 ^ 8 and 1 of u32::to_be_bytes.
abbrev pub be_byte0 : ℕ → ℕ
be_byte0 v = v / 2 ^ 24 % 256

abbrev pub be_byte1 : ℕ → ℕ
be_byte1 v = v / 2 ^ 16 % 256

abbrev pub be_byte2 : ℕ → ℕ
be_byte2 v = v / 2 ^ 8 % 256

abbrev pub be_byte3 : ℕ → ℕ
be_byte3 v = v % 256

pub from_be_bytes_of :
    (v : ℕ) → v < 2 ^ 32 → from_be_bytes (be_byte0 v) (be_byte1 v) (be_byte2 v) (be_byte3 v) ≡ v
unfolding from_be_bytes
from_be_bytes_of v h = omega arith

-- A number of 24 bits has a zero in front.
pub from_be_bytes_of_24 :
    (v : ℕ) → v < 2 ^ 24 → from_be_bytes 0 (be_byte1 v) (be_byte2 v) (be_byte3 v) ≡ v
unfolding from_be_bytes
from_be_bytes_of_24 v h = omega arith
