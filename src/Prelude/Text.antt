-- ===== src/Prelude/Text.antt =====
-- What the program asks of texts and of paths: Rust's `str` and `std::path` on Unix.
use Prim.Native.Nat.{ℕ, zero, suc, ◌/◌, ◌%◌}
use Prim.Native.Char.{code}
use Prim.Native.String.{String, ◌++◌ as text_append}
use mathlib.Core.Bool.{Bool, true, false, not, ◌&&◌, ◌||◌}
use mathlib.Core.List.{List, [], ◌∷◌}
use bilive_rec.Prelude.Tests.{leb, ltb, ◌==◌, str_eq, if◌then◌else◌}
use bilive_rec.Prelude.Lists.{any}

-- The code points of a text. `String` has its own `[]` and `∷`.
abbrev pub codes : String → List ℕ
codes String.[] = []
codes (String.◌∷◌ c s) = code c ∷ codes s

-- char::is_whitespace: the code points with the property White_Space.
unfoldable pub is_whitespace : ℕ → Bool
is_whitespace c =
    (leb 9 c && leb c 13)
    || c == 32
    || c == 0x85
    || c == 0xa0
    || c == 0x1680
    || (leb 0x2000 c && leb c 0x200a)
    || c == 0x2028
    || c == 0x2029
    || c == 0x202f
    || c == 0x205f
    || c == 0x3000

-- char::is_control: the category Cc.
unfoldable pub is_control : ℕ → Bool
is_control c = leb c 31 || (leb 127 c && leb c 159)

-- value.trim().is_empty(): nothing is left exactly when every character is white space.
unfoldable pub is_blank : String → Bool
unfolding any is_whitespace
is_blank s = not (any (λ c. not (is_whitespace c)) (codes s))

-- value.chars().any(char::is_control)
unfoldable pub has_control : String → Bool
unfolding any is_control
has_control s = any is_control (codes s)

infixr 65 ◌<>◌
abbrev pub ◌<>◌ : String → String → String
s <> t = text_append s t

abbrev digit : ℕ → String
digit d =
    if d == 0
    then "0"
    else if d == 1
    then "1"
    else if d == 2
    then "2"
    else if d == 3
    then "3"
    else if d == 4
    then "4"
    else if d == 5
    then "5"
    else if d == 6
    then "6"
    else if d == 7
    then "7"
    else if d == 8
    then "8"
    else "9"

decimal_digits : ℕ → ℕ → String
decimal_digits zero n = ""
decimal_digits (suc fuel) n =
    let rest = decimal_digits fuel (n / 10) in if ltb n 10 then digit n else rest <> digit (n % 10)

-- `Display` of an unsigned number: twenty digits are enough for 64 bits.
unfoldable pub decimal : ℕ → String
unfolding decimal_digits
decimal n = decimal_digits 20 n

-- A path as `Path::components` reads it, which is how paths are compared: whether it starts at the
-- root, and the names below.
pub record FilePath : Type 0 where
  pub is_absolute : Bool
  pub components : List String

abbrev pub names_eq : List String → List String → Bool
names_eq [] [] = true
names_eq [] (y ∷ ys) = false
names_eq (x ∷ xs) [] = false
names_eq (x ∷ xs) (y ∷ ys) = str_eq x y && names_eq xs ys

unfoldable pub path_eq : FilePath → FilePath → Bool
path_eq p q =
    (if p.is_absolute then q.is_absolute else not q.is_absolute)
    && names_eq p.components q.components
