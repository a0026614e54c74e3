-- ===== src/Prelude/Text.antt =====
-- JavaScript strings as lists of UTF-16 code units, with the operations that the sources use:
-- `===`, `trim`, `split`, `slice`, a decimal `\d+` and the case-insensitive substring tests of
-- the regular expressions.
use Prim.Native.Nat.{ℕ, ◌+◌, ◌-◌, ◌*◌}
use Prim.Native.Char.{code}
use Prim.Native.String.{String}
use mathlib.Core.Path.{◌≡◌, refl}
use mathlib.Core.Bool.{Bool, true, false, ◌&&◌, ◌||◌}
use mathlib.Core.List.{List, [], ◌∷◌, reverse}
use native.Mathlib.Omega.{arith}
use booking_hotel.Prelude.Tests.{leb, ◌==◌, if◌then◌else◌}

abbrev pub JsString : Type 0
JsString = List ℕ

-- A literal whose characters lie in the basic plane: one code unit for each.
unfoldable pub js : String → JsString
js String.[] = []
js (String.◌∷◌ c s) = code c ∷ js s

-- `a === b`.
abbrev pub str_eq : JsString → JsString → Bool
str_eq [] [] = true
str_eq [] (y ∷ ys) = false
str_eq (x ∷ xs) [] = false
str_eq (x ∷ xs) (y ∷ ys) = if x == y then str_eq xs ys else false

pub str_eq→eq : (a b : JsString) → str_eq a b ≡ true → a ≡ b
str_eq→eq [] [] h = refl
str_eq→eq [] (y ∷ ys) h = cc
str_eq→eq (x ∷ xs) [] h = cc
str_eq→eq (x ∷ xs) (y ∷ ys) h = ground (arith, str_eq→eq xs ys)

pub str_eq_refl : (a : JsString) → str_eq a a ≡ true
str_eq_refl [] = refl
str_eq_refl (x ∷ xs) = ground (arith, str_eq_refl xs)

-- WhiteSpace and LineTerminator of ECMAScript.
unfoldable pub is_space : ℕ → Bool
is_space c =
    (leb 9 c && leb c 13)
    || c == 32
    || c == 160
    || c == 5760
    || (leb 8192 c && leb c 8202)
    || c == 8232
    || c == 8233
    || c == 8239
    || c == 8287
    || c == 12288
    || c == 65279

unfoldable pub trim_start : JsString → JsString
unfolding is_space
trim_start [] = []
trim_start (c ∷ s) = let rest = trim_start s in if is_space c then rest else c ∷ s

-- `s.trim()`.
unfoldable pub trim : JsString → JsString
unfolding trim_start
trim s = reverse (trim_start (reverse (trim_start s)))

-- `s.split(sep)` for a separator of one code unit: never empty.
unfoldable pub split_from : ℕ → JsString → JsString → List JsString
split_from sep acc [] = reverse acc ∷ []
split_from sep acc (c ∷ s) =
    let cut = split_from sep [] s in
    let more = split_from sep (c ∷ acc) s in if c == sep then reverse acc ∷ cut else more

unfoldable pub split : ℕ → JsString → List JsString
unfolding split_from
split sep s = split_from sep [] s

abbrev pub is_digit : ℕ → Bool
is_digit c = leb b'0' c && leb c b'9'

-- The longest run of decimal digits at the front, as a number read from `n`, and the rest.
unfoldable pub digits_from : ℕ → JsString → ℕ × JsString
digits_from n [] = (n, [])
digits_from n (c ∷ s) =
    let more = digits_from (n * 10 + (c - b'0')) s in if is_digit c then more else (n, c ∷ s)

abbrev pub ascii_lower : ℕ → ℕ
ascii_lower c = if leb b'A' c && leb c b'Z' then c + 32 else c

-- Whether `p` stands at the front of `s`, upper and lower case ASCII letters taken as one.
unfoldable pub starts_with_ci : JsString → JsString → Bool
starts_with_ci [] s = true
starts_with_ci (x ∷ p) [] = false
starts_with_ci (x ∷ p) (c ∷ s) = ascii_lower x == ascii_lower c && starts_with_ci p s

-- `/p/i.test(s)` for a literal `p`.
unfoldable pub includes_ci : JsString → JsString → Bool
unfolding starts_with_ci
includes_ci p [] = starts_with_ci p []
includes_ci p (c ∷ s) = starts_with_ci p (c ∷ s) || includes_ci p s
