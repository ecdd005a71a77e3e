-- ===== src/Prelude/Text.antt =====
-- Go strings as lists of bytes: literals, equality, the byte order of `sort.Strings`, and the
-- functions of the package `strings` that the program calls.
use Prim.Native.Nat.{ℕ, zero, suc}
use Prim.Native.Char.{code}
use Prim.Native.String.{String}
use mathlib.Core.Path.{◌≡◌, refl}
use mathlib.Core.Logic.{◌↔◌}
use mathlib.Core.Bool.{Bool, true, false, ◌&&◌, ◌||◌}
use mathlib.Core.List.{List, [], ◌∷◌, ◌++◌, reverse}
use native.Mathlib.Omega.{arith}
use shellf.Prelude.Tests.{leb, ltb, ◌==◌, if◌then◌else◌}

-- A Go string is its bytes.
abbrev pub Str : Type 0
Str = List ℕ

-- The bytes of an ASCII literal.
abbrev pub str : String → Str
str String.[] = []
str (String.◌∷◌ c s) = code c ∷ str s

unfoldable pub str_eq : Str → Str → Bool
str_eq [] [] = true
str_eq (x ∷ xs) (y ∷ ys) = x == y && str_eq xs ys
str_eq _ _ = false

pub str_eq_iff : (a b : Str) → (str_eq a b ≡ true) ↔ (a ≡ b)
unfolding str_eq
str_eq_iff [] [] = ground arith
str_eq_iff (x ∷ a) (y ∷ b) = ground (arith, str_eq_iff a b)
str_eq_iff _ _ = ground arith

pub str_eq_refl : (a : Str) → str_eq a a ≡ true
str_eq_refl a = (str_eq_iff a a).1 refl

-- `a <= b` in Go's byte order.
unfoldable pub str_le : Str → Str → Bool
str_le [] b = true
str_le (x ∷ a) [] = false
str_le (x ∷ a) (y ∷ b) = let rest = str_le a b in if ltb x y then true else x == y && rest

-- `strings.HasPrefix`
unfoldable pub has_prefix : Str → Str → Bool
has_prefix s [] = true
has_prefix [] (p ∷ ps) = false
has_prefix (x ∷ s) (p ∷ ps) = x == p && has_prefix s ps

-- `strings.HasSuffix`
unfoldable pub has_suffix : Str → Str → Bool
unfolding has_prefix
has_suffix s p = has_prefix (reverse s) (reverse p)

-- The bytes behind a prefix of `n` bytes.
unfoldable pub drop : ℕ → Str → Str
drop zero s = s
drop (suc n) [] = []
drop (suc n) (x ∷ s) = drop n s

unfoldable pub take : ℕ → Str → Str
take zero s = []
take (suc n) [] = []
take (suc n) (x ∷ s) = x ∷ take n s

-- `strings.Join`
unfoldable pub join : Str → List Str → Str
join sep [] = []
join sep (s ∷ []) = s
join sep (s ∷ t ∷ ts) = s ++ (sep ++ join sep (t ∷ ts))

-- The ASCII white space of `unicode.IsSpace`: \t \n \v \f \r and the blank.
abbrev pub is_space : ℕ → Bool
is_space c = c == 32 || (leb 9 c && leb c 13)

-- The blanks that `strings.TrimRight(s, " \t\r\n")` removes.
abbrev pub is_blank : ℕ → Bool
is_blank c = c == 32 || c == 9 || c == 13 || c == 10

unfoldable pub trim_left : (ℕ → Bool) → Str → Str
trim_left p [] = []
trim_left p (c ∷ s) = let rest = trim_left p s in if p c then rest else c ∷ s

unfoldable pub trim_right : (ℕ → Bool) → Str → Str
trim_right p [] = []
trim_right p (c ∷ s) =
    let rest = trim_right p s in elim rest [ [] ↦ if p c then [] else c ∷ [] | d ∷ r ↦ c ∷ d ∷ r ]

-- `strings.TrimSpace`, on ASCII text.
unfoldable pub trim_space : Str → Str
unfolding trim_left trim_right
trim_space s = trim_left is_space (trim_right is_space s)
