-- ===== src/Prelude/Sort.antt =====
-- `sort.Strings`: insertion sort, which gives the same list for every order of its input.
use mathlib.Core.Path.{◌≡◌, refl, ap₂, ◌∙◌}
use mathlib.Core.Logic.{◌⊎◌, inl, inr, ◌↔◌}
use mathlib.Core.Bool.{true}
use mathlib.Core.List.{List, [], ◌∷◌, Permᴰ}
use native.Mathlib.Omega.{arith}
use shellf.Prelude.Lists.{In}
use shellf.Prelude.Tests.{if◌then◌else◌}
use shellf.Prelude.Text.{Str, str_le}

unfoldable pub insert_sorted : Str → List Str → List Str
insert_sorted x [] = x ∷ []
insert_sorted x (y ∷ ys) = if str_le x y then x ∷ y ∷ ys else y ∷ insert_sorted x ys

unfoldable pub sort_strings : List Str → List Str
unfolding insert_sorted
sort_strings [] = []
sort_strings (x ∷ xs) = insert_sorted x (sort_strings xs)

In-insert_sorted : (a x : Str) (ys : List Str) → In a (insert_sorted x ys) ↔ ((a ≡ x) ⊎ In a ys)
unfolding insert_sorted
In-insert_sorted a x [] = ground arith
In-insert_sorted a x (y ∷ ys) = ground (arith, In-insert_sorted a x ys)

pub In-sort_strings : (a : Str) (xs : List Str) → In a (sort_strings xs) ↔ In a xs
unfolding sort_strings
In-sort_strings a [] = (λ m. m, λ m. m)
In-sort_strings a (x ∷ xs) =
    ground (arith, In-insert_sorted a x (sort_strings xs), In-sort_strings a xs)

str_le_antisym : (a b : Str) → str_le a b ≡ true → str_le b a ≡ true → a ≡ b
unfolding str_le
str_le_antisym [] [] p q = refl
str_le_antisym [] (y ∷ b) p q = cc
str_le_antisym (x ∷ a) [] p q = cc
str_le_antisym (x ∷ a) (y ∷ b) p q = ground (arith, str_le_antisym a b)

str_le_total : (a b : Str) → (str_le a b ≡ true) ⊎ (str_le b a ≡ true)
unfolding str_le
str_le_total [] b = inl refl
str_le_total (x ∷ a) [] = inr refl
str_le_total (x ∷ a) (y ∷ b) = ground (arith, str_le_total a b)

str_le_trans : (a b c : Str) → str_le a b ≡ true → str_le b c ≡ true → str_le a c ≡ true
unfolding str_le
str_le_trans [] b c p q = refl
str_le_trans (x ∷ a) [] c p q = cc
str_le_trans (x ∷ a) (y ∷ b) [] p q = cc
str_le_trans (x ∷ a) (y ∷ b) (z ∷ c) p q = ground (arith, str_le_trans a b c)

insert_sorted_comm :
    (x y : Str) (l : List Str)
    → insert_sorted x (insert_sorted y l) ≡ insert_sorted y (insert_sorted x l)
unfolding insert_sorted
insert_sorted_comm x y [] = ground (arith, str_le_antisym x y, str_le_total x y)
insert_sorted_comm x y (z ∷ l) = ground (
  arith,
  str_le_antisym x y,
  str_le_total x y,
  str_le_trans x y z,
  str_le_trans y x z,
  str_le_total x z,
  str_le_total y z,
  str_le_antisym x z,
  str_le_antisym y z,
  str_le_trans x z y,
  str_le_trans y z x,
  insert_sorted_comm x y l,
)

-- The order in which the names come does not matter.
pub sort_strings-perm : {xs ys : List Str} → Permᴰ xs ys → sort_strings xs ≡ sort_strings ys
unfolding sort_strings
sort_strings-perm Permᴰ.nil = refl
sort_strings-perm (Permᴰ.cons e p) = ap₂ insert_sorted e (sort_strings-perm p)
sort_strings-perm (Permᴰ.swap {a} {b} {a'} {b'} {l} e f) =
    ap₂ (λ x y. insert_sorted x (insert_sorted y (sort_strings l))) e f
    ∙ insert_sorted_comm b' a' (sort_strings l)
sort_strings-perm (Permᴰ.trans p q) = sort_strings-perm p ∙ sort_strings-perm q
