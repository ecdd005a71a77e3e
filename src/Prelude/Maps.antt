-- ===== src/Prelude/Maps.antt =====
-- Go maps with string keys: an association list where the program walks the map, a function into
-- Bool for the sets `map[string]bool`.
use mathlib.Core.Path.{◌≡◌, refl, sym, ap, ◌∙◌, fun_ext}
use mathlib.Core.Bool.{Bool, true, false}
use mathlib.Core.Option.{Option, none, some}
use mathlib.Core.List.{List, [], ◌∷◌}
use native.Mathlib.Omega.{arith}
use mathlib.Core.Logic.{◌≢◌, ◌⊎◌, inl, inr}
use shellf.Prelude.Tests.{if◌then◌else◌, Bool-cases}
use shellf.Prelude.Lists.{In}
use shellf.Prelude.Text.{Str, str_eq, str_eq_iff, str_eq_refl}

abbrev pub Map {ℓ} : Type ℓ → Type ℓ
Map V = List (Str × V)

module _ {ℓ} {V : Type ℓ} where
  unfoldable pub lookup : Str → Map V → Option V
  lookup k [] = none
  lookup k ((j, v) ∷ m) = if str_eq j k then some v else lookup k m

  unfoldable pub insert : Str → V → Map V → Map V
  insert k v [] = (k, v) ∷ []
  insert k v ((j, w) ∷ m) = if str_eq j k then (k, v) ∷ m else (j, w) ∷ insert k v m

  -- `for k, v := range m { acc[k] = v }`
  unfoldable pub merge : Map V → Map V → Map V
  merge acc [] = acc
  merge acc ((k, v) ∷ m) = merge (insert k v acc) m

  unfoldable pub keys : Map V → List Str
  keys [] = []
  keys ((k, v) ∷ m) = k ∷ keys m

  -- A key that is found is one of the keys.
  pub lookup-In : (k : Str) (m : Map V) → ¬ (lookup k m ≡ none) → In k (keys m)
  unfolding lookup keys
  lookup-In k [] h = h refl
  lookup-In k ((j, v) ∷ m) h = elim (Bool-cases (str_eq j k)) [
    | inl same ↦ inl (sym ((str_eq_iff j k).0 same))
    | inr other ↦ inr (lookup-In k m (λ e. h (rw other e)))
  ]

  -- One of the keys is found.
  pub In-lookup : (k : Str) (m : Map V) → In k (keys m) → lookup k m ≢ none
  unfolding lookup keys
  In-lookup k [] h q = elim h [ ]
  In-lookup k ((j, v) ∷ m) (inl e) q =
      some_none (sym (ap (λ b. if b then some v else lookup k m) ((str_eq_iff j k).1 (sym e))) ∙ q)
    where
      some_none : some v ≢ none
      some_none z = cc
  In-lookup k ((j, v) ∷ m) (inr h) q = elim (Bool-cases (str_eq j k)) [
    | inl same ↦ some_none (sym (ap (λ b. if b then some v else lookup k m) same) ∙ q)
    | inr other ↦ In-lookup k m h (sym (ap (λ b. if b then some v else lookup k m) other) ∙ q)
  ]
    where
      some_none : some v ≢ none
      some_none z = cc

  pub lookup-insert :
      (k j : Str) (v : V) (m : Map V)
      → lookup j (insert k v m) ≡ (if str_eq k j then some v else lookup j m)
  unfolding lookup insert
  lookup-insert k j v [] = refl
  lookup-insert k j v ((i, w) ∷ m) =
      ground (arith, str_eq_iff k j, str_eq_iff i k, str_eq_iff i j, lookup-insert k j v m)

  pub lookup-insert_same : (k : Str) (v : V) (m : Map V) → lookup k (insert k v m) ≡ some v
  lookup-insert_same k v m =
      lookup-insert k k v m ∙ ap (λ b. if b then some v else lookup k m) (str_eq_refl k)

  pub lookup-insert_other :
      (k j : Str) (v : V) (m : Map V) → j ≢ k → lookup j (insert k v m) ≡ lookup j m
  lookup-insert_other k j v m ne =
      lookup-insert k j v m
      ∙ ap (λ b. if b then some v else lookup j m) (by_test (Bool-cases (str_eq k j)))
    where
      by_test : (str_eq k j ≡ true) ⊎ (str_eq k j ≡ false) → str_eq k j ≡ false
      by_test (inl same) = absurd (ne (sym ((str_eq_iff k j).0 same)))
      by_test (inr other) = other

abbrev pub Set : Type 0
Set = Str → Bool

abbrev pub empty_set : Set
empty_set x = false

-- `m[k] = b`
unfoldable pub assign : Set → Str → Bool → Set
assign m k b x = if str_eq k x then b else m x

pub assign_back : (m : Set) (k : Str) → m k ≡ false → assign (assign m k true) k false ≡ m
unfolding assign
assign_back m k h = fun_ext (λ x. ground (arith, str_eq_iff k x))

pub assign_other : (m : Set) (k x : Str) (b : Bool) → str_eq k x ≡ false → assign m k b x ≡ m x
unfolding assign
assign_other m k x b h = rw h
