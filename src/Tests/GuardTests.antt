-- ===== src/Tests/GuardTests.antt =====
-- The theorems on the path guard at concrete inputs.
use shellf.Prelude.{
  suc, false, [], ◌∷◌, Option, none, some, some-injective, Str, str, str_eq, if◌then◌else◌, length,
  ◌<◌, ◌==◌, ◌≡◌, ◌≢◌, ◌⊎◌, inl, inr, Bool-cases, refl, subst, arith,
}
use shellf.PathGuard.{Stat, info, trusted, out_of_fuel, owned_and_unwritable}
use shellf.PathGuard.Ancestors.{
  here, up, Safe, ShortensPaths, owned_and_unwritable-trusted, owned_and_unwritable_terminates,
}

-- Two files: `/` is root's, and `/c` is the user's.
abbrev files : Str → Stat
files p = info (record {
  uid = if str_eq p (str "/") then 0 else 1000;
  perm = 420;
  is_dir = str_eq p (str "/");
  sticky = false;
})

-- What stands before the last separator of a text.
unfoldable before_last : Str → Option Str
before_last [] = none
before_last (c ∷ s) = elim (before_last s) [
  | some t ↦ some (c ∷ t)
  | none ↦ if c == b'/' then some [] else none
]

abbrev directory : Option Str → Str
directory none = str "."
directory (some []) = str "/"
directory (some (c ∷ t)) = c ∷ t

-- `filepath.Dir` of a path that is clean.
unfoldable parent : Str → Str
unfolding before_last
parent s = directory (before_last s)

before_last-lt : (s t : Str) → before_last s ≡ some t → length t < length s
unfolding before_last
before_last-lt [] t h = cc
before_last-lt (c ∷ s) t h = go (before_last s) (before_last-lt s) h
  where
    go :
        (o : Option Str)
        → ((u : Str) → o ≡ some u → length u < length s)
        → elim o [ some u ↦ some (c ∷ u) | none ↦ if c == b'/' then some [] else none ] ≡ some t
        → length t < suc (length s)
    go (some u) ih e =
        subst (λ x. length x < suc (length s)) (some-injective e) (omega (arith, ih u refl))
    go none ih e = elim (Bool-cases (c == b'/')) [
      | inl slash ↦
          subst (λ x. length x < suc (length s)) (some-injective (rw slash at e)) (omega arith)
      | inr other ↦ absurd (ground (arith, rw other at e))
    ]

parent-shortens :
    (q : Str) → (parent q ≡ q) ⊎ ((parent q ≡ str ".") ⊎ (length (parent q) < length q))
unfolding parent
parent-shortens [] = inr (inl refl)
parent-shortens (c ∷ []) = elim (Bool-cases (c == b'/')) [
  | inl slash ↦ rw slash (inl (ground (arith, slash)))
  | inr other ↦ rw other (inr (inl refl))
]
parent-shortens (c ∷ d ∷ s) = go (before_last (c ∷ d ∷ s)) (before_last-lt (c ∷ d ∷ s))
  where
    go :
        (o : Option Str)
        → ((t : Str) → o ≡ some t → length t < length (c ∷ d ∷ s))
        → (directory o ≡ c ∷ d ∷ s)
          ⊎ ((directory o ≡ str ".") ⊎ (length (directory o) < length (c ∷ d ∷ s)))
    go none h = inr (inl refl)
    go (some (e ∷ t)) h = inr (inr (h (e ∷ t) refl))
    go (some []) h = inr (inr (omega arith))

parent-ShortensPaths : ShortensPaths files parent 1000
unfolding parent
parent-ShortensPaths = (refl, parent-shortens)

conf_trusted : owned_and_unwritable files parent 1000 5 (str "/c") ≡ trusted
unfolding owned_and_unwritable str_eq parent
conf_trusted = refl

owned_and_unwritable-trusted_example : Safe files parent 1000 (str "/")
unfolding str_eq parent
owned_and_unwritable-trusted_example =
    owned_and_unwritable-trusted files parent 1000 5 (str "/c") (str "/") conf_trusted
      (up refl (here refl))

owned_and_unwritable_terminates_example :
    owned_and_unwritable files parent 1000 5 (str "/c") ≢ out_of_fuel
owned_and_unwritable_terminates_example =
    owned_and_unwritable_terminates files parent 1000 5 (str "/c") parent-ShortensPaths
      (omega arith)
