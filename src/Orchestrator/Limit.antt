-- ===== src/Orchestrator/Limit.antt =====
-- What `resolveLimit` makes of the names of a limit.
use shellf.Prelude.{
  str_eq, str_eq_iff, assign, assign_other, Option-cases, ◌≢◌, true, List, [], ◌∷◌, Option, some,
  Str, ◌≡◌, ◌⊎◌, inl, inr, refl, sym, subst, ◌∙◌, arith, In, Set, empty_set, Bool-cases,
}
use shellf.Inventory.{Inventory, members}
use shellf.Orchestrator.{resolve_limit, limit_set, add_all, is_allowed}

inl-injective : {A B : Type 0} {a b : A} → ◌≡◌ {A = A ⊎ B} (inl a) (inl b) → a ≡ b
inl-injective h = cc

-- A host or group of the limit has the alias among its members.
abbrev pub Named : Inventory → List Str → Str → Type 0
Named inv names a =
    (name : Str) × (g : List Str) × In name names × (members inv name ≡ some g) × In a g

add_all-In : (g : List Str) (s : Set) (a : Str) → add_all g s a ≡ true → In a g ⊎ (s a ≡ true)
add_all-In [] s a h = inr h
add_all-In (b ∷ g) s a h = elim (add_all-In g (assign s b true) a h) [
  | inl m ↦ inl (inr m)
  | inr old ↦ elim (assign-In s b a old) [ inl same ↦ inl (inl same) | inr before ↦ inr before ]
]
  where
    assign-In : (s : Set) (b a : Str) → assign s b true a ≡ true → (a ≡ b) ⊎ (s a ≡ true)
    assign-In s b a h = elim (Bool-cases (str_eq b a)) [
      | inl same ↦ inl (sym ((str_eq_iff b a).0 same))
      | inr other ↦ inr (sym (assign_other s b a true other) ∙ h)
    ]

limit_set-Named :
    (names : List Str) (inv : Inventory) (s allowed : Set) (a : Str)
    → limit_set names inv s ≡ inl allowed
    → allowed a ≡ true
    → Named inv names a ⊎ (s a ≡ true)
unfolding limit_set
limit_set-Named [] inv s allowed a e h = inr (subst (λ t. t a ≡ true) (sym (inl-injective e)) h)
limit_set-Named (n ∷ ns) inv s allowed a e h = elim (Option-cases (members inv n)) [
  | inl unknown ↦ absurd (ground (arith, rw (limit_set, unknown) at e))
  | inr (g, known) ↦
      elim (limit_set-Named ns inv (add_all g s) allowed a (rw (limit_set, known) at e) h) [
        | inl (name, k, m, q, i) ↦ inl (name, k, inr m, q, i)
        | inr added ↦ elim (add_all-In g s a added) [
          | inl i ↦ inl (n, g, inl refl, known, i)
          | inr old ↦ inr old
        ]
      ]
]

pub resolve_limit-Named :
    (inv : Inventory) (names : List Str) (a : Str) (allowed : Option Set)
    → names ≢ []
    → resolve_limit names inv ≡ inl allowed
    → is_allowed allowed a ≡ true
    → Named inv names a
unfolding resolve_limit
resolve_limit-Named inv [] a allowed given e h = absurd (given refl)
resolve_limit-Named inv (n ∷ ns) a allowed given e h =
    by_set (limit_set (n ∷ ns) inv empty_set) refl e
  where
    by_set :
        (l : Set ⊎ Str)
        → limit_set (n ∷ ns) inv empty_set ≡ l
        → ◌≡◌ {A = Option Set ⊎ Str}
            (elim l [ inl s ↦ inl (some s) | inr name ↦ inr name ])
            (inl allowed)
        → Named inv (n ∷ ns) a
    by_set (inl s) q k =
        elim (limit_set-Named (n ∷ ns) inv empty_set s a q
          (subst (λ o. is_allowed o a ≡ true) (sym (inl-injective k)) h)) [
            | inl named ↦ named
            | inr none_ ↦ absurd (ground (arith, none_))
          ]
    by_set (inr name) q k = absurd (ground (arith, k))
