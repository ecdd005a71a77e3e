-- ===== src/Inventory/Lookup.antt =====
-- The two levels of a host's values: its own, then the defaults.
use shellf.Prelude.{
  [], ◌∷◌, Option, none, some, Str, str_eq, str_eq_iff, Map, lookup, insert, merge, keys,
  lookup-insert, ◌≡◌, ◌∙◌, inl, inr, refl, sym, ap, subst, In, Bool-cases,
}
use shellf.Inventory.{Host, Inventory, resolve, with_defaults}

-- No key stands twice.
abbrev pub Distinct {ℓ} : {V : Type ℓ} → Map V → Type 0
Distinct [] = Unit
Distinct ((k, v) ∷ m) = (¬ In k (keys m)) × Distinct m

abbrev pub or_else {ℓ} : {A : Type ℓ} → Option A → Option A → Option A
or_else (some a) b = some a
or_else none b = b

or_else-none : {A : Type 0} (o : Option A) → or_else o none ≡ o
or_else-none none = refl
or_else-none (some a) = refl

lookup-absent : (j : Str) (m : Map Str) → ¬ In j (keys m) → lookup j m ≡ none
unfolding lookup keys
lookup-absent j [] h = refl
lookup-absent j ((k, v) ∷ m) h = elim (Bool-cases (str_eq k j)) [
  | inl same ↦ absurd (h (inl (sym ((str_eq_iff k j).0 same))))
  | inr other ↦ rw other (lookup-absent j m (λ i. h (inr i)))
]

-- A copy loop over a map with distinct keys: its entries win.
pub lookup-merge :
    (j : Str) (acc m : Map Str)
    → Distinct m
    → lookup j (merge acc m) ≡ or_else (lookup j m) (lookup j acc)
unfolding merge lookup
lookup-merge j acc [] d = refl
lookup-merge j acc ((k, v) ∷ m) (fresh, d) = elim (Bool-cases (str_eq k j)) [
  | inl same ↦
      lookup-merge j (insert k v acc) m d
      ∙ rw (
        lookup-insert k j v acc,
        same,
        lookup-absent j m (subst (λ x. ¬ In x (keys m)) ((str_eq_iff k j).0 same) fresh),
      )
  | inr other ↦ lookup-merge j (insert k v acc) m d ∙ rw (lookup-insert k j v acc, other)
]

-- A host that the inventory declares resolves to one with its own address, and each variable of it
-- is the host's own where the host has it, else that of the defaults, provided that no variable
-- stands twice in either.
pub resolve_lem :
    (inv : Inventory) (alias : Str) (h : Host) (x : Str)
    → lookup alias inv.hosts ≡ some h
    → Distinct h.vars
    → Distinct inv.defaults.vars
    → (r : Host) × (resolve inv alias ≡ some r)
      × (r.address ≡ h.address)
      × (lookup x r.vars ≡ or_else (lookup x h.vars) (lookup x inv.defaults.vars))
unfolding lookup resolve with_defaults
resolve_lem inv alias h x e d d' = (
  with_defaults inv.defaults h,
  rw (e, resolve),
  refl,
  lookup-merge x (merge [] inv.defaults.vars) h.vars d
      ∙ ap (or_else (lookup x h.vars))
          (lookup-merge x [] inv.defaults.vars d' ∙ or_else-none (lookup x inv.defaults.vars)),
)
