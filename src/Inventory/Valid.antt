-- ===== src/Inventory/Valid.antt =====
-- What an inventory that passes `Validate` promises.
use shellf.Prelude.{
  List, [], ◌∷◌, none, some, Str, Map, lookup, keys, lookup-In, sort_strings, In-sort_strings, In,
  ◌≡◌, ◌≢◌, inl, inr, sym, subst, arith, Option-cases,
}
use shellf.Inventory.{Host, Inventory, undeclared, validate_groups, validate, or_empty}

undeclared-none :
    (hosts : Map Host) (as_ : List Str) (a : Str)
    → undeclared hosts as_ ≡ none
    → In a as_
    → lookup a hosts ≢ none
unfolding undeclared
undeclared-none hosts [] a h m = elim m [ ]
undeclared-none hosts (b ∷ as_) a h m = elim (Option-cases (lookup b hosts)) [
  | inl unknown ↦ absurd (ground (arith, rw (undeclared, unknown) at h))
  | inr (host, known) ↦ elim m [
    | inl same ↦ λ q. ground (arith, subst (λ x. lookup x hosts ≡ some host) (sym same) known, q)
    | inr later ↦ undeclared-none hosts as_ a (rw (undeclared, known) at h) later
  ]
]

validate_groups-none :
    (inv : Inventory) (gs : List Str) (g a : Str) (as_ : List Str)
    → validate_groups inv gs ≡ none
    → In g gs
    → lookup g inv.groups ≡ some as_
    → In a as_
    → lookup a inv.hosts ≢ none
unfolding validate_groups
validate_groups-none inv [] g a as_ h i e m = elim i [ ]
validate_groups-none inv (k ∷ gs) g a as_ h i e m =
    elim (Option-cases (undeclared inv.hosts (or_empty (lookup k inv.groups)))) [
      | inr (b, bad) ↦ absurd (ground (arith, rw (validate_groups, bad) at h))
      | inl fine ↦ elim i [
        | inl same ↦
            undeclared-none inv.hosts as_ a
              (subst (λ o. undeclared inv.hosts (or_empty o) ≡ none) e
                (subst (λ x. undeclared inv.hosts (or_empty (lookup x inv.groups)) ≡ none)
                  (sym same) fine))
              m
        | inr later ↦
            validate_groups-none inv gs g a as_ (rw (validate_groups, fine) at h) later e m
      ]
    ]

-- If an inventory passes the validation, every alias that a group lists is a declared host.
pub validate-none :
    (inv : Inventory) (g a : Str) (as_ : List Str)
    → validate inv ≡ none
    → lookup g inv.groups ≡ some as_
    → In a as_
    → lookup a inv.hosts ≢ none
unfolding validate
validate-none inv g a as_ h e m =
    validate_groups-none inv (sort_strings (keys inv.groups)) g a as_ h
      ((In-sort_strings g (keys inv.groups)).1 (lookup-In g inv.groups (λ q. ground (arith, e, q))))
      e m
