-- ===== src/Prelude/Sets.antt =====
-- A Go set that is walked: a list without repetition.
use mathlib.Core.Path.{◌≡◌, sym, subst}
use mathlib.Core.Logic.{◌↔◌, ◌⊎◌, inl, inr}
use mathlib.Core.Bool.{true}
use mathlib.Core.List.{List, [], ◌∷◌}
use native.Mathlib.Omega.{arith}
use shellf.Prelude.Tests.{if◌then◌else◌, Bool-cases}
use shellf.Prelude.Lists.{In, any}
use shellf.Prelude.Text.{Str, str_eq, str_eq_iff}

-- `need[interp] = true`: each interpreter once.
abbrev pub add_once : List Str → Str → List Str
add_once need i = if any (str_eq i) need then need else i ∷ need

pub any-In : (i : Str) (xs : List Str) → any (str_eq i) xs ≡ true → In i xs
any-In i [] h = absurd (ground (arith, h))
any-In i (x ∷ xs) h = elim (Bool-cases (str_eq i x)) [
  | inl same ↦ inl ((str_eq_iff i x).0 same)
  | inr other ↦ inr (any-In i xs (ground (arith, h, other)))
]

pub add_once-In : (i j : Str) (need : List Str) → ((i ≡ j) ⊎ In i need) ↔ In i (add_once need j)
add_once-In i j need = elim (Bool-cases (any (str_eq j) need)) [
  | inl there ↦ rw there (
    λ h. elim h [ inl same ↦ subst (λ x. In x need) (sym same) (any-In j need there) | inr m ↦ m ],
    inr,
  )
  | inr fresh ↦ rw fresh (λ h. h, λ h. h)
]

pub nothing : {N : Type 0} → (⊥ ⊎ N) ↔ N
nothing = (λ h. elim h [ inl e ↦ elim e [ ] | inr n ↦ n ], inr)

-- One collection after another.
pub joined : {A B N N' N'' : Type 0} → (A ⊎ N) ↔ N' → (B ⊎ N') ↔ N'' → ((A ⊎ B) ⊎ N) ↔ N''
joined p q = (
  λ h. q.0 (elim h [
    | inl ab ↦ elim ab [ inl a ↦ inr (p.0 (inl a)) | inr b ↦ inl b ]
    | inr n ↦ inr (p.0 (inr n))
  ]),
  λ m. elim (q.1 m) [
    | inl b ↦ inl (inr b)
    | inr n ↦ elim (p.1 n) [ inl a ↦ inl (inl a) | inr k ↦ inr k ]
  ],
)
