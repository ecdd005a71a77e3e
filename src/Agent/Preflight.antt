-- ===== src/Agent/Preflight.antt =====
-- The interpreters that a request is checked for before its first step.
use shellf.Prelude.{
  add_once, add_once-In, nothing, joined, true, List, [], Str, if◌then◌else◌, ◌≡◌, ◌⊎◌, ◌↔◌, inl,
  inr, refl, arith, In, Bool-cases,
}
use shellf.Proto.{
  Fields, Step, step, Steps, stop, also, Branch, no_if, if_block, Cond, no_cond, cond,
}
use shellf.Agent.{needs, collect, collect_step, collect_branch, collect_cond}

-- A shell step that asks for the interpreter `i`, other than `sh` and `raw`, stands anywhere among
-- the steps: in a block, a branch of `parallel`, a branch of an `if`, or its condition.
unfoldable mutual
  pub Uses : Str → Steps → Type 0
  Uses i stop = ⊥
  Uses i (also s ss) = UsesStep i s ⊎ Uses i ss

  pub UsesStep : Str → Step → Type 0
  UsesStep i (step f block parallel branch) =
      ((needs f ≡ true) × (i ≡ f.interp)) ⊎ (UsesBranch i branch ⊎ (Uses i block ⊎ Uses i parallel))

  pub UsesBranch : Str → Branch → Type 0
  UsesBranch i no_if = ⊥
  UsesBranch i (if_block c match_ ref negate then_ else_) =
      UsesCond i c ⊎ (Uses i then_ ⊎ Uses i else_)

  pub UsesCond : Str → Cond → Type 0
  UsesCond i no_cond = ⊥
  UsesCond i (cond s) = UsesStep i s

own_interpreter :
    (i : Str) (f : Fields) (need : List Str)
    → (((needs f ≡ true) × (i ≡ f.interp)) ⊎ In i need)
      ↔ In i (if needs f then add_once need f.interp else need)
own_interpreter i f need = elim (Bool-cases (needs f)) [
  | inl asks ↦ rw asks (
    λ h. (add_once-In i f.interp need).0 (elim h [ inl (t, same) ↦ inl same | inr m ↦ inr m ]),
    λ m. elim ((add_once-In i f.interp need).1 m) [ inl same ↦ inl (refl, same) | inr n ↦ inr n ],
  )
  | inr silent ↦
      rw silent (λ h. elim h [ inl (t, same) ↦ absurd (ground (arith, t)) | inr m ↦ m ], inr)
]

mutual
  unfolding collect Uses

  collect-Uses :
      (i : Str) (ss : Steps) (need : List Str) → (Uses i ss ⊎ In i need) ↔ In i (collect ss need)
  collect-Uses i stop need = nothing
  collect-Uses i (also s ss) need =
      joined (collect_step-Uses i s need) (collect-Uses i ss (collect_step s need))

  collect_step-Uses :
      (i : Str) (s : Step) (need : List Str)
      → (UsesStep i s ⊎ In i need) ↔ In i (collect_step s need)
  collect_step-Uses i (step f block parallel branch) need =
      let need₁ = if needs f then add_once need f.interp else need in
      let need₂ = collect_branch branch need₁ in
      joined (own_interpreter i f need) (
        joined (collect_branch-Uses i branch need₁)
          (joined (collect-Uses i block need₂) (collect-Uses i parallel (collect block need₂))))

  collect_branch-Uses :
      (i : Str) (b : Branch) (need : List Str)
      → (UsesBranch i b ⊎ In i need) ↔ In i (collect_branch b need)
  collect_branch-Uses i no_if need = nothing
  collect_branch-Uses i (if_block c match_ ref negate then_ else_) need =
      let need₁ = collect_cond c need in
      joined (collect_cond-Uses i c need)
        (joined (collect-Uses i then_ need₁) (collect-Uses i else_ (collect then_ need₁)))

  collect_cond-Uses :
      (i : Str) (c : Cond) (need : List Str)
      → (UsesCond i c ⊎ In i need) ↔ In i (collect_cond c need)
  collect_cond-Uses i no_cond need = nothing
  collect_cond-Uses i (cond s) need = collect_step-Uses i s need

-- The interpreters that the pre-flight looks for are those that some shell step of the request,
-- however deep, asks for, but `sh` and `raw`.
pub collect_lem : (i : Str) (ss : Steps) → Uses i ss ↔ In i (collect ss [])
collect_lem i ss = (
  λ u. (collect-Uses i ss []).0 (inl u),
  λ m. elim ((collect-Uses i ss []).1 m) [ inl u ↦ u | inr n ↦ elim n [ ] ],
)
