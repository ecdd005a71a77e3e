-- ===== src/Lang/ControlScan/Allowed.antt =====
-- internal/lang/control_scan.go: the allow-list of a plan is what the plan declares.
use shellf.Prelude.{
  List, [], ◌∷◌, Option, none, some, Str, str, lookup, add_once-In, nothing, joined,
  In-sort_strings, In, ◌≡◌, ◌⊎◌, ◌↔◌, inl, inr, refl, sym, subst, some-injective,
}
use shellf.Lang.Primitives.{resource_key}
use shellf.Proto.{
  Fields, Step, step, Steps, stop, also, Branch, no_if, if_block, Cond, no_cond, cond,
}
use shellf.Lang.ControlScan.{
  add_path, add_value, scan_control, scan_steps, scan_step, scan_branch, scan_cond,
  control_resources,
}

-- `r` is one of the four resources of the path `p`.
abbrev pub IsOf : Str → Str → Type 0
IsOf r p =
    (r ≡ resource_key (str "dir.sync") p)
    ⊎ ((r ≡ resource_key (str "dir.list") p)
        ⊎ ((r ≡ resource_key (str "file.render") p) ⊎ (r ≡ resource_key (str "file.read") p)))

-- `r` is a resource of the value of one of the arguments `as_` of a step, if it has the argument.
abbrev pub MarkedBy : Str → Fields → List Str → Type 0
MarkedBy r f [] = ⊥
MarkedBy r f (a ∷ as_) = ((p : Str) × (lookup a f.args ≡ some p) × IsOf r p) ⊎ MarkedBy r f as_

-- A step that marks an argument with the resource `r` stands anywhere among the steps: in a block, a
-- branch of `parallel`, a branch of an `if`, or its condition.
unfoldable mutual
  pub Declares : Str → Steps → Type 0
  Declares r stop = ⊥
  Declares r (also s ss) = DeclaresStep r s ⊎ Declares r ss

  pub DeclaresStep : Str → Step → Type 0
  DeclaresStep r (step f block parallel branch) =
      MarkedBy r f f.control ⊎ (Declares r block ⊎ (Declares r parallel ⊎ DeclaresBranch r branch))

  pub DeclaresBranch : Str → Branch → Type 0
  DeclaresBranch r no_if = ⊥
  DeclaresBranch r (if_block c match_ ref negate then_ else_) =
      DeclaresCond r c ⊎ (Declares r then_ ⊎ Declares r else_)

  pub DeclaresCond : Str → Cond → Type 0
  DeclaresCond r no_cond = ⊥
  DeclaresCond r (cond s) = DeclaresStep r s

swapped : {A B N N' : Type 0} → ((A ⊎ B) ⊎ N) ↔ N' → ((B ⊎ A) ⊎ N) ↔ N'
swapped p = (
  λ h.
      p.0
        (elim h [ inl ab ↦ elim ab [ inl b ↦ inl (inr b) | inr a ↦ inl (inl a) ] | inr n ↦ inr n ]),
  λ m. elim (p.1 m) [
    | inl ab ↦ elim ab [ inl a ↦ inl (inr a) | inr b ↦ inl (inl b) ]
    | inr n ↦ inr n
  ],
)

add_path-In : (r p : Str) (seen : List Str) → (IsOf r p ⊎ In r seen) ↔ In r (add_path p seen)
add_path-In r p seen = swapped (
    joined
      (swapped
        (joined (swapped (joined (add_once-In r _ seen) (add_once-In r _ _))) (add_once-In r _ _)))
      (add_once-In r _ _))

by_value :
    (r : Str) (o : Option Str) (seen : List Str)
    → (((p : Str) × (o ≡ some p) × IsOf r p) ⊎ In r seen) ↔ In r (add_value o seen)
by_value r none seen = (λ h. elim h [ inl (p, e, q) ↦ absurd (none_some e) | inr m ↦ m ], inr)
  where
    none_some : {p : Str} → ¬ (none ≡ some p)
    none_some e = cc
by_value r (some p) seen = (
  λ h. (add_path-In r p seen).0 (elim h [ inl (q, e, of_q) ↦ inl (same e of_q) | inr m ↦ inr m ]),
  λ m. elim ((add_path-In r p seen).1 m) [ inl of_p ↦ inl (p, refl, of_p) | inr n ↦ inr n ],
)
  where
    same : {q : Str} → some p ≡ some q → IsOf r q → IsOf r p
    same e of_q = subst (λ z. IsOf r z) (sym (some-injective e)) of_q

scan_control-In :
    (r : Str) (f : Fields) (as_ seen : List Str)
    → (MarkedBy r f as_ ⊎ In r seen) ↔ In r (scan_control f as_ seen)
unfolding scan_control
scan_control-In r f [] seen = nothing
scan_control-In r f (a ∷ as_) seen =
    joined (by_value r (lookup a f.args) seen)
      (scan_control-In r f as_ (add_value (lookup a f.args) seen))

mutual
  unfolding scan_steps Declares

  scan_steps-In :
      (r : Str) (ss : Steps) (seen : List Str)
      → (Declares r ss ⊎ In r seen) ↔ In r (scan_steps ss seen)
  scan_steps-In r stop seen = nothing
  scan_steps-In r (also s ss) seen =
      joined (scan_step-In r s seen) (scan_steps-In r ss (scan_step s seen))

  scan_step-In :
      (r : Str) (s : Step) (seen : List Str)
      → (DeclaresStep r s ⊎ In r seen) ↔ In r (scan_step s seen)
  scan_step-In r (step f block parallel branch) seen =
      let seen₁ = scan_control f f.control seen in
      let seen₂ = scan_steps block seen₁ in
      joined (scan_control-In r f f.control seen) (
        joined (scan_steps-In r block seen₁) (
          joined (scan_steps-In r parallel seen₂)
            (scan_branch-In r branch (scan_steps parallel seen₂))))

  scan_branch-In :
      (r : Str) (b : Branch) (seen : List Str)
      → (DeclaresBranch r b ⊎ In r seen) ↔ In r (scan_branch b seen)
  scan_branch-In r no_if seen = nothing
  scan_branch-In r (if_block c match_ ref negate then_ else_) seen =
      joined (scan_cond-In r c seen) (
        joined (scan_steps-In r then_ (scan_cond c seen))
          (scan_steps-In r else_ (scan_steps then_ (scan_cond c seen))))

  scan_cond-In :
      (r : Str) (c : Cond) (seen : List Str)
      → (DeclaresCond r c ⊎ In r seen) ↔ In r (scan_cond c seen)
  scan_cond-In r no_cond seen = nothing
  scan_cond-In r (cond s) seen = scan_step-In r s seen

-- The resources that the control host allows for the steps of a plan are those, and only those, that
-- stand for the value of an argument which some step of the plan, however deep, has and marks.
pub control_resources-Declares :
    (r : Str) (ss : Steps) → Declares r ss ↔ In r (control_resources ss)
unfolding control_resources
control_resources-Declares r ss = (
  λ d. (In-sort_strings r (scan_steps ss [])).1 ((scan_steps-In r ss []).0 (inl d)),
  λ m. elim ((scan_steps-In r ss []).1 ((In-sort_strings r (scan_steps ss [])).0 m)) [
    | inl d ↦ d
    | inr n ↦ elim n [ ]
  ],
)
