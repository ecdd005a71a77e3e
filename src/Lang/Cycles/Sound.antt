-- ===== src/Lang/Cycles/Sound.antt =====
-- The walk finds a cycle exactly where there is one.
use shellf.Prelude.{
  ℕ, zero, suc, ◌≤◌, ◌≢◌, true, false, List, [], ◌∷◌, ◌++◌, Option, none, some, Str, ◌≡◌, ◌∙◌, inl,
  inr, refl, sym, ap, subst, In, In-append_left, In-append_right, assign, assign_back, assign_other,
  str_eq, str_eq_iff, arith, Bool-cases,
}
use shellf.Lang.Ast.{Def, DefResolver}
use shellf.Lang.Cycles.{
  Walk, Outcome, ok, cycle, out_of_fuel, walk, walk_all, leave, enter, callees,
}
use shellf.Lang.Cycles.Called.{CalledFrom, callees_of-In}
use shellf.Lang.Cycles.Edges.{Edge, Ends, ends, Chain, step, off_path, off_path-assign}

-- `universe` holds every name that resolves.
module _ (resolve : DefResolver) (universe : List Str) (root : Str) where
  -- What is known of the path before `name` is walked.
  pub record Ready (chain : List Str) (name : Str) (w : Walk) : Type 0 where
    pub path : Chain resolve root chain name
    pub listed : (x : Str) → w.on_path x ≡ true → In x chain
    pub finished : (x : Str) → w.done x ≡ true → Ends resolve x

  -- What a walk over the names `P` returns. A refusal for want of fuel means that the fuel was no
  -- more than the names off the path.
  abbrev pub Good : ℕ → (Str → Type 0) → Walk → Outcome → Type 0
  Good fuel P w (ok w') =
      (w'.on_path ≡ w.on_path)
      × ((x : Str) → P x → Ends resolve x)
      × ((x : Str) → w'.done x ≡ true → Ends resolve x)
  Good fuel P w (cycle chain n) = Chain resolve root chain n × In n chain
  Good fuel P w out_of_fuel = fuel ≤ off_path universe w.on_path

  Good-cons :
      (fuel : ℕ) (c : Str) (cs : List Str) (w u : Walk) (r : Outcome)
      → u.on_path ≡ w.on_path
      → Ends resolve c
      → Good fuel (λ x. In x cs) u r
      → Good fuel (λ x. In x (c ∷ cs)) w r
  Good-cons fuel c cs w u (ok w') same here (back, rest, fin) = (
    back ∙ same,
    λ x m. elim m [ inl e ↦ subst (Ends resolve) (sym e) here | inr l ↦ rest x l ],
    fin,
  )
  Good-cons fuel c cs w u (cycle chain n) same here g = g
  Good-cons fuel c cs w u out_of_fuel same here g = subst (λ on. fuel ≤ off_path universe on) same g

  -- The loop over callees, for a walk that is right at each of them.
  walk_all-Good :
      (fuel : ℕ) (visit : Str → Walk → Outcome) (cs : List Str) (w : Walk)
      → ((c : Str) (u : Walk)
          → In c cs
          → u.on_path ≡ w.on_path
          → ((x : Str) → u.done x ≡ true → Ends resolve x)
          → Good fuel (λ x. x ≡ c) u (visit c u))
      → ((x : Str) → w.done x ≡ true → Ends resolve x)
      → Good fuel (λ x. In x cs) w (walk_all visit cs w)
  unfolding walk_all
  walk_all-Good fuel visit [] w right done = (refl, λ x m. elim m [ ], done)
  walk_all-Good fuel visit (c ∷ cs) w right done =
      after (visit c w) (right c w (inl refl) refl done)
        (λ u same. walk_all-Good fuel visit cs u (λ d v m e. right d v (inr m) (e ∙ same)))
    where
      after :
          (r : Outcome)
          → Good fuel (λ x. x ≡ c) w r
          → ((u : Walk)
              → u.on_path ≡ w.on_path
              → ((x : Str) → u.done x ≡ true → Ends resolve x)
              → Good fuel (λ x. In x cs) u (walk_all visit cs u))
          → Good fuel
              (λ x. In x (c ∷ cs))
              w
              (elim r [
                | ok w' ↦ walk_all visit cs w'
                | cycle chain name ↦ cycle chain name
                | out_of_fuel ↦ out_of_fuel
              ])
      after (ok u) (same, here, fin) rest =
          Good-cons fuel c cs w u _ same (here c refl) (rest u same fin)
      after (cycle chain n) g rest = g
      after out_of_fuel g rest = g

  leave-Good :
      (fuel : ℕ) (name : Str) (d : Def) (w : Walk) (r : Outcome)
      → w.on_path name ≡ false
      → In name universe
      → resolve name ≡ some d
      → Good fuel (λ x. In x (callees d)) (enter name w) r
      → Good (suc fuel) (λ x. x ≡ name) w (leave name r)
  unfolding leave
  leave-Good fuel name d w (ok w') off m res (same, all, fin) = (
    ap (λ on. assign on name false) same ∙ assign_back w.on_path name off,
    λ x e. subst (Ends resolve) (sym e) here,
    λ x e. elim (Bool-cases (str_eq name x)) [
      | inl eq ↦ subst (Ends resolve) ((str_eq_iff name x).0 eq) here
      | inr ne ↦ fin x (rw (assign_other w'.done name x true ne) at e)
    ],
  )
    where
      here : Ends resolve name
      here = ends (λ n e. all n ((callees_of-In n (some d)).0 (subst (CalledFrom n) res e)))
  leave-Good fuel name d w (cycle chain n) off m res g = g
  leave-Good fuel name d w out_of_fuel off m res g =
      omega (arith, off_path-assign universe w.on_path name m off)

  Ready-callee :
      (chain : List Str) (name c : Str) (w u : Walk)
      → Ready chain name w
      → Edge resolve name c
      → u.on_path ≡ (enter name w).on_path
      → ((x : Str) → u.done x ≡ true → Ends resolve x)
      → Ready (chain ++ name ∷ []) c u
  Ready-callee chain name c w u r e same fin = record {
    path = step r.path e refl;
    listed = λ x on. elim (Bool-cases (str_eq name x)) [
      | inl eq ↦ In-append_right x chain (name ∷ []) (inl (sym ((str_eq_iff name x).0 eq)))
      | inr ne ↦ In-append_left x chain (name ∷ []) (r.listed x (here x ne on))
    ];
    finished = fin;
  }
    where
      here : (x : Str) → str_eq name x ≡ false → u.on_path x ≡ true → w.on_path x ≡ true
      here x ne on = rw (assign_other w.on_path name x true ne) at (subst (λ p. p x ≡ true) same on)

  pub walk-Good :
      ((n : Str) → resolve n ≢ none → In n universe)
      → (fuel : ℕ) (chain : List Str) (name : Str) (w : Walk) → Ready chain name w
      → Good fuel (λ x. x ≡ name) w (walk resolve fuel chain name w)
  unfolding walk
  walk-Good covers zero chain name w r = omega arith
  walk-Good covers (suc fuel) chain name w r = elim (Bool-cases (w.done name)) [
    | inl old ↦
        rw old (refl, λ x e. r.finished x (subst (λ y. w.done y ≡ true) (sym e) old), r.finished)
    | inr new ↦ rw new (elim (Bool-cases (w.on_path name)) [
      | inl back ↦ rw back (r.path, r.listed name back)
      | inr off ↦
          rw off (resolved (walk-Good covers fuel (chain ++ name ∷ [])) (resolve name) refl off)
    ])
  ]
    where
      resolved :
          ((c : Str) (u : Walk)
            → Ready (chain ++ name ∷ []) c u
            → Good fuel (λ x. x ≡ c) u (walk resolve fuel (chain ++ name ∷ []) c u))
          → (o : Option Def) → resolve name ≡ o
          → w.on_path name ≡ false
          → Good
              (suc fuel)
              (λ x. x ≡ name)
              w
              (elim o [
                | none ↦ ok w
                | some d ↦
                    leave name
                      (walk_all (walk resolve fuel (chain ++ name ∷ [])) (callees d) (enter name w))
              ])
      resolved deeper none res off = (
        refl,
        λ x e.
            subst (Ends resolve) (sym e)
              (ends (λ m edge. elim (subst (CalledFrom m) res edge) [ ])),
        r.finished,
      )
      resolved deeper (some d) res off =
          leave-Good fuel name d w _ off (covers name (λ e. cc)) res (
            walk_all-Good fuel (walk resolve fuel (chain ++ name ∷ [])) (callees d) (enter name w)
              (λ c u m same fin. deeper c u (
                Ready-callee chain name c w u r
                  (subst (CalledFrom c) (sym res) ((callees_of-In c (some d)).1 m)) same fin))
              r.finished)
