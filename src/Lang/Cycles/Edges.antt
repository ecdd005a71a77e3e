-- ===== src/Lang/Cycles/Edges.antt =====
-- What the walk is about: the edges of the call graph, chains of calls, and the names from which
-- every chain of calls ends.
use shellf.Prelude.{
  ℕ, suc, ◌+◌, ◌≤◌, true, false, List, [], ◌∷◌, ◌++◌, Str, ◌≡◌, ◌⊎◌, inl, inr, refl, sym, subst, In,
  In-append_cases, if◌then◌else◌, Set, assign, str_eq_iff, arith,
}
use shellf.Lang.Ast.{DefResolver}
use shellf.Lang.Cycles.Called.{CalledFrom}

module _ (resolve : DefResolver) where
  -- `a` resolves to a def that calls `b`, as read off the syntax of the def.
  abbrev pub Edge : Str → Str → Type 0
  Edge a b = CalledFrom b (resolve a)

  -- One call or more leads from `a` to `b`.
  pub data Calls (a : Str) : Str → Type 0 where
    one : {b : Str} → Edge a b → Calls a b
    more : {b c : Str} → Calls a b → Edge b c → Calls a c

  -- Every chain of calls from `n` ends.
  pub data Ends : Str → Type 0 where
    ends : {n : Str} → ((m : Str) → Edge n m → Ends m) → Ends n

  -- The names of `chain`, then `n`, each calling the next, from `root` on.
  pub data Chain (root : Str) : List Str → Str → Type 0 where
    start : {n : Str} → n ≡ root → Chain root [] n
    step :
        {chain chain' : List Str} {a b : Str}
        → Chain root chain a
        → Edge a b
        → chain' ≡ chain ++ a ∷ []
        → Chain root chain' b

  Calls-head : (a c : Str) → Calls a c → (b : Str) × Edge a b × ((b ≡ c) ⊎ Calls b c)
  Calls-head a c (one e) = (c, e, inl refl)
  Calls-head a c (more {b} p e) =
      let (h, first, rest) = Calls-head a b p in
      (
        h,
        first,
        elim rest [
          | inl same ↦ inr (one (subst (λ x. Edge x c) (sym same) e))
          | inr later ↦ inr (more later e)
        ],
      )

  -- A name from which every chain ends is on no cycle.
  pub Ends-no_cycle : (n : Str) → Ends n → ¬ Calls n n
  Ends-no_cycle n (ends next) p =
      let (m, first, rest) = Calls-head n n p in
      Ends-no_cycle m (next m first) (elim rest [
        | inl same ↦ subst (λ x. Calls x m) (sym same) (one first)
        | inr later ↦ more later first
      ])

  -- So is every name that it calls, however far down.
  pub Ends-Calls : (n m : Str) → Ends n → Calls n m → Ends m
  Ends-Calls n m (ends next) (one e) = next m e
  Ends-Calls n m h (more {b} p e) = elim (Ends-Calls n b h p) [ ends next ↦ next m e ]

  pub Chain-Calls :
      (root : Str) (chain : List Str) (n x : Str) → Chain root chain n → In x chain → Calls x n
  Chain-Calls root chain n x (start e) m = elim m [ ]
  Chain-Calls root chain n x (step {chain = before} {a = a} c e eq) m =
      elim (In-append_cases x before (a ∷ []) (subst (In x) eq m)) [
        | inl earlier ↦ more (Chain-Calls root before a x c earlier) e
        | inr (inl same) ↦ subst (λ y. Calls y n) (sym same) (one e)
        | inr (inr none_left) ↦ elim none_left [ ]
      ]

-- How many names of `universe` are not on the path.
abbrev pub off_path : List Str → Set → ℕ
off_path [] on = 0
off_path (u ∷ us) on = (if on u then 0 else 1) + off_path us on

pub off_path-assign-le :
    (us : List Str) (on : Set) (n : Str) → off_path us (assign on n true) ≤ off_path us on
unfolding assign
off_path-assign-le [] on n = omega arith
off_path-assign-le (u ∷ us) on n = ground (arith, off_path-assign-le us on n)

-- To enter a name of the universe that is off the path leaves one fewer.
pub off_path-assign :
    (us : List Str) (on : Set) (n : Str)
    → In n us
    → on n ≡ false
    → suc (off_path us (assign on n true)) ≤ off_path us on
unfolding assign
off_path-assign [] on n m h = elim m [ ]
off_path-assign (u ∷ us) on n (inl e) h = ground (arith, str_eq_iff n u, off_path-assign-le us on n)
off_path-assign (u ∷ us) on n (inr m) h = ground (arith, off_path-assign us on n m h)
