-- ===== src/Lang/Cycles/Decide.antt =====
-- `CheckCycles` as a whole: it always answers, and what its answers mean for the chains of the calls
-- that it looks at.
use mathlib.Core.List.{Permᴰ}
use shellf.Prelude.{
  ℕ, ◌<◌, ◌≢◌, true, List, [], ◌∷◌, none, Str, ◌≡◌, ◌⊎◌, inl, inr, refl, sym, ap, subst, In, Set,
  empty_set, arith, Map, keys, sort_strings, sort_strings-perm, In-sort_strings, length,
}
use shellf.Lang.Ast.{Def, DefResolver}
use shellf.Lang.Cycles.{Walk, Outcome, ok, cycle, out_of_fuel, walk, check_names, check_cycles}
use shellf.Lang.Cycles.Edges.{
  Calls, Ends, Chain, start, Ends-no_cycle, Ends-Calls, Chain-Calls, off_path,
}
use shellf.Lang.Cycles.Sound.{Good, walk-Good}

off_path-length : (us : List Str) → off_path us empty_set ≡ length us
off_path-length [] = refl
off_path-length (u ∷ us) = omega (arith, off_path-length us)

module _ (resolve : DefResolver) where
  -- The answer is a cycle that a def of `names` leads into: `chain` starts at that def, each of
  -- its names calls the next, the last calls `n`, and `n` stands in the chain.
  pub record Refuses (names chain : List Str) (n : Str) : Type 0 where
    pub root : Str
    pub listed : In root names
    pub path : Chain resolve root chain n
    pub closes : In n chain

  abbrev pub Decides : List Str → Outcome → Type 0
  Decides names (ok w) = (n : Str) → In n names → Ends resolve n
  Decides names (cycle chain n) = Refuses names chain n
  Decides names out_of_fuel = ⊥

module _ (resolve : DefResolver) (universe : List Str)
    (covers : (n : Str) → resolve n ≢ none → In n universe) where
  check_names-Decides :
      (fuel : ℕ) (names : List Str) (done : Set)
      → length universe < fuel
      → ((x : Str) → done x ≡ true → Ends resolve x)
      → Decides resolve names (check_names resolve fuel names done)
  unfolding check_names
  check_names-Decides fuel [] done enough fin = λ n m. elim m [ ]
  check_names-Decides fuel (n ∷ ns) done enough fin =
      after (walk resolve fuel [] n (record { on_path = empty_set; done = done }))
        (walk-Good resolve universe n covers fuel [] n (record { on_path = empty_set; done = done })
          (record { path = start refl; listed = λ x e. cc; finished = fin }))
        (λ d. check_names-Decides fuel ns d enough)
    where
      more : (r : Outcome) → Ends resolve n → Decides resolve ns r → Decides resolve (n ∷ ns) r
      more (ok w) here rest =
          λ x m. elim m [ inl e ↦ subst (Ends resolve) (sym e) here | inr l ↦ rest x l ]
      more (cycle chain k) here r = record {
        root = r.root;
        listed = inr r.listed;
        path = r.path;
        closes = r.closes;
      }
      more out_of_fuel here r = r

      after :
          (r : Outcome)
          → Good resolve universe n fuel
              (λ x. x ≡ n)
              (record { on_path = empty_set; done = done })
              r
          → ((d : Set)
              → ((x : Str) → d x ≡ true → Ends resolve x)
              → Decides resolve ns (check_names resolve fuel ns d))
          → Decides resolve (n ∷ ns) (elim r [
            | ok w ↦ check_names resolve fuel ns w.done
            | cycle chain name ↦ cycle chain name
            | out_of_fuel ↦ out_of_fuel
          ])
      after (ok w) (same, here, f) rest = more _ (here n refl) (rest w.done f)
      after (cycle chain k) (p, m) rest = record {
        root = n;
        listed = inl refl;
        path = p;
        closes = m;
      }
      after out_of_fuel short rest = absurd (omega (arith, off_path-length universe))

  check_cycles-Decides :
      (defs : Map Def) (fuel : ℕ)
      → length universe < fuel
      → Decides resolve (sort_strings (keys defs)) (check_cycles resolve fuel defs)
  unfolding check_cycles
  check_cycles-Decides defs fuel enough =
      check_names-Decides fuel (sort_strings (keys defs)) empty_set enough (λ x e. cc)

  -- The fuel suffices: with more than the number of names that resolve, the check answers, and
  -- its answer is acceptance or a cycle.
  pub check_cycles_terminates :
      (defs : Map Def) (fuel : ℕ)
      → length universe < fuel
      → check_cycles resolve fuel defs ≢ out_of_fuel
  check_cycles_terminates defs fuel enough e =
      subst (Decides resolve (sort_strings (keys defs))) e (check_cycles-Decides defs fuel enough)

  -- If the check accepts, with enough fuel, then from every def, and from every name that it calls,
  -- however far down, every chain of calls ends, and the name is on no cycle. The calls are those that
  -- stand in a statement of a phase, conditions and bodies included, and the delegations; those in the
  -- payload of a `return`, in an argument of a delegation or in the default of a parameter do not
  -- count.
  pub check_cycles_accepts :
      (defs : Map Def) (fuel : ℕ) (w : Walk)
      → length universe < fuel
      → check_cycles resolve fuel defs ≡ ok w
      → (n m : Str) → In n (keys defs)
      → (n ≡ m) ⊎ Calls resolve n m
      → Ends resolve m × (¬ Calls resolve m m)
  check_cycles_accepts defs fuel w enough e n m i reach =
      let all =
        subst (Decides resolve (sort_strings (keys defs))) e
          (check_cycles-Decides defs fuel enough) in
      let here : Ends resolve n = all n ((In-sort_strings n (keys defs)).1 i) in
      let there : Ends resolve m = elim reach [
        | inl same ↦ subst (Ends resolve) same here
        | inr p ↦ Ends-Calls resolve n m here p
      ] in
      (there, Ends-no_cycle resolve m there)

  -- If the check refuses, with enough fuel, the chain in its message is a chain of calls from one of
  -- the defs, and the name behind it both stands in the chain and calls itself through it.
  pub check_cycles-Refuses :
      (defs : Map Def) (fuel : ℕ) (chain : List Str) (n : Str)
      → length universe < fuel
      → check_cycles resolve fuel defs ≡ cycle chain n
      → Refuses resolve (keys defs) chain n × Calls resolve n n
  check_cycles-Refuses defs fuel chain n enough e =
      let r =
        subst (Decides resolve (sort_strings (keys defs))) e
          (check_cycles-Decides defs fuel enough) in
      (
        record {
          root = r.root;
          listed = (In-sort_strings r.root (keys defs)).0 r.listed;
          path = r.path;
          closes = r.closes;
        },
        Chain-Calls resolve r.root chain n n r.path r.closes,
      )

-- The answer does not depend on the order in which Go walks the map of defs: two maps whose keys
-- are the same up to order get the same answer, the same cycle included.
pub check_cycles-perm :
    (resolve : DefResolver) (fuel : ℕ) (defs defs' : Map Def)
    → Permᴰ (keys defs) (keys defs')
    → check_cycles resolve fuel defs ≡ check_cycles resolve fuel defs'
unfolding check_cycles
check_cycles-perm resolve fuel defs defs' p =
    ap (λ names. check_names resolve fuel names empty_set) (sort_strings-perm p)
