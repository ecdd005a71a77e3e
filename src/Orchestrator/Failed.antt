-- ===== src/Orchestrator/Failed.antt =====
-- A run over its whole plan: what becomes of a host that failed, and of one outside the limit.
use shellf.Prelude.{
  ◌≢◌, true, List, [], ◌∷◌, Option, none, some, Str, ◌≡◌, ◌⊎◌, inl, inr, refl, sym, ap, subst, ◌∙◌,
  arith, In, All, All-map, In-All, some-injective, Set, empty_set, Bool-cases,
}
use shellf.Inventory.{Inventory, members}
use shellf.Proto.{Request, Response}
use shellf.Orchestrator.{
  Plan, HostOutcome, BlockReport, Shared, outcome_failed, run_blocks, run, misses, or_none,
  unknown_targets, resolve_limit, start, refuse_limit, first_target,
}
use shellf.Orchestrator.Limit.{Named, resolve_limit-Named}
use shellf.Orchestrator.Refused.{unknown_targets-IsUnknown}
use shellf.Orchestrator.Dropped.{hosts_of, bury-failed, Reached, run_blocks-Reached, outcomes_of}

-- The report `r` stands before the report `q`.
abbrev pub Before : BlockReport → BlockReport → List BlockReport → Type 0
Before r q [] = ⊥
Before r q (x ∷ xs) = ((r ≡ x) × In q xs) ⊎ Before r q xs

abbrev NoHosts : List BlockReport → Type 0
NoHosts = All (λ r. r.hosts ≡ [])

unknown_targets-NoHosts :
    (plan : Plan) (inv : Inventory) → NoHosts (unknown_targets plan inv empty_set)
unknown_targets-NoHosts plan inv =
    All-map (λ r u. u.no_hosts) _ (unknown_targets-IsUnknown plan inv empty_set)

Before-left : (r q : BlockReport) (rs : List BlockReport) → Before r q rs → In r rs
Before-left r q [] m = elim m [ ]
Before-left r q (x ∷ xs) (inl (e, m)) = inl e
Before-left r q (x ∷ xs) (inr m) = inr (Before-left r q xs m)

-- Nobody fails where nobody is reached.
nobody :
    (rs : List BlockReport) (r : BlockReport) (o : HostOutcome)
    → NoHosts rs
    → In r rs
    → ¬ In o r.hosts
nobody rs r o e m h = subst (In o) (In-All (λ r. r.hosts ≡ []) r rs m e) h

-- A host that failed in one report is in no later one.
abbrev Drops : List BlockReport → Type 0
Drops rs =
    (r q : BlockReport) (o : HostOutcome)
    → Before r q rs
    → In o r.hosts
    → outcome_failed o.outcome ≡ true
    → ¬ In o.host (hosts_of q.hosts)

Drops-nobody : (rs : List BlockReport) → NoHosts rs → Drops rs
Drops-nobody rs e r q o m i f = absurd (nobody rs r o e (Before-left r q rs m) i)

Drops-cons :
    (x : BlockReport) (rs : List BlockReport)
    → ((o : HostOutcome)
        → In o x.hosts
        → outcome_failed o.outcome ≡ true
        → All (λ q. ¬ In o.host (hosts_of q.hosts)) rs)
    → Drops rs
    → Drops (x ∷ rs)
Drops-cons x rs first rest r q o (inl (e, m)) i f =
    In-All (λ q. ¬ In o.host (hosts_of q.hosts)) q rs m (first o (subst (λ y. In o y.hosts) e i) f)
Drops-cons x rs first rest r q o (inr m) i f = rest r q o m i f

-- A dead host is not among hosts that are reached.
dead_absent :
    (allowed : Option Set) (dead : Set) (a : Str) (as_ : List Str)
    → dead a ≡ true
    → All (Reached allowed dead) as_
    → ¬ In a as_
dead_absent allowed dead a as_ gone all i =
    ground (arith, gone, (In-All (Reached allowed dead) a as_ i all).1)

same_reports : {A W : Type 0} {p : A × W} {b : A} {w' : W} → some p ≡ some (b, w') → p.0 ≡ b
same_reports h = ap (λ q. q.0) (some-injective h)

module _ {W : Type 0} (dial : Str → Request → W → (Response ⊎ Str) × W) (sh : Shared) where
  run_blocks-Drops :
      (plan : Plan) (allowed : Option Set) (dead : Set) (w : W)
      → Drops (run_blocks dial sh plan allowed dead w).0
  unfolding run_blocks
  run_blocks-Drops [] allowed dead w = Drops-nobody [] tt
  run_blocks-Drops (b ∷ bs) allowed dead w =
      elim (Bool-cases (misses allowed (or_none (members sh.inv b.target)))) [
        | inl out ↦
            rw out (Drops-cons _ _ (λ o i f. elim i [ ]) (run_blocks-Drops bs allowed dead w))
        | inr in_ ↦ rw in_ (
            Drops-cons _ _
              (λ o i f.
                All-map
                  (λ q.
                    dead_absent allowed _ o.host (hosts_of q.hosts)
                      (bury-failed (outcomes_of dial sh b allowed dead w) dead o i f))
                  _ (run_blocks-Reached dial sh bs allowed _ _))
              (run_blocks-Drops bs allowed _ _))
      ]

  -- The reports of a run: of targets that are unknown, of a limit that is, or of its blocks.
  run_cases :
      (P : List BlockReport → Type 0)
      → ((rs : List BlockReport) → NoHosts rs → P rs)
      → (plan : Plan)
      → ((allowed : Option Set)
          → resolve_limit sh.opt.limit sh.inv ≡ inl allowed
          → (w : W) → P (run_blocks dial sh plan allowed empty_set w).0)
      → (w : W) (rs : List BlockReport) (w' : W) → run dial sh plan w ≡ some (rs, w')
      → P rs
  unfolding run
  run_cases P none_ plan blocks w rs w' e = by_targets _ (unknown_targets-NoHosts plan sh.inv) refl
    where
      by_first :
          (o : Option Str) (name : Str) → refuse_limit dial sh o name w ≡ some (rs, w') → P rs
      by_first none name h = absurd (ground (arith, h))
      by_first (some b) name h = subst P (same_reports h) (none_ _ (refl, tt))

      by_limit :
          (l : Option Set ⊎ Str)
          → resolve_limit sh.opt.limit sh.inv ≡ l
          → start dial sh plan l w ≡ some (rs, w')
          → P rs
      by_limit (inl allowed) q h = subst P (same_reports h) (blocks allowed q w)
      by_limit (inr name) q h = by_first (first_target dial sh plan) name h

      by_targets :
          (u : List BlockReport) → NoHosts u → unknown_targets plan sh.inv empty_set ≡ u → P rs
      by_targets [] nobody_ q =
          by_limit (resolve_limit sh.opt.limit sh.inv) refl (sym (rw (run, q)) ∙ e)
      by_targets (r ∷ old) nobody_ q =
          subst P (same_reports {p = (r ∷ old, w)} (sym (rw (run, q)) ∙ e))
            (none_ (r ∷ old) nobody_)

  -- If a run returns reports, a host whose outcome in one report is a failure (an error of its own, or
  -- an answer with an error or a result in the category `err`) has no outcome in any later report.
  pub run-drops :
      (plan : Plan) (w : W) (rs : List BlockReport) (w' : W)
      → run dial sh plan w ≡ some (rs, w')
      → (r q : BlockReport) (o : HostOutcome) → Before r q rs
      → In o r.hosts
      → outcome_failed o.outcome ≡ true
      → ¬ In o.host (hosts_of q.hosts)
  run-drops plan w =
      run_cases Drops Drops-nobody plan (λ allowed e w. run_blocks-Drops plan allowed empty_set w) w

  -- If a limit is given and a run returns reports, every host of every report is a member of a host
  -- or group that the limit names.
  pub run-limit :
      (plan : Plan) (w : W) (rs : List BlockReport) (w' : W)
      → sh.opt.limit ≢ []
      → run dial sh plan w ≡ some (rs, w')
      → All (λ r. All (Named sh.inv sh.opt.limit) (hosts_of r.hosts)) rs
  run-limit plan w rs w' given e =
      run_cases (All (λ r. All (Named sh.inv sh.opt.limit) (hosts_of r.hosts)))
        (λ rs.
          All-map
            (λ r no_one.
              subst (λ os. All (Named sh.inv sh.opt.limit) (hosts_of os)) (sym no_one) tt)
            rs)
        plan
        (λ allowed q w.
          All-map
            (λ r.
              All-map
                (λ a reached. resolve_limit-Named sh.inv sh.opt.limit a allowed given q reached.0)
                (hosts_of r.hosts))
            _ (run_blocks-Reached dial sh plan allowed empty_set w))
        w rs w' e
