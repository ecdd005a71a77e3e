-- ===== src/Orchestrator/Dropped.antt =====
-- Which hosts a block reaches: those of its target, within the limit, that have not failed before.
use shellf.Prelude.{
  true, false, not, ◌&&◌, List, [], ◌∷◌, Option, none, some, Str, str_eq_iff, if◌then◌else◌, ◌≡◌,
  ◌⊎◌, inl, inr, refl, sym, ap, subst, arith, In, All, All-map, Set, assign, Bool-cases, Map,
}
use shellf.Inventory.{members}
use shellf.Proto.{Request, Response}
use shellf.Orchestrator.{
  Block, Plan, HostOutcome, Shared, outcome_failed, bury, live_hosts, is_allowed, fleet_run,
  run_host, refuse_all, unless_diverging, run_live, run_blocks, misses, or_none, interp_agreement,
}

-- The names of the hosts of a report.
abbrev pub hosts_of : List HostOutcome → List Str
hosts_of [] = []
hosts_of (o ∷ os) = o.host ∷ hosts_of os

assign-true : (s : Set) (k x : Str) → s x ≡ true → assign s k true x ≡ true
unfolding assign
assign-true s k x h = ground arith

assign_self : (s : Set) (k : Str) → assign s k true k ≡ true
unfolding assign
assign_self s k = ground (arith, str_eq_iff k k)

bury-keeps : (os : List HostOutcome) (dead : Set) (x : Str) → dead x ≡ true → bury os dead x ≡ true
unfolding bury
bury-keeps [] dead x h = h
bury-keeps (o ∷ os) dead x h =
    bury-keeps os (if outcome_failed o.outcome then assign dead o.host true else dead) x
      (ground (arith, assign-true dead o.host x))

pub bury-failed :
    (os : List HostOutcome) (dead : Set) (o : HostOutcome)
    → In o os
    → outcome_failed o.outcome ≡ true
    → bury os dead o.host ≡ true
unfolding bury
bury-failed [] dead o m f = elim m [ ]
bury-failed (p ∷ os) dead o (inl e) f = bury-keeps os _ o.host (
    subst (λ q. (if outcome_failed q.outcome then assign dead q.host true else dead) o.host ≡ true)
      e (rw f (assign_self dead o.host)))
bury-failed (p ∷ os) dead o (inr m) f = bury-failed os _ o m f

-- What is known of a host that a block reaches.
abbrev pub Reached : Option Set → Set → Str → Type 0
Reached allowed dead a = (is_allowed allowed a ≡ true) × (dead a ≡ false)

live_hosts-Reached :
    (allowed : Option Set) (dead : Set) (ms : List Str)
    → All (Reached allowed dead) (live_hosts allowed dead ms)
unfolding live_hosts
live_hosts-Reached allowed dead [] = tt
live_hosts-Reached allowed dead (a ∷ ms) =
    elim (Bool-cases (is_allowed allowed a && not (dead a))) [
      | inl yes_ ↦ rw yes_ (ground arith, live_hosts-Reached allowed dead ms)
      | inr no_ ↦ rw no_ (live_hosts-Reached allowed dead ms)
    ]

module _ {W : Type 0} (dial : Str → Request → W → (Response ⊎ Str) × W) (sh : Shared) where
  -- One outcome for each host, in the order of the hosts.
  pub fleet_run-hosts :
      (b : Block) (live : List Str) (w : W) → hosts_of (fleet_run dial sh b live w).0 ≡ live
  unfolding fleet_run
  fleet_run-hosts b [] w = refl
  fleet_run-hosts b (a ∷ live) w = ap (◌∷◌ a) (fleet_run-hosts b live (run_host dial sh b a w).1)

  refuse_all-hosts :
      (seen : Map (List Str)) (live : List Str) → hosts_of (refuse_all dial sh seen live) ≡ live
  refuse_all-hosts seen [] = refl
  refuse_all-hosts seen (a ∷ live) = ap (◌∷◌ a) (refuse_all-hosts seen live)

  unless_diverging-hosts :
      (o : Option (Map (List Str))) (b : Block) (live : List Str) (w : W)
      → hosts_of (unless_diverging dial sh o b live w).0 ≡ live
  unless_diverging-hosts (some seen) b live w = refuse_all-hosts seen live
  unless_diverging-hosts none b live w = fleet_run-hosts b live w

  run_live-hosts :
      (b : Block) (live : List Str) (w : W) → hosts_of (run_live dial sh b live w).0 ≡ live
  unfolding run_live
  run_live-hosts b live w = unless_diverging-hosts (interp_agreement sh.inv live b) b live w

  abbrev pub live_of : Block → Option Set → Set → List Str
  live_of b allowed dead = live_hosts allowed dead (or_none (members sh.inv b.target))

  abbrev pub outcomes_of : Block → Option Set → Set → W → List HostOutcome
  outcomes_of b allowed dead w = (run_live dial sh b (live_of b allowed dead) w).0

  abbrev pub world_of : Block → Option Set → Set → W → W
  world_of b allowed dead w = (run_live dial sh b (live_of b allowed dead) w).1

  outcomes_of-Reached :
      (b : Block) (allowed : Option Set) (dead : Set) (w : W)
      → All (Reached allowed dead) (hosts_of (outcomes_of b allowed dead w))
  outcomes_of-Reached b allowed dead w =
      subst (All (Reached allowed dead)) (sym (run_live-hosts b (live_of b allowed dead) w))
        (live_hosts-Reached allowed dead (or_none (members sh.inv b.target)))

  earlier :
      (b : Block) (allowed : Option Set) (dead : Set) (w : W) (a : Str)
      → Reached allowed (bury (outcomes_of b allowed dead w) dead) a
      → Reached allowed dead a
  earlier b allowed dead w a (yes_, alive) = (
    yes_,
    elim (Bool-cases (dead a)) [
      | inl gone ↦ ground (arith, bury-keeps (outcomes_of b allowed dead w) dead a gone)
      | inr living ↦ living
    ],
  )

  -- Every host of the reports is within the limit and was not dead before.
  pub run_blocks-Reached :
      (plan : Plan) (allowed : Option Set) (dead : Set) (w : W)
      → All
          (λ r. All (Reached allowed dead) (hosts_of r.hosts))
          (run_blocks dial sh plan allowed dead w).0
  unfolding run_blocks
  run_blocks-Reached [] allowed dead w = tt
  run_blocks-Reached (b ∷ bs) allowed dead w =
      elim (Bool-cases (misses allowed (or_none (members sh.inv b.target)))) [
        | inl out ↦ rw out (tt, run_blocks-Reached bs allowed dead w)
        | inr in_ ↦ rw in_ (
          outcomes_of-Reached b allowed dead w,
          All-map (λ r. All-map (earlier b allowed dead w) (hosts_of r.hosts)) _
              (run_blocks-Reached bs allowed (bury (outcomes_of b allowed dead w) dead)
                (world_of b allowed dead w)),
        )
      ]
