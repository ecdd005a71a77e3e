-- ===== src/Orchestrator/Refused.antt =====
-- A plan that names a target which the inventory does not declare is refused as a whole.
use shellf.Prelude.{
  true, false, List, [], ◌∷◌, none, some, Str, ◌≡◌, ◌≢◌, ◌⊎◌, inl, inr, refl, subst, In, All, Set,
  empty_set, assign, Bool-cases, Option-cases,
}
use shellf.Inventory.{Inventory, members}
use shellf.Proto.{Request, Response}
use shellf.Orchestrator.{
  Block, Plan, BlockReport, unknown_target, Shared, unknown_targets, report_unknown, run,
}

-- A report that only says that its target is not declared.
pub record IsUnknown (inv : Inventory) (r : BlockReport) : Type 0 where
  pub says : r.error ≡ some (unknown_target r.target)
  pub undeclared : members inv r.target ≡ none
  pub no_hosts : r.hosts ≡ []

pub unknown_targets-IsUnknown :
    (plan : Plan) (inv : Inventory) (seen : Set)
    → All (IsUnknown inv) (unknown_targets plan inv seen)
unfolding unknown_targets report_unknown
unknown_targets-IsUnknown [] inv seen = tt
unknown_targets-IsUnknown (b ∷ bs) inv seen = elim (Option-cases (members inv b.target)) [
  | inr (g, declared) ↦ rw declared (unknown_targets-IsUnknown bs inv seen)
  | inl unknown ↦ rw unknown (elim (Bool-cases (seen b.target)) [
    | inl old ↦ rw old (unknown_targets-IsUnknown bs inv seen)
    | inr new ↦ rw new (
      record { says = refl; undeclared = unknown; no_hosts = refl },
      unknown_targets-IsUnknown bs inv (assign seen b.target true),
    )
  ])
]

unknown_targets-ne-nil :
    (plan : Plan) (inv : Inventory) (seen : Set) (b : Block)
    → In b plan
    → members inv b.target ≡ none
    → seen b.target ≡ false
    → unknown_targets plan inv seen ≢ []
unfolding unknown_targets report_unknown
unknown_targets-ne-nil [] inv seen b m u new = elim m [ ]
unknown_targets-ne-nil (c ∷ bs) inv seen b (inl e) u new =
    rw (subst (λ x. members inv x.target ≡ none) e u, subst (λ x. seen x.target ≡ false) e new)
      (λ q. cc)
unknown_targets-ne-nil (c ∷ bs) inv seen b (inr m) u new =
    elim (Option-cases (members inv c.target)) [
      | inr (g, declared) ↦ rw declared (unknown_targets-ne-nil bs inv seen b m u new)
      | inl unknown ↦ rw unknown (elim (Bool-cases (seen c.target)) [
        | inl old ↦ rw old (unknown_targets-ne-nil bs inv seen b m u new)
        | inr fresh ↦ rw fresh (λ q. cc)
      ])
    ]

module _ {W : Type 0} (dial : Str → Request → W → (Response ⊎ Str) × W) (sh : Shared) where
  -- If a block's target is declared by no host and no group, the run returns at least one report,
  -- each report names a target that is not declared and has no host, and no host was dialled: the
  -- world is as it was.
  pub run_refuses :
      (plan : Plan) (b : Block) (w : W)
      → In b plan
      → members sh.inv b.target ≡ none
      → (rs : List BlockReport) × (run dial sh plan w ≡ some (rs, w))
        × (rs ≢ [])
        × All (IsUnknown sh.inv) rs
  unfolding run
  run_refuses plan b w m u =
      refused (unknown_targets plan sh.inv empty_set)
        (unknown_targets-ne-nil plan sh.inv empty_set b m u refl)
        (unknown_targets-IsUnknown plan sh.inv empty_set) refl
    where
      refused :
          (rs : List BlockReport)
          → rs ≢ []
          → All (IsUnknown sh.inv) rs
          → unknown_targets plan sh.inv empty_set ≡ rs
          → (rs : List BlockReport) × (run dial sh plan w ≡ some (rs, w))
            × (rs ≢ [])
            × All (IsUnknown sh.inv) rs
      refused [] ne all e = absurd (ne refl)
      refused (r ∷ rs) ne all e = (r ∷ rs, rw (run, e), ne, all)
