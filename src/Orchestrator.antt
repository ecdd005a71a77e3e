-- ===== src/Orchestrator.antt =====
-- internal/orchestrator/orchestrator.go and internal/fleet/fleet.go: a plan over an inventory, its
-- blocks in order, the hosts of a block side by side. The hosts of a block are dialled here one
-- after the other, one of the schedules of the goroutines; each result stands at its own place.
pub mod Env
pub mod Refused
pub mod Dropped
pub mod Limit
pub mod Failed
use shellf.Prelude.{
  ℕ, Bool, true, false, not, ◌&&◌, ◌||◌, List, [], ◌∷◌, ◌++◌, Option, none, some, Str, str, str_eq,
  is_empty, ltb, length, any, if◌then◌else◌, Map, lookup, insert, merge, keys, ◌⊎◌, inl, inr, Set,
  empty_set, assign,
}
use shellf.Inventory.{Host, Inventory, resolve, members}
use shellf.Proto.{
  Fields, Step, step, Steps, stop, also, Branch, no_if, if_block, Cond, no_cond, cond, is_stop,
  fields, Response, Request, Results, empty, more, line_of,
}
use shellf.Proto.Resolve.{Resolved, RefError, resolve_refs}
use shellf.Proto.Resolve
use shellf.Agent.{is_err, any_err}
use shellf.Orchestrator.Env.{host_env}

pub record Block : Type 0 where
  pub target : Str
  pub steps : Steps

abbrev pub Plan : Type 0
Plan = List Block

-- `ResolveError` in its three uses, and what a transport or a decoding reports.
pub data HostError : Type 0 where
  unresolved : RefError → HostError
  starved : HostError
  invalid : Str → HostError
  diverging : Map (List Str) → HostError
  transport : Str → HostError

-- `fleet.HostResult` and `HostOutcome`
pub record HostOutcome : Type 0 where
  pub host : Str
  pub outcome : Response ⊎ HostError

pub data BlockError : Type 0 where
  unknown_target : Str → BlockError
  unknown_limit : Str → BlockError
  empty_limit : Str → List Str → BlockError

pub record BlockReport : Type 0 where
  pub target : Str
  pub hosts : List HostOutcome
  pub error : Option BlockError

-- `Options`, without `Parallel`, which bounds how many hosts are dialled at once.
pub record Options : Type 0 where
  pub verbose : Bool
  pub limit : List Str
  pub validate_args : Option (Steps → Option Str)

-- `failed`
unfoldable pub failed : Response → Bool
failed r = not (is_empty r.error) || any_err r.results

-- A target that is declared, or was reported before, adds nothing.
unfoldable pub report_unknown :
    Option (List Str) → Bool → List BlockReport → List BlockReport → List BlockReport
report_unknown (some g) seen old new = old
report_unknown none true old new = old
report_unknown none false old new = new

-- `unknownTargets`
unfoldable pub unknown_targets : Plan → Inventory → Set → List BlockReport
unfolding report_unknown
unknown_targets [] inv seen = []
unknown_targets (b ∷ bs) inv seen =
    report_unknown (members inv b.target) (seen b.target) (unknown_targets bs inv seen) (
      record { target = b.target; hosts = []; error = some (unknown_target b.target) }
      ∷ unknown_targets bs inv (assign seen b.target true))

abbrev pub add_all : List Str → Set → Set
add_all [] s = s
add_all (a ∷ as_) s = add_all as_ (assign s a true)

-- The loop of `resolveLimit`: the aliases allowed, or the name that nobody declares.
unfoldable pub limit_set : List Str → Inventory → Set → Set ⊎ Str
limit_set [] inv allowed = inl allowed
limit_set (n ∷ ns) inv allowed = elim (members inv n) [
  | none ↦ inr n
  | some g ↦ limit_set ns inv (add_all g allowed)
]

-- `resolveLimit`: `none` where no limit was given.
unfoldable pub resolve_limit : List Str → Inventory → Option Set ⊎ Str
unfolding limit_set
resolve_limit [] inv = inl none
resolve_limit (n ∷ ns) inv = elim (limit_set (n ∷ ns) inv empty_set) [
  | inl allowed ↦ inl (some allowed)
  | inr name ↦ inr name
]

unfoldable mutual
  -- `hasUnannotatedShell`
  pub unannotated : Steps → Bool
  unannotated stop = false
  unannotated (also s ss) = unannotated_step s || unannotated ss

  pub unannotated_step : Step → Bool
  unannotated_step (step f block parallel branch) =
      if str_eq f.instruction (str "shell") && is_empty f.interp
      then true
      else unannotated_branch branch
          (if is_stop block then unannotated parallel else unannotated block)

  pub unannotated_branch : Branch → Bool → Bool
  unannotated_branch no_if otherwise = otherwise
  unannotated_branch (if_block c match_ ref negate then_ else_) otherwise =
      bare_cond c || unannotated then_ || unannotated else_

  pub bare_cond : Cond → Bool
  bare_cond no_cond = false
  bare_cond (cond s) = str_eq (fields s).instruction (str "shell") && is_empty (fields s).interp

abbrev interpreter_of : Option Host → Str
interpreter_of none = str "sh"
interpreter_of (some h) = if is_empty h.interpreter then str "sh" else h.interpreter

abbrev pub or_none : Option (List Str) → List Str
or_none none = []
or_none (some l) = l

-- The hosts by their interpreter.
unfoldable pub by_interpreter : Inventory → List Str → Map (List Str) → Map (List Str)
by_interpreter inv [] seen = seen
by_interpreter inv (a ∷ as_) seen =
    let i = interpreter_of (resolve inv a) in
    by_interpreter inv as_ (insert i (or_none (lookup i seen) ++ a ∷ []) seen)

-- `interpAgreement`: the groups that differ.
unfoldable pub interp_agreement : Inventory → List Str → Block → Option (Map (List Str))
unfolding unannotated by_interpreter
interp_agreement inv live b =
    if not (unannotated b.steps)
    then none
    else (let seen = by_interpreter inv live [] in if ltb 1 (length seen) then some seen else none)

abbrev pub is_allowed : Option Set → Str → Bool
is_allowed none a = true
is_allowed (some allowed) a = allowed a

-- The members that the limit allows and that have not failed.
unfoldable pub live_hosts : Option Set → Set → List Str → List Str
live_hosts allowed dead [] = []
live_hosts allowed dead (a ∷ as_) =
    let rest = live_hosts allowed dead as_ in
    if is_allowed allowed a && not (dead a) then a ∷ rest else rest

-- `allowed != nil && len(members) > 0 && !intersects(members, allowed)`
abbrev pub misses : Option Set → List Str → Bool
misses none ms = false
misses (some allowed) ms = not (is_empty ms) && not (any allowed ms)

-- A host resolved, or Go's zero host.
abbrev pub zero_host : Host
zero_host = record {
  address = [];
  user = [];
  port = [];
  key = [];
  interpreter = [];
  local = false;
  vars = [];
}

abbrev or_zero : Option Host → Host
or_zero none = zero_host
or_zero (some h) = h

abbrev validated : Option (Steps → Option Str) → Steps → Option Str
validated none ss = none
validated (some f) ss = f ss

-- The variables of a run, and the parts of a request that all hosts share.
pub record Shared : Type 0 where
  pub inv : Inventory
  pub mode : Str
  pub base : Map Str
  pub set : Map Str
  pub defs : Map Str
  pub opt : Options

-- `reqFor`
unfoldable pub request_for : Shared → Block → Str → Request ⊎ HostError
request_for sh b alias =
    let host = or_zero (resolve sh.inv alias) in
    elim (resolve_refs b.steps (host_env alias host sh.inv sh.base sh.set) host.interpreter) [
      | Resolve.refused e ↦ inr (unresolved e)
      | Resolve.out_of_fuel ↦ inr starved
      | Resolve.ok ss ↦ elim (validated sh.opt.validate_args ss) [
        | some message ↦ inr (invalid message)
        | none ↦
            inl (record { mode = sh.mode; defs = sh.defs; steps = ss; verbose = sh.opt.verbose })
      ]
    ]

abbrev pub outcome_failed : Response ⊎ HostError → Bool
outcome_failed (inl r) = failed r
outcome_failed (inr e) = true

-- The hosts that a block adds to `dead`.
unfoldable pub bury : List HostOutcome → Set → Set
unfolding failed
bury [] dead = dead
bury (o ∷ os) dead = bury os (if outcome_failed o.outcome then assign dead o.host true else dead)

-- What a run does to the world: `dial` runs the agent of one host on a request.
module _ {W : Type 0} (dial : Str → Request → W → (Response ⊎ Str) × W) (sh : Shared) where
  abbrev answer : (Response ⊎ Str) × W → (Response ⊎ HostError) × W
  answer (inl r, w) = (inl r, w)
  answer (inr message, w) = (inr (transport message), w)

  -- The goroutine of one host: a request that cannot be made is not dialled.
  unfoldable pub run_host : Block → Str → W → (Response ⊎ HostError) × W
  unfolding request_for
  run_host b alias w = elim (request_for sh b alias) [
    | inr e ↦ (inr e, w)
    | inl req ↦ answer (dial alias req w)
  ]

  -- `fleet.Run`
  unfoldable pub fleet_run : Block → List Str → W → List HostOutcome × W
  unfolding run_host
  fleet_run b [] w = ([], w)
  fleet_run b (a ∷ as_) w =
      let (o, w₁) = run_host b a w in
      let (rest, w₂) = fleet_run b as_ w₁ in (record { host = a; outcome = o } ∷ rest, w₂)

  abbrev pub refuse_all : Map (List Str) → List Str → List HostOutcome
  refuse_all seen [] = []
  refuse_all seen (a ∷ as_) =
      record { host = a; outcome = inr (diverging seen) } ∷ refuse_all seen as_

  abbrev pub unless_diverging :
      Option (Map (List Str)) → Block → List Str → W → List HostOutcome × W
  unless_diverging (some seen) b live w = (refuse_all seen live, w)
  unless_diverging none b live w = fleet_run b live w

  -- The live hosts of a block, behind the check of the interpreters.
  unfoldable pub run_live : Block → List Str → W → List HostOutcome × W
  unfolding fleet_run interp_agreement
  run_live b live w = unless_diverging (interp_agreement sh.inv live b) b live w

  abbrev pub missed_block : Block → BlockReport
  missed_block b = record {
    target = b.target;
    hosts = [];
    error = some (empty_limit b.target sh.opt.limit);
  }

  -- The loop of `Run` over the blocks.
  unfoldable pub run_blocks : Plan → Option Set → Set → W → List BlockReport × W
  unfolding run_live live_hosts bury
  run_blocks [] allowed dead w = ([], w)
  run_blocks (b ∷ bs) allowed dead w =
      let ms = or_none (members sh.inv b.target) in
      let skipped = run_blocks bs allowed dead w in
      let (outcomes, w₁) = run_live b (live_hosts allowed dead ms) w in
      let later = run_blocks bs allowed (bury outcomes dead) w₁ in
      if misses allowed ms
      then (missed_block b ∷ skipped.0, skipped.1)
      else (record { target = b.target; hosts = outcomes; error = none } ∷ later.0, later.1)

  abbrev pub first_target : Plan → Option Str
  first_target [] = none
  first_target (b ∷ bs) = some b.target

  -- A limit that names nobody is reported on the first block. A plan with no block has none, and
  -- Go's `plan[0]` panics: `none`.
  abbrev pub refuse_limit : Option Str → Str → W → Option (List BlockReport × W)
  refuse_limit none name w = none
  refuse_limit (some t) name w =
      some (record { target = t; hosts = []; error = some (unknown_limit name) } ∷ [], w)

  abbrev pub start : Plan → Option Set ⊎ Str → W → Option (List BlockReport × W)
  start plan (inr name) w = refuse_limit (first_target plan) name w
  start plan (inl allowed) w = some (run_blocks plan allowed empty_set w)

  -- `Run`
  unfoldable pub run : Plan → W → Option (List BlockReport × W)
  unfolding unknown_targets resolve_limit run_blocks
  run plan w = elim (unknown_targets plan sh.inv empty_set) [
    | r ∷ rs ↦ some (r ∷ rs, w)
    | [] ↦ start plan (resolve_limit sh.opt.limit sh.inv) w
  ]
