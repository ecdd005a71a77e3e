-- ===== src/Tests/FleetTests.antt =====
-- The theorems on the inventory, the plan and the reports at concrete inputs.
use shellf.Prelude.{
  ℕ, suc, Bool, true, false, not, List, [], ◌∷◌, Option, none, some, Str, str, str_eq,
  if◌then◌else◌, Map, Set, lookup, keys, ◌≡◌, ◌≢◌, ◌⊎◌, refl, inl, inr, All, In, empty_set,
}
use shellf.Inventory.{validate, Host, Inventory, resolve, members}
use shellf.Inventory.Lookup.{resolve_lem, or_else}
use shellf.Proto.Resolve
use shellf.Proto.Resolve.{resolve_refs}
use shellf.Proto.Resolve.Total.{resolve_refs_terminates}
use shellf.Proto.{
  step, no_if, step_result, Steps, stop, also, Results, empty, more, Response, Request,
}
use shellf.Orchestrator.{
  failed, Block, Plan, HostOutcome, transport, BlockReport, Shared, run, zero_host,
}
use shellf.Orchestrator.Refused.{IsUnknown, run_refuses}
use shellf.Orchestrator.Dropped.{hosts_of}
use shellf.Orchestrator.Limit.{Named}
use shellf.Orchestrator.Failed.{Before, run-drops, run-limit}
use shellf.Report.{text_failed, json, status_failed, uncaught}
use shellf.Report.Flags.{text_failed-json, uncaught-run_parsed, uncaught-failed, ends_uncaught}
use shellf.Agent.{run_parsed, plain}
use shellf.Inventory.Valid.{validate-none}
use shellf.Tests.{shell_fields, failing, target_on, plain_executor, shell_step}

abbrev web : Host
web = record zero_host { address = str "10.0.0.1"; vars = (str "port", str "80") ∷ [] }

abbrev fleet : Inventory
fleet = record {
  defaults = record zero_host { user = str "deploy"; vars = (str "env", str "prod") ∷ [] };
  hosts = (str "a", web) ∷ (str "b", web) ∷ [];
  groups = (str "all", str "a" ∷ str "b" ∷ []) ∷ [];
}

abbrev block_on : Str → Block
block_on target = record { target = target; steps = also (shell_step (str "true")) stop }

abbrev plan : Plan
plan = block_on (str "a") ∷ block_on (str "all") ∷ []

abbrev shared : List Str → Shared
shared limit = record {
  inv = fleet;
  mode = str "apply";
  base = [];
  set = [];
  defs = [];
  opt = record { verbose = false; limit = limit; validate_args = none };
}

-- The host `a` cannot be reached.
abbrev dial : Str → Request → ℕ → (Response ⊎ Str) × ℕ
dial alias req w = (
  if str_eq alias (str "a")
      then inr (str "timeout")
      else inl (record { results = empty; halted = false; error = [] }),
  suc w,
)

abbrev reports_of : Option (List BlockReport × ℕ) → List BlockReport
reports_of none = []
reports_of (some (rs, w)) = rs

abbrev dialled : Option (List BlockReport × ℕ) → ℕ
dialled none = 0
dialled (some (rs, w)) = w

abbrev fleet_run : List Str → Option (List BlockReport × ℕ)
fleet_run limit = run dial (shared limit) plan 0

fleet_run-some : fleet_run [] ≡ some (reports_of (fleet_run []), dialled (fleet_run []))
unfolding run members lookup str_eq
fleet_run-some = refl

-- The second block dials the other host alone.
fleet_run-dialled : dialled (fleet_run []) ≡ 2
unfolding run members lookup str_eq shellf.Prelude.insert shellf.Proto.Resolve.resolve_refs
    shellf.Prelude.assign
fleet_run-dialled = refl

abbrev lost : HostOutcome
lost = record { host = str "a"; outcome = inr (transport (str "timeout")) }

abbrev first : BlockReport
first = record { target = str "a"; hosts = lost ∷ []; error = none }

abbrev second : BlockReport
second = record {
  target = str "all";
  hosts =
      record {
        host = str "b";
        outcome = inl (record { results = empty; halted = false; error = [] });
      }
      ∷ [];
  error = none;
}

fleet_run-Before : Before first second (reports_of (fleet_run []))
unfolding run members lookup str_eq shellf.Prelude.insert shellf.Proto.Resolve.resolve_refs
    shellf.Prelude.assign
fleet_run-Before = inl (refl, inl refl)

run-drops_example : ¬ In (str "a") (str "b" ∷ [])
run-drops_example =
    run-drops dial (shared []) plan 0 (reports_of (fleet_run [])) (dialled (fleet_run []))
      fleet_run-some first second lost fleet_run-Before (inl refl) refl

limit_run-some :
    fleet_run (str "b" ∷ [])
    ≡ some (reports_of (fleet_run (str "b" ∷ [])), dialled (fleet_run (str "b" ∷ [])))
unfolding run members lookup str_eq
limit_run-some = refl

run-limit_example :
    All
      (λ r. All (Named fleet (str "b" ∷ [])) (hosts_of r.hosts))
      (reports_of (fleet_run (str "b" ∷ [])))
run-limit_example =
    run-limit dial (shared (str "b" ∷ [])) plan 0 (reports_of (fleet_run (str "b" ∷ [])))
      (dialled (fleet_run (str "b" ∷ []))) (λ e. cc) limit_run-some

nobody : members fleet (str "nobody") ≡ none
unfolding members lookup str_eq
nobody = refl

run_refuses_example :
    (rs : List BlockReport) × (run dial (shared []) (block_on (str "nobody") ∷ plan) 0
      ≡ some (rs, 0))
    × (rs ≢ [])
    × All (IsUnknown fleet) rs
run_refuses_example =
    run_refuses dial (shared []) (block_on (str "nobody") ∷ plan) (block_on (str "nobody")) 0
      (inl refl) nobody

web_declared : lookup (str "a") fleet.hosts ≡ some web
unfolding lookup str_eq
web_declared = refl

resolve_lem_example :
    (r : Host) × (resolve fleet (str "a") ≡ some r)
    × (r.address ≡ web.address)
    × (lookup (str "env") r.vars
        ≡ or_else (lookup (str "env") web.vars) (lookup (str "env") fleet.defaults.vars))
unfolding keys
resolve_lem_example =
    resolve_lem fleet (str "a") web (str "env") web_declared ((λ m. m), tt) ((λ m. m), tt)

text_failed-json_example :
    text_failed (first ∷ second ∷ []) false ≡ (json (first ∷ second ∷ []) false).1
text_failed-json_example = text_failed-json (first ∷ second ∷ []) false

status_first : status_failed (first ∷ second ∷ []) false ≡ true
unfolding status_failed
status_first = refl

abbrev request : Request
request = record {
  mode = str "apply";
  defs = [];
  steps = also (shell_step (str "false")) stop;
  verbose = false;
}

abbrev answer : Option (Response × ℕ)
answer = run_parsed (target_on failing) request [] plain_executor 0

abbrev response_of : Option (Response × ℕ) → Response
response_of none = record { results = empty; halted = false; error = [] }
response_of (some (r, w)) = r

abbrev after : Option (Response × ℕ) → ℕ
after none = 0
after (some (r, w)) = w

answer-some : answer ≡ some (response_of answer, after answer)
unfolding run_parsed str_eq lookup shellf.Engine.Run.run shellf.Engine.Shell.shell_instruction
    shellf.Prelude.trim_space shellf.Agent.mode_of shellf.Engine.is_ok shellf.Prelude.int_eq
    shellf.Engine.Exec.shell
answer-some = refl

uncaught-run_parsed_example :
    uncaught (response_of answer).results false ≡ ends_uncaught false (response_of answer).results
uncaught-run_parsed_example =
    uncaught-run_parsed (target_on failing) request [] plain_executor 0 (response_of answer)
      (after answer) answer-some

fleet_valid : validate fleet ≡ none
unfolding validate shellf.Prelude.sort_strings keys lookup str_eq
fleet_valid = refl

fleet_all : lookup (str "all") fleet.groups ≡ some (str "a" ∷ str "b" ∷ [])
unfolding lookup str_eq
fleet_all = refl

validate-none_example : lookup (str "b") fleet.hosts ≢ none
validate-none_example =
    validate-none fleet (str "all") (str "b") (str "a" ∷ str "b" ∷ []) fleet_valid fleet_all
      (inr (inl refl))

abbrev err_result : Bool → Results
err_result caught =
    more
      (step_result (record (plain (str "step") (str "err") (str "boom")) { caught = caught }) empty)
      empty

abbrev response_with : Results → Response
response_with rs = record { results = rs; halted = true; error = [] }

err_uncaught : uncaught (err_result false) false ≡ true
unfolding uncaught str_eq
err_uncaught = refl

uncaught-failed_example : failed (response_with (err_result false)) ≡ true
uncaught-failed_example = uncaught-failed (response_with (err_result false)) err_uncaught

-- An error that was caught drops the host all the same, and the reports do not count it.
caught_drops :
    (failed (response_with (err_result true)) ≡ true) × (uncaught (err_result true) false ≡ false)
unfolding failed uncaught str_eq
caught_drops = (refl, refl)

-- A step whose argument is expanded when the host is known.
abbrev templated : Steps
templated =
    also
      (step
        (record (shell_fields (str "x")) {
          templates = (str "dst", str "/etc/${inventory.name}") ∷ [];
        })
        stop stop no_if)
      stop

resolve_refs_terminates_example :
    resolve_refs templated ((str "inventory.name", str "a") ∷ []) (str "sh") ≢ Resolve.out_of_fuel
resolve_refs_terminates_example =
    resolve_refs_terminates templated ((str "inventory.name", str "a") ∷ []) (str "sh")
