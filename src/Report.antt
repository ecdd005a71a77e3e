-- ===== src/Report.antt =====
-- internal/report/report.go: whether a run failed, as each of the three reports says it, and the
-- masking of secrets. The text around the results is not modelled.
pub mod Flags
use shellf.Prelude.{
  Bool, true, false, not, ◌&&◌, ◌||◌, List, [], ◌∷◌, ◌++◌, Option, none, some, Str, str, is_empty,
  has_prefix, drop, length, ℕ, suc, zero, if◌then◌else◌, ◌⊎◌, inl, inr,
}
use shellf.Proto.{Response, Results, empty, more, line_of, StepResult}
use shellf.Agent.{is_err}
use shellf.Orchestrator.{HostOutcome, HostError, BlockReport, BlockError}

-- `anyErr || (st.Category == "err" && !st.Caught)` over the results of one host.
unfoldable pub uncaught : Results → Bool → Bool
uncaught empty failed_ = failed_
uncaught (more r rs) failed_ =
    uncaught rs (failed_ || is_err (line_of r).category && not (line_of r).caught)

-- The hosts of a block, in `Text`.
unfoldable pub text_hosts : List HostOutcome → Bool → Bool
unfolding uncaught
text_hosts [] failed_ = failed_
text_hosts (o ∷ os) failed_ = elim o.outcome [
  | inr e ↦ text_hosts os true
  | inl r ↦ text_hosts os (uncaught r.results failed_)
]

-- The second result of `Text`.
unfoldable pub text_failed : List BlockReport → Bool → Bool
unfolding text_hosts
text_failed [] failed_ = failed_
text_failed (b ∷ bs) failed_ = elim b.error [
  | some e ↦ text_failed bs true
  | none ↦
      if is_empty b.hosts
      then text_failed bs failed_
      else text_failed bs (text_hosts b.hosts failed_)
]

-- `jsonHost` and `jsonBlock`, with the errors before they are printed.
pub record JsonHost : Type 0 where
  pub host : Str
  pub error : Option HostError
  pub halted : Bool
  pub results : Results

pub record JsonBlock : Type 0 where
  pub target : Str
  pub error : Option BlockError
  pub hosts : List JsonHost

abbrev json_host : HostOutcome → JsonHost
json_host o = elim o.outcome [
  | inr e ↦ record { host = o.host; error = some e; halted = false; results = empty }
  | inl r ↦ record { host = o.host; error = none; halted = r.halted; results = r.results }
]

unfoldable pub json_hosts : List HostOutcome → Bool → List JsonHost × Bool
unfolding uncaught
json_hosts [] failed_ = ([], failed_)
json_hosts (o ∷ os) failed_ = elim o.outcome [
  | inr e ↦ (json_host o ∷ (json_hosts os true).0, (json_hosts os true).1)
  | inl r ↦ (
    json_host o ∷ (json_hosts os (uncaught r.results failed_)).0,
    (json_hosts os (uncaught r.results failed_)).1,
  )
]

-- `JSON`, before the encoding: the blocks of the report, and whether the run failed.
unfoldable pub json : List BlockReport → Bool → List JsonBlock × Bool
unfolding json_hosts
json [] failed_ = ([], failed_)
json (b ∷ bs) failed_ = elim b.error [
  | some e ↦ (
    record { target = b.target; error = some e; hosts = [] } ∷ (json bs true).0,
    (json bs true).1,
  )
  | none ↦
      (let (hs, failed') = json_hosts b.hosts failed_ in
        (
          record { target = b.target; error = none; hosts = hs } ∷ (json bs failed').0,
          (json bs failed').1,
        ))
]

-- The hosts of a block, in `Status`: a result is not a failure.
unfoldable pub status_hosts : List HostOutcome → Bool → Bool
status_hosts [] failed_ = failed_
status_hosts (o ∷ os) failed_ = elim o.outcome [
  | inr e ↦ status_hosts os true
  | inl r ↦ status_hosts os failed_
]

-- The second result of `Status`.
unfoldable pub status_failed : List BlockReport → Bool → Bool
unfolding status_hosts
status_failed [] failed_ = failed_
status_failed (b ∷ bs) failed_ = elim b.error [
  | some e ↦ status_failed bs true
  | none ↦
      if is_empty b.hosts
      then status_failed bs failed_
      else status_failed bs (status_hosts b.hosts failed_)
]
