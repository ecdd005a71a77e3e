-- ===== src/Report/Flags.antt =====
-- The reports of one run agree, and what they count as a failure.
use shellf.Prelude.{
  Bool, true, false, not, ◌&&◌, ◌||◌, List, [], ◌∷◌, some, is_empty, ◌⊎◌, inl, inr, ◌≡◌, refl, sym,
  ◌∙◌, ap, arith, subst, In, Map, Bool-cases, Option-cases,
}
use shellf.Engine.Exec.{ShellExecutor}
use shellf.Lang.Ast.{Def}
use shellf.Proto.{Request, Response, Results, empty, more, line_of}
use shellf.Agent.{is_err, any_err, Target, run_parsed}
use shellf.Agent.Halting.{errors_caught}
use shellf.Agent.Strip.{run_parsed-halted}
use shellf.Orchestrator.{failed, HostOutcome, HostError, BlockReport}
use shellf.Report.{uncaught, text_hosts, text_failed, json_hosts, json, status_hosts, status_failed}

outcome_cases :
    (o : Response ⊎ HostError) → ((r : Response) × (o ≡ inl r)) ⊎ ((e : HostError) × (o ≡ inr e))
outcome_cases (inl r) = inl (r, refl)
outcome_cases (inr e) = inr (e, refl)

text_hosts-json : (os : List HostOutcome) (b : Bool) → text_hosts os b ≡ (json_hosts os b).1
unfolding text_hosts json_hosts
text_hosts-json [] b = refl
text_hosts-json (o ∷ os) b = elim (outcome_cases o.outcome) [
  | inl (r, q) ↦ rw q (text_hosts-json os (uncaught r.results b))
  | inr (e, q) ↦ rw q (text_hosts-json os true)
]

no_hosts-json : (os : List HostOutcome) (b : Bool) → is_empty os ≡ true → (json_hosts os b).1 ≡ b
unfolding json_hosts
no_hosts-json [] b e = refl
no_hosts-json (o ∷ os) b e = absurd (ground (arith, e))

-- The text of a run and its JSON say the same of whether it failed.
pub text_failed-json :
    (bs : List BlockReport) (failed_ : Bool) → text_failed bs failed_ ≡ (json bs failed_).1
unfolding text_failed json
text_failed-json [] f = refl
text_failed-json (b ∷ bs) f = elim (Option-cases b.error) [
  | inr (e, q) ↦ rw q (text_failed-json bs true)
  | inl q ↦ rw q (elim (Bool-cases (is_empty b.hosts)) [
    | inl nobody ↦ rw (nobody, no_hosts-json b.hosts f nobody) (text_failed-json bs f)
    | inr some_ ↦
        rw (some_, sym (text_hosts-json b.hosts f)) (text_failed-json bs (text_hosts b.hosts f))
  ])
]

uncaught-true : (rs : Results) → uncaught rs true ≡ true
unfolding uncaught
uncaught-true empty = refl
uncaught-true (more r rs) = uncaught-true rs

text_hosts_mono :
    (os : List HostOutcome) (b c : Bool)
    → (b ≡ true → c ≡ true)
    → status_hosts os b ≡ true
    → text_hosts os c ≡ true
unfolding status_hosts text_hosts
text_hosts_mono [] b c le h = le h
text_hosts_mono (o ∷ os) b c le h = elim (outcome_cases o.outcome) [
  | inl (r, q) ↦ rw q (
      text_hosts_mono os b (uncaught r.results c) (λ t. rw (le t) (uncaught-true r.results))
        (rw q at h))
  | inr (e, q) ↦ rw q (text_hosts_mono os true true (λ t. t) (rw q at h))
]

text_failed_mono :
    (bs : List BlockReport) (b c : Bool)
    → (b ≡ true → c ≡ true)
    → status_failed bs b ≡ true
    → text_failed bs c ≡ true
unfolding status_failed text_failed
text_failed_mono [] b c le h = le h
text_failed_mono (r ∷ bs) b c le h = elim (Option-cases r.error) [
  | inr (e, q) ↦ rw q (text_failed_mono bs true true (λ t. t) (rw q at h))
  | inl q ↦ elim (Bool-cases (is_empty r.hosts)) [
    | inl nobody ↦ rw (q, nobody) (text_failed_mono bs b c le (rw (q, nobody) at h))
    | inr some_ ↦
        rw (q, some_)
          (text_failed_mono bs (status_hosts r.hosts b) (text_hosts r.hosts c)
            (text_hosts_mono r.hosts b c le) (rw (q, some_) at h))
  ]
]

-- If `status` counts reports as a failure, so do the text and the JSON of the same reports.
pub status_failed-text :
    (bs : List BlockReport)
    → status_failed bs false ≡ true
    → (text_failed bs false ≡ true) × ((json bs false).1 ≡ true)
status_failed-text bs h =
    let t = text_failed_mono bs false false (λ q. q) h in (t, sym (text_failed-json bs false) ∙ t)

status_hosts-true : (os : List HostOutcome) → status_hosts os true ≡ true
unfolding status_hosts
status_hosts-true [] = refl
status_hosts-true (o ∷ os) = elim (outcome_cases o.outcome) [
  | inl (r, q) ↦ rw q (status_hosts-true os)
  | inr (e, q) ↦ rw q (status_hosts-true os)
]

status_failed-true : (bs : List BlockReport) → status_failed bs true ≡ true
unfolding status_failed
status_failed-true [] = refl
status_failed-true (r ∷ bs) = elim (Option-cases r.error) [
  | inr (e, q) ↦ rw q (status_failed-true bs)
  | inl q ↦ elim (Bool-cases (is_empty r.hosts)) [
    | inl nobody ↦ rw (q, nobody) (status_failed-true bs)
    | inr some_ ↦ rw (q, some_, status_hosts-true r.hosts) (status_failed-true bs)
  ]
]

status_hosts-error :
    (os : List HostOutcome) (o : HostOutcome) (e : HostError) (b : Bool)
    → In o os
    → o.outcome ≡ inr e
    → status_hosts os b ≡ true
unfolding status_hosts
status_hosts-error [] o e b m q = elim m [ ]
status_hosts-error (p ∷ os) o e b (inl same) q =
    subst (λ x. status_hosts (x ∷ os) b ≡ true) same (rw q (status_hosts-true os))
status_hosts-error (p ∷ os) o e b (inr m) q = elim (outcome_cases p.outcome) [
  | inl (r, h) ↦ rw h (status_hosts-error os o e b m q)
  | inr (e', h) ↦ rw h (status_hosts-error os o e true m q)
]

-- If a host of a report could not be reached or could not be asked, `status` counts the reports as
-- a failure, wherever the host stands, unless its block is itself in error, which is one too.
pub status_failed-error :
    (bs : List BlockReport) (r : BlockReport) (o : HostOutcome) (e : HostError) (b : Bool)
    → In r bs
    → In o r.hosts
    → o.outcome ≡ inr e
    → status_failed bs b ≡ true
unfolding status_failed
status_failed-error [] r o e b m i q = elim m [ ]
status_failed-error (p ∷ bs) r o e b (inl same) i q =
    subst (λ x. status_failed (x ∷ bs) b ≡ true) same
      (elim (Option-cases r.error) [
        | inr (err, h) ↦ rw h (status_failed-true bs)
        | inl h ↦ elim (Bool-cases (is_empty r.hosts)) [
          | inl nobody ↦ absurd (in_empty r.hosts i nobody)
          | inr some_ ↦ rw (h, some_, status_hosts-error r.hosts o e b i q) (status_failed-true bs)
        ]
      ])
  where
    in_empty : (os : List HostOutcome) → In o os → is_empty os ≡ true → ⊥
    in_empty [] j h = j
    in_empty (p ∷ os) j h = ground (arith, h)
status_failed-error (p ∷ bs) r o e b (inr m) i q = elim (Option-cases p.error) [
  | inr (err, h) ↦ rw h (status_failed-error bs r o e true m i q)
  | inl h ↦ elim (Bool-cases (is_empty p.hosts)) [
    | inl nobody ↦ rw (h, nobody) (status_failed-error bs r o e b m i q)
    | inr some_ ↦ rw (h, some_) (status_failed-error bs r o e (status_hosts p.hosts b) m i q)
  ]
]

-- Whether the last result is an `err` that no `?` caught.
unfoldable pub ends_uncaught : Bool → Results → Bool
ends_uncaught d empty = d
ends_uncaught d (more r rs) =
    ends_uncaught (is_err (line_of r).category && not (line_of r).caught) rs

uncaught_lem :
    (rs : Results) (b : Bool)
    → errors_caught rs ≡ true
    → uncaught rs b ≡ (b || ends_uncaught false rs)
unfolding uncaught errors_caught ends_uncaught
uncaught_lem empty b h = ground arith
uncaught_lem (more r empty) b h = refl
uncaught_lem (more r (more q rs)) b h =
    uncaught_lem (more q rs) (b || is_err (line_of r).category && not (line_of r).caught)
      (ground (arith, h))
    ∙ ap (λ c. c || ends_uncaught false (more q rs)) (ground (arith, h))

-- If a target answers a request, the reports count its results as a failure exactly if the last of
-- them is an `err` that was not caught.
pub uncaught-run_parsed :
    {W : Type 0} (target : Target W) (req : Request) (defs : Map Def) (ex : ShellExecutor) (w : W)
    (resp : Response) (w' : W)
    → run_parsed target req defs ex w ≡ some (resp, w')
    → uncaught resp.results false ≡ ends_uncaught false resp.results
uncaught-run_parsed target req defs ex w resp w' e =
    uncaught_lem resp.results false (run_parsed-halted target req defs ex w resp w' e).1

any_uncaught : (rs : Results) (b : Bool) → uncaught rs b ≡ true → (b || any_err rs) ≡ true
unfolding uncaught
any_uncaught empty b h = ground (arith, h)
any_uncaught (more r rs) b h = ground (arith, any_uncaught rs _ h)

-- If the reports count the results of an answer as a failure, the orchestrator counts the answer as
-- one too.
pub uncaught-failed : (r : Response) → uncaught r.results false ≡ true → failed r ≡ true
unfolding failed
uncaught-failed r h = ground (arith, any_uncaught r.results false h)
