-- ===== src/Fleet.antt =====
-- internal/fleet/fleet.go: the goroutines of a run and the semaphore they share. A schedule is the list of
-- the workers whose turn it is; one that cannot move stays where it is.
pub mod Slots
pub mod Rounds
use shellf.Prelude.{
  ℕ, zero, suc, ltb, if◌then◌else◌, ℤ, pos, negsuc, List, [], ◌∷◌, map, Option, none, some, Str,
  ◌⊎◌, inl, inr,
}

-- `width`
unfoldable pub width : ℤ → ℕ
width (pos zero) = 16
width (pos (suc n)) = suc n
width (negsuc n) = 16

-- `HostResult`: the response or the error of a target.
pub record HostResult (Response Error : Type 0) : Type 0 where
  pub target : Str
  pub outcome : Response ⊎ Error

-- What the goroutine of a target does next: `sem <- struct{}{}`, the work with `results[i] = hr`, the
-- deferred `<-sem`, nothing. A goroutine that has not begun waits.
pub data Worker (R : Type 0) : Type 0 where
  waiting : Str → Worker R
  holding : Str → Worker R
  stored : R → Worker R
  gone : R → Worker R

-- The slots of `sem` that are taken, and the workers in the order of their targets.
pub record Fleet (R : Type 0) : Type 0 where
  pub taken : ℕ
  pub workers : List (Worker R)

abbrev pub start_all : {R : Type 0} → List Str → List (Worker R)
start_all [] = []
start_all (t ∷ ts) = waiting t ∷ start_all ts

-- The fleet before any goroutine has run.
abbrev pub all_waiting : {R : Type 0} → List Str → Fleet R
all_waiting ts = record { taken = 0; workers = start_all ts }

-- `results`
abbrev pub result : {R : Type 0} → Worker R → Option R
result (waiting t) = none
result (holding t) = none
result (stored r) = some r
result (gone r) = some r

abbrev pub results : {R : Type 0} → List (Worker R) → List (Option R)
results [] = []
results (w ∷ ws) = result w ∷ results ws

module _ {Request Raw Response Error : Type 0} (req_for : Str → Request ⊎ Error)
    (run_agent : Str → Request → Raw ⊎ Error) (unmarshal : Raw → Response ⊎ Error) where
  abbrev pub Result : Type 0
  Result = HostResult Response Error

  -- The work of a goroutine: `reqFor`, `dial(t).Run`, `json.Unmarshal`.
  unfoldable pub host_result : Str → Result
  host_result t = record {
    target = t;
    outcome = elim (req_for t) [
      | inr e ↦ inr e
      | inl req ↦ elim (run_agent t req) [ inr e ↦ inr e | inl raw ↦ unmarshal raw ]
    ];
  }

  module _ (slots : ℕ) where
    -- The move of a worker, with the slots that are taken then.
    unfoldable pub move : ℕ → Worker Result → Option (ℕ × Worker Result)
    move taken (waiting t) = if ltb taken slots then some (suc taken, holding t) else none
    move taken (holding t) = some (taken, stored (host_result t))
    move zero (stored r) = none
    move (suc taken) (stored r) = some (taken, gone r)
    move taken (gone r) = none

    abbrev pub put_first :
        List (Worker Result) → Option (ℕ × Worker Result) → Option (ℕ × List (Worker Result))
    put_first ws none = none
    put_first ws (some (n, w)) = some (n, w ∷ ws)

    abbrev pub keep_first :
        Worker Result → Option (ℕ × List (Worker Result)) → Option (ℕ × List (Worker Result))
    keep_first w none = none
    keep_first w (some (n, ws)) = some (n, w ∷ ws)

    -- The move of the worker at a place.
    unfoldable pub move_at : ℕ → ℕ → List (Worker Result) → Option (ℕ × List (Worker Result))
    move_at taken i [] = none
    move_at taken zero (w ∷ ws) = put_first ws (move taken w)
    move_at taken (suc i) (w ∷ ws) = keep_first w (move_at taken i ws)

    abbrev pub after_move : Fleet Result → Option (ℕ × List (Worker Result)) → Fleet Result
    after_move f none = f
    after_move f (some (n, ws)) = record { taken = n; workers = ws }

    abbrev pub turn : ℕ → Fleet Result → Fleet Result
    turn i f = after_move f (move_at f.taken i f.workers)

    unfoldable pub run_schedule : List ℕ → Fleet Result → Fleet Result
    run_schedule [] f = f
    run_schedule (i ∷ is) f = run_schedule is (turn i f)

    unfoldable pub run_rounds : List (List ℕ) → Fleet Result → Fleet Result
    unfolding run_schedule
    run_rounds [] f = f
    run_rounds (r ∷ rs) f = run_rounds rs (run_schedule r f)
