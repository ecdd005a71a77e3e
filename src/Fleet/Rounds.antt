-- ===== src/Fleet/Rounds.antt =====
-- internal/fleet/fleet.go: no schedule that is fair leaves a host without its result.
use shellf.Prelude.{
  ℕ, zero, suc, ◌*◌, ◌≤◌, ◌<◌, ltb, Bool, true, false, if◌then◌else◌, ℤ, pos, negsuc, List, [], ◌∷◌,
  map, Option, none, some, Str, length, ◌≡◌, ◌≢◌, refl, sym, ap, ap₂, ◌⊎◌, inl, inr, arith, subst,
  Option-cases, All, In, In-All,
}
use shellf.Fleet.{
  width, HostResult, Worker, waiting, holding, stored, gone, Fleet, start_all, all_waiting, results,
  host_result, move, move_at, after_move, put_first, keep_first, turn, run_schedule, run_rounds,
}
use shellf.Fleet.Slots.{
  holders, left, StandsFor, Inv, MovedTo, move_at-MovedTo, run_schedule-Inv, all_waiting-Inv,
}

-- The round has a turn for each of `n` workers.
abbrev pub CoversAll : ℕ → List ℕ → Type 0
CoversAll n r = (i : ℕ) → i < n → In i r

module _ {Request Raw Response Error : Type 0} (req_for : Str → Request ⊎ Error)
    (run_agent : Str → Request → Raw ⊎ Error) (unmarshal : Raw → Response ⊎ Error) (slots : ℕ) where
  abbrev R : Type 0
  R = HostResult Response Error

  abbrev at : ℕ → ℕ → List (Worker R) → Option (ℕ × List (Worker R))
  at = move_at req_for run_agent unmarshal slots

  abbrev one : ℕ → Worker R → Option (ℕ × Worker R)
  one = move req_for run_agent unmarshal slots

  abbrev run : List ℕ → Fleet R → Fleet R
  run = run_schedule req_for run_agent unmarshal slots

  abbrev step : ℕ → Fleet R → Fleet R
  step = turn req_for run_agent unmarshal slots

  abbrev Good : List Str → Fleet R → Type 0
  Good = Inv req_for run_agent unmarshal slots

  -- No worker can move.
  abbrev Stuck : ℕ → List (Worker R) → Type 0
  Stuck taken ws = All (λ w. one taken w ≡ none) ws

  put_first-none :
      (ws : List (Worker R)) (o : Option (ℕ × Worker R))
      → put_first req_for run_agent unmarshal slots ws o ≡ none
      → o ≡ none
  put_first-none ws none h = refl
  put_first-none ws (some (n, w)) h = cc

  keep_first-none :
      (w : Worker R) (o : Option (ℕ × List (Worker R)))
      → keep_first req_for run_agent unmarshal slots w o ≡ none
      → o ≡ none
  keep_first-none w none h = refl
  keep_first-none w (some (n, ws)) h = cc

  all-Stuck :
      (taken : ℕ) (ws : List (Worker R))
      → ((i : ℕ) → i < length ws → at taken i ws ≡ none)
      → Stuck taken ws
  unfolding move_at
  all-Stuck taken [] h = tt
  all-Stuck taken (w ∷ ws) h = (
    put_first-none ws (one taken w) (h 0 (omega arith)),
    all-Stuck taken ws (λ i lt. keep_first-none w (at taken i ws) (h (suc i) (omega arith))),
  )

  -- While a slot is taken, a worker that holds one can move.
  taken-holders : (n : ℕ) (ws : List (Worker R)) → Stuck (suc n) ws → holders ws ≡ 0
  unfolding move
  taken-holders n [] q = refl
  taken-holders n (waiting t ∷ ws) q = taken-holders n ws q.1
  taken-holders n (holding t ∷ ws) q = absurd (some_none q.0)
    where
      some_none : {A : Type 0} {a : A} → some a ≢ none
      some_none e = cc
  taken-holders n (stored r ∷ ws) q = absurd (some_none q.0)
    where
      some_none : {A : Type 0} {a : A} → some a ≢ none
      some_none e = cc
  taken-holders n (gone r ∷ ws) q = taken-holders n ws q.1

  -- While none is taken, a worker that waits can move.
  free-left : (ws : List (Worker R)) → 1 ≤ slots → holders ws ≡ 0 → Stuck 0 ws → left ws ≡ 0
  unfolding move
  free-left [] some_slot e q = refl
  free-left (waiting t ∷ ws) some_slot e q = absurd (moves (ltb 0 slots) a_slot q.0)
    where
      a_slot : ltb 0 slots ≡ true
      a_slot = ground arith

      moves :
          (b : Bool)
          → b ≡ true
          → if◌then◌else◌ {A = Option (ℕ × Worker R)} b (some (1, holding t)) none ≢ none
      moves true h g = cc
      moves false h g = cc
  free-left (holding t ∷ ws) some_slot e q = absurd (omega (arith, e))
  free-left (stored r ∷ ws) some_slot e q = absurd (omega (arith, e))
  free-left (gone r ∷ ws) some_slot e q = free-left ws some_slot e q.1

  Stuck-left :
      (ts : List Str) (f : Fleet R)
      → 1 ≤ slots
      → Good ts f
      → Stuck f.taken f.workers
      → left f.workers ≡ 0
  Stuck-left ts f some_slot inv q = by_taken f.taken inv.count q
    where
      by_taken : (n : ℕ) → n ≡ holders f.workers → Stuck n f.workers → left f.workers ≡ 0
      by_taken zero e q = free-left f.workers some_slot (sym e) q
      by_taken (suc n) e q = absurd (omega (arith, e, taken-holders n f.workers q))

  -- A round in which some worker moves has fewer moves left behind it; any other leaves all as it was.
  RoundDone : List ℕ → Fleet R → Fleet R → Type 0
  RoundDone r f f' =
      (left f'.workers < left f.workers) ⊎ ((f' ≡ f) × All (λ i. at f.taken i f.workers ≡ none) r)

  turn-left :
      (ts : List Str) (i : ℕ) (f : Fleet R) (n : ℕ) (ws : List (Worker R))
      → at f.taken i f.workers ≡ some (n, ws)
      → left (step i f).workers < left f.workers
  turn-left ts i f n ws e = rw e (
      omega (
        arith,
        (subst (MovedTo req_for run_agent unmarshal slots f.taken ts f.workers) e
            (move_at-MovedTo req_for run_agent unmarshal slots f.taken i f.workers ts)).less,
      ))

  stays-Done :
      (i : ℕ) (r : List ℕ) (f : Fleet R)
      → at f.taken i f.workers ≡ none
      → RoundDone r f (run r f)
      → RoundDone (i ∷ r) f (run r (step i f))
  unfolding RoundDone
  stays-Done i r f e h = subst (λ g. RoundDone (i ∷ r) f (run r g)) (sym same) (longer h)
    where
      same : step i f ≡ f
      same = ap (after_move req_for run_agent unmarshal slots f) e

      longer : {f' : Fleet R} → RoundDone r f f' → RoundDone (i ∷ r) f f'
      longer (inl lt) = inl lt
      longer (inr (q, all)) = inr (q, (e, all))

  round-Done : (r : List ℕ) (f : Fleet R) → RoundDone r f (run r f)
  unfolding RoundDone run_schedule
  round-Done [] f = inr (refl, tt)
  round-Done (i ∷ r) f =
      from (Option-cases (at f.taken i f.workers)) (round-Done r (step i f)) (round-Done r f)
    where
      from :
          (at f.taken i f.workers ≡ none)
            ⊎ ((m : ℕ × List (Worker R)) × (at f.taken i f.workers ≡ some m))
          → RoundDone r (step i f) (run r (step i f))
          → RoundDone r f (run r f)
          → RoundDone (i ∷ r) f (run r (step i f))
      from (inl e) h g = stays-Done i r f e g
      from (inr ((n, ws), e)) (inl lt) g = inl (omega (arith, lt, turn-left [] i f n ws e))
      from (inr ((n, ws), e)) (inr (same, _)) g =
          inl (subst (λ g. left g.workers < left f.workers) (sym same) (turn-left [] i f n ws e))

  StandsFor-length :
      (ts : List Str) (ws : List (Worker R))
      → StandsFor req_for run_agent unmarshal ts ws
      → length ws ≡ length ts
  StandsFor-length [] [] q = refl
  StandsFor-length [] (w ∷ ws) q = elim q [ ]
  StandsFor-length (t ∷ ts) [] q = elim q [ ]
  StandsFor-length (t ∷ ts) (waiting u ∷ ws) q = ap suc (StandsFor-length ts ws q.1)
  StandsFor-length (t ∷ ts) (holding u ∷ ws) q = ap suc (StandsFor-length ts ws q.1)
  StandsFor-length (t ∷ ts) (stored u ∷ ws) q = ap suc (StandsFor-length ts ws q.1)
  StandsFor-length (t ∷ ts) (gone u ∷ ws) q = ap suc (StandsFor-length ts ws q.1)

  -- A round for all workers takes a move, unless none is left.
  round-left :
      (ts : List Str) (r : List ℕ) (f : Fleet R) (m : ℕ)
      → 1 ≤ slots
      → Good ts f
      → CoversAll (length ts) r
      → left f.workers ≤ suc m
      → left (run r f).workers ≤ m
  unfolding RoundDone
  round-left ts r f m some_slot inv covers le = from (round-Done r f)
    where
      same_length : length f.workers ≡ length ts
      same_length = StandsFor-length ts f.workers inv.own

      from : RoundDone r f (run r f) → left (run r f).workers ≤ m
      from (inl lt) = omega (arith, lt, le)
      from (inr (same, blocked)) = omega (
        arith,
        ap (λ g. left g.workers) same,
        Stuck-left ts f some_slot inv (
            all-Stuck f.taken f.workers (λ i lt.
              In-All (λ j. at f.taken j f.workers ≡ none) i r
                (covers i (omega (arith, lt, same_length))) blocked)),
      )

  rounds-left :
      (ts : List Str) (rs : List (List ℕ)) (f : Fleet R)
      → 1 ≤ slots
      → Good ts f
      → All (CoversAll (length ts)) rs
      → left f.workers ≤ length rs
      → left (run_rounds req_for run_agent unmarshal slots rs f).workers ≡ 0
  unfolding run_rounds
  rounds-left ts [] f some_slot inv covers le = omega (arith, le)
  rounds-left ts (r ∷ rs) f some_slot inv covers le =
      rounds-left ts rs (run r f) some_slot
        (run_schedule-Inv req_for run_agent unmarshal slots ts r f inv) covers.1
        (round-left ts r f (length rs) some_slot inv covers.0 le)

  rounds-Inv :
      (ts : List Str) (rs : List (List ℕ)) (f : Fleet R)
      → Good ts f
      → Good ts (run_rounds req_for run_agent unmarshal slots rs f)
  unfolding run_rounds
  rounds-Inv ts [] f inv = inv
  rounds-Inv ts (r ∷ rs) f inv =
      rounds-Inv ts rs (run r f) (run_schedule-Inv req_for run_agent unmarshal slots ts r f inv)

  start_all-left : (ts : List Str) → left {R = R} (start_all ts) ≡ 3 * length ts
  start_all-left [] = omega arith
  start_all-left (t ∷ ts) = omega (arith, start_all-left ts)

  -- The results of workers that are gone are those of their targets.
  gone-results :
      (ts : List Str) (ws : List (Worker R))
      → StandsFor req_for run_agent unmarshal ts ws
      → left ws ≡ 0
      → results ws ≡ map (λ t. some (host_result req_for run_agent unmarshal t)) ts
  gone-results [] [] q e = refl
  gone-results [] (w ∷ ws) q e = elim q [ ]
  gone-results (t ∷ ts) [] q e = elim q [ ]
  gone-results (t ∷ ts) (waiting u ∷ ws) q e = absurd (omega (arith, e))
  gone-results (t ∷ ts) (holding u ∷ ws) q e = absurd (omega (arith, e))
  gone-results (t ∷ ts) (stored r ∷ ws) q e = absurd (omega (arith, e))
  gone-results (t ∷ ts) (gone r ∷ ws) q e =
      ap₂ (λ a b. a ∷ b) (ap (λ z. some z) q.0) (gone-results ts ws q.1 e)

width_pos : (requested : ℤ) → 1 ≤ width requested
unfolding width
width_pos (pos zero) = omega arith
width_pos (pos (suc n)) = omega arith
width_pos (negsuc n) = omega arith

-- Under every schedule that is fair, in the sense that it is made of rounds in each of which every worker
-- has a turn, three rounds for each target are enough: then every target has the result of its own work,
-- in the order of the targets, whatever the requested number of slots.
pub run_rounds-results :
    {Request Raw Response Error : Type 0} (req_for : Str → Request ⊎ Error)
    (run_agent : Str → Request → Raw ⊎ Error) (unmarshal : Raw → Response ⊎ Error) (requested : ℤ)
    (ts : List Str) (rounds : List (List ℕ))
    → All (CoversAll (length ts)) rounds
    → 3 * length ts ≤ length rounds
    → results
        (run_rounds req_for run_agent unmarshal (width requested) rounds (all_waiting ts)).workers
      ≡ map (λ t. some (host_result req_for run_agent unmarshal t)) ts
run_rounds-results req_for run_agent unmarshal requested ts rounds covers enough =
    gone-results req_for run_agent unmarshal (width requested) ts _
      (rounds-Inv req_for run_agent unmarshal (width requested) ts rounds (all_waiting ts)
        started).own
      (rounds-left req_for run_agent unmarshal (width requested) ts rounds (all_waiting ts)
        (width_pos requested) started covers
        (omega (arith, enough, start_all-left req_for run_agent unmarshal (width requested) ts)))
  where
    started : Inv req_for run_agent unmarshal (width requested) ts (all_waiting ts)
    started = all_waiting-Inv req_for run_agent unmarshal (width requested) ts
