-- ===== src/Fleet/Slots.antt =====
-- internal/fleet/fleet.go: the slots that are taken are those that workers hold, and a worker stores the
-- result of its own target.
use shellf.Prelude.{
  ℕ, zero, suc, ◌+◌, ◌≤◌, ltb, true, ℤ, List, [], ◌∷◌, Option, none, some, Str, ◌≡◌, refl, sym, ap,
  ◌⊎◌, inl, inr, arith, Bool-cases,
}
use shellf.Fleet.{
  width, HostResult, Worker, waiting, holding, stored, gone, Fleet, start_all, all_waiting,
  host_result, move, move_at, after_move, put_first, keep_first, turn, run_schedule,
}

-- The slots that the workers hold.
abbrev pub holders : {R : Type 0} → List (Worker R) → ℕ
holders [] = 0
holders (waiting t ∷ ws) = holders ws
holders (holding t ∷ ws) = suc (holders ws)
holders (stored r ∷ ws) = suc (holders ws)
holders (gone r ∷ ws) = holders ws

-- The moves that the workers have left.
abbrev pub left : {R : Type 0} → List (Worker R) → ℕ
left [] = 0
left (waiting t ∷ ws) = 3 + left ws
left (holding t ∷ ws) = 2 + left ws
left (stored r ∷ ws) = 1 + left ws
left (gone r ∷ ws) = left ws

module _ {Request Raw Response Error : Type 0} (req_for : Str → Request ⊎ Error)
    (run_agent : Str → Request → Raw ⊎ Error) (unmarshal : Raw → Response ⊎ Error) where
  abbrev R : Type 0
  R = HostResult Response Error

  abbrev work : Str → R
  work = host_result req_for run_agent unmarshal

  -- The workers stand for the targets, in their order, and store the results of their own.
  abbrev pub StandsFor : List Str → List (Worker R) → Type 0
  StandsFor [] [] = Unit {0}
  StandsFor [] (w ∷ ws) = ⊥
  StandsFor (t ∷ ts) [] = ⊥
  StandsFor (t ∷ ts) (waiting u ∷ ws) = (u ≡ t) × StandsFor ts ws
  StandsFor (t ∷ ts) (holding u ∷ ws) = (u ≡ t) × StandsFor ts ws
  StandsFor (t ∷ ts) (stored r ∷ ws) = (r ≡ work t) × StandsFor ts ws
  StandsFor (t ∷ ts) (gone r ∷ ws) = (r ≡ work t) × StandsFor ts ws

  pub record Inv (slots : ℕ) (ts : List Str) (f : Fleet R) : Type 0 where
    pub count : f.taken ≡ holders f.workers
    pub bound : f.taken ≤ slots
    pub own : StandsFor ts f.workers

  -- What a move does to the workers.
  pub record Moved (slots taken n : ℕ) (ts : List Str) (ws ws' : List (Worker R)) : Type 0 where
    pub count : taken + holders ws' ≡ n + holders ws
    pub bound : taken ≤ slots → n ≤ slots
    pub own : StandsFor ts ws → StandsFor ts ws'
    pub less : left ws ≡ suc (left ws')

  abbrev pub MovedTo : ℕ → ℕ → List Str → List (Worker R) → Option (ℕ × List (Worker R)) → Type 0
  MovedTo slots taken ts ws none = Unit {0}
  MovedTo slots taken ts ws (some (n, ws')) = Moved slots taken n ts ws ws'

  module _ (slots : ℕ) where
    put_first-MovedTo :
        (taken : ℕ) (ts : List Str) (w : Worker R) (ws : List (Worker R))
        → MovedTo slots taken ts (w ∷ ws) (
            put_first req_for run_agent unmarshal slots ws
              (move req_for run_agent unmarshal slots taken w))
    unfolding move
    put_first-MovedTo taken ts (holding t) ws = record {
      count = omega arith;
      bound = λ b. b;
      own = own ts;
      less = omega arith;
    }
      where
        own : (ts : List Str) → StandsFor ts (holding t ∷ ws) → StandsFor ts (stored (work t) ∷ ws)
        own [] e = elim e [ ]
        own (u ∷ us) (e, more) = (ap work e, more)
    put_first-MovedTo zero ts (stored r) ws = tt
    put_first-MovedTo (suc taken) ts (stored r) ws = record {
      count = omega arith;
      bound = λ b. omega arith;
      own = own ts;
      less = omega arith;
    }
      where
        own : (ts : List Str) → StandsFor ts (stored r ∷ ws) → StandsFor ts (gone r ∷ ws)
        own [] e = elim e [ ]
        own (u ∷ us) more = more
    put_first-MovedTo taken ts (gone r) ws = tt
    put_first-MovedTo taken ts (waiting t) ws = elim (Bool-cases (ltb taken slots)) [
      | inr full ↦ rw full tt
      | inl free ↦
          rw free (record {
            count = omega arith;
            bound = λ b. room free;
            own = own ts;
            less = omega arith;
          })
    ]
      where
        room : ltb taken slots ≡ true → suc taken ≤ slots
        room free = ground arith

        own : (ts : List Str) → StandsFor ts (waiting t ∷ ws) → StandsFor ts (holding t ∷ ws)
        own [] e = elim e [ ]
        own (u ∷ us) more = more

    keep_first-MovedTo :
        (taken : ℕ) (ts : List Str) (w : Worker R) (ws : List (Worker R))
        (o : Option (ℕ × List (Worker R)))
        → ((us : List Str) → MovedTo slots taken us ws o)
        → MovedTo slots taken ts (w ∷ ws) (keep_first req_for run_agent unmarshal slots w o)
    keep_first-MovedTo taken ts w ws none m = tt
    keep_first-MovedTo taken ts w ws (some (n, ws')) m = record {
      count = count w;
      bound = (m ts).bound;
      own = own ts w;
      less = less w;
    }
      where
        count : (w : Worker R) → taken + holders (w ∷ ws') ≡ n + holders (w ∷ ws)
        count (waiting t) = (m ts).count
        count (holding t) = omega (arith, (m ts).count)
        count (stored r) = omega (arith, (m ts).count)
        count (gone r) = (m ts).count

        less : (w : Worker R) → left (w ∷ ws) ≡ suc (left (w ∷ ws'))
        less (waiting t) = omega (arith, (m ts).less)
        less (holding t) = omega (arith, (m ts).less)
        less (stored r) = omega (arith, (m ts).less)
        less (gone r) = (m ts).less

        own : (ts : List Str) (w : Worker R) → StandsFor ts (w ∷ ws) → StandsFor ts (w ∷ ws')
        own [] w e = elim e [ ]
        own (u ∷ us) (waiting t) (e, more) = (e, (m us).own more)
        own (u ∷ us) (holding t) (e, more) = (e, (m us).own more)
        own (u ∷ us) (stored r) (e, more) = (e, (m us).own more)
        own (u ∷ us) (gone r) (e, more) = (e, (m us).own more)

    pub move_at-MovedTo :
        (taken i : ℕ) (ws : List (Worker R)) (ts : List Str)
        → MovedTo slots taken ts ws (move_at req_for run_agent unmarshal slots taken i ws)
    unfolding move_at
    move_at-MovedTo taken i [] ts = tt
    move_at-MovedTo taken zero (w ∷ ws) ts = put_first-MovedTo taken ts w ws
    move_at-MovedTo taken (suc i) (w ∷ ws) ts =
        keep_first-MovedTo taken ts w ws _ (λ us. move_at-MovedTo taken i ws us)

    after_move-Inv :
        (ts : List Str) (f : Fleet R) (o : Option (ℕ × List (Worker R)))
        → Inv slots ts f
        → MovedTo slots f.taken ts f.workers o
        → Inv slots ts (after_move req_for run_agent unmarshal slots f o)
    after_move-Inv ts f none inv m = inv
    after_move-Inv ts f (some (n, ws)) inv m = record {
      count = omega (arith, inv.count, m.count);
      bound = m.bound inv.bound;
      own = m.own inv.own;
    }

    pub turn-Inv :
        (ts : List Str) (i : ℕ) (f : Fleet R)
        → Inv slots ts f
        → Inv slots ts (turn req_for run_agent unmarshal slots i f)
    turn-Inv ts i f inv = after_move-Inv ts f _ inv (move_at-MovedTo f.taken i f.workers ts)

    pub run_schedule-Inv :
        (ts : List Str) (is : List ℕ) (f : Fleet R)
        → Inv slots ts f
        → Inv slots ts (run_schedule req_for run_agent unmarshal slots is f)
    unfolding run_schedule
    run_schedule-Inv ts [] f inv = inv
    run_schedule-Inv ts (i ∷ is) f inv = run_schedule-Inv ts is _ (turn-Inv ts i f inv)

    start_all-holders : (ts : List Str) → holders {R = R} (start_all ts) ≡ 0
    start_all-holders [] = refl
    start_all-holders (t ∷ ts) = start_all-holders ts

    start_all-StandsFor : (ts : List Str) → StandsFor ts (start_all ts)
    start_all-StandsFor [] = tt
    start_all-StandsFor (t ∷ ts) = (refl, start_all-StandsFor ts)

    pub all_waiting-Inv : (ts : List Str) → Inv slots ts (all_waiting ts)
    all_waiting-Inv ts = record {
      count = sym (start_all-holders ts);
      bound = omega arith;
      own = start_all-StandsFor ts;
    }

  -- Whatever the schedule and the number of targets, the workers that hold a slot at any time are at most
  -- the requested number, or 16 where that is zero or below.
  pub run_schedule-width :
      (requested : ℤ) (ts : List Str) (is : List ℕ)
      → holders
          (run_schedule req_for run_agent unmarshal (width requested) is (all_waiting ts)).workers
        ≤ width requested
  run_schedule-width requested ts is = omega (arith, inv.count, inv.bound)
    where
      inv :
          Inv
            (width requested)
            ts
            (run_schedule req_for run_agent unmarshal (width requested) is (all_waiting ts))
      inv =
          run_schedule-Inv (width requested) ts is (all_waiting ts)
            (all_waiting-Inv (width requested) ts)
