-- ===== src/Tests/SlotTests.antt =====
-- The theorems on the semaphore of the fleet at concrete schedules.
use shellf.Prelude.{
  ℕ, zero, suc, ◌≤◌, pos, negsuc, List, [], ◌∷◌, map, some, Str, str, str_eq, if◌then◌else◌, length,
  ◌≡◌, ◌⊎◌, inl, inr, refl, arith,
}
use shellf.Fleet.{width, all_waiting, results, host_result, run_schedule, run_rounds}
use shellf.Fleet.Slots.{holders, run_schedule-width}
use shellf.Fleet.Rounds.{CoversAll, run_rounds-results}

abbrev two_targets : List Str
two_targets = str "web" ∷ str "db" ∷ []

-- The host `db` has no request.
abbrev request_of : Str → Str ⊎ ℕ
request_of t = if str_eq t (str "db") then inr 7 else inl (str "req")

abbrev agent_echo : Str → Str → Str ⊎ ℕ
agent_echo t req = inl t

abbrev decode : Str → ℕ ⊎ ℕ
decode raw = inl (length raw)

abbrev both : List ℕ
both = 1 ∷ 0 ∷ []

abbrev six_rounds : List (List ℕ)
six_rounds = both ∷ both ∷ both ∷ both ∷ both ∷ both ∷ []

both-CoversAll : CoversAll 2 both
both-CoversAll zero h = inr (inl refl)
both-CoversAll (suc zero) h = inl refl
both-CoversAll (suc (suc i)) h = absurd (omega (arith, h))

run_rounds-results_example :
    results
      (run_rounds request_of agent_echo decode
        (width (pos 1))
        six_rounds
        (all_waiting two_targets)).workers
    ≡ map (λ t. some (host_result request_of agent_echo decode t)) two_targets
run_rounds-results_example =
    run_rounds-results request_of agent_echo decode (pos 1) two_targets six_rounds
      (
        both-CoversAll,
        (
          both-CoversAll,
          (both-CoversAll, (both-CoversAll, (both-CoversAll, (both-CoversAll, tt)))),
        ),
      )
      (omega arith)

run_schedule-width_example :
    holders
      (run_schedule request_of agent_echo decode
        (width (negsuc 4))
        (0 ∷ 1 ∷ 1 ∷ [])
        (all_waiting two_targets)).workers
    ≤ width (negsuc 4)
run_schedule-width_example =
    run_schedule-width request_of agent_echo decode (negsuc 4) two_targets (0 ∷ 1 ∷ 1 ∷ [])
