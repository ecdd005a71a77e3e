-- ===== src/Tests/LangTests.antt =====
-- The theorems on the def language at concrete inputs.
use shellf.Prelude.{
  ℕ, suc, ltb, if◌then◌else◌, Bool, true, false, List, [], ◌∷◌, Option, none, some, Str, str, Map,
  lookup, keys, lookup-In, ◌≡◌, ◌≢◌, refl, inl, inr, arith,
}
use shellf.Prelude
use mathlib.Core.List.Permᴰ
use shellf.Engine.{apply_mode, check_mode, status_mode, Mode, Result, ok_category, err_result}
use shellf.Engine.Exec.{Machine, no_error}
use shellf.Lang.Ast.{
  return_stmt, if_stmt, call, no_arg, Def, DefResolver, Stmts, skip, seq, effect_stmt,
  state_return_stmt, shell_expr, field, absent,
}
use shellf.Lang.Inert.{inert_apply}
use shellf.Lang.Services.{Config}
use shellf.Lang.Value.{nil}
use shellf.Lang.Monad
use shellf.Lang.Interp
use shellf.Lang.Interp.Enough.{interpolate_terminates}
use shellf.Lang.Monad.{Ev, Out, done, failed, stopped}
use shellf.Lang.Run.{eval_def, inner, run_modes, last_phase}
use shellf.Lang.Run.CheckMode.{OnlyLooks, with_apply, eval_def-other_apply}
use shellf.Lang.Run.Confirm.{Confirmed, run_modes-Confirmed}
use shellf.Lang.Cycles.{Walk, Outcome, ok, cycle, out_of_fuel, callees, check_cycles}
use shellf.Lang.Cycles.Called.{Called}
use shellf.Lang.Cycles.Edges.{Ends, Calls}
use shellf.Lang.Cycles.Decide.{
  check_cycles_terminates, check_cycles_accepts, check_cycles-Refuses, check_cycles-perm, Refuses,
}
use shellf.Lang.Fields.{diff_fields, all_converged, converged}
use shellf.Lang.Fields.Agree.{all_converged-diff_fields}
use shellf.Tests.{caller, leaf, def_of, services_on, counting, plain_executor}

abbrev looping : Map Def
looping = (str "a", caller (str "a") (str "b")) ∷ (str "b", caller (str "b") (str "a")) ∷ []

abbrev straight : Map Def
straight = (str "a", caller (str "a") (str "c")) ∷ (str "c", leaf) ∷ []

abbrev in_map : Map Def → DefResolver
in_map defs n = lookup n defs

check_cycles_terminates_example : check_cycles (in_map looping) 3 looping ≢ out_of_fuel
unfolding keys
check_cycles_terminates_example =
    check_cycles_terminates (in_map looping) (keys looping) (λ n h. lookup-In n looping h) looping 3
      (omega arith)

abbrev walk_of : Outcome → Walk
walk_of (ok w) = w
walk_of (cycle chain n) = record { on_path = λ n. false; done = λ n. false }
walk_of out_of_fuel = record { on_path = λ n. false; done = λ n. false }

straight_ok :
    check_cycles (in_map straight) 3 straight
    ≡ ok (walk_of (check_cycles (in_map straight) 3 straight))
unfolding check_cycles lookup Prelude.sort_strings keys Prelude.str_le shellf.Lang.Cycles.walk
    Prelude.str_eq shellf.Lang.Cycles.leave shellf.Lang.Cycles.walk_all shellf.Lang.Cycles.callees
    Prelude.assign
straight_ok = refl

check_cycles_accepts_example :
    Ends (in_map straight) (str "a") × (¬ Calls (in_map straight) (str "a") (str "a"))
unfolding keys
check_cycles_accepts_example =
    check_cycles_accepts (in_map straight) (keys straight) (λ n h. lookup-In n straight h) straight
      3 (walk_of (check_cycles (in_map straight) 3 straight)) (omega arith) straight_ok (str "a")
      (str "a") (inl refl) (inl refl)

looping_refused : check_cycles (in_map looping) 3 looping ≡ cycle (str "a" ∷ str "b" ∷ []) (str "a")
unfolding check_cycles lookup Prelude.sort_strings keys Prelude.str_le shellf.Lang.Cycles.walk
    Prelude.str_eq shellf.Lang.Cycles.leave shellf.Lang.Cycles.walk_all shellf.Lang.Cycles.callees
    Prelude.assign
looping_refused = refl

check_cycles-Refuses_example :
    Refuses (in_map looping) (keys looping) (str "a" ∷ str "b" ∷ []) (str "a")
    × Calls (in_map looping) (str "a") (str "a")
unfolding keys
check_cycles-Refuses_example =
    check_cycles-Refuses (in_map looping) (keys looping) (λ n h. lookup-In n looping h) looping 3
      (str "a" ∷ str "b" ∷ []) (str "a") (omega arith) looping_refused

-- `if g() { f() }`
abbrev branching : Def
branching =
    def_of (str "a")
      (record {
        name = str "apply";
        stmts =
            seq
              (if_stmt (call (str "g") no_arg false)
                (seq (effect_stmt (call (str "f") no_arg false)) skip))
              skip;
      }
        ∷ [])
      none

branching_calls : callees branching ≡ str "g" ∷ str "f" ∷ []
unfolding callees Prelude.str_eq
branching_calls = refl

all_converged-diff_fields_example :
    all_converged (diff_fields ((str "mode", str "0644") ∷ []) ((str "mode", str "0600") ∷ []))
    ≡ converged ((str "mode", str "0644") ∷ []) ((str "mode", str "0600") ∷ [])
unfolding keys
all_converged-diff_fields_example =
    all_converged-diff_fields ((str "mode", str "0644") ∷ []) ((str "mode", str "0600") ∷ [])
      ((λ m. m), tt)

abbrev acting : Str → Stmts
acting cmd = seq (effect_stmt (shell_expr cmd 1 [])) skip

-- A def that reads one field of the machine and may write it.
abbrev writer : Def
writer =
    def_of (str "writer")
      (record {
        name = str "observe";
        stmts =
            seq
              (state_return_stmt (
                record {
                  name = str "state";
                  value = field (shell_expr (str "cat f") 1 []) (str "stdout");
                }
                ∷ []))
              skip;
      }
        ∷ record { name = str "apply"; stmts = acting (str "write f") }
        ∷ [])
      (some (record { category = str "ok"; tag = str "written"; payload = absent }))

abbrev settings : Mode → Config
settings m = record { ex = plain_executor; mode = m; stack = []; def_name = str "writer" }

writer_acts :
    OnlyLooks
      (services_on counting)
      (eval_def (services_on counting) 2)
      (inner (services_on counting) writer (settings check_mode))
      (λ ss. acting (str "rm f"))
      check_mode
      writer
unfolding inert_apply Prelude.str_eq
writer_acts = (refl, refl)

eval_def-other_apply_example :
    eval_def
      (services_on counting)
      3
      (with_apply (λ ss. acting (str "rm f")) writer)
      []
      []
      []
      (settings check_mode)
      0
    ≡ eval_def (services_on counting) 3 writer [] [] [] (settings check_mode) 0
eval_def-other_apply_example =
    eval_def-other_apply (services_on counting) (λ ss. acting (str "rm f")) 2 writer [] [] []
      (settings check_mode) 0 refl writer_acts

-- The file reads `old` until two commands have run.
abbrev one_file : Machine ℕ
one_file = record {
  environ = [];
  spawn = λ argv env w. (
    record { ending = no_error; stdout = if ltb w 2 then str "old" else str "new"; stderr = [] },
    suc w,
  );
}

abbrev starts : Ev ℕ
starts = record { vars = []; last = nil; ran = []; acted = false; world = 0 }

abbrev write_run : Out ℕ Result
write_run =
    run_modes (services_on one_file) (eval_def (services_on one_file) 2) (settings apply_mode)
      writer ((str "state", str "new") ∷ []) apply_mode starts

abbrev result_of : Out ℕ Result → Result
result_of (done r e) = r
result_of (failed err e) = err_result []
result_of (stopped r e) = err_result []
result_of Monad.out_of_fuel = err_result []

abbrev state_of : Out ℕ Result → Ev ℕ
state_of (done r e) = e
state_of (failed err e) = e
state_of (stopped r e) = e
state_of Monad.out_of_fuel = starts

write_run-done : write_run ≡ done (result_of write_run) (state_of write_run)
unfolding run_modes Prelude.str_eq shellf.Lang.Eval.observe_stmts shellf.Lang.Eval.observe_fields
    shellf.Lang.Eval.eval_expr shellf.Lang.Eval.run_shell shellf.Lang.Value.find_bytes
    shellf.Lang.Eval.field_of converged Prelude.insert lookup Prelude.trim_right
    shellf.Lang.Value.stringify shellf.Engine.Exec.shell shellf.Lang.Eval.eval_stmts
    shellf.Lang.Run.changed_if_acted last_phase
write_run-done = refl

write_run-changed :
    ((result_of write_run).category ≡ ok_category) × ((result_of write_run).changed ≡ true)
unfolding run_modes Prelude.str_eq shellf.Lang.Eval.observe_stmts shellf.Lang.Eval.observe_fields
    shellf.Lang.Eval.eval_expr shellf.Lang.Eval.run_shell shellf.Lang.Value.find_bytes
    shellf.Lang.Eval.field_of converged Prelude.insert lookup Prelude.trim_right
    shellf.Lang.Value.stringify shellf.Engine.Exec.shell shellf.Lang.Eval.eval_stmts
    shellf.Lang.Run.changed_if_acted last_phase
write_run-changed = (refl, refl)

abbrev observing : Stmts
observing =
    seq
      (state_return_stmt (
        record { name = str "state"; value = field (shell_expr (str "cat f") 1 []) (str "stdout") }
        ∷ []))
      skip

writer_observes : last_phase (str "observe") writer.phases none ≡ some observing
unfolding last_phase Prelude.str_eq
writer_observes = refl

run_modes-Confirmed_example :
    (e₁ : Ev ℕ) × Confirmed
      (services_on one_file)
      (eval_def (services_on one_file) 2)
      (settings apply_mode)
      ((str "state", str "new") ∷ [])
      observing
      e₁
      (state_of write_run)
run_modes-Confirmed_example =
    run_modes-Confirmed (services_on one_file) (eval_def (services_on one_file) 2)
      (settings apply_mode) writer ((str "state", str "new") ∷ []) observing (result_of write_run)
      starts (state_of write_run) refl writer_observes write_run-changed.0 write_run-changed.1
      write_run-done

check_cycles-perm_example :
    check_cycles (in_map looping) 3 looping
    ≡ check_cycles
        (in_map looping)
        3
        ((str "b", caller (str "b") (str "a")) ∷ (str "a", caller (str "a") (str "b")) ∷ [])
unfolding keys
check_cycles-perm_example =
    check_cycles-perm (in_map looping) 3 looping
      ((str "b", caller (str "b") (str "a")) ∷ (str "a", caller (str "a") (str "b")) ∷ [])
      (Permᴰ.swap refl refl)

abbrev find_name : Str → Interp.Found
find_name n = Interp.missing

interpolate_terminates_example :
    Interp.interpolate 9 (str "a ${b} c") find_name ≢ Interp.out_of_fuel
interpolate_terminates_example = interpolate_terminates 9 (str "a ${b} c") find_name (omega arith)

-- A def whose return carries a call of itself in its payload.
abbrev recalls : Def
recalls =
    def_of (str "a")
      (record {
        name = str "apply";
        stmts =
            seq
              (return_stmt (record {
                category = str "ok";
                tag = str "t";
                payload = call (str "a") no_arg false;
              }))
              skip;
      }
        ∷ [])
      none

abbrev is_accepted : Outcome → Bool
is_accepted (ok w) = true
is_accepted (cycle chain n) = false
is_accepted out_of_fuel = false

-- The check at load passes it.
recalls_passes :
    is_accepted (check_cycles (in_map ((str "a", recalls) ∷ [])) 3 ((str "a", recalls) ∷ [])) ≡ true
unfolding check_cycles Prelude.sort_strings keys shellf.Lang.Cycles.walk lookup Prelude.str_eq
    shellf.Lang.Cycles.leave shellf.Lang.Cycles.walk_all shellf.Lang.Cycles.callees
recalls_passes = refl
