-- ===== src/Agent/State.antt =====
-- internal/agent/agent.go: the scope that steps share, and the functions on results and conditions.
use shellf.Prelude.{
  ℕ, Bool, true, false, not, ◌||◌, [], Option, none, some, Str, str, str_eq, if◌then◌else◌,
  is_empty, Map, lookup,
}
use shellf.Engine.{Mode, apply_mode, check_mode, status_mode, ok_category, category_string, Result}
use shellf.Lang.Ast.{Def}
use shellf.Lang.Value.{EvalError}
use shellf.Lang.Services.{Services}
use shellf.Proto.{
  ResultRef, Step, step, no_if, if_block, is_stop, Line, StepResult, step_result, Results, empty,
  more, line_of,
}

-- The captured results of a block.
abbrev pub Scope : Type 0
Scope = Map Result

pub data Out (W A : Type 0) : Type 0 where
  done : A → Scope → W → Out W A
  out_of_fuel : Out W A

abbrev pub M : Type 0 → Type 0 → Type 0
M W A = Scope → W → Out W A

module _ {W : Type 0} where
  infixl 5 ◌>>=◌
  abbrev pub ◌>>=◌ : {A B : Type 0} → M W A → (A → M W B) → M W B
  ◌>>=◌ m f sc w = elim (m sc w) [ done a sc' w' ↦ f a sc' w' | out_of_fuel ↦ out_of_fuel ]

  abbrev pub pure : {A : Type 0} → A → M W A
  pure a sc w = done a sc w

-- A result line with a label, a category and a tag.
abbrev pub plain : Str → Str → Str → Line
plain l category tag = record {
  label = l;
  category = category;
  tag = tag;
  changed = false;
  caught = false;
  shell = none;
  diffs = [];
  preview = [];
  ran = [];
}

abbrev pub is_err : Str → Bool
is_err category = str_eq category (str "err")

-- `refTruth`
unfoldable pub ref_truth : Result → ResultRef → Bool
unfolding category_string
ref_truth r ref =
    if ref.changed
    then r.changed
    else if not (str_eq (category_string r.category) ref.category)
    then false
    else is_empty ref.tag || str_eq r.tag ref.tag

abbrev pub flip_if : Bool → Bool → Bool
flip_if true b = not b
flip_if false b = b

-- `scope[name]`: Go's zero result, an `ok`, where the name is missing.
abbrev zero_result : Result
zero_result = record {
  category = ok_category;
  tag = [];
  changed = false;
  shell = none;
  fields = [];
  preview = [];
  ran = [];
}

abbrev or_zero : Option Result → Result
or_zero none = zero_result
or_zero (some r) = r

-- `handlesCaught`
unfoldable pub handles_caught : Step → Str → Scope → Bool
unfolding ref_truth
handles_caught (step f block parallel (if_block c match_ (some ref) negate then_ else_)) name sc =
    if not (str_eq ref.name name)
    then false
    else if not (is_stop else_)
    then true
    else flip_if negate (ref_truth (or_zero (lookup name sc)) ref)
handles_caught (step f block parallel (if_block c match_ none negate then_ else_)) name sc = false
handles_caught (step f block parallel no_if) name sc = false

-- `withCond`
abbrev pub with_cond : Option StepResult → Results → Results
with_cond none subs = subs
with_cond (some c) subs = more c subs

abbrev pub set_caught : Bool → StepResult → StepResult
set_caught c (step_result l sub) = step_result (record l { caught = c }) sub

-- `any branch errs`
abbrev pub any_err : Results → Bool
any_err empty = false
any_err (more r rs) = if is_err (line_of r).category then true else any_err rs

-- The category of a composed step.
abbrev pub ok_or_err : Bool → Str
ok_or_err true = str "err"
ok_or_err false = str "ok"

-- `resolver`: the package's defs, then the standard library's.
unfoldable pub resolver : Map Def → (Str → Option Def) → Str → Option Def
resolver defs std name = elim (lookup name defs) [ some d ↦ some d | none ↦ std name ]

-- `mode`
unfoldable pub mode_of : Str → Mode
mode_of s =
    if str_eq s (str "check")
    then check_mode
    else if str_eq s (str "status")
    then status_mode
    else apply_mode

-- The target: the services of the evaluator, the standard library's defs, the text of an
-- evaluation error, and the fuel for the calls of one instruction.
pub record Target (W : Type 0) : Type 0 where
  pub services : Services W
  pub std : Str → Option Def
  pub describe : EvalError → Str
  pub fuel : ℕ
