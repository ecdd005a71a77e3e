-- ===== src/Proto.antt =====
-- internal/proto/proto.go: the steps of a request and the results of a response. Proto/Resolve is
-- the expansion of a plan's references for one host.
pub mod Label
pub mod Resolve
use shellf.Prelude.{
  ℕ, Bool, true, false, List, [], ◌∷◌, Option, none, some, Str, Map, if◌then◌else◌,
}
use shellf.Engine.{ShellResult, FieldDiff, Env}

-- `ResultRef`
pub record ResultRef : Type 0 where
  pub name : Str
  pub category : Str
  pub tag : Str
  pub changed : Bool

-- The fields of `Step` that hold no steps. `with_` is the field `With`.
pub record Fields : Type 0 where
  pub instruction : Str
  pub args : Map Str
  pub refs : Map Str
  pub templates : Map Str
  pub bind : Str
  pub caught : Bool
  pub become : Str
  pub interp : Str
  pub env : Env
  pub with_ : Map Str
  pub control : List Str
  pub line : ℕ
  pub col : ℕ

mutual
  -- `Step`: its fields, `Block`, `Parallel` and `If`.
  pub data Step : Type 0 where
    step : Fields → Steps → Steps → Branch → Step

  -- `[]Step`
  pub data Steps : Type 0 where
    stop : Steps
    also : Step → Steps → Steps

  -- `*IfBlock`: `Cond`, `Match`, `CondRef`, `Negate`, `Then`, `Else`.
  pub data Branch : Type 0 where
    no_if : Branch
    if_block : Cond → Option ResultRef → Option ResultRef → Bool → Steps → Steps → Branch

  -- `*Step`
  pub data Cond : Type 0 where
    no_cond : Cond
    cond : Step → Cond

abbrev pub fields : Step → Fields
fields (step f block parallel branch) = f

abbrev pub is_stop : Steps → Bool
is_stop stop = true
is_stop (also s ss) = false

-- The fields of `StepResult` but `Sub`.
pub record Line : Type 0 where
  pub label : Str
  pub category : Str
  pub tag : Str
  pub changed : Bool
  pub caught : Bool
  pub shell : Option ShellResult
  pub diffs : List FieldDiff
  pub preview : Str
  pub ran : List ShellResult

mutual
  -- `StepResult`
  pub data StepResult : Type 0 where
    step_result : Line → Results → StepResult

  -- `[]StepResult`
  pub data Results : Type 0 where
    empty : Results
    more : StepResult → Results → Results

abbrev pub line_of : StepResult → Line
line_of (step_result l sub) = l

-- `Response`
pub record Response : Type 0 where
  pub results : Results
  pub halted : Bool
  pub error : Str

-- `Request`. `mode` is its text.
pub record Request : Type 0 where
  pub mode : Str
  pub defs : Map Str
  pub steps : Steps
  pub verbose : Bool
