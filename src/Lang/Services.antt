-- ===== src/Lang/Services.antt =====
-- What an evaluator is given: the code outside the repository, the entry points of the control
-- channel, and the settings of one evaluation.
use shellf.Prelude.{ℕ, Bool, List, Option, Str, Map, ◌⊎◌}
use shellf.Engine.{Mode, Result}
use shellf.Engine.Exec.{ShellExecutor, Machine}
use shellf.Engine.FilePut.{Codec, TempFiles}
use shellf.Lang.Ast.{DefResolver}
use shellf.Lang.Value.{EvalError}

-- The package `regexp`: whether a pattern compiles, and what a compiled one answers.
pub record Regexp : Type 0 where
  pub compiles : Str → Bool
  pub matches : Str → Str → Bool
  pub replace_all_literal : Str → Str → Str → Str

-- `ControlFetcher`, `TreeSyncer` and `TreePreviewer` answer a value or the text of an error. A
-- missing channel is `none`, as Go's nil.
pub record Services (W : Type 0) : Type 0 where
  pub machine : Machine W
  pub temp : TempFiles W
  pub codec : Codec
  pub regexp : Regexp
  pub resolve : Option DefResolver
  pub fetch : Option (Str → Map Str → W → (Str ⊎ Str) × W)
  pub sync : Option (ShellExecutor → Str → Str → Str → Bool → W → ((ℕ × ℕ) ⊎ Str) × W)
  pub preview : Option (ShellExecutor → Str → Str → Str → W → ((ℕ × List Str) ⊎ Str) × W)

-- The fields of `evaluator` that an evaluation only reads.
pub record Config : Type 0 where
  pub ex : ShellExecutor
  pub mode : Mode
  pub stack : List Str
  pub def_name : Str

-- What `EvalDefFull` returns: a result, or an error of the evaluation.
pub data DefOut (W : Type 0) : Type 0 where
  returned : Result → W → DefOut W
  errored : EvalError → W → DefOut W
  starved : DefOut W
