-- ===== src/Engine.antt =====
-- internal/engine: results, the modes of a run, and the interface of a Go instruction
-- (result.go, executor.go, the types of instruction.go).
pub mod Exec
pub mod Run
pub mod Shell
pub mod FilePut
use shellf.Prelude.{
  ℕ, Bool, true, false, List, [], Option, none, some, Str, str, Map, ℤ, pos, int_eq, ◌++◌, is_empty,
  if◌then◌else◌,
}

-- `Category`
pub data Category : Type 0 where
  ok_category err_category would_category : Category

-- `Category.String`
unfoldable pub category_string : Category → Str
category_string ok_category = str "ok"
category_string err_category = str "err"
category_string would_category = str "would"

-- `Mode`
pub data Mode : Type 0 where
  apply_mode check_mode status_mode : Mode

-- `Env`
abbrev pub Env : Type 0
Env = Map Str

pub record ShellResult : Type 0 where
  pub exit : ℤ
  pub stdout : Str
  pub stderr : Str
  pub cmd : Str
  pub def : Str
  pub line : ℕ
  pub vars : Env

-- `ShellResult.OK`
unfoldable pub is_ok : ShellResult → Bool
is_ok s = int_eq s.exit (pos 0)

-- A shell result with text on stderr and nothing else.
abbrev pub only_stderr : ℤ → Str → ShellResult
only_stderr exit message = record {
  exit = exit;
  stdout = [];
  stderr = message;
  cmd = [];
  def = [];
  line = 0;
  vars = [];
}

pub record FieldDiff : Type 0 where
  pub name : Str
  pub current : Str
  pub desired : Str
  pub converged : Bool

pub record Result : Type 0 where
  pub category : Category
  pub tag : Str
  pub changed : Bool
  pub shell : Option ShellResult
  pub fields : List FieldDiff
  pub preview : Str
  pub ran : List ShellResult

abbrev verdict : Category → Str → Result
verdict c tag = record {
  category = c;
  tag = tag;
  changed = false;
  shell = none;
  fields = [];
  preview = [];
  ran = [];
}

-- `Ok`, `Err`, `Would`, `ErrShell`
abbrev pub ok_result : Str → Result
ok_result = verdict ok_category

abbrev pub err_result : Str → Result
err_result = verdict err_category

abbrev pub would_result : Str → Result
would_result = verdict would_category

abbrev pub err_shell : Str → ShellResult → Result
err_shell tag s = record (verdict err_category tag) { shell = some s }

-- `Result.String`
unfoldable pub result_string : Result → Str
unfolding category_string
result_string r =
    if is_empty r.tag
    then category_string r.category
    else category_string r.category ++ (str "." ++ r.tag)
