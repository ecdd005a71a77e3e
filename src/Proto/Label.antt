-- ===== src/Proto/Label.antt =====
-- internal/proto/proto.go: the labels of steps.
use shellf.Prelude.{
  List, [], ◌∷◌, ◌++◌, Option, none, some, Str, str, str_eq, join, length, ltb, Map, lookup, keys,
  sort_strings, if◌then◌else◌, is_empty, trim_space, take,
}
use shellf.Lang.Interp.{cut_byte}
use shellf.Proto.{
  ResultRef, Fields, Step, step, Branch, no_if, if_block, Cond, no_cond, cond, is_stop,
}

-- The three bytes of the ellipsis.
abbrev ellipsis : Str
ellipsis = 0xe2 ∷ 0x80 ∷ 0xa6 ∷ []

abbrev shorten : Str → Str
shorten cmd = if ltb 50 (length cmd) then take 50 cmd ++ ellipsis else cmd

-- `firstLine`
unfoldable pub first_line : Str → Str
first_line cmd = elim (cut_byte 10 (trim_space cmd)) [
  | some (before, behind) ↦ before ++ (32 ∷ ellipsis)
  | none ↦ shorten (trim_space cmd)
]

-- `Pattern`
unfoldable pub pattern_of : ResultRef → Str
pattern_of r = if is_empty r.tag then r.category else r.category ++ (str "." ++ r.tag)

-- `ResultRef.Label`
unfoldable pub ref_label : ResultRef → Str
unfolding pattern_of
ref_label r = if r.changed then r.name ++ str ".changed" else r.name ++ (str " == " ++ pattern_of r)

abbrev value_of : Option Str → Str
value_of none = []
value_of (some v) = v

abbrev arg_labels : Map Str → List Str → List Str
arg_labels args [] = []
arg_labels args (k ∷ ks) =
    (k ++ (str "=" ++ first_line (value_of (lookup k args)))) ∷ arg_labels args ks

-- `Step.Label` for a step that calls an instruction.
unfoldable pub call_label : Fields → Str
unfolding first_line
call_label f =
    if str_eq f.instruction (str "shell")
    then str "shell(" ++ (first_line (value_of (lookup (str "cmd") f.args)) ++ str ")")
    else f.instruction
      ++ (str "(" ++ (join (str ", ") (arg_labels f.args (sort_strings (keys f.args))) ++ str ")"))

abbrev with_match : Option ResultRef → Str → Str
with_match none l = l
with_match (some m) l = l ++ (str " == " ++ pattern_of m)

-- `Step.Label` and `IfBlock.CondLabel`. A conditional with neither a condition nor a reference is
-- not built by the parser.
unfoldable mutual
  pub label : Step → Str
  label (step f block parallel branch) =
      branch_label branch (if is_stop parallel then call_label f else str "parallel")

  pub branch_label : Branch → Str → Str
  branch_label no_if otherwise = otherwise
  branch_label (if_block c match_ ref negate then_ else_) otherwise =
      str "if(" ++ (cond_label c match_ ref ++ str ")")

  pub cond_label : Cond → Option ResultRef → Option ResultRef → Str
  cond_label no_cond match_ none = []
  cond_label no_cond match_ (some r) = ref_label r
  cond_label (cond s) match_ none = with_match match_ (label s)
  cond_label (cond s) match_ (some r) = ref_label r
