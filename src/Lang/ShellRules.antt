-- ===== src/Lang/ShellRules.antt =====
-- internal/lang/shellrules.go: the commands of a shell block that a def replaces. A rule is the name
-- of its command here; the text of its hint is left out.
use shellf.Prelude.{
  ℕ, zero, suc, Bool, ◌||◌, List, [], ◌∷◌, Option, none, some, Str, str, str_eq, ◌==◌,
  if◌then◌else◌, any, has_prefix, length, is_space, is_empty,
}

-- `strings.ReplaceAll(s, sep, "\n")`, behind `skipped` bytes of an occurrence.
unfoldable pub replace_separator : Str → ℕ → Str → Str
replace_separator sep skipped [] = []
replace_separator sep (suc n) (c ∷ s) = replace_separator sep n s
replace_separator [] zero (c ∷ s) = c ∷ s
replace_separator (x ∷ sep) zero (c ∷ s) =
    let here = replace_separator (x ∷ sep) (length sep) s in
    let later = replace_separator (x ∷ sep) zero s in
    if has_prefix (c ∷ s) (x ∷ sep) then b'\n' ∷ here else c ∷ later

abbrev pub separators : List Str
separators =
    str "\n"
    ∷ str ";"
    ∷ str "&&"
    ∷ str "||"
    ∷ str "|"
    ∷ str "$("
    ∷ str "`"
    ∷ str "("
    ∷ str "{"
    ∷ str "}"
    ∷ str ")"
    ∷ []

unfoldable pub replace_separators : List Str → Str → Str
replace_separators [] s = s
replace_separators (sep ∷ seps) s = replace_separators seps (replace_separator sep 0 s)

-- Puts a byte at the start of the first part.
abbrev pub to_first : ℕ → List Str → List Str
to_first c [] = (c ∷ []) ∷ []
to_first c (w ∷ ws) = (c ∷ w) ∷ ws

-- `strings.Split(s, "\n")`
unfoldable pub split_lines : Str → List Str
split_lines [] = [] ∷ []
split_lines (c ∷ s) = let rest = split_lines s in if c == b'\n' then [] ∷ rest else to_first c rest

-- `splitSegments`
unfoldable pub split_segments : Str → List Str
split_segments body = split_lines (replace_separators separators body)

-- The runs between white space, the empty ones among them.
unfoldable pub split_spaces : Str → List Str
split_spaces [] = [] ∷ []
split_spaces (c ∷ s) =
    let rest = split_spaces s in if is_space c then [] ∷ rest else to_first c rest

unfoldable pub drop_empty : List Str → List Str
drop_empty [] = []
drop_empty (w ∷ ws) = let rest = drop_empty ws in if is_empty w then rest else w ∷ rest

-- `strings.Fields`, on ASCII text.
unfoldable pub words : Str → List Str
words s = drop_empty (split_spaces s)

-- The map `skippable`.
unfoldable pub is_skippable : Str → Bool
is_skippable w = any (str_eq w) (
    str "sudo"
    ∷ str "command"
    ∷ str "then"
    ∷ str "else"
    ∷ str "elif"
    ∷ str "do"
    ∷ str "!"
    ∷ str "time"
    ∷ str "exec"
    ∷ [])

unfoldable pub is_quoted : Str → Bool
is_quoted w = any (λ c. c == b'$' || c == b'"' || c == b'\'') w

-- The part behind the last `/`, or all of it.
unfoldable pub base_name : Str → Str
base_name [] = []
base_name (c ∷ s) = let rest = base_name s in if any (λ d. d == b'/') (c ∷ s) then rest else c ∷ s

-- The loop of `leadingCommand`.
unfoldable pub command_of : List Str → Str
command_of [] = []
command_of (w ∷ ws) =
    let rest = command_of ws in
    if has_prefix w (str "#")
    then []
    else if is_skippable w
    then rest
    else if is_quoted w
    then []
    else if any (λ c. c == b'=') w
    then rest
    else base_name w

-- `leadingCommand`
unfoldable pub leading_command : Str → Str
leading_command seg = command_of (words seg)

unfoldable pub commands_of : List Str → List Str
commands_of [] = []
commands_of (seg ∷ segs) =
    let rest = commands_of segs in
    let w = leading_command seg in if is_empty w then rest else w ∷ rest

-- `commandWords`
unfoldable pub command_words : Str → List Str
command_words body = commands_of (split_segments body)

-- The commands of `shellRules`.
unfoldable pub is_ruled : Str → Bool
is_ruled w = any (str_eq w) (str "mkdir" ∷ str "cp" ∷ [])

unfoldable pub first_ruled : List Str → Option Str
first_ruled [] = none
first_ruled (w ∷ ws) = let rest = first_ruled ws in if is_ruled w then some w else rest

-- `checkShellBody`: the first command that a rule names.
unfoldable pub check_shell_body : Str → Option Str
check_shell_body body = first_ruled (command_words body)
