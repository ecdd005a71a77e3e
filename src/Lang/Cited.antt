-- ===== src/Lang/Cited.antt =====
-- internal/lang/eval.go, `citedVars` and `citesVar`: the variables that a command can read.
use shellf.Prelude.{
  ℕ, zero, suc, Bool, true, false, not, ◌&&◌, ◌||◌, [], ◌∷◌, ◌++◌, Str, str, ◌==◌, leb,
  if◌then◌else◌, has_prefix, drop, length,
}
use shellf.Engine.{Env}

-- `isShellNameByte`
unfoldable pub is_shell_name_byte : ℕ → Bool
is_shell_name_byte c =
    c == b'_'
    || (leb b'a' c && leb c b'z')
    || (leb b'A' c && leb c b'Z')
    || (leb b'0' c && leb c b'9')

-- `strings.Contains`
unfoldable pub contains : Str → Str → Bool
contains [] p = has_prefix [] p
contains (c ∷ s) p = let rest = contains s p in if has_prefix (c ∷ s) p then true else rest

-- `end >= len(cmd) || !isShellNameByte(cmd[end])`
abbrev ends_here : Str → Bool
ends_here [] = true
ends_here (c ∷ s) = not (is_shell_name_byte c)

-- The loop of `citesVar`: the first argument counts the bytes of a match that are passed over.
unfoldable pub cites_bare : ℕ → Str → Str → Bool
unfolding is_shell_name_byte
cites_bare skip name [] = false
cites_bare (suc skip) name (c ∷ s) = cites_bare skip name s
cites_bare zero name (c ∷ s) = elim (c == b'$' && has_prefix s name) [
  | false ↦ cites_bare zero name s
  | true ↦ if ends_here (drop (length name) s) then true else cites_bare (length name) name s
]

-- `citesVar`
unfoldable pub cites_var : Str → Str → Bool
unfolding contains cites_bare
cites_var cmd name = contains cmd (str "${" ++ (name ++ str "}")) || cites_bare zero name cmd

-- `citedVars`
unfoldable pub cited_vars : Str → Env → Env
unfolding cites_var
cited_vars cmd [] = []
cited_vars cmd ((name, v) ∷ env) =
    let rest = cited_vars cmd env in if cites_var cmd name then (name, v) ∷ rest else rest
