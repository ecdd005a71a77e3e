-- ===== src/Lang/Lexer/Dedent.antt =====
-- internal/lang/lexer.go, `dedentTriple`: the margin of a triple-quoted string.
use shellf.Prelude.{
  ℕ, Bool, List, [], ◌∷◌, Option, none, some, Str, ◌==◌, ◌||◌, if◌then◌else◌, has_prefix, drop,
  length, join, trim_left, is_empty,
}
use shellf.Lang.Interp.{split}

-- `strings.LastIndexByte(s, '\n')`: what stands before the last line break, and behind it.
unfoldable pub cut_last_line : Str → Option (Str × Str)
cut_last_line [] = none
cut_last_line (c ∷ s) = elim (cut_last_line s) [
  | some (before, behind) ↦ some (c ∷ before, behind)
  | none ↦ if c == b'\n' then some ([], s) else none
]

-- `strings.TrimPrefix`
unfoldable pub trim_prefix : Str → Str → Str
trim_prefix s p = if has_prefix s p then drop (length p) s else s

abbrev pub is_inline : ℕ → Bool
is_inline c = c == 32 || c == 9

unfoldable pub trim_margins : Str → List Str → List Str
unfolding trim_prefix
trim_margins margin [] = []
trim_margins margin (l ∷ ls) = trim_prefix l margin ∷ trim_margins margin ls

unfoldable pub dedent_body : Str → Str → Str
unfolding trim_margins
dedent_body margin body =
    if is_empty margin then body else join (b'\n' ∷ []) (trim_margins margin (split b'\n' body))

-- `dedentTriple`
unfoldable pub dedent_triple : Str → Str
unfolding cut_last_line dedent_body trim_prefix
dedent_triple s = elim (cut_last_line s) [
  | none ↦ s
  | some (body, margin) ↦
      if is_empty (trim_left is_inline margin)
      then dedent_body margin (trim_prefix body (b'\n' ∷ []))
      else s
]
