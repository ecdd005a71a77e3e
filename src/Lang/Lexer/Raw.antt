-- ===== src/Lang/Lexer/Raw.antt =====
-- internal/lang/lexer.go: the capture of raw text behind the word `shell`.
use shellf.Prelude.{
  ℕ, zero, suc, ◌+◌, Bool, true, false, not, ◌&&◌, [], ◌∷◌, Option, none, some, Str, ◌==◌,
  if◌then◌else◌, take, drop, has_prefix, length, trim_space,
}
use shellf.Lang.Lexer.Dedent.{is_inline}
use shellf.Lang.Lexer.{
  Lexer, advance, advance_by, span_length, is_ident_part, LexError, unterminated_shell,
}

-- `skipInline`
unfoldable pub skip_inline : Lexer → Lexer
skip_inline l = advance_by (span_length is_inline l.rest) l

abbrev pub not_newline : ℕ → Bool
not_newline c = not (c == b'\n')

abbrev pub longer : Option ℕ → Option ℕ
longer none = none
longer (some n) = some (suc n)

-- The loop of `rawBraces` at a depth of `suc depth`: the bytes before the brace that closes the block.
unfoldable pub brace_end : ℕ → Str → Option ℕ
brace_end depth [] = none
brace_end depth (c ∷ s) =
    let deeper = brace_end (suc depth) s in
    let same = brace_end depth s in
    if c == b'{'
    then longer deeper
    else if c == b'}'
    then elim depth [ zero ↦ some 0 | suc d ↦ longer (brace_end d s) ]
    else longer same

-- A text that was captured, or the error.
pub data Captured : Type 0 where
  captured : Str → Lexer → Captured
  failed : LexError → Captured

abbrev pub close_braces : Lexer → Option ℕ → Captured
close_braces l none = failed unterminated_shell
close_braces l (some n) = captured (trim_space (take n l.rest)) (advance_by (n + 1) l)

-- `rawBraces`
unfoldable pub raw_braces : Lexer → Captured
raw_braces l = let l' = advance l in close_braces l' (brace_end 0 l'.rest)

-- `rawLine`
unfoldable pub raw_line : Lexer → Captured
raw_line l =
    let n = span_length not_newline l.rest in captured (trim_space (take n l.rest)) (advance_by n l)

-- `rawShellBody`
unfoldable pub raw_shell_body : Lexer → Captured
raw_shell_body l =
    let l' = skip_inline l in if has_prefix l'.rest (b'{' ∷ []) then raw_braces l' else raw_line l'

abbrev pub starts_part : Str → Bool
starts_part [] = false
starts_part (c ∷ s) = is_ident_part c

-- `tryRawWord`: whether the word is there, and the lexer behind it.
unfoldable pub try_raw_word : Str → Lexer → Bool × Lexer
try_raw_word w l =
    let l' = skip_inline l in
    if has_prefix l'.rest w && not (starts_part (drop (length w) l'.rest))
    then (true, advance_by (length w) l')
    else (false, l)

-- `tryRawByte`
unfoldable pub try_raw_byte : ℕ → Lexer → Bool × Lexer
try_raw_byte c l =
    let l' = skip_inline l in
    if has_prefix l'.rest (c ∷ []) then (true, advance l') else (false, l')

-- `rawIdent`
unfoldable pub raw_ident : Lexer → Str × Lexer
raw_ident l =
    let l' = skip_inline l in
    let n = span_length is_ident_part l'.rest in (take n l'.rest, advance_by n l')
