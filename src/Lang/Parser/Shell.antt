-- ===== src/Lang/Parser/Shell.antt =====
-- internal/lang/def_parser.go, `shellExpr`, with `shellInterp` and `validInterp` of
-- internal/lang/parser.go: the raw text behind the word `shell`.
use shellf.Prelude.{
  Bool, not, ◌||◌, [], ◌∷◌, Option, none, some, Str, str, str_eq, if◌then◌else◌, any,
}
use shellf.Lang.Ast.{Expr, shell_expr}
use shellf.Lang.Lexer.{Lexer}
use shellf.Lang.Lexer.Raw.{Captured, captured, failed, try_raw_byte, raw_ident, raw_shell_body}
use shellf.Lang.ShellRules.{check_shell_body}
use shellf.Lang.Parser
use shellf.Lang.Parser.{
  ParserState, P, ◌>>=◌, ◌>>◌, pure, tok, fail, refuse_if, adv, is_word, lexing, no_closing_paren,
  unknown_shell_interpreter, shell_rule, unless_removed,
}

-- `validInterp`
unfoldable pub valid_interp : Str → Bool
valid_interp name =
    any (str_eq name) (str "sh" ∷ str "bash" ∷ str "dash" ∷ str "nu" ∷ str "raw" ∷ [])

-- A call of a method of the lexer.
unfoldable pub on_lexer : {A : Type 0} → (Lexer → A × Lexer) → P A
on_lexer f p = let (a, l) = f p.lex in Parser.ok a (record p { lex = l })

abbrev pub take_captured : ParserState → Captured → Parser.Parsed Str
take_captured p (captured s l) = Parser.ok s (record p { lex = l })
take_captured p (failed e) = Parser.failed (lexing e)

unfoldable pub raw_body : P Str
raw_body p = take_captured p (raw_shell_body p.lex)

-- `shellInterp`
unfoldable pub shell_interp : P Str
shell_interp = do
  opened ← on_lexer (try_raw_byte b'(')
  if opened
      then (do
        name ← on_lexer raw_ident
        closed ← on_lexer (try_raw_byte b')')
        refuse_if (not closed) (no_closing_paren name)
        refuse_if (not (valid_interp name)) (unknown_shell_interpreter name)
        pure name)
      else pure []

abbrev pub refuse_command : Option Str → P (Unit {0})
refuse_command none = pure tt
refuse_command (some cmd) = fail (shell_rule cmd)

-- `p.trusted`
unfoldable pub is_trusted : P Bool
is_trusted p = Parser.ok p.trusted p

-- The detector, which `unsafe` and a trusted source pass by.
unfoldable pub check_body : Bool → Str → P (Unit {0})
check_body unsafe body = is_trusted >>= λ trusted.
    if unsafe || trusted then pure tt else refuse_command (check_shell_body body)

-- `shellExpr`
unfoldable pub shell_block : Bool → P Expr
shell_block unsafe = do
  keyword ← tok
  interp ← shell_interp
  body ← raw_body
  check_body unsafe body
  adv
  t ← tok
  refuse_if (is_word t (str "unless")) unless_removed
  pure (shell_expr body keyword.line interp)
