-- ===== src/Lang/Parser/Exprs.antt =====
-- internal/lang/def_parser.go: expressions. What stands for a nested expression is a parameter, which
-- `expr` ties at the end; the fuel of a loop counts its turns.
use shellf.Prelude.{
  ℕ, zero, suc, Bool, true, false, not, ◌&&◌, ◌||◌, [], ◌∷◌, ◌++◌, Str, str, str_eq, if◌then◌else◌,
  any,
}
use shellf.Lang.Ast.{
  Expr, str_lit, control_path, bool_lit, int_lit, ident, field, binary, unary, call, Args, no_arg,
  arg,
}
use shellf.Lang.Lexer.{
  Token, is_kind, string, number, lparen, rparen, comma, dot, eq_eq, not_eq, bang, percent, tilde,
  raw_string,
}
use shellf.Lang.Lexer
use shellf.Lang.Parser
use shellf.Lang.Parser.{
  P, ◌>>=◌, ◌>>◌, pure, tok, fail, refuse_if, starve, adv, expect, is_word, skip_kind, peek,
  expected, primitive_name_expected, not_a_primitive, primitive_not_called, bad_pattern,
  percent_on_name, percent_without_path, control_path_in_def, unsafe_without_shell,
}
use shellf.Lang.Parser.Shell.{shell_block}

-- `ControlPrimitives`
unfoldable pub is_primitive : Str → Bool
is_primitive name = any (str_eq name) (
    str "file.read"
    ∷ str "file.write"
    ∷ str "file.render"
    ∷ str "dir.list"
    ∷ str "dir.sync"
    ∷ str "text.matches"
    ∷ str "text.replace"
    ∷ [])

-- The map `patternArg`, whose one position is 1.
unfoldable pub has_pattern : Str → Bool
has_pattern name = str_eq name (str "text.matches") || str_eq name (str "text.replace")

-- `p.inDef`
unfoldable pub is_in_def : P Bool
is_in_def p = Parser.ok p.in_def p

-- The comma that goes on with a list, or its end.
abbrev pub with_rest : {A B : Type 0} → (A → B) → A → P A → P B
with_rest f none rest =
    skip_kind comma >>= λ more. if more then (rest >>= λ r. pure (f r)) else pure (f none)

-- The loop of `callArgs`.
unfoldable pub args_loop : ℕ → P Expr → P Args
args_loop zero e = starve
args_loop (suc n) e = do
  t ← tok
  if is_kind t.kind rparen
      then pure no_arg
      else (e >>= λ a. with_rest (arg a) no_arg (args_loop n e))

-- `callArgs`
unfoldable pub call_args : ℕ → P Expr → P Args
call_args n e = do expect lparen (str "("); args ← args_loop n e; expect rparen (str ")"); pure args

-- `p.adv()` past a dot and the name behind it, appended to `name`.
abbrev pub qualified : Str → Str → P Str
qualified name what = adv >> expect Lexer.ident what >>= λ t. pure (name ++ (str "." ++ t.val))

-- `peekQualifiedCall`, at the dot.
unfoldable pub peek_qualified_call : P Bool
peek_qualified_call = peek (do
  adv
  t ← tok
  if is_kind t.kind Lexer.ident
      then (do adv; t' ← tok; pure (is_kind t'.kind lparen))
      else pure false)

-- `peekIsCall`
unfoldable pub peek_is_call : P Bool
peek_is_call = peek (do
  adv
  t ← tok
  if is_kind t.kind dot
      then (do
        adv
        t' ← tok
        if is_kind t'.kind Lexer.ident
            then (do adv; t'' ← tok; pure (is_kind t''.kind lparen))
            else pure false)
      else pure (is_kind t.kind lparen))

module _ (compiles : Str → Bool) where
  -- The second argument, if it is a literal, compiles.
  unfoldable pub bad_literal : Args → Bool
  bad_literal (arg a (arg (str_lit s) rest)) = not (compiles s)
  bad_literal _ = false

  -- `primitiveCall`
  unfoldable pub primitive_call : ℕ → P Expr → P Expr
  primitive_call n e = do
    adv
    t ← tok
    refuse_if (not (is_kind t.kind Lexer.ident)) (primitive_name_expected t.val)
    adv
    t' ← tok
    name ←
        if is_kind t'.kind dot then qualified t.val (str "primitive name after '.'") else pure t.val
    refuse_if (not (is_primitive name)) (not_a_primitive name)
    t'' ← tok
    refuse_if (not (is_kind t''.kind lparen)) (primitive_not_called name)
    args ← call_args n e
    refuse_if (has_pattern name && bad_literal args) (bad_pattern name)
    pure (call name args true)

  -- `controlPathLit`
  unfoldable pub control_path_lit : P Expr
  control_path_lit = do
    adv
    t ← tok
    refuse_if (is_kind t.kind Lexer.ident) (percent_on_name t.val)
    refuse_if (not (is_kind t.kind string || is_kind t.kind raw_string))
        (percent_without_path t.val)
    inside ← is_in_def
    refuse_if inside control_path_in_def
    adv
    pure (control_path t.val)

  -- The branch of `primary` for a word that is no keyword.
  unfoldable pub named : ℕ → P Expr → Str → P Expr
  named n e word = do
    adv
    t ← tok
    dotted ← if is_kind t.kind dot then peek_qualified_call else pure false
    name ← if dotted then qualified word (str "instruction name after '.'") else pure word
    t' ← tok
    if is_kind t'.kind lparen
        then (call_args n e >>= λ args. pure (call name args false))
        else pure (ident name)

  abbrev pub parenthesized : P Expr → P Expr
  parenthesized e = do adv; x ← e; expect rparen (str ")"); pure x

  abbrev pub unsafe_shell : P Expr
  unsafe_shell = do
    adv
    t ← tok
    refuse_if (not (is_word t (str "shell"))) unsafe_without_shell
    shell_block true

  -- The branch of `primary` for a word.
  unfoldable pub word : ℕ → P Expr → Str → P Expr
  word n e w =
      if str_eq w (str "true") || str_eq w (str "false")
      then (adv >> pure (bool_lit (str_eq w (str "true"))))
      else if str_eq w (str "shell")
      then shell_block false
      else if str_eq w (str "unsafe")
      then unsafe_shell
      else named n e w

  -- `primary`, by its first token.
  unfoldable pub primary_at : ℕ → P Expr → Token → P Expr
  primary_at n e t =
      if is_kind t.kind tilde
      then primitive_call n e
      else if is_kind t.kind percent
      then control_path_lit
      else if is_kind t.kind string || is_kind t.kind raw_string
      then (adv >> pure (str_lit t.val))
      else if is_kind t.kind number
      then (adv >> pure (int_lit t.val))
      else if is_kind t.kind lparen
      then parenthesized e
      else if is_kind t.kind Lexer.ident
      then word n e t.val
      else fail (expected (str "an expression") t.val)

  -- `primary`
  unfoldable pub primary : ℕ → P Expr → P Expr
  primary n e = tok >>= primary_at n e

  -- The loop of `postfix`.
  unfoldable pub fields_of : ℕ → Expr → P Expr
  fields_of zero x = starve
  fields_of (suc n) x = do
    t ← tok
    if is_kind t.kind dot
        then (adv >> expect Lexer.ident (str "field name") >>= λ f. fields_of n (field x f.val))
        else pure x

  -- `postfix`
  unfoldable pub postfix : ℕ → P Expr → P Expr
  postfix n e = primary n e >>= fields_of n

  -- `unary`
  unfoldable pub unary_expr : ℕ → P Expr → P Expr
  unary_expr zero e = starve
  unary_expr (suc n) e = do
    t ← tok
    if is_kind t.kind bang
        then (adv >> unary_expr n e >>= λ x. pure (unary (str "!") x))
        else postfix (suc n) e

  -- `expr`, over the parser of a nested expression.
  unfoldable pub comparison : ℕ → P Expr → P Expr
  comparison n e = do
    left ← unary_expr n e
    t ← tok
    if is_kind t.kind eq_eq || is_kind t.kind not_eq
        then (adv >> unary_expr n e >>= λ right. pure (binary t.val left right))
        else pure left

  -- `expr`
  unfoldable pub expr : ℕ → P Expr
  expr zero = starve
  expr (suc n) = comparison (suc n) (expr n)
