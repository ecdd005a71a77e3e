-- ===== src/Lang/Parser/Stmts.antt =====
-- internal/lang/def_parser.go: statements, outcomes and phases.
use shellf.Prelude.{ℕ, zero, suc, Bool, not, List, [], ◌∷◌, Str, str, str_eq, if◌then◌else◌, any}
use shellf.Lang.Ast.{
  Expr, absent, str_lit, control_path, bool_lit, int_lit, ident, field, binary, unary, call,
  shell_expr, Outcome, StateField, Stmt, let_stmt, effect_stmt, if_stmt, return_stmt,
  state_return_stmt, Stmts, skip, seq, Phase,
}
use shellf.Lang.Lexer.{Token, is_kind, lbrace, rbrace, lparen, rparen, eq, colon, dot}
use shellf.Lang.Lexer
use shellf.Lang.Parser.{
  P, ◌>>=◌, ◌>>◌, pure, tok, fail, refuse_if, starve, adv, expect, is_word, skip_kind,
  unknown_category, bind_to_expression,
}
use shellf.Lang.Parser.Exprs.{with_rest, expr}

-- The map `categories`.
unfoldable pub is_category : Str → Bool
is_category name = any (str_eq name) (str "ok" ∷ str "err" ∷ str "would" ∷ [])

-- The loop of `stateReturn`.
unfoldable pub state_fields : ℕ → P Expr → P (List StateField)
state_fields zero e = starve
state_fields (suc n) e = do
  t ← tok
  if is_kind t.kind rparen then pure [] else (do
    name ← expect Lexer.ident (str "field name")
    expect colon (str ":")
    value ← e
    with_rest (λ fs. record { name = name.val; value = value } ∷ fs) [] (state_fields n e))

-- `stateReturn`
unfoldable pub state_return : ℕ → P Expr → P Stmt
state_return n e = do
  expect Lexer.ident (str "state")
  expect lparen (str "(")
  fields ← state_fields n e
  expect rparen (str ")")
  pure (state_return_stmt fields)

-- The payload of an outcome, `absent` if there is none.
abbrev pub payload : P Expr → P Expr
payload e = do
  t ← tok
  if is_kind t.kind lparen then (do adv; x ← e; expect rparen (str ")"); pure x) else pure absent

-- `outcome`
unfoldable pub outcome : P Expr → P Outcome
outcome e = do
  category ← expect Lexer.ident (str "outcome category")
  refuse_if (not (is_category category.val)) (unknown_category category.val)
  dotted ← skip_kind dot
  if dotted
      then (do
        tag ← expect Lexer.ident (str "outcome tag")
        x ← payload e
        pure (record { category = category.val; tag = tag.val; payload = x }))
      else pure (record { category = category.val; tag = []; payload = absent })

-- The statements up to a closing brace.
unfoldable pub stmts_loop : ℕ → P Stmt → P Stmts
stmts_loop zero s = starve
stmts_loop (suc n) s = do
  t ← tok
  if is_kind t.kind rbrace
      then pure skip
      else (s >>= λ x. stmts_loop n s >>= λ rest. pure (seq x rest))

unfoldable pub block : ℕ → P Stmt → P Stmts
block n s = do expect lbrace (str "{"); body ← stmts_loop n s; expect rbrace (str "}"); pure body

-- The name that a `=` binds.
abbrev pub bound_name : Expr → P Str
bound_name (ident n) = pure n
bound_name absent = fail bind_to_expression
bound_name (str_lit s) = fail bind_to_expression
bound_name (control_path s) = fail bind_to_expression
bound_name (bool_lit b) = fail bind_to_expression
bound_name (int_lit s) = fail bind_to_expression
bound_name (field x s) = fail bind_to_expression
bound_name (binary op l r) = fail bind_to_expression
bound_name (unary op x) = fail bind_to_expression
bound_name (call n a c) = fail bind_to_expression
bound_name (shell_expr c l i) = fail bind_to_expression

-- A binding, or an expression for its effect.
unfoldable pub simple_stmt : P Expr → P Stmt
simple_stmt e = do
  lhs ← e
  t ← tok
  if is_kind t.kind eq
      then (do name ← bound_name lhs; adv; value ← e; pure (let_stmt name value))
      else pure (effect_stmt lhs)

abbrev pub return_of : ℕ → P Expr → P Stmt
return_of n e = do
  adv
  t ← tok
  if is_word t (str "state") then state_return n e else (outcome e >>= λ o. pure (return_stmt o))

abbrev pub if_of : ℕ → P Expr → P Stmt → P Stmt
if_of n e s = do adv; cond ← e; body ← block n s; pure (if_stmt cond body)

-- `stmt`, over the parser of a nested statement.
unfoldable pub stmt_with : ℕ → P Expr → P Stmt → P Stmt
stmt_with n e s = do
  t ← tok
  if is_word t (str "if")
      then if_of n e s
      else if is_word t (str "return")
      then return_of n e
      else simple_stmt e

module _ (compiles : Str → Bool) where
  -- `stmt`
  unfoldable pub stmt : ℕ → P Stmt
  stmt zero = starve
  stmt (suc n) = stmt_with (suc n) (expr compiles (suc n)) (stmt n)

  -- `phase`
  unfoldable pub phase : ℕ → P Phase
  phase n = do
    name ← expect Lexer.ident (str "phase name")
    body ← block n (stmt n)
    pure (record { name = name.val; stmts = body })
