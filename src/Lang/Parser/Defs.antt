-- ===== src/Lang/Parser/Defs.antt =====
-- internal/lang/def_parser.go: a `def` and a file of them, with `parseLibrary` and `defWithSource` of
-- internal/lang/parser.go.
use shellf.Prelude.{
  ℕ, zero, suc, ◌-◌, Bool, true, false, not, ◌&&◌, ◌||◌, List, [], ◌∷◌, ◌++◌, Option, none, some,
  Str, str, str_eq, if◌then◌else◌, length, take, drop, trim_space,
}
use shellf.Lang.Ast.{
  Expr, absent, str_lit, control_path, bool_lit, int_lit, ident, field, binary, unary, call,
  shell_expr, Phase, Param, Call, Def,
}
use shellf.Lang.Lexer.{Lexer, Token, is_kind, eof, lbrace, rbrace, lparen, rparen, eq, colon}
use shellf.Lang.Lexer as L
use shellf.Lang.Parser
use shellf.Lang.Parser.{
  P, ◌>>=◌, ◌>>◌, pure, tok, fail, refuse_if, starve, adv, expect, is_word, skip_kind, Complaint,
  expected, unknown_interpreter, removed_phase, expected_phase, expected_phase_or_call,
  delegate_phase, unknown_type, not_a_def, top_level_return, second_delegate, delegate_shell,
  empty_apply, apply_without_return, nested_import, new_parser, Caught, catch,
}
use shellf.Lang.Parser.Checks.{is_phase, is_removed, nominal_return, check_body_form}
use shellf.Lang.Parser.Shell.{valid_interp}
use shellf.Lang.Parser.Exprs.{with_rest, peek_is_call, primary, expr}
use shellf.Lang.Parser.Stmts.{phase}

-- `p.lex`
unfoldable pub lexer : P Lexer
lexer p = Parser.ok p.lex p

-- `paramType`
unfoldable pub param_type : P Str
param_type = do
  t ← expect L.ident (str "type")
  refuse_if (not (str_eq t.val (str "str") || str_eq t.val (str "bool"))) (unknown_type t.val)
  pure t.val

-- The loop over `as` and `using`: the user and the interpreter.
unfoldable pub header_loop : ℕ → Str → Str → P (Str × Str)
header_loop zero become interp = starve
header_loop (suc n) become interp = tok >>= λ t.
    if is_word t (str "as")
    then (do adv; user ← expect L.ident (str "user after 'as'"); header_loop n user.val interp)
    else if is_word t (str "using")
    then (do
      adv
      name ← expect L.ident (str "interpreter after 'using'")
      refuse_if (not (valid_interp name.val)) (unknown_interpreter name.val)
      header_loop n become name.val)
    else pure (become, interp)

abbrev pub as_call : Expr → P Call
as_call (call name args ctl) = pure (record { name = name; args = args; control = ctl })
as_call absent = tok >>= λ t. fail (expected_phase_or_call t.val)
as_call (str_lit s) = tok >>= λ t. fail (expected_phase_or_call t.val)
as_call (control_path s) = tok >>= λ t. fail (expected_phase_or_call t.val)
as_call (bool_lit b) = tok >>= λ t. fail (expected_phase_or_call t.val)
as_call (int_lit s) = tok >>= λ t. fail (expected_phase_or_call t.val)
as_call (ident n) = tok >>= λ t. fail (expected_phase_or_call t.val)
as_call (field x n) = tok >>= λ t. fail (expected_phase_or_call t.val)
as_call (binary op l r) = tok >>= λ t. fail (expected_phase_or_call t.val)
as_call (unary op x) = tok >>= λ t. fail (expected_phase_or_call t.val)
as_call (shell_expr c l i) = tok >>= λ t. fail (expected_phase_or_call t.val)

abbrev pub is_some : {A : Type 0} → Option A → Bool
is_some none = false
is_some (some a) = true

-- Sets `p.inDef`, and answers what it was.
unfoldable pub enter_def : P Bool
enter_def p = Parser.ok p.in_def (record p { in_def = true })

unfoldable pub leave_def : Bool → P (Unit {0})
leave_def outer p = Parser.ok tt (record p { in_def = outer })

abbrev pub header : P (Bool × Str)
header = do
  kw ← expect L.ident (str "'def' or 'override'")
  if str_eq kw.val (str "override")
      then (expect L.ident (str "'def' after 'override'") >>= λ kw'. pure (true, kw'.val))
      else pure (false, kw.val)

-- The defs up to the end of the text.
unfoldable pub defs_loop : ℕ → P Def → P (List Def)
defs_loop zero one = starve
defs_loop (suc n) one = do
  t ← tok
  if is_kind t.kind eof then pure [] else (one >>= λ d. defs_loop n one >>= λ ds. pure (d ∷ ds))

-- `isDefStart`
unfoldable pub is_def_start : Token → Bool
is_def_start t =
    is_kind t.kind L.ident && (str_eq t.val (str "def") || str_eq t.val (str "override"))

module _ (compiles : Str → Bool) where
  abbrev pub default_of : ℕ → P (Option Expr)
  default_of n = do
    has_default ← skip_kind eq
    if has_default then (primary compiles n (expr compiles n) >>= λ e. pure (some e)) else pure none

  -- The loop of `params`.
  unfoldable pub params_loop : ℕ → P (List Param)
  params_loop zero = starve
  params_loop (suc n) = do
    t ← tok
    if is_kind t.kind rparen then pure [] else (do
      name ← expect L.ident (str "parameter name")
      expect colon (str ":")
      type ← param_type
      default ← default_of (suc n)
      with_rest (λ ps. record { name = name.val; type = type; default = default } ∷ ps) []
          (params_loop n))

  -- `params`
  unfoldable pub params : ℕ → P (List Param)
  params n = do expect lparen (str "("); ps ← params_loop n; expect rparen (str ")"); pure ps

  -- A call beside the phases.
  unfoldable pub delegation : ℕ → Option Call → P Call
  delegation n delegate = do
    refuse_if (is_some delegate) second_delegate
    e ← expr compiles n
    as_call e

  -- The loop over the body of a def, with the phases and the delegation so far.
  unfoldable pub body_loop : ℕ → List Phase → Option Call → P (List Phase × Option Call)
  body_loop zero phs delegate = starve
  body_loop (suc n) phs delegate = tok >>= λ t.
      if is_kind t.kind rbrace
      then pure (phs, delegate)
      else if is_kind t.kind L.ident && is_phase t.val
      then (phase compiles (suc n) >>= λ ph. body_loop n (phs ++ (ph ∷ [])) delegate)
      else if is_kind t.kind L.ident && is_removed t.val
      then fail (removed_phase t.val)
      else if is_word t (str "return")
      then fail top_level_return
      else if is_kind t.kind L.ident
      then (do
        calls ← peek_is_call
        if calls
            then (delegation (suc n) delegate >>= λ c. body_loop n phs (some c))
            else fail (expected_phase t.val))
      else fail (expected_phase t.val)

  -- The part of `def` behind the parameters.
  unfoldable pub def_body : ℕ → Str → List Param → Bool → P Def
  def_body n name ps override = do
    escalation ← header_loop n [] []
    expect lbrace (str "{")
    body ← body_loop n [] none
    expect rbrace (str "}")
    check_body_form body.0 body.1
    pure (record {
      name = name;
      params = ps;
      become = escalation.0;
      interp = escalation.1;
      override = override;
      phases = body.0;
      delegate = body.1;
      ret = nominal_return body.0;
      source = [];
    })

  -- `def`
  unfoldable pub def : ℕ → P Def
  def n = do
    kw ← header
    refuse_if (not (str_eq kw.1 (str "def"))) (expected (str "'def'") kw.1)
    name ← expect L.ident (str "def name")
    ps ← params n
    outer ← enter_def
    d ← def_body n name.val ps kw.0
    leave_def outer
    pure d

  -- `parseDefs`: a loop takes a token at least in each turn.
  unfoldable pub parse_defs : Str → Bool → Caught (List Def)
  parse_defs src trusted =
      let n = suc (length src) in catch ((adv >> defs_loop n (def n)) (new_parser trusted src))

  -- `defWithSource`
  unfoldable pub def_with_source : ℕ → P Def
  def_with_source n = do
    before ← lexer
    d ← def n
    behind ← lexer
    pure (record d {
      source =
          trim_space
            (take (behind.tok_start - before.tok_start) (drop before.tok_start behind.src));
    })

  -- A turn of the loop of `parseLibrary`.
  unfoldable pub library_def : ℕ → P Def
  library_def n = do
    t ← tok
    refuse_if (is_word t (str "import")) nested_import
    refuse_if (not (is_def_start t)) (not_a_def t.val)
    def_with_source n

  -- `parseLibrary`
  unfoldable pub parse_library : Str → Caught (List Def)
  parse_library src =
      let n = suc (length src) in
      catch ((adv >> defs_loop n (library_def n)) (new_parser false src))
