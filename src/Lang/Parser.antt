-- ===== src/Lang/Parser.antt =====
-- internal/lang/parser.go: the state of the parser, the panics that `catch` turns into errors, and the
-- helpers that the grammars share. The children are the grammar of defs (internal/lang/def_parser.go).
pub mod Shell
pub mod Exprs
pub mod Stmts
pub mod Checks
pub mod Defs
pub mod Ensures
pub mod Clean
pub mod Steps
pub mod ExprsClean
pub mod StmtsClean
pub mod DefsClean
pub mod Accepted
use shellf.Prelude.{ℕ, Bool, true, false, ◌&&◌, List, [], Str, str_eq, if◌then◌else◌}
use shellf.Lang.Lexer.{
  TokKind, eof, ident, is_kind, Token, Lexer, new_lexer, LexError, Lexed, token, lex_error, next,
}

-- The messages that `fail` formats.
pub data Complaint : Type 0 where
  expected : Str → Str → Complaint
  unknown_interpreter unknown_shell_interpreter no_closing_paren : Str → Complaint
  removed_phase expected_phase expected_phase_or_call delegate_phase : Str → Complaint
  unknown_type unknown_category : Str → Complaint
  primitive_name_expected not_a_primitive primitive_not_called bad_pattern : Str → Complaint
  percent_on_name percent_without_path : Str → Complaint
  shell_rule not_a_def : Str → Complaint
  top_level_return second_delegate delegate_shell empty_apply apply_without_return : Complaint
  bind_to_expression control_path_in_def unsafe_without_shell unless_removed nested_import :
      Complaint

-- `parseErr`
pub data ParseError : Type 0 where
  error_at : ℕ → ℕ → Complaint → ParseError
  lexing : LexError → ParseError

-- The fields of `parser` that the grammar of defs uses.
pub record ParserState : Type 0 where
  pub lex : Lexer
  pub tok : Token
  pub trusted : Bool
  pub in_def : Bool

-- A panic with a `parseErr` is `failed`.
pub data Parsed (A : Type 0) : Type 0 where
  ok : A → ParserState → Parsed A
  failed : ParseError → Parsed A
  out_of_fuel : Parsed A

abbrev pub P : Type 0 → Type 0
P A = ParserState → Parsed A

infixr 5 ◌>>=◌ ◌>>◌
unfoldable pub ◌>>=◌ : {A B : Type 0} → P A → (A → P B) → P B
◌>>=◌ m f p = elim (m p) [ ok a p' ↦ f a p' | failed e ↦ failed e | out_of_fuel ↦ out_of_fuel ]

abbrev pub ◌>>◌ : {A B : Type 0} → P A → P B → P B
m >> k = m >>= λ _. k

unfoldable pub pure : {A : Type 0} → A → P A
pure a p = ok a p

unfoldable pub tok : P Token
tok p = ok p.tok p

-- `p.fail`
unfoldable pub fail : {A : Type 0} → Complaint → P A
fail c p = failed (error_at p.tok.line p.tok.col c)

-- `if test { p.fail(c) }`
unfoldable pub refuse_if : Bool → Complaint → P (Unit {0})
refuse_if test c p = if test then failed (error_at p.tok.line p.tok.col c) else ok tt p

unfoldable pub starve : {A : Type 0} → P A
starve p = out_of_fuel

abbrev pub take_token : ParserState → Lexed → Parsed (Unit {0})
take_token p (token t l) = ok tt (record p { lex = l; tok = t })
take_token p (lex_error e) = failed (lexing e)

-- `p.adv`
unfoldable pub adv : P (Unit {0})
adv p = take_token p (next p.lex)

-- `p.expect`
unfoldable pub expect : TokKind → Str → P Token
expect k what =
    tok >>= λ t. if is_kind t.kind k then (adv >> pure t) else fail (expected what t.val)

abbrev pub is_word : Token → Str → Bool
is_word t w = is_kind t.kind ident && str_eq t.val w

-- `if p.tok.kind == k { p.adv() }`
unfoldable pub skip_kind : TokKind → P Bool
skip_kind k = tok >>= λ t. if is_kind t.kind k then (adv >> pure true) else pure false

-- A look ahead that a `defer` takes back.
unfoldable pub peek : {A : Type 0} → P A → P A
peek m p = elim (m p) [ ok a p' ↦ ok a p | failed e ↦ failed e | out_of_fuel ↦ out_of_fuel ]

-- `newParser`, before its `adv`.
abbrev pub new_parser : Bool → Str → ParserState
new_parser trusted src = record {
  lex = new_lexer src;
  tok = record { kind = eof; val = []; line = 0; col = 0 };
  trusted = trusted;
  in_def = false;
}

-- The result of a parse, as `catch` leaves it.
pub data Caught (A : Type 0) : Type 0 where
  parsed : A → Caught A
  refused : ParseError → Caught A
  starved : Caught A

abbrev pub catch : {A : Type 0} → Parsed A → Caught A
catch (ok a p) = parsed a
catch (failed e) = refused e
catch out_of_fuel = starved
