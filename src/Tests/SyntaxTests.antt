-- ===== src/Tests/SyntaxTests.antt =====
-- The theorems on the lexer and the parser of defs at concrete texts.
use shellf.Prelude.{ℕ, Bool, true, false, List, [], ◌∷◌, Str, str, length, ◌≡◌, ◌≢◌, refl, All}
use shellf.Lang.Ast.{Def}
use shellf.Lang.Lexer.{Lexer, new_lexer, next}
use shellf.Lang.Lexer.Places.{LexedPlaced, new_lexer-IsPlaced, next-IsPlaced}
use shellf.Lang.Parser.{Caught, parsed, refused, starved, error_at, control_path_in_def}
use shellf.Lang.Parser.Defs.{parse_defs, parse_library}
use shellf.Lang.Parser.Clean.{WellFormed}
use shellf.Lang.Parser.Accepted.{parse_defs_terminates, parse_defs-WellFormed}

abbrev compiles_all : Str → Bool
compiles_all s = true

abbrev touch_text : Str
touch_text =
    str
      "# makes a file\ndef touch(p: str) using bash {\n  check {\n    if !shell { test -d $p } { return err.missing }\n  }\n  apply {\n    r = shell { touch $p }\n    return ok.done\n  }\n}\n"

abbrev defs_of : Caught (List Def) → List Def
defs_of (parsed ds) = ds
defs_of (refused e) = []
defs_of starved = []

abbrev is_parsed : Caught (List Def) → Bool
is_parsed (parsed ds) = true
is_parsed (refused e) = false
is_parsed starved = false

-- The defs of a text that parses.
touch_parsed :
    parse_defs compiles_all touch_text false
    ≡ parsed (defs_of (parse_defs compiles_all touch_text false))
unfolding shellf.Prelude.str_eq shellf.Prelude.str_le shellf.Prelude.has_prefix
    shellf.Prelude.has_suffix shellf.Prelude.drop shellf.Prelude.take shellf.Prelude.join
    shellf.Prelude.trim_left shellf.Prelude.trim_right shellf.Prelude.trim_space
    shellf.Lang.Lexer.kind_number shellf.Lang.Lexer.is_kind shellf.Lang.Lexer.advance_by
    shellf.Lang.Lexer.skip_length shellf.Lang.Lexer.skip shellf.Lang.Lexer.span_length
    shellf.Lang.Lexer.is_digit shellf.Lang.Lexer.is_ident_start shellf.Lang.Lexer.is_ident_part
    shellf.Lang.Lexer.unescape shellf.Lang.Lexer.string_body shellf.Lang.Lexer.triple_end
    shellf.Lang.Lexer.punctuation shellf.Lang.Lexer.lex_byte shellf.Lang.Lexer.lex_text
    shellf.Lang.Lexer.next shellf.Lang.Lexer.Dedent.cut_last_line
    shellf.Lang.Lexer.Dedent.trim_prefix shellf.Lang.Lexer.Dedent.trim_margins
    shellf.Lang.Lexer.Dedent.dedent_body shellf.Lang.Lexer.Dedent.dedent_triple
    shellf.Lang.Lexer.Raw.skip_inline shellf.Lang.Lexer.Raw.brace_end
    shellf.Lang.Lexer.Raw.raw_braces shellf.Lang.Lexer.Raw.raw_line
    shellf.Lang.Lexer.Raw.raw_shell_body shellf.Lang.Lexer.Raw.try_raw_word
    shellf.Lang.Lexer.Raw.try_raw_byte shellf.Lang.Lexer.Raw.raw_ident
    shellf.Lang.ShellRules.replace_separator shellf.Lang.ShellRules.replace_separators
    shellf.Lang.ShellRules.split_lines shellf.Lang.ShellRules.split_segments
    shellf.Lang.ShellRules.split_spaces shellf.Lang.ShellRules.drop_empty
    shellf.Lang.ShellRules.words shellf.Lang.ShellRules.is_skippable
    shellf.Lang.ShellRules.is_quoted shellf.Lang.ShellRules.base_name
    shellf.Lang.ShellRules.command_of shellf.Lang.ShellRules.leading_command
    shellf.Lang.ShellRules.commands_of shellf.Lang.ShellRules.command_words
    shellf.Lang.ShellRules.is_ruled shellf.Lang.ShellRules.first_ruled
    shellf.Lang.ShellRules.check_shell_body shellf.Lang.Parser.◌>>=◌ shellf.Lang.Parser.pure
    shellf.Lang.Parser.tok shellf.Lang.Parser.fail shellf.Lang.Parser.refuse_if
    shellf.Lang.Parser.starve shellf.Lang.Parser.adv shellf.Lang.Parser.expect
    shellf.Lang.Parser.skip_kind shellf.Lang.Parser.peek shellf.Lang.Parser.Shell.valid_interp
    shellf.Lang.Parser.Shell.on_lexer shellf.Lang.Parser.Shell.raw_body
    shellf.Lang.Parser.Shell.shell_interp shellf.Lang.Parser.Shell.is_trusted
    shellf.Lang.Parser.Shell.check_body shellf.Lang.Parser.Shell.shell_block
    shellf.Lang.Parser.Exprs.is_primitive shellf.Lang.Parser.Exprs.has_pattern
    shellf.Lang.Parser.Exprs.is_in_def shellf.Lang.Parser.Exprs.args_loop
    shellf.Lang.Parser.Exprs.call_args shellf.Lang.Parser.Exprs.peek_qualified_call
    shellf.Lang.Parser.Exprs.peek_is_call shellf.Lang.Parser.Exprs.bad_literal
    shellf.Lang.Parser.Exprs.primitive_call shellf.Lang.Parser.Exprs.control_path_lit
    shellf.Lang.Parser.Exprs.named shellf.Lang.Parser.Exprs.word shellf.Lang.Parser.Exprs.primary_at
    shellf.Lang.Parser.Exprs.primary shellf.Lang.Parser.Exprs.fields_of
    shellf.Lang.Parser.Exprs.postfix shellf.Lang.Parser.Exprs.unary_expr
    shellf.Lang.Parser.Exprs.comparison shellf.Lang.Parser.Exprs.expr
    shellf.Lang.Parser.Stmts.is_category shellf.Lang.Parser.Stmts.state_fields
    shellf.Lang.Parser.Stmts.state_return shellf.Lang.Parser.Stmts.outcome
    shellf.Lang.Parser.Stmts.stmts_loop shellf.Lang.Parser.Stmts.block
    shellf.Lang.Parser.Stmts.simple_stmt shellf.Lang.Parser.Stmts.stmt_with
    shellf.Lang.Parser.Stmts.stmt shellf.Lang.Parser.Stmts.phase shellf.Lang.Parser.Defs.lexer
    shellf.Lang.Parser.Checks.is_phase shellf.Lang.Parser.Checks.is_removed
    shellf.Lang.Parser.Checks.only_check shellf.Lang.Parser.Checks.check_delegation
    shellf.Lang.Parser.Checks.last_return shellf.Lang.Parser.Checks.final_return
    shellf.Lang.Parser.Checks.check_apply_returns shellf.Lang.Parser.Checks.nominal_return
    shellf.Lang.Parser.Defs.param_type shellf.Lang.Parser.Defs.header_loop
    shellf.Lang.Parser.Defs.enter_def shellf.Lang.Parser.Defs.leave_def
    shellf.Lang.Parser.Checks.check_body_form shellf.Lang.Parser.Defs.defs_loop
    shellf.Lang.Parser.Defs.is_def_start shellf.Lang.Parser.Defs.params_loop
    shellf.Lang.Parser.Defs.params shellf.Lang.Parser.Defs.delegation
    shellf.Lang.Parser.Defs.body_loop shellf.Lang.Parser.Defs.def_body shellf.Lang.Parser.Defs.def
    shellf.Lang.Parser.Defs.parse_defs shellf.Lang.Parser.Defs.def_with_source
    shellf.Lang.Parser.Defs.library_def shellf.Lang.Parser.Defs.parse_library
    shellf.Lang.Parser.Checks.has_shell shellf.Lang.Parser.Checks.any_shell
touch_parsed = refl

parse_defs_terminates_example :
    (parse_defs compiles_all touch_text false ≢ starved)
    × (parse_library compiles_all touch_text ≢ starved)
parse_defs_terminates_example = parse_defs_terminates compiles_all touch_text false

parse_defs-WellFormed_example : All WellFormed (defs_of (parse_defs compiles_all touch_text false))
parse_defs-WellFormed_example =
    parse_defs-WellFormed compiles_all touch_text false
      (defs_of (parse_defs compiles_all touch_text false)) touch_parsed

next-IsPlaced_example : LexedPlaced touch_text (next (new_lexer touch_text))
next-IsPlaced_example =
    next-IsPlaced touch_text (new_lexer touch_text) (new_lexer-IsPlaced touch_text)

-- A path of the control host in the body of a def is refused, and as a default it is not.
path_in_body :
    is_parsed
      (parse_defs compiles_all (str "def f(p: str) { apply { g(%\"x\") return ok.done } }") false)
    ≡ false
unfolding shellf.Prelude.str_eq shellf.Prelude.str_le shellf.Prelude.has_prefix
    shellf.Prelude.has_suffix shellf.Prelude.drop shellf.Prelude.take shellf.Prelude.join
    shellf.Prelude.trim_left shellf.Prelude.trim_right shellf.Prelude.trim_space
    shellf.Lang.Lexer.kind_number shellf.Lang.Lexer.is_kind shellf.Lang.Lexer.advance_by
    shellf.Lang.Lexer.skip_length shellf.Lang.Lexer.skip shellf.Lang.Lexer.span_length
    shellf.Lang.Lexer.is_digit shellf.Lang.Lexer.is_ident_start shellf.Lang.Lexer.is_ident_part
    shellf.Lang.Lexer.unescape shellf.Lang.Lexer.string_body shellf.Lang.Lexer.triple_end
    shellf.Lang.Lexer.punctuation shellf.Lang.Lexer.lex_byte shellf.Lang.Lexer.lex_text
    shellf.Lang.Lexer.next shellf.Lang.Lexer.Dedent.cut_last_line
    shellf.Lang.Lexer.Dedent.trim_prefix shellf.Lang.Lexer.Dedent.trim_margins
    shellf.Lang.Lexer.Dedent.dedent_body shellf.Lang.Lexer.Dedent.dedent_triple
    shellf.Lang.Lexer.Raw.skip_inline shellf.Lang.Lexer.Raw.brace_end
    shellf.Lang.Lexer.Raw.raw_braces shellf.Lang.Lexer.Raw.raw_line
    shellf.Lang.Lexer.Raw.raw_shell_body shellf.Lang.Lexer.Raw.try_raw_word
    shellf.Lang.Lexer.Raw.try_raw_byte shellf.Lang.Lexer.Raw.raw_ident
    shellf.Lang.ShellRules.replace_separator shellf.Lang.ShellRules.replace_separators
    shellf.Lang.ShellRules.split_lines shellf.Lang.ShellRules.split_segments
    shellf.Lang.ShellRules.split_spaces shellf.Lang.ShellRules.drop_empty
    shellf.Lang.ShellRules.words shellf.Lang.ShellRules.is_skippable
    shellf.Lang.ShellRules.is_quoted shellf.Lang.ShellRules.base_name
    shellf.Lang.ShellRules.command_of shellf.Lang.ShellRules.leading_command
    shellf.Lang.ShellRules.commands_of shellf.Lang.ShellRules.command_words
    shellf.Lang.ShellRules.is_ruled shellf.Lang.ShellRules.first_ruled
    shellf.Lang.ShellRules.check_shell_body shellf.Lang.Parser.◌>>=◌ shellf.Lang.Parser.pure
    shellf.Lang.Parser.tok shellf.Lang.Parser.fail shellf.Lang.Parser.refuse_if
    shellf.Lang.Parser.starve shellf.Lang.Parser.adv shellf.Lang.Parser.expect
    shellf.Lang.Parser.skip_kind shellf.Lang.Parser.peek shellf.Lang.Parser.Shell.valid_interp
    shellf.Lang.Parser.Shell.on_lexer shellf.Lang.Parser.Shell.raw_body
    shellf.Lang.Parser.Shell.shell_interp shellf.Lang.Parser.Shell.is_trusted
    shellf.Lang.Parser.Shell.check_body shellf.Lang.Parser.Shell.shell_block
    shellf.Lang.Parser.Exprs.is_primitive shellf.Lang.Parser.Exprs.has_pattern
    shellf.Lang.Parser.Exprs.is_in_def shellf.Lang.Parser.Exprs.args_loop
    shellf.Lang.Parser.Exprs.call_args shellf.Lang.Parser.Exprs.peek_qualified_call
    shellf.Lang.Parser.Exprs.peek_is_call shellf.Lang.Parser.Exprs.bad_literal
    shellf.Lang.Parser.Exprs.primitive_call shellf.Lang.Parser.Exprs.control_path_lit
    shellf.Lang.Parser.Exprs.named shellf.Lang.Parser.Exprs.word shellf.Lang.Parser.Exprs.primary_at
    shellf.Lang.Parser.Exprs.primary shellf.Lang.Parser.Exprs.fields_of
    shellf.Lang.Parser.Exprs.postfix shellf.Lang.Parser.Exprs.unary_expr
    shellf.Lang.Parser.Exprs.comparison shellf.Lang.Parser.Exprs.expr
    shellf.Lang.Parser.Stmts.is_category shellf.Lang.Parser.Stmts.state_fields
    shellf.Lang.Parser.Stmts.state_return shellf.Lang.Parser.Stmts.outcome
    shellf.Lang.Parser.Stmts.stmts_loop shellf.Lang.Parser.Stmts.block
    shellf.Lang.Parser.Stmts.simple_stmt shellf.Lang.Parser.Stmts.stmt_with
    shellf.Lang.Parser.Stmts.stmt shellf.Lang.Parser.Stmts.phase shellf.Lang.Parser.Defs.lexer
    shellf.Lang.Parser.Checks.is_phase shellf.Lang.Parser.Checks.is_removed
    shellf.Lang.Parser.Checks.only_check shellf.Lang.Parser.Checks.check_delegation
    shellf.Lang.Parser.Checks.last_return shellf.Lang.Parser.Checks.final_return
    shellf.Lang.Parser.Checks.check_apply_returns shellf.Lang.Parser.Checks.nominal_return
    shellf.Lang.Parser.Defs.param_type shellf.Lang.Parser.Defs.header_loop
    shellf.Lang.Parser.Defs.enter_def shellf.Lang.Parser.Defs.leave_def
    shellf.Lang.Parser.Checks.check_body_form shellf.Lang.Parser.Defs.defs_loop
    shellf.Lang.Parser.Defs.is_def_start shellf.Lang.Parser.Defs.params_loop
    shellf.Lang.Parser.Defs.params shellf.Lang.Parser.Defs.delegation
    shellf.Lang.Parser.Defs.body_loop shellf.Lang.Parser.Defs.def_body shellf.Lang.Parser.Defs.def
    shellf.Lang.Parser.Defs.parse_defs shellf.Lang.Parser.Defs.def_with_source
    shellf.Lang.Parser.Defs.library_def shellf.Lang.Parser.Defs.parse_library
    shellf.Lang.Parser.Checks.has_shell shellf.Lang.Parser.Checks.any_shell
path_in_body = refl

path_as_default :
    is_parsed
      (parse_defs compiles_all (str "def f(p: str = %\"x\") { apply { return ok.done } }") false)
    ≡ true
unfolding shellf.Prelude.str_eq shellf.Prelude.str_le shellf.Prelude.has_prefix
    shellf.Prelude.has_suffix shellf.Prelude.drop shellf.Prelude.take shellf.Prelude.join
    shellf.Prelude.trim_left shellf.Prelude.trim_right shellf.Prelude.trim_space
    shellf.Lang.Lexer.kind_number shellf.Lang.Lexer.is_kind shellf.Lang.Lexer.advance_by
    shellf.Lang.Lexer.skip_length shellf.Lang.Lexer.skip shellf.Lang.Lexer.span_length
    shellf.Lang.Lexer.is_digit shellf.Lang.Lexer.is_ident_start shellf.Lang.Lexer.is_ident_part
    shellf.Lang.Lexer.unescape shellf.Lang.Lexer.string_body shellf.Lang.Lexer.triple_end
    shellf.Lang.Lexer.punctuation shellf.Lang.Lexer.lex_byte shellf.Lang.Lexer.lex_text
    shellf.Lang.Lexer.next shellf.Lang.Lexer.Dedent.cut_last_line
    shellf.Lang.Lexer.Dedent.trim_prefix shellf.Lang.Lexer.Dedent.trim_margins
    shellf.Lang.Lexer.Dedent.dedent_body shellf.Lang.Lexer.Dedent.dedent_triple
    shellf.Lang.Lexer.Raw.skip_inline shellf.Lang.Lexer.Raw.brace_end
    shellf.Lang.Lexer.Raw.raw_braces shellf.Lang.Lexer.Raw.raw_line
    shellf.Lang.Lexer.Raw.raw_shell_body shellf.Lang.Lexer.Raw.try_raw_word
    shellf.Lang.Lexer.Raw.try_raw_byte shellf.Lang.Lexer.Raw.raw_ident
    shellf.Lang.ShellRules.replace_separator shellf.Lang.ShellRules.replace_separators
    shellf.Lang.ShellRules.split_lines shellf.Lang.ShellRules.split_segments
    shellf.Lang.ShellRules.split_spaces shellf.Lang.ShellRules.drop_empty
    shellf.Lang.ShellRules.words shellf.Lang.ShellRules.is_skippable
    shellf.Lang.ShellRules.is_quoted shellf.Lang.ShellRules.base_name
    shellf.Lang.ShellRules.command_of shellf.Lang.ShellRules.leading_command
    shellf.Lang.ShellRules.commands_of shellf.Lang.ShellRules.command_words
    shellf.Lang.ShellRules.is_ruled shellf.Lang.ShellRules.first_ruled
    shellf.Lang.ShellRules.check_shell_body shellf.Lang.Parser.◌>>=◌ shellf.Lang.Parser.pure
    shellf.Lang.Parser.tok shellf.Lang.Parser.fail shellf.Lang.Parser.refuse_if
    shellf.Lang.Parser.starve shellf.Lang.Parser.adv shellf.Lang.Parser.expect
    shellf.Lang.Parser.skip_kind shellf.Lang.Parser.peek shellf.Lang.Parser.Shell.valid_interp
    shellf.Lang.Parser.Shell.on_lexer shellf.Lang.Parser.Shell.raw_body
    shellf.Lang.Parser.Shell.shell_interp shellf.Lang.Parser.Shell.is_trusted
    shellf.Lang.Parser.Shell.check_body shellf.Lang.Parser.Shell.shell_block
    shellf.Lang.Parser.Exprs.is_primitive shellf.Lang.Parser.Exprs.has_pattern
    shellf.Lang.Parser.Exprs.is_in_def shellf.Lang.Parser.Exprs.args_loop
    shellf.Lang.Parser.Exprs.call_args shellf.Lang.Parser.Exprs.peek_qualified_call
    shellf.Lang.Parser.Exprs.peek_is_call shellf.Lang.Parser.Exprs.bad_literal
    shellf.Lang.Parser.Exprs.primitive_call shellf.Lang.Parser.Exprs.control_path_lit
    shellf.Lang.Parser.Exprs.named shellf.Lang.Parser.Exprs.word shellf.Lang.Parser.Exprs.primary_at
    shellf.Lang.Parser.Exprs.primary shellf.Lang.Parser.Exprs.fields_of
    shellf.Lang.Parser.Exprs.postfix shellf.Lang.Parser.Exprs.unary_expr
    shellf.Lang.Parser.Exprs.comparison shellf.Lang.Parser.Exprs.expr
    shellf.Lang.Parser.Stmts.is_category shellf.Lang.Parser.Stmts.state_fields
    shellf.Lang.Parser.Stmts.state_return shellf.Lang.Parser.Stmts.outcome
    shellf.Lang.Parser.Stmts.stmts_loop shellf.Lang.Parser.Stmts.block
    shellf.Lang.Parser.Stmts.simple_stmt shellf.Lang.Parser.Stmts.stmt_with
    shellf.Lang.Parser.Stmts.stmt shellf.Lang.Parser.Stmts.phase shellf.Lang.Parser.Defs.lexer
    shellf.Lang.Parser.Checks.is_phase shellf.Lang.Parser.Checks.is_removed
    shellf.Lang.Parser.Checks.only_check shellf.Lang.Parser.Checks.check_delegation
    shellf.Lang.Parser.Checks.last_return shellf.Lang.Parser.Checks.final_return
    shellf.Lang.Parser.Checks.check_apply_returns shellf.Lang.Parser.Checks.nominal_return
    shellf.Lang.Parser.Defs.param_type shellf.Lang.Parser.Defs.header_loop
    shellf.Lang.Parser.Defs.enter_def shellf.Lang.Parser.Defs.leave_def
    shellf.Lang.Parser.Checks.check_body_form shellf.Lang.Parser.Defs.defs_loop
    shellf.Lang.Parser.Defs.is_def_start shellf.Lang.Parser.Defs.params_loop
    shellf.Lang.Parser.Defs.params shellf.Lang.Parser.Defs.delegation
    shellf.Lang.Parser.Defs.body_loop shellf.Lang.Parser.Defs.def_body shellf.Lang.Parser.Defs.def
    shellf.Lang.Parser.Defs.parse_defs shellf.Lang.Parser.Defs.def_with_source
    shellf.Lang.Parser.Defs.library_def shellf.Lang.Parser.Defs.parse_library
    shellf.Lang.Parser.Checks.has_shell shellf.Lang.Parser.Checks.any_shell
path_as_default = refl

-- A shell among the arguments of a delegation is refused, and behind a `!` it is not.
shell_in_delegation :
    is_parsed (parse_defs compiles_all (str "def f(p: str) { g(shell { rm $p }) }") false) ≡ false
unfolding shellf.Prelude.str_eq shellf.Prelude.str_le shellf.Prelude.has_prefix
    shellf.Prelude.has_suffix shellf.Prelude.drop shellf.Prelude.take shellf.Prelude.join
    shellf.Prelude.trim_left shellf.Prelude.trim_right shellf.Prelude.trim_space
    shellf.Lang.Lexer.kind_number shellf.Lang.Lexer.is_kind shellf.Lang.Lexer.advance_by
    shellf.Lang.Lexer.skip_length shellf.Lang.Lexer.skip shellf.Lang.Lexer.span_length
    shellf.Lang.Lexer.is_digit shellf.Lang.Lexer.is_ident_start shellf.Lang.Lexer.is_ident_part
    shellf.Lang.Lexer.unescape shellf.Lang.Lexer.string_body shellf.Lang.Lexer.triple_end
    shellf.Lang.Lexer.punctuation shellf.Lang.Lexer.lex_byte shellf.Lang.Lexer.lex_text
    shellf.Lang.Lexer.next shellf.Lang.Lexer.Dedent.cut_last_line
    shellf.Lang.Lexer.Dedent.trim_prefix shellf.Lang.Lexer.Dedent.trim_margins
    shellf.Lang.Lexer.Dedent.dedent_body shellf.Lang.Lexer.Dedent.dedent_triple
    shellf.Lang.Lexer.Raw.skip_inline shellf.Lang.Lexer.Raw.brace_end
    shellf.Lang.Lexer.Raw.raw_braces shellf.Lang.Lexer.Raw.raw_line
    shellf.Lang.Lexer.Raw.raw_shell_body shellf.Lang.Lexer.Raw.try_raw_word
    shellf.Lang.Lexer.Raw.try_raw_byte shellf.Lang.Lexer.Raw.raw_ident
    shellf.Lang.ShellRules.replace_separator shellf.Lang.ShellRules.replace_separators
    shellf.Lang.ShellRules.split_lines shellf.Lang.ShellRules.split_segments
    shellf.Lang.ShellRules.split_spaces shellf.Lang.ShellRules.drop_empty
    shellf.Lang.ShellRules.words shellf.Lang.ShellRules.is_skippable
    shellf.Lang.ShellRules.is_quoted shellf.Lang.ShellRules.base_name
    shellf.Lang.ShellRules.command_of shellf.Lang.ShellRules.leading_command
    shellf.Lang.ShellRules.commands_of shellf.Lang.ShellRules.command_words
    shellf.Lang.ShellRules.is_ruled shellf.Lang.ShellRules.first_ruled
    shellf.Lang.ShellRules.check_shell_body shellf.Lang.Parser.◌>>=◌ shellf.Lang.Parser.pure
    shellf.Lang.Parser.tok shellf.Lang.Parser.fail shellf.Lang.Parser.refuse_if
    shellf.Lang.Parser.starve shellf.Lang.Parser.adv shellf.Lang.Parser.expect
    shellf.Lang.Parser.skip_kind shellf.Lang.Parser.peek shellf.Lang.Parser.Shell.valid_interp
    shellf.Lang.Parser.Shell.on_lexer shellf.Lang.Parser.Shell.raw_body
    shellf.Lang.Parser.Shell.shell_interp shellf.Lang.Parser.Shell.is_trusted
    shellf.Lang.Parser.Shell.check_body shellf.Lang.Parser.Shell.shell_block
    shellf.Lang.Parser.Exprs.is_primitive shellf.Lang.Parser.Exprs.has_pattern
    shellf.Lang.Parser.Exprs.is_in_def shellf.Lang.Parser.Exprs.args_loop
    shellf.Lang.Parser.Exprs.call_args shellf.Lang.Parser.Exprs.peek_qualified_call
    shellf.Lang.Parser.Exprs.peek_is_call shellf.Lang.Parser.Exprs.bad_literal
    shellf.Lang.Parser.Exprs.primitive_call shellf.Lang.Parser.Exprs.control_path_lit
    shellf.Lang.Parser.Exprs.named shellf.Lang.Parser.Exprs.word shellf.Lang.Parser.Exprs.primary_at
    shellf.Lang.Parser.Exprs.primary shellf.Lang.Parser.Exprs.fields_of
    shellf.Lang.Parser.Exprs.postfix shellf.Lang.Parser.Exprs.unary_expr
    shellf.Lang.Parser.Exprs.comparison shellf.Lang.Parser.Exprs.expr
    shellf.Lang.Parser.Stmts.is_category shellf.Lang.Parser.Stmts.state_fields
    shellf.Lang.Parser.Stmts.state_return shellf.Lang.Parser.Stmts.outcome
    shellf.Lang.Parser.Stmts.stmts_loop shellf.Lang.Parser.Stmts.block
    shellf.Lang.Parser.Stmts.simple_stmt shellf.Lang.Parser.Stmts.stmt_with
    shellf.Lang.Parser.Stmts.stmt shellf.Lang.Parser.Stmts.phase shellf.Lang.Parser.Defs.lexer
    shellf.Lang.Parser.Checks.is_phase shellf.Lang.Parser.Checks.is_removed
    shellf.Lang.Parser.Checks.only_check shellf.Lang.Parser.Checks.check_delegation
    shellf.Lang.Parser.Checks.last_return shellf.Lang.Parser.Checks.final_return
    shellf.Lang.Parser.Checks.check_apply_returns shellf.Lang.Parser.Checks.nominal_return
    shellf.Lang.Parser.Defs.param_type shellf.Lang.Parser.Defs.header_loop
    shellf.Lang.Parser.Defs.enter_def shellf.Lang.Parser.Defs.leave_def
    shellf.Lang.Parser.Checks.check_body_form shellf.Lang.Parser.Defs.defs_loop
    shellf.Lang.Parser.Defs.is_def_start shellf.Lang.Parser.Defs.params_loop
    shellf.Lang.Parser.Defs.params shellf.Lang.Parser.Defs.delegation
    shellf.Lang.Parser.Defs.body_loop shellf.Lang.Parser.Defs.def_body shellf.Lang.Parser.Defs.def
    shellf.Lang.Parser.Defs.parse_defs shellf.Lang.Parser.Defs.def_with_source
    shellf.Lang.Parser.Defs.library_def shellf.Lang.Parser.Defs.parse_library
    shellf.Lang.Parser.Checks.has_shell shellf.Lang.Parser.Checks.any_shell
shell_in_delegation = refl

shell_behind_bang :
    is_parsed (parse_defs compiles_all (str "def f(p: str) { g(!shell { rm $p }) }") false) ≡ true
unfolding shellf.Prelude.str_eq shellf.Prelude.str_le shellf.Prelude.has_prefix
    shellf.Prelude.has_suffix shellf.Prelude.drop shellf.Prelude.take shellf.Prelude.join
    shellf.Prelude.trim_left shellf.Prelude.trim_right shellf.Prelude.trim_space
    shellf.Lang.Lexer.kind_number shellf.Lang.Lexer.is_kind shellf.Lang.Lexer.advance_by
    shellf.Lang.Lexer.skip_length shellf.Lang.Lexer.skip shellf.Lang.Lexer.span_length
    shellf.Lang.Lexer.is_digit shellf.Lang.Lexer.is_ident_start shellf.Lang.Lexer.is_ident_part
    shellf.Lang.Lexer.unescape shellf.Lang.Lexer.string_body shellf.Lang.Lexer.triple_end
    shellf.Lang.Lexer.punctuation shellf.Lang.Lexer.lex_byte shellf.Lang.Lexer.lex_text
    shellf.Lang.Lexer.next shellf.Lang.Lexer.Dedent.cut_last_line
    shellf.Lang.Lexer.Dedent.trim_prefix shellf.Lang.Lexer.Dedent.trim_margins
    shellf.Lang.Lexer.Dedent.dedent_body shellf.Lang.Lexer.Dedent.dedent_triple
    shellf.Lang.Lexer.Raw.skip_inline shellf.Lang.Lexer.Raw.brace_end
    shellf.Lang.Lexer.Raw.raw_braces shellf.Lang.Lexer.Raw.raw_line
    shellf.Lang.Lexer.Raw.raw_shell_body shellf.Lang.Lexer.Raw.try_raw_word
    shellf.Lang.Lexer.Raw.try_raw_byte shellf.Lang.Lexer.Raw.raw_ident
    shellf.Lang.ShellRules.replace_separator shellf.Lang.ShellRules.replace_separators
    shellf.Lang.ShellRules.split_lines shellf.Lang.ShellRules.split_segments
    shellf.Lang.ShellRules.split_spaces shellf.Lang.ShellRules.drop_empty
    shellf.Lang.ShellRules.words shellf.Lang.ShellRules.is_skippable
    shellf.Lang.ShellRules.is_quoted shellf.Lang.ShellRules.base_name
    shellf.Lang.ShellRules.command_of shellf.Lang.ShellRules.leading_command
    shellf.Lang.ShellRules.commands_of shellf.Lang.ShellRules.command_words
    shellf.Lang.ShellRules.is_ruled shellf.Lang.ShellRules.first_ruled
    shellf.Lang.ShellRules.check_shell_body shellf.Lang.Parser.◌>>=◌ shellf.Lang.Parser.pure
    shellf.Lang.Parser.tok shellf.Lang.Parser.fail shellf.Lang.Parser.refuse_if
    shellf.Lang.Parser.starve shellf.Lang.Parser.adv shellf.Lang.Parser.expect
    shellf.Lang.Parser.skip_kind shellf.Lang.Parser.peek shellf.Lang.Parser.Shell.valid_interp
    shellf.Lang.Parser.Shell.on_lexer shellf.Lang.Parser.Shell.raw_body
    shellf.Lang.Parser.Shell.shell_interp shellf.Lang.Parser.Shell.is_trusted
    shellf.Lang.Parser.Shell.check_body shellf.Lang.Parser.Shell.shell_block
    shellf.Lang.Parser.Exprs.is_primitive shellf.Lang.Parser.Exprs.has_pattern
    shellf.Lang.Parser.Exprs.is_in_def shellf.Lang.Parser.Exprs.args_loop
    shellf.Lang.Parser.Exprs.call_args shellf.Lang.Parser.Exprs.peek_qualified_call
    shellf.Lang.Parser.Exprs.peek_is_call shellf.Lang.Parser.Exprs.bad_literal
    shellf.Lang.Parser.Exprs.primitive_call shellf.Lang.Parser.Exprs.control_path_lit
    shellf.Lang.Parser.Exprs.named shellf.Lang.Parser.Exprs.word shellf.Lang.Parser.Exprs.primary_at
    shellf.Lang.Parser.Exprs.primary shellf.Lang.Parser.Exprs.fields_of
    shellf.Lang.Parser.Exprs.postfix shellf.Lang.Parser.Exprs.unary_expr
    shellf.Lang.Parser.Exprs.comparison shellf.Lang.Parser.Exprs.expr
    shellf.Lang.Parser.Stmts.is_category shellf.Lang.Parser.Stmts.state_fields
    shellf.Lang.Parser.Stmts.state_return shellf.Lang.Parser.Stmts.outcome
    shellf.Lang.Parser.Stmts.stmts_loop shellf.Lang.Parser.Stmts.block
    shellf.Lang.Parser.Stmts.simple_stmt shellf.Lang.Parser.Stmts.stmt_with
    shellf.Lang.Parser.Stmts.stmt shellf.Lang.Parser.Stmts.phase shellf.Lang.Parser.Defs.lexer
    shellf.Lang.Parser.Checks.is_phase shellf.Lang.Parser.Checks.is_removed
    shellf.Lang.Parser.Checks.only_check shellf.Lang.Parser.Checks.check_delegation
    shellf.Lang.Parser.Checks.last_return shellf.Lang.Parser.Checks.final_return
    shellf.Lang.Parser.Checks.check_apply_returns shellf.Lang.Parser.Checks.nominal_return
    shellf.Lang.Parser.Defs.param_type shellf.Lang.Parser.Defs.header_loop
    shellf.Lang.Parser.Defs.enter_def shellf.Lang.Parser.Defs.leave_def
    shellf.Lang.Parser.Checks.check_body_form shellf.Lang.Parser.Defs.defs_loop
    shellf.Lang.Parser.Defs.is_def_start shellf.Lang.Parser.Defs.params_loop
    shellf.Lang.Parser.Defs.params shellf.Lang.Parser.Defs.delegation
    shellf.Lang.Parser.Defs.body_loop shellf.Lang.Parser.Defs.def_body shellf.Lang.Parser.Defs.def
    shellf.Lang.Parser.Defs.parse_defs shellf.Lang.Parser.Defs.def_with_source
    shellf.Lang.Parser.Defs.library_def shellf.Lang.Parser.Defs.parse_library
    shellf.Lang.Parser.Checks.has_shell shellf.Lang.Parser.Checks.any_shell
shell_behind_bang = refl

-- A command in a comment, behind a semicolon.
commented_command :
    is_parsed (
      parse_defs compiles_all
        (str "def f(p: str) { apply { shell { # no; mkdir x\n } return ok.done } }")
        false)
    ≡ false
unfolding shellf.Prelude.str_eq shellf.Prelude.str_le shellf.Prelude.has_prefix
    shellf.Prelude.has_suffix shellf.Prelude.drop shellf.Prelude.take shellf.Prelude.join
    shellf.Prelude.trim_left shellf.Prelude.trim_right shellf.Prelude.trim_space
    shellf.Lang.Lexer.kind_number shellf.Lang.Lexer.is_kind shellf.Lang.Lexer.advance_by
    shellf.Lang.Lexer.skip_length shellf.Lang.Lexer.skip shellf.Lang.Lexer.span_length
    shellf.Lang.Lexer.is_digit shellf.Lang.Lexer.is_ident_start shellf.Lang.Lexer.is_ident_part
    shellf.Lang.Lexer.unescape shellf.Lang.Lexer.string_body shellf.Lang.Lexer.triple_end
    shellf.Lang.Lexer.punctuation shellf.Lang.Lexer.lex_byte shellf.Lang.Lexer.lex_text
    shellf.Lang.Lexer.next shellf.Lang.Lexer.Dedent.cut_last_line
    shellf.Lang.Lexer.Dedent.trim_prefix shellf.Lang.Lexer.Dedent.trim_margins
    shellf.Lang.Lexer.Dedent.dedent_body shellf.Lang.Lexer.Dedent.dedent_triple
    shellf.Lang.Lexer.Raw.skip_inline shellf.Lang.Lexer.Raw.brace_end
    shellf.Lang.Lexer.Raw.raw_braces shellf.Lang.Lexer.Raw.raw_line
    shellf.Lang.Lexer.Raw.raw_shell_body shellf.Lang.Lexer.Raw.try_raw_word
    shellf.Lang.Lexer.Raw.try_raw_byte shellf.Lang.Lexer.Raw.raw_ident
    shellf.Lang.ShellRules.replace_separator shellf.Lang.ShellRules.replace_separators
    shellf.Lang.ShellRules.split_lines shellf.Lang.ShellRules.split_segments
    shellf.Lang.ShellRules.split_spaces shellf.Lang.ShellRules.drop_empty
    shellf.Lang.ShellRules.words shellf.Lang.ShellRules.is_skippable
    shellf.Lang.ShellRules.is_quoted shellf.Lang.ShellRules.base_name
    shellf.Lang.ShellRules.command_of shellf.Lang.ShellRules.leading_command
    shellf.Lang.ShellRules.commands_of shellf.Lang.ShellRules.command_words
    shellf.Lang.ShellRules.is_ruled shellf.Lang.ShellRules.first_ruled
    shellf.Lang.ShellRules.check_shell_body shellf.Lang.Parser.◌>>=◌ shellf.Lang.Parser.pure
    shellf.Lang.Parser.tok shellf.Lang.Parser.fail shellf.Lang.Parser.refuse_if
    shellf.Lang.Parser.starve shellf.Lang.Parser.adv shellf.Lang.Parser.expect
    shellf.Lang.Parser.skip_kind shellf.Lang.Parser.peek shellf.Lang.Parser.Shell.valid_interp
    shellf.Lang.Parser.Shell.on_lexer shellf.Lang.Parser.Shell.raw_body
    shellf.Lang.Parser.Shell.shell_interp shellf.Lang.Parser.Shell.is_trusted
    shellf.Lang.Parser.Shell.check_body shellf.Lang.Parser.Shell.shell_block
    shellf.Lang.Parser.Exprs.is_primitive shellf.Lang.Parser.Exprs.has_pattern
    shellf.Lang.Parser.Exprs.is_in_def shellf.Lang.Parser.Exprs.args_loop
    shellf.Lang.Parser.Exprs.call_args shellf.Lang.Parser.Exprs.peek_qualified_call
    shellf.Lang.Parser.Exprs.peek_is_call shellf.Lang.Parser.Exprs.bad_literal
    shellf.Lang.Parser.Exprs.primitive_call shellf.Lang.Parser.Exprs.control_path_lit
    shellf.Lang.Parser.Exprs.named shellf.Lang.Parser.Exprs.word shellf.Lang.Parser.Exprs.primary_at
    shellf.Lang.Parser.Exprs.primary shellf.Lang.Parser.Exprs.fields_of
    shellf.Lang.Parser.Exprs.postfix shellf.Lang.Parser.Exprs.unary_expr
    shellf.Lang.Parser.Exprs.comparison shellf.Lang.Parser.Exprs.expr
    shellf.Lang.Parser.Stmts.is_category shellf.Lang.Parser.Stmts.state_fields
    shellf.Lang.Parser.Stmts.state_return shellf.Lang.Parser.Stmts.outcome
    shellf.Lang.Parser.Stmts.stmts_loop shellf.Lang.Parser.Stmts.block
    shellf.Lang.Parser.Stmts.simple_stmt shellf.Lang.Parser.Stmts.stmt_with
    shellf.Lang.Parser.Stmts.stmt shellf.Lang.Parser.Stmts.phase shellf.Lang.Parser.Defs.lexer
    shellf.Lang.Parser.Checks.is_phase shellf.Lang.Parser.Checks.is_removed
    shellf.Lang.Parser.Checks.only_check shellf.Lang.Parser.Checks.check_delegation
    shellf.Lang.Parser.Checks.last_return shellf.Lang.Parser.Checks.final_return
    shellf.Lang.Parser.Checks.check_apply_returns shellf.Lang.Parser.Checks.nominal_return
    shellf.Lang.Parser.Defs.param_type shellf.Lang.Parser.Defs.header_loop
    shellf.Lang.Parser.Defs.enter_def shellf.Lang.Parser.Defs.leave_def
    shellf.Lang.Parser.Checks.check_body_form shellf.Lang.Parser.Defs.defs_loop
    shellf.Lang.Parser.Defs.is_def_start shellf.Lang.Parser.Defs.params_loop
    shellf.Lang.Parser.Defs.params shellf.Lang.Parser.Defs.delegation
    shellf.Lang.Parser.Defs.body_loop shellf.Lang.Parser.Defs.def_body shellf.Lang.Parser.Defs.def
    shellf.Lang.Parser.Defs.parse_defs shellf.Lang.Parser.Defs.def_with_source
    shellf.Lang.Parser.Defs.library_def shellf.Lang.Parser.Defs.parse_library
    shellf.Lang.Parser.Checks.has_shell shellf.Lang.Parser.Checks.any_shell
commented_command = refl
