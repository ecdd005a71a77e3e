-- ===== src/Lang.antt =====
-- internal/lang: the syntax tree of a def, its text (lexer, parser, shell rules), its evaluation, and what
-- is checked of it before a run: call cycles, pure checks, the control-host paths of a plan.
pub mod Ast
pub mod Cycles
pub mod Interp
pub mod Lexer
pub mod Value
pub mod Fields
pub mod Monad
pub mod Services
pub mod Primitives
pub mod Cited
pub mod Eval
pub mod Inert
pub mod Run
pub mod ShellRules
pub mod ArgCheck
pub mod ControlScan
pub mod Parser
