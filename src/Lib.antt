-- ===== src/Lib.antt =====
-- A model of shellf, a tool that runs a plan of idempotent steps on the hosts of an inventory.
--
-- The parts and their files. A plan is a list of blocks, each a target and steps; the orchestrator
-- (internal/orchestrator; here Orchestrator) checks the targets and the limit, resolves the steps for
-- each host (internal/proto; Proto, Proto/Resolve) against its inventory entry (internal/inventory;
-- Inventory), and sends a request to the agent of the host. The agent (internal/agent/agent.go; Agent,
-- with Agent/State and Agent/Answer) runs the steps in order, with `if`, `as`, `parallel` and caught
-- errors, and answers with a tree of results, which the reports (internal/report; Report) read. A step
-- calls a def, a small program in phases: its syntax tree is internal/lang/ast.go (Lang/Ast), and
-- EvalDefFull of internal/lang/eval.go is `eval_def` of Lang/Run, over Lang/Eval (expressions and
-- statements), Lang/Primitives (evalControlCall), Lang/Interp (interpolate), Lang/Cited (citedVars),
-- Lang/Fields (converged, diffFields) and Lang/Inert (inertApply, isQuestion). Lang/Cycles is
-- CheckCycles. A def is text first: internal/lang/lexer.go is Lang/Lexer (with Dedent and Raw below
-- it), and internal/lang/def_parser.go, with what it uses of parser.go, is Lang/Parser (Shell, Exprs,
-- Stmts, Checks, Defs); internal/lang/shellrules.go is Lang/ShellRules. What a plan is checked for before a
-- host is dialled is Lang/ArgCheck (internal/lang/argcheck.go) and Lang/ControlScan
-- (internal/lang/control_scan.go). Remote modules and their lock (internal/module) are Module. The
-- engine (internal/engine; Engine) holds results, the shell executor and the instructions written in
-- Go. PathGuard is internal/pathguard/pathguard.go. Prelude is shared: text, maps, sorting; Tests
-- holds concrete inputs.
--
-- How it corresponds. A Go function has the same name here in snake_case, or a comment names it. A
-- string is the list of its bytes. A Go map is an association list where it is walked and a function
-- into Bool where it is a set. The mutable evaluator is a state (Lang/Monad) that each computation
-- passes on; its panics keep the state they were raised in. The agent's scope is passed on likewise.
-- The parser is a state with the lexer and the token in hand; its panics are errors (Lang/Parser).
-- Goroutines (internal/fleet; Fleet) are workers, and a schedule is the list of those whose turn it
-- is. What lies outside is a parameter: `Machine` starts processes, `TempFiles`, `Codec` and `Regexp`
-- are the standard library's, the control channel is the three functions of `Services`, and `dial`
-- runs the agent of a host, `Outside` is the files, git and digests of the modules. Every one of them
-- changes a state `W` of the world that is passed along.
--
-- Fuel. `interpolate` recurs once for each `${`: more fuel than the text has bytes is enough, and the
-- evaluator gives it that, as ResolveRefs does for `expand_inventory`. `walk` of CheckCycles recurs
-- once for each def on the path: more fuel than names resolve is enough. `eval_def` recurs once for
-- each def on the chain of calls, which a def refuses to repeat; `starved` is its answer without fuel.
-- The path guard recurs once for each directory, and for `.`. The parser gives each loop and each nesting more
-- turns than the text has bytes: every turn takes a token, and every token a byte. All else is
-- structural.
--
-- Simplified. Within the orchestrator the hosts of a block, and in the agent the branches of a
-- `parallel`, run one after the other: one of the schedules of the goroutines; Fleet has them all.
-- Error texts are constructors with what they name. White space is that of ASCII. Not modelled: the
-- grammar of plans, inventories and variables (the rest of internal/lang/parser.go), the walks of the
-- argument checks over the steps and the evaluator they build (the rest of internal/lang/argcheck.go), the project files
-- (internal/project), the control channel and the transfer of trees (the rest of internal/agent, and
-- serve.go and sync.go of internal/orchestrator), transports, the rendered text of the reports and the
-- redaction, and the command line.
pub mod Prelude
pub mod Engine
pub mod Fleet
pub mod Lang
pub mod Proto
pub mod Agent
pub mod Inventory
pub mod Orchestrator
pub mod Module
pub mod PathGuard
pub mod Report
pub mod Tests
