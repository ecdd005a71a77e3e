-- ===== src/Lang/Ast.antt =====
-- internal/lang/ast.go: the syntax tree of a `def`. A Go slice of nodes inside a node is a list
-- type of its own here, since a node type cannot hold a `List` of itself.
use shellf.Prelude.{ℕ, Bool, List, Option, Str}

-- `Expr` and its implementations. The value `nil` of the interface is `absent`.
mutual
  pub data Expr : Type 0 where
    absent : Expr
    str_lit : Str → Expr
    control_path : Str → Expr
    bool_lit : Bool → Expr
    int_lit : Str → Expr
    ident : Str → Expr
    field : Expr → Str → Expr
    binary : Str → Expr → Expr → Expr
    unary : Str → Expr → Expr
    call : Str → Args → Bool → Expr
    shell_expr : Str → ℕ → Str → Expr

  -- `Call.Args`
  pub data Args : Type 0 where
    no_arg : Args
    arg : Expr → Args → Args

-- `Outcome`: `category.tag(payload)`. A missing payload is `absent`.
pub record Outcome : Type 0 where
  pub category : Str
  pub tag : Str
  pub payload : Expr

pub record StateField : Type 0 where
  pub name : Str
  pub value : Expr

-- `Stmt` and its implementations.
mutual
  pub data Stmt : Type 0 where
    let_stmt : Str → Expr → Stmt
    effect_stmt : Expr → Stmt
    if_stmt : Expr → Stmts → Stmt
    return_stmt : Outcome → Stmt
    state_return_stmt : List StateField → Stmt

  -- `[]Stmt`
  pub data Stmts : Type 0 where
    skip : Stmts
    seq : Stmt → Stmts → Stmts

pub record Phase : Type 0 where
  pub name : Str
  pub stmts : Stmts

pub record Param : Type 0 where
  pub name : Str
  pub type : Str
  pub default : Option Expr

-- `Call`, where the program holds one outside an expression (`Def.Delegate`).
pub record Call : Type 0 where
  pub name : Str
  pub args : Args
  pub control : Bool

pub record Def : Type 0 where
  pub name : Str
  pub params : List Param
  pub become : Str
  pub interp : Str
  pub override : Bool
  pub phases : List Phase
  pub delegate : Option Call
  pub ret : Option Outcome
  pub source : Str

-- `DefResolver`
abbrev pub DefResolver : Type 0
DefResolver = Str → Option Def
