-- ===== src/Lang/Cycles/Called.antt =====
-- Which defs a def calls, read off its syntax: `Callees` lists these names and no other.
use shellf.Prelude.{
  Bool, true, false, not, List, [], ◌∷◌, Option, none, some, Str, str_eq, any, any-In,
  In-append_left, In-append_right, if◌then◌else◌, ◌≡◌, ◌↔◌, ◌⊎◌, inl, inr, refl, sym, subst, In,
  In-append_cases, Bool-cases, nothing, joined,
}
use shellf.Lang.Ast.{
  Expr, absent, str_lit, control_path, bool_lit, int_lit, ident, field, binary, unary, call,
  shell_expr, Args, no_arg, arg, Stmt, let_stmt, effect_stmt, if_stmt, return_stmt,
  state_return_stmt, Stmts, skip, seq, StateField, Phase, Call, Def,
}
use shellf.Lang.Cycles.{
  add, calls_in_expr, calls_in_args, calls_in_fields, calls_in_stmt, calls_in_stmts,
  calls_in_phases, add_delegate, callees, callees_of,
}

-- A call of `n` that is no primitive stands in the expression, however deep.
unfoldable mutual
  pub CalledInExpr : Str → Expr → Type 0
  CalledInExpr n (call name args control) = ((control ≡ false) × (n ≡ name)) ⊎ CalledInArgs n args
  CalledInExpr n (binary op l r) = CalledInExpr n l ⊎ CalledInExpr n r
  CalledInExpr n (unary op x) = CalledInExpr n x
  CalledInExpr n (field recv name) = CalledInExpr n recv
  CalledInExpr n absent = ⊥
  CalledInExpr n (str_lit s) = ⊥
  CalledInExpr n (control_path s) = ⊥
  CalledInExpr n (bool_lit b) = ⊥
  CalledInExpr n (int_lit s) = ⊥
  CalledInExpr n (ident s) = ⊥
  CalledInExpr n (shell_expr cmd line interp) = ⊥

  pub CalledInArgs : Str → Args → Type 0
  CalledInArgs n no_arg = ⊥
  CalledInArgs n (arg a as_) = CalledInExpr n a ⊎ CalledInArgs n as_

unfoldable pub CalledInFields : Str → List StateField → Type 0
unfolding CalledInExpr
CalledInFields n [] = ⊥
CalledInFields n (f ∷ fs) = CalledInExpr n f.value ⊎ CalledInFields n fs

-- It stands in the statement, its condition and its body included; the payload of a `return` is
-- left out, as `callsInStmts` leaves it out.
unfoldable mutual
  pub CalledInStmt : Str → Stmt → Type 0
  CalledInStmt n (if_stmt cond body) = CalledInExpr n cond ⊎ CalledInStmts n body
  CalledInStmt n (let_stmt name value) = CalledInExpr n value
  CalledInStmt n (effect_stmt e) = CalledInExpr n e
  CalledInStmt n (state_return_stmt fields) = CalledInFields n fields
  CalledInStmt n (return_stmt o) = ⊥

  pub CalledInStmts : Str → Stmts → Type 0
  CalledInStmts n skip = ⊥
  CalledInStmts n (seq s ss) = CalledInStmt n s ⊎ CalledInStmts n ss

unfoldable pub CalledInPhases : Str → List Phase → Type 0
CalledInPhases n [] = ⊥
CalledInPhases n (ph ∷ phs) = CalledInStmts n ph.stmts ⊎ CalledInPhases n phs

abbrev pub DelegatesTo : Str → Option Call → Type 0
DelegatesTo n none = ⊥
DelegatesTo n (some c) = (c.control ≡ false) × (n ≡ c.name)

-- A statement of some phase of the def calls `n`, or the def delegates to `n`. What the code does
-- not look at is left out: the payload of a `return`, the arguments of the delegation, and the
-- defaults of the parameters.
unfoldable pub Called : Str → Def → Type 0
unfolding CalledInPhases
Called n d = CalledInPhases n d.phases ⊎ DelegatesTo n d.delegate

add-In : (n name : Str) (out : List Str) → ((n ≡ name) ⊎ In n out) ↔ In n (add out name)
unfolding add
add-In n name out = elim (Bool-cases (any (str_eq name) out)) [
  | inl there ↦ rw there (
    λ h. elim h [ inl same ↦ subst (λ x. In x out) (sym same) (any-In name out there) | inr m ↦ m ],
    inr,
  )
  | inr fresh ↦ rw fresh (
    λ h. elim h [
      | inl same ↦ In-append_right n out (name ∷ []) (inl same)
      | inr m ↦ In-append_left n out (name ∷ []) m
    ],
    λ m. elim (In-append_cases n out (name ∷ []) m) [
      | inl old ↦ inr old
      | inr (inl same) ↦ inl same
      | inr (inr none_left) ↦ elim none_left [ ]
    ],
  )
]

add_called-In :
    (n name : Str) (control : Bool) (out : List Str)
    → (((control ≡ false) × (n ≡ name)) ⊎ In n out)
      ↔ In n (if not control then add out name else out)
add_called-In n name true out = (λ h. elim h [ inl (e, same) ↦ absurd (cc) | inr m ↦ m ], inr)
add_called-In n name false out = (
  λ h. (add-In n name out).0 (elim h [ inl (e, same) ↦ inl same | inr m ↦ inr m ]),
  λ m. elim ((add-In n name out).1 m) [ inl same ↦ inl (refl, same) | inr old ↦ inr old ],
)

mutual
  unfolding calls_in_expr CalledInExpr

  calls_in_expr-In :
      (n : Str) (x : Expr) (out : List Str)
      → (CalledInExpr n x ⊎ In n out) ↔ In n (calls_in_expr x out)
  calls_in_expr-In n (call name args control) out =
      joined (add_called-In n name control out)
        (calls_in_args-In n args (if not control then add out name else out))
  calls_in_expr-In n (binary op l r) out =
      joined (calls_in_expr-In n l out) (calls_in_expr-In n r (calls_in_expr l out))
  calls_in_expr-In n (unary op x) out = calls_in_expr-In n x out
  calls_in_expr-In n (field recv name) out = calls_in_expr-In n recv out
  calls_in_expr-In n absent out = nothing
  calls_in_expr-In n (str_lit s) out = nothing
  calls_in_expr-In n (control_path s) out = nothing
  calls_in_expr-In n (bool_lit b) out = nothing
  calls_in_expr-In n (int_lit s) out = nothing
  calls_in_expr-In n (ident s) out = nothing
  calls_in_expr-In n (shell_expr cmd line interp) out = nothing

  calls_in_args-In :
      (n : Str) (as_ : Args) (out : List Str)
      → (CalledInArgs n as_ ⊎ In n out) ↔ In n (calls_in_args as_ out)
  calls_in_args-In n no_arg out = nothing
  calls_in_args-In n (arg a as_) out =
      joined (calls_in_expr-In n a out) (calls_in_args-In n as_ (calls_in_expr a out))

calls_in_fields-In :
    (n : Str) (fs : List StateField) (out : List Str)
    → (CalledInFields n fs ⊎ In n out) ↔ In n (calls_in_fields fs out)
unfolding calls_in_fields CalledInFields
calls_in_fields-In n [] out = nothing
calls_in_fields-In n (f ∷ fs) out =
    joined (calls_in_expr-In n f.value out) (calls_in_fields-In n fs (calls_in_expr f.value out))

mutual
  unfolding calls_in_stmt CalledInStmt

  calls_in_stmt-In :
      (n : Str) (s : Stmt) (out : List Str)
      → (CalledInStmt n s ⊎ In n out) ↔ In n (calls_in_stmt s out)
  calls_in_stmt-In n (if_stmt cond body) out =
      joined (calls_in_expr-In n cond out) (calls_in_stmts-In n body (calls_in_expr cond out))
  calls_in_stmt-In n (let_stmt name value) out = calls_in_expr-In n value out
  calls_in_stmt-In n (effect_stmt e) out = calls_in_expr-In n e out
  calls_in_stmt-In n (state_return_stmt fields) out = calls_in_fields-In n fields out
  calls_in_stmt-In n (return_stmt o) out = nothing

  calls_in_stmts-In :
      (n : Str) (ss : Stmts) (out : List Str)
      → (CalledInStmts n ss ⊎ In n out) ↔ In n (calls_in_stmts ss out)
  calls_in_stmts-In n skip out = nothing
  calls_in_stmts-In n (seq s ss) out =
      joined (calls_in_stmt-In n s out) (calls_in_stmts-In n ss (calls_in_stmt s out))

calls_in_phases-In :
    (n : Str) (phs : List Phase) (out : List Str)
    → (CalledInPhases n phs ⊎ In n out) ↔ In n (calls_in_phases phs out)
unfolding calls_in_phases CalledInPhases
calls_in_phases-In n [] out = nothing
calls_in_phases-In n (ph ∷ phs) out =
    joined (calls_in_stmts-In n ph.stmts out)
      (calls_in_phases-In n phs (calls_in_stmts ph.stmts out))

add_delegate-In :
    (n : Str) (o : Option Call) (out : List Str)
    → (DelegatesTo n o ⊎ In n out) ↔ In n (add_delegate o out)
unfolding add_delegate
add_delegate-In n none out = nothing
add_delegate-In n (some c) out = add_called-In n c.name c.control out

pub callees-In : (n : Str) (d : Def) → Called n d ↔ In n (callees d)
unfolding callees Called
callees-In n d =
    let both =
      joined (calls_in_phases-In n d.phases [])
        (add_delegate-In n d.delegate (calls_in_phases d.phases [])) in
    (λ c. both.0 (inl c), λ m. elim (both.1 m) [ inl c ↦ c | inr none_left ↦ elim none_left [ ] ])

-- The same of what a name resolves to.
abbrev pub CalledFrom : Str → Option Def → Type 0
CalledFrom n none = ⊥
CalledFrom n (some d) = Called n d

pub callees_of-In : (n : Str) (o : Option Def) → CalledFrom n o ↔ In n (callees_of o)
callees_of-In n none = (λ h. h, λ h. h)
callees_of-In n (some d) = callees-In n d
