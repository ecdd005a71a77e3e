-- ===== src/Lang/Parser/StmtsClean.antt =====
-- internal/lang/def_parser.go: a statement takes a token at least, within the fuel that the measure asks
-- for, and is clean.
use shellf.Prelude.{
  ℕ, zero, suc, ◌≤◌, Bool, true, false, not, ◌&&◌, [], Str, str, ◌≡◌, refl, ap, arith,
}
use shellf.Lang.Ast.{
  Expr, absent, str_lit, control_path, bool_lit, int_lit, ident, field, binary, unary, call,
  shell_expr, Stmt,
}
use shellf.Lang.Lexer.{TokKind, eof, is_kind, Token, lbrace, rbrace, lparen, rparen, eq, colon, dot}
use shellf.Lang.Lexer as L
use shellf.Lang.Parser.{P, is_word}
use shellf.Lang.Parser.Exprs.{expr}
use shellf.Lang.Parser.ExprsClean.{with_rest-Runs, expr-Clean}
use shellf.Lang.Parser.Stmts.{
  is_category, state_fields, state_return, payload, outcome, stmts_loop, block, bound_name,
  simple_stmt, return_of, if_of, stmt_with, stmt, phase,
}
use shellf.Lang.Parser.Clean.{CleanExpr, CleanOutcome, CleanFields, CleanStmt, CleanStmts}
use shellf.Lang.Parser.Ensures.{
  Runs, Below, Ready, At, Gives, Any, Consumes, Runs-up, Runs-none, Runs-At, Consumes-down,
  Consumes-Runs, not_eof, Runs-fail, Runs-if, Runs-tok, Runs-Ready, Runs-then, Runs-pure,
}
use shellf.Lang.Parser.Steps.{
  adv-Ready, adv-Below, expect-hand, expect-keeps, skip_kind-keeps, refuse_if-then, not-false,
}

state_fields-Clean :
    (d : Bool) (e : P Expr) (k n : ℕ)
    → k ≤ n
    → Consumes k d e (CleanExpr d)
    → Runs (Below k d) (state_fields n e) (Gives k d (CleanFields d))
unfolding state_fields
state_fields-Clean d e zero n le h = Runs-none
state_fields-Clean d e (suc k) zero le h = absurd (omega arith)
state_fields-Clean d e (suc k) (suc n) le h = Runs-tok _ (λ t. Runs-At (
    Runs-if (is_kind t.kind rparen) (λ _. Runs-pure _ tt)
      (λ _. Runs-then (expect-keeps L.ident _) (λ name _. Runs-then (expect-keeps colon _) (λ _ _.
        Runs-then (h.from k (omega arith)) (λ a q. Runs-up (omega arith) (
          with_rest-Runs _ [] (λ r g. (q, g)) (q, tt)
            (state_fields-Clean d e k n (omega arith)
              (Consumes-down (suc k) (omega arith) h)))))))))

state_return-Clean :
    (d : Bool) (e : P Expr) (k n : ℕ)
    → k ≤ n
    → Consumes k d e (CleanExpr d)
    → Runs (Below k d) (state_return n e) (Gives k d (CleanStmt d))
unfolding state_return
state_return-Clean d e k n le h = Runs-then (expect-keeps L.ident _) (λ _ _.
    Runs-then (expect-keeps lparen _) (λ _ _.
      Runs-then (state_fields-Clean d e k n le h)
        (λ fs q. Runs-then (expect-keeps rparen _) (λ _ _. Runs-pure _ q))))

module _ (d : Bool) (e : P Expr) (k : ℕ) (h : Consumes k d e (CleanExpr d)) where
  payload-Clean : Runs (Below k d) (payload e) (Gives k d (CleanExpr d))
  payload-Clean = Runs-tok _ (λ t. Runs-At (
      Runs-if (is_kind t.kind lparen)
        (λ _. Runs-then adv-Below (λ _ _.
          Runs-then (Consumes-Runs k h)
            (λ x q. Runs-then (expect-keeps rparen _) (λ _ _. Runs-pure _ q))))
        (λ _. Runs-pure _ tt)))

  outcome-Clean : Runs (Below k d) (outcome e) (Gives k d (CleanOutcome d))
  unfolding outcome
  outcome-Clean = Runs-then (expect-keeps L.ident _) (λ category _.
      refuse_if-then _ (not (is_category category.val)) (λ known.
        Runs-then (skip_kind-keeps dot) (λ dotted _.
          Runs-if dotted
            (λ _. Runs-then (expect-keeps L.ident _) (λ tag _.
              Runs-then payload-Clean
                (λ x q. Runs-pure _ (not-false (is_category category.val) known, q))))
            (λ _. Runs-pure _ (not-false (is_category category.val) known, tt)))))

  bound_name-Runs : {n : ℕ} (x : Expr) → Runs (Below n d) (bound_name x) (Gives n d Any)
  bound_name-Runs (ident n) = Runs-pure _ tt
  bound_name-Runs absent = Runs-fail _
  bound_name-Runs (str_lit s) = Runs-fail _
  bound_name-Runs (control_path s) = Runs-fail _
  bound_name-Runs (bool_lit b) = Runs-fail _
  bound_name-Runs (int_lit s) = Runs-fail _
  bound_name-Runs (field x s) = Runs-fail _
  bound_name-Runs (binary op l r) = Runs-fail _
  bound_name-Runs (unary op x) = Runs-fail _
  bound_name-Runs (call n a c) = Runs-fail _
  bound_name-Runs (shell_expr c l i) = Runs-fail _

stmts_loop-Clean :
    (d : Bool) (s : P Stmt) (k n : ℕ)
    → k ≤ n
    → Consumes k d s (CleanStmt d)
    → Runs (Below k d) (stmts_loop n s) (Gives k d (CleanStmts d))
unfolding stmts_loop
stmts_loop-Clean d s zero n le h = Runs-none
stmts_loop-Clean d s (suc k) zero le h = absurd (omega arith)
stmts_loop-Clean d s (suc k) (suc n) le h = Runs-tok _ (λ t. Runs-At (
    Runs-if (is_kind t.kind rbrace) (λ _. Runs-pure _ tt)
      (λ _. Runs-then (h.from k (omega arith)) (λ x q.
        Runs-then
          (Runs-up (omega arith)
            (stmts_loop-Clean d s k n (omega arith) (Consumes-down (suc k) (omega arith) h)))
          (λ rest r. Runs-pure _ (q, r))))))

pub block-Clean :
    (d : Bool) (s : P Stmt) (k n : ℕ)
    → k ≤ n
    → Consumes k d s (CleanStmt d)
    → Runs (Below k d) (block n s) (Gives k d (CleanStmts d))
unfolding block
block-Clean d s k n le h = Runs-then (expect-keeps lbrace _) (λ _ _.
    Runs-then (stmts_loop-Clean d s k n le h)
      (λ body q. Runs-then (expect-keeps rbrace _) (λ _ _. Runs-pure _ q)))

simple_stmt-Clean :
    (d : Bool) (e : P Expr) (k : ℕ)
    → Consumes (suc k) d e (CleanExpr d)
    → Runs (Below (suc k) d) (simple_stmt e) (Gives k d (CleanStmt d))
unfolding simple_stmt
simple_stmt-Clean d e k h = Runs-then (h.from k (omega arith)) (λ lhs q. Runs-tok _ (λ t. Runs-At (
    Runs-if (is_kind t.kind eq)
      (λ _. Runs-then (bound_name-Runs d e k (Consumes-down (suc k) (omega arith) h) lhs) (λ name _.
        Runs-then adv-Below (λ _ _.
          Runs-then (Consumes-Runs k (Consumes-down (suc k) (omega arith) h))
            (λ value r. Runs-pure _ r))))
      (λ _. Runs-pure _ q))))

first_true : (a b : Bool) → (a && b) ≡ true → a ≡ true
first_true true b c = refl
first_true false b c = cc

-- A token that is a word is not the end.
pub word_live :
    (t : Token) (b : Bool) → (is_kind t.kind L.ident && b) ≡ true → is_kind t.kind eof ≡ false
word_live t b c = not_eof t.kind L.ident tt (first_true (is_kind t.kind L.ident) b c)

module _ (d : Bool) (e : P Expr) (s : P Stmt) (k n : ℕ) (le : suc k ≤ n)
    (h : Consumes (suc k) d e (CleanExpr d)) (g : Consumes k d s (CleanStmt d)) where
  nested : Consumes k d e (CleanExpr d)
  nested = Consumes-down (suc k) (omega arith) h

  if_of-Clean : Runs (Ready k d) (if_of n e s) (Gives k d (CleanStmt d))
  if_of-Clean = Runs-then adv-Ready (λ _ _. Runs-then (Consumes-Runs k nested) (λ cond q.
      Runs-then (block-Clean d s k n (omega (arith, le)) g) (λ body r. Runs-pure _ (q, r))))

  return_of-Clean : Runs (Ready k d) (return_of n e) (Gives k d (CleanStmt d))
  return_of-Clean = Runs-then adv-Ready (λ _ _. Runs-tok _ (λ t. Runs-At (
      Runs-if (is_word t (str "state")) (λ _. state_return-Clean d e k n (omega (arith, le)) nested)
        (λ _. Runs-then (outcome-Clean d e k nested) (λ o q. Runs-pure _ q)))))

  stmt_with-Clean : Runs (Below (suc k) d) (stmt_with n e s) (Gives k d (CleanStmt d))
  unfolding stmt_with
  stmt_with-Clean = Runs-tok _ (λ t.
      Runs-if (is_word t (str "if")) (λ c. Runs-Ready (word_live t _ c) if_of-Clean)
        (λ _.
          Runs-if (is_word t (str "return")) (λ c. Runs-Ready (word_live t _ c) return_of-Clean)
            (λ _. Runs-At (simple_stmt-Clean d e k h))))

module _ (compiles : Str → Bool) where
  -- Fuel of the measure is enough for `stmt`, which takes a token and is clean.
  pub stmt-Clean : (d : Bool) (n : ℕ) → Consumes n d (stmt compiles n) (CleanStmt d)
  unfolding stmt
  stmt-Clean d zero = record { from = λ k le. absurd (omega arith) }
  stmt-Clean d (suc n) = record {
    from = λ k le.
        stmt_with-Clean d (expr compiles (suc n)) (stmt compiles n) k (suc n) le
          (Consumes-down (suc n) le (expr-Clean compiles d (suc n)))
          (Consumes-down n (omega (arith, le)) (stmt-Clean d n));
  }

  -- A phase has the name that is in hand.
  pub phase-Clean :
      (d : Bool) (k n : ℕ) (t : Token)
      → k ≤ n
      → Runs
          (At t (Below (suc k) d))
          (phase compiles n)
          (Gives k d (λ ph. (ph.name ≡ t.val) × CleanStmts d ph.stmts))
  unfolding phase
  phase-Clean d k n t le = Runs-then (expect-hand L.ident _ t tt) (λ name e.
      Runs-then (block-Clean d (stmt compiles n) k n le (Consumes-down n le (stmt-Clean d n)))
        (λ body q. Runs-pure _ (ap (λ u. u.val) e, q)))
