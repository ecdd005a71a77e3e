-- ===== src/Lang/Parser/ExprsClean.antt =====
-- internal/lang/def_parser.go: an expression takes a token at least, within the fuel that the measure
-- asks for, and is clean.
use shellf.Prelude.{
  ℕ, zero, suc, ◌≤◌, Bool, true, false, not, ◌||◌, if◌then◌else◌, Str, str, str_eq, ◌≡◌, refl, sym,
  ◌∙◌, arith,
}
use shellf.Lang.Ast.{Expr, field, no_arg, arg}
use shellf.Lang.Lexer.{
  TokKind, eof, is_kind, Token, string, number, lparen, rparen, comma, dot, eq_eq, not_eq, bang,
  percent, tilde, raw_string,
}
use shellf.Lang.Lexer as L
use shellf.Lang.Parser.{P, pure, is_word}
use shellf.Lang.Parser.Exprs.{
  is_primitive, with_rest, args_loop, call_args, qualified, peek_qualified_call, peek_is_call,
  primitive_call, is_in_def, control_path_lit, named, parenthesized, unsafe_shell, word, primary_at,
  primary, fields_of, postfix, unary_expr, comparison, expr,
}
use shellf.Lang.Parser.Clean.{CleanExpr, CleanArgs}
use shellf.Lang.Parser.Ensures.{
  Runs, Below, Ready, At, Gives, Any, Consumes, Runs-up, Runs-lax, Runs-none, Runs-At,
  Consumes-down, Consumes-Runs, not_eof, Runs-fail, Runs-if, Runs-tok, Runs-Ready, Runs-then,
  Runs-pure,
}
use shellf.Lang.Parser.Steps.{
  Ready-Below, adv-Ready, adv-Below, adv-then, expect-keeps, skip_kind-keeps, refuse_if-then,
  peek-Gives, not-false, shell_block-Clean,
}

-- The rest of a list behind a comma.
pub with_rest-Runs :
    {A B : Type 0} {n : ℕ} {d : Bool} {Q : A → Type 0} {R : B → Type 0} {rest : P A} (f : A → B)
    (z : A)
    → ((r : A) → Q r → R (f r))
    → R (f z)
    → Runs (Below n d) rest (Gives n d Q)
    → Runs (Below n d) (with_rest f z rest) (Gives n d R)
with_rest-Runs f z good none h = Runs-then (skip_kind-keeps comma) (λ more _.
    Runs-if more (λ _. Runs-then h (λ r q. Runs-pure _ (good r q))) (λ _. Runs-pure _ none))

args_loop-Clean :
    (d : Bool) (e : P Expr) (k n : ℕ)
    → k ≤ n
    → Consumes k d e (CleanExpr d)
    → Runs (Below k d) (args_loop n e) (Gives k d (CleanArgs d))
unfolding args_loop
args_loop-Clean d e zero n le h = Runs-none
args_loop-Clean d e (suc k) zero le h = absurd (omega arith)
args_loop-Clean d e (suc k) (suc n) le h = Runs-tok _ (λ t. Runs-At (
    Runs-if (is_kind t.kind rparen) (λ _. Runs-pure _ tt)
      (λ _. Runs-then (h.from k (omega arith)) (λ a q. Runs-up (omega arith) (
        with_rest-Runs (arg a) no_arg (λ r g. (q, g)) (q, tt)
          (args_loop-Clean d e k n (omega arith) (Consumes-down (suc k) (omega arith) h)))))))

call_args-Clean :
    (d : Bool) (e : P Expr) (k n : ℕ)
    → k ≤ n
    → Consumes k d e (CleanExpr d)
    → Runs (Below k d) (call_args n e) (Gives k d (CleanArgs d))
unfolding call_args
call_args-Clean d e k n le h = Runs-then (expect-keeps lparen _) (λ _ _.
    Runs-then (args_loop-Clean d e k n le h)
      (λ args q. Runs-then (expect-keeps rparen _) (λ _ _. Runs-pure _ q)))

qualified-Runs :
    {n : ℕ} {d : Bool} (name what : Str) → Runs (Below n d) (qualified name what) (Gives n d Any)
qualified-Runs name what =
    Runs-then adv-Below (λ _ _. Runs-then (expect-keeps L.ident what) (λ _ _. Runs-pure _ tt))

peek_qualified_call-Runs : {n : ℕ} {d : Bool} → Runs (Below n d) peek_qualified_call (Gives n d Any)
unfolding peek_qualified_call
peek_qualified_call-Runs = peek-Gives _ (
    Runs-then adv-Below (λ _ _. Runs-tok _ (λ t. Runs-At (
      Runs-if (is_kind t.kind L.ident)
        (λ _. Runs-then adv-Below (λ _ _. Runs-tok _ (λ t'. Runs-At (Runs-pure _ tt))))
        (λ _. Runs-pure _ tt)))))

pub peek_is_call-Runs : {n : ℕ} {d : Bool} → Runs (Below n d) peek_is_call (Gives n d Any)
unfolding peek_is_call
peek_is_call-Runs = peek-Gives _ (
    Runs-then adv-Below (λ _ _. Runs-tok _ (λ t. Runs-At (
      Runs-if (is_kind t.kind dot)
        (λ _. Runs-then adv-Below (λ _ _. Runs-tok _ (λ t'. Runs-At (
          Runs-if (is_kind t'.kind L.ident)
            (λ _. Runs-then adv-Below (λ _ _. Runs-tok _ (λ t''. Runs-At (Runs-pure _ tt))))
            (λ _. Runs-pure _ tt)))))
        (λ _. Runs-pure _ tt)))))

-- A name that may be qualified.
name-Runs :
    {n : ℕ} {d : Bool} (b : Bool) (w what : Str)
    → Runs (Below n d) (if b then qualified w what else pure w) (Gives n d Any)
name-Runs b w what = Runs-if b (λ _. qualified-Runs w what) (λ _. Runs-pure _ tt)

module _ (compiles : Str → Bool) where
  primitive_call-Clean :
      (d : Bool) (e : P Expr) (k n : ℕ)
      → k ≤ n
      → Consumes k d e (CleanExpr d)
      → Runs (Ready k d) (primitive_call compiles n e) (Gives k d (CleanExpr d))
  unfolding primitive_call
  primitive_call-Clean d e k n le h = Runs-then adv-Ready (λ _ _. Runs-tok _ (λ t. Runs-At (
      refuse_if-then _ _ (λ _. Runs-then adv-Below (λ _ _. Runs-tok _ (λ t'. Runs-At (
        Runs-then (name-Runs (is_kind t'.kind dot) t.val _) (λ name _.
          refuse_if-then _ (not (is_primitive name)) (λ known. Runs-tok _ (λ t''. Runs-At (
            refuse_if-then _ _ (λ _. Runs-then (call_args-Clean d e k n le h) (λ args q.
              refuse_if-then _ _
                (λ _. Runs-pure _ ((λ _. not-false (is_primitive name) known), q)))))))))))))))

  is_in_def-Runs : {n : ℕ} {d : Bool} → Runs (Below n d) is_in_def (Gives n d (λ b. d ≡ b))
  unfolding is_in_def
  is_in_def-Runs = record { run = λ p b. record { left = b; good = sym b.place } }

  control_path_lit-Clean :
      (d : Bool) (k : ℕ) → Runs (Ready k d) (control_path_lit compiles) (Gives k d (CleanExpr d))
  unfolding control_path_lit
  control_path_lit-Clean d k = Runs-then adv-Ready (λ _ _. Runs-tok _ (λ t. Runs-At (
      refuse_if-then _ _ (λ _. refuse_if-then _ _ (λ _. Runs-then is_in_def-Runs (λ inside e.
        refuse_if-then _ inside
          (λ outside. Runs-then adv-Below (λ _ _. Runs-pure _ (e ∙ outside)))))))))

  named-Clean :
      (d : Bool) (e : P Expr) (k n : ℕ) (w : Str)
      → k ≤ n
      → Consumes k d e (CleanExpr d)
      → Runs (Ready k d) (named compiles n e w) (Gives k d (CleanExpr d))
  unfolding named
  named-Clean d e k n w le h = Runs-then adv-Ready (λ _ _. Runs-tok _ (λ t. Runs-At (
      Runs-then
        (Runs-if {Post = Gives k d Any} (is_kind t.kind dot) (λ _. peek_qualified_call-Runs)
          (λ _. Runs-pure _ tt))
        (λ dotted _. Runs-then (name-Runs dotted w _) (λ name _. Runs-tok _ (λ t'. Runs-At (
          Runs-if (is_kind t'.kind lparen)
            (λ _. Runs-then (call_args-Clean d e k n le h) (λ args q. Runs-pure _ ((λ f. cc), q)))
            (λ _. Runs-pure _ tt))))))))

  parenthesized-Clean :
      (d : Bool) (e : P Expr) (k : ℕ)
      → Consumes k d e (CleanExpr d)
      → Runs (Ready k d) (parenthesized compiles e) (Gives k d (CleanExpr d))
  parenthesized-Clean d e k h = Runs-then adv-Ready (λ _ _.
      Runs-then (Consumes-Runs k h)
        (λ x q. Runs-then (expect-keeps rparen _) (λ _ _. Runs-pure _ q)))

  unsafe_shell-Clean :
      (d : Bool) (k : ℕ) → Runs (Ready k d) (unsafe_shell compiles) (Gives k d (CleanExpr d))
  unsafe_shell-Clean d k = Runs-then adv-Ready (λ _ _. Runs-tok _ (λ t. Runs-At (
      refuse_if-then _ (not (is_word t (str "shell")))
        (λ _. Ready-Below (shell_block-Clean true)))))

  word-Clean :
      (d : Bool) (e : P Expr) (k n : ℕ) (w : Str)
      → k ≤ n
      → Consumes k d e (CleanExpr d)
      → Runs (Ready k d) (word compiles n e w) (Gives k d (CleanExpr d))
  unfolding word
  word-Clean d e k n w le h =
      Runs-if (str_eq w (str "true") || str_eq w (str "false"))
        (λ _. Runs-then adv-Ready (λ _ _. Runs-pure _ tt))
        (λ _.
          Runs-if (str_eq w (str "shell")) (λ _. shell_block-Clean false)
            (λ _.
              Runs-if (str_eq w (str "unsafe")) (λ _. unsafe_shell-Clean d k)
                (λ _. named-Clean d e k n w le h)))

  primary_at-Clean :
      (d : Bool) (e : P Expr) (k n : ℕ) (t : Token)
      → k ≤ n
      → Consumes k d e (CleanExpr d)
      → Runs (At t (Below (suc k) d)) (primary_at compiles n e t) (Gives k d (CleanExpr d))
  unfolding primary_at
  primary_at-Clean d e k n t le h =
      Runs-if (is_kind t.kind tilde)
        (λ c. Runs-Ready (not_eof t.kind tilde tt c) (primitive_call-Clean d e k n le h))
        (λ _.
          Runs-if (is_kind t.kind percent)
            (λ c. Runs-Ready (not_eof t.kind percent tt c) (control_path_lit-Clean d k))
            (λ _.
              Runs-if (is_kind t.kind string || is_kind t.kind raw_string)
                (λ c.
                  Runs-Ready (literal (is_kind t.kind string) refl c)
                    (Runs-then adv-Ready (λ _ _. Runs-pure _ tt)))
                (λ _.
                  Runs-if (is_kind t.kind number)
                    (λ c.
                      Runs-Ready (not_eof t.kind number tt c)
                        (Runs-then adv-Ready (λ _ _. Runs-pure _ tt)))
                    (λ _.
                      Runs-if (is_kind t.kind lparen)
                        (λ c. Runs-Ready (not_eof t.kind lparen tt c) (parenthesized-Clean d e k h))
                        (λ _.
                          Runs-if (is_kind t.kind L.ident)
                            (λ c.
                              Runs-Ready (not_eof t.kind L.ident tt c)
                                (word-Clean d e k n t.val le h))
                            (λ _. Runs-fail _))))))
    where
      literal :
          (b : Bool)
          → b ≡ is_kind t.kind string
          → (b || is_kind t.kind raw_string) ≡ true
          → is_kind t.kind eof ≡ false
      literal true e c = not_eof t.kind string tt (sym e)
      literal false e c = not_eof t.kind raw_string tt c

  -- `primary` takes a token at least.
  pub primary-Clean :
      (d : Bool) (e : P Expr) (k n : ℕ)
      → k ≤ n
      → Consumes k d e (CleanExpr d)
      → Runs (Below (suc k) d) (primary compiles n e) (Gives k d (CleanExpr d))
  unfolding primary
  primary-Clean d e k n le h = Runs-tok _ (λ t. primary_at-Clean d e k n t le h)

  fields_of-Clean :
      (d : Bool) (k n : ℕ) (x : Expr)
      → k ≤ n
      → CleanExpr d x
      → Runs (Below k d) (fields_of compiles n x) (Gives k d (CleanExpr d))
  unfolding fields_of
  fields_of-Clean d zero n x le q = Runs-none
  fields_of-Clean d (suc k) zero x le q = absurd (omega arith)
  fields_of-Clean d (suc k) (suc n) x le q = Runs-tok _ (λ t.
      Runs-if (is_kind t.kind dot)
        (λ c. adv-then dot tt c (
          Runs-then (expect-keeps L.ident _)
            (λ f _. Runs-up (omega arith) (fields_of-Clean d k n (field x f.val) (omega arith) q))))
        (λ _. Runs-At (Runs-pure _ q)))

  unary_expr-Clean :
      (d : Bool) (e : P Expr) (k n : ℕ)
      → suc k ≤ n
      → Consumes k d e (CleanExpr d)
      → Runs (Below (suc k) d) (unary_expr compiles n e) (Gives k d (CleanExpr d))
  unfolding unary_expr postfix
  unary_expr-Clean d e k zero le h = absurd (omega arith)
  unary_expr-Clean d e k (suc n) le h = Runs-tok _ (λ t.
      Runs-if (is_kind t.kind bang)
        (λ c. adv-then bang tt c (
          Runs-then
            (Runs-lax k (λ j e'.
              unary_expr-Clean d e j n (omega (arith, e', le))
                (Consumes-down k (omega (arith, e')) h)))
            (λ x q. Runs-pure _ q)))
        (λ _. Runs-At (
          Runs-then (primary-Clean d e k (suc n) (omega arith) h)
            (λ x q. fields_of-Clean d k (suc n) x (omega arith) q))))

  comparison-Clean :
      (d : Bool) (e : P Expr) (k n : ℕ)
      → suc k ≤ n
      → Consumes k d e (CleanExpr d)
      → Runs (Below (suc k) d) (comparison compiles n e) (Gives k d (CleanExpr d))
  unfolding comparison
  comparison-Clean d e k n le h = Runs-then (unary_expr-Clean d e k n le h) (λ left q.
      Runs-tok _ (λ t. Runs-At (
        Runs-if (is_kind t.kind eq_eq || is_kind t.kind not_eq)
          (λ _. Runs-then adv-Below (λ _ _.
            Runs-then
              (Runs-lax k (λ j e'.
                unary_expr-Clean d e j n (omega (arith, e', le))
                  (Consumes-down k (omega (arith, e')) h)))
              (λ right r. Runs-pure _ (q, r))))
          (λ _. Runs-pure _ q))))

  -- Fuel of the measure is enough for `expr`, which takes a token and is clean.
  pub expr-Clean : (d : Bool) (n : ℕ) → Consumes n d (expr compiles n) (CleanExpr d)
  unfolding expr
  expr-Clean d zero = record { from = λ k le. absurd (omega arith) }
  expr-Clean d (suc n) = record {
    from = λ k le.
        comparison-Clean d (expr compiles n) k (suc n) le
          (Consumes-down n (omega (arith, le)) (expr-Clean d n));
  }
