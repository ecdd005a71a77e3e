-- ===== src/Lang/Parser/DefsClean.antt =====
-- internal/lang/def_parser.go: the defs that `parseDefs` and `parseLibrary` accept are well formed, and
-- both end.
use shellf.Prelude.{
  ℕ, zero, suc, ◌≤◌, Bool, true, false, not, ◌||◌, List, [], ◌∷◌, Option, none, some, Str, str,
  str_eq, str_eq_iff, ◌≡◌, ◌≢◌, refl, sym, ◌∙◌, arith, inl, inr, ◌⊎◌, All,
}
use shellf.Lang.Ast.{
  Expr, absent, str_lit, control_path, bool_lit, int_lit, ident, field, binary, unary, call,
  shell_expr, Outcome, Stmts, skip, seq, Phase, Call,
}
use shellf.Lang.Lexer.{
  TokKind, eof, is_kind, kind_number, Token, lbrace, rbrace, lparen, rparen, eq, colon, new_lexer,
}
use shellf.Lang.Lexer as L
use shellf.Lang.Parser.{is_word}
use shellf.Lang.Parser.Shell.{valid_interp}
use shellf.Lang.Parser.Exprs.{expr}
use shellf.Lang.Parser.ExprsClean.{with_rest-Runs, primary-Clean, expr-Clean}
use shellf.Lang.Parser.StmtsClean.{word_live}
use shellf.Lang.Parser.Checks.{
  any_shell, only_check, check_delegation, last_return, need_return, final_return, need_verdict,
  check_apply_returns, check_body_form,
}
use shellf.Lang.Parser.Defs.{
  param_type, header_loop, as_call, is_some, default_of, params_loop, params, delegation,
}
use shellf.Lang.Parser.Clean.{
  CleanDefault, GoodParam, OnlyCheck, EndedApplies, BodyForm, GoodInterp, CleanExpr, CleanArgs,
}
use shellf.Lang.Parser.Ensures.{
  Runs, Below, Gives, Runs-up, Runs-map, Runs-lax, Runs-none, Runs-At, Consumes-down, Runs-fail,
  Runs-if, Runs-tok, Runs-Ready, Runs-then, Runs-pure,
}
use shellf.Lang.Parser.Steps.{
  adv-Ready, expect-takes, expect-keeps, skip_kind-keeps, refuse_if-then, refuse_if-Gives,
  not-false,
}

equal_name : (a b : Str) → not (str_eq a b) ≡ false → a ≡ b
equal_name a b h = (str_eq_iff a b).0 (not-false (str_eq a b) h)

other_name : (a b : Str) → str_eq a b ≡ false → a ≢ b
other_name a b h e = absurd (false_true (sym h ∙ (str_eq_iff a b).1 e))
  where
    false_true : false ≢ true
    false_true q = cc

only_check-Runs :
    {n : ℕ} {d : Bool} (phs : List Phase)
    → Runs (Below n d) (only_check phs) (Gives n d (λ _. OnlyCheck phs))
unfolding only_check
only_check-Runs [] = Runs-pure _ tt
only_check-Runs (ph ∷ phs) =
    refuse_if-then _ (not (str_eq ph.name (str "check")))
      (λ h. Runs-map (λ _ q. (equal_name ph.name (str "check") h, q)) (only_check-Runs phs))

Ended : Stmts → Type 0
Ended body = (o : Outcome) × (final_return body ≡ some o)

need_verdict-Runs :
    {n : ℕ} {d : Bool} (body : Stmts)
    → Runs (Below n d) (need_verdict body) (Gives n d (λ _. Ended body))
unfolding final_return Ended
need_verdict-Runs skip = Runs-fail _
need_verdict-Runs {n} {d} (seq s rest) = from (last_return s rest) refl
  where
    from :
        (r : Option Outcome)
        → last_return s rest ≡ r
        → Runs (Below n d) (need_return r) (Gives n d (λ _. Ended (seq s rest)))
    from none e = Runs-fail _
    from (some o) e = Runs-pure _ (o, e)

check_apply_returns-Runs :
    {n : ℕ} {d : Bool} (phs : List Phase)
    → Runs (Below n d) (check_apply_returns phs) (Gives n d (λ _. EndedApplies phs))
unfolding check_apply_returns Ended
check_apply_returns-Runs [] = Runs-pure _ tt
check_apply_returns-Runs (ph ∷ phs) =
    Runs-if (str_eq ph.name (str "apply"))
      (λ h.
        Runs-then (need_verdict-Runs ph.stmts)
          (λ _ q. Runs-map (λ _ r. ((λ _. q), r)) (check_apply_returns-Runs phs)))
      (λ h.
        Runs-map (λ _ r. ((λ e. absurd (other_name ph.name (str "apply") h e)), r))
          (check_apply_returns-Runs phs))

pub check_body_form-Runs :
    {n : ℕ} {d : Bool} (phs : List Phase) (c : Option Call)
    → Runs (Below n d) (check_body_form phs c) (Gives n d (λ _. BodyForm phs c))
unfolding check_body_form check_delegation
check_body_form-Runs phs none = check_apply_returns-Runs phs
check_body_form-Runs phs (some c) =
    Runs-then (only_check-Runs phs)
      (λ _ q. Runs-map (λ _ h. (q, h)) (refuse_if-Gives _ (any_shell c.args)))

param_type-Runs :
    {n : ℕ} {d : Bool}
    → Runs (Below n d) param_type (Gives n d (λ t. (t ≡ str "str") ⊎ (t ≡ str "bool")))
unfolding param_type
param_type-Runs = Runs-then (expect-keeps L.ident _) (λ t _.
    refuse_if-then _ (not (str_eq t.val (str "str") || str_eq t.val (str "bool")))
      (λ h. Runs-pure _ (known t.val (not-false _ h))))
  where
    either : (a b : Bool) → (a || b) ≡ true → (a ≡ true) ⊎ (b ≡ true)
    either true b h = inl refl
    either false b h = inr h

    known :
        (t : Str)
        → (str_eq t (str "str") || str_eq t (str "bool")) ≡ true
        → (t ≡ str "str") ⊎ (t ≡ str "bool")
    known t h = elim (either (str_eq t (str "str")) (str_eq t (str "bool")) h) [
      | inl e ↦ inl ((str_eq_iff t (str "str")).0 e)
      | inr e ↦ inr ((str_eq_iff t (str "bool")).0 e)
    ]

abbrev pub GoodHeader : Str × Str → Type 0
GoodHeader h = GoodInterp h.1

pub header_loop-Runs :
    {d : Bool} (k n : ℕ) (become interp : Str)
    → k ≤ n
    → GoodInterp interp
    → Runs (Below k d) (header_loop n become interp) (Gives k d GoodHeader)
unfolding header_loop
header_loop-Runs zero n become interp le g = Runs-none
header_loop-Runs (suc k) zero become interp le g = absurd (omega arith)
header_loop-Runs (suc k) (suc n) become interp le g = Runs-tok _ (λ t.
    Runs-if (is_word t (str "as"))
      (λ c. Runs-Ready (word_live t _ c) (
        Runs-then adv-Ready (λ _ _. Runs-then (expect-keeps L.ident _) (λ user _.
          Runs-up (omega arith) (header_loop-Runs k n user.val interp (omega arith) g)))))
      (λ _.
        Runs-if (is_word t (str "using"))
          (λ c. Runs-Ready (word_live t _ c) (
            Runs-then adv-Ready (λ _ _. Runs-then (expect-keeps L.ident _) (λ name _.
              refuse_if-then _ (not (valid_interp name.val)) (λ v. Runs-up (omega arith) (
                header_loop-Runs k n become name.val (omega arith)
                  (inr (not-false (valid_interp name.val) v))))))))
          (λ _. Runs-At (Runs-pure _ g))))

abbrev pub CleanCall : Call → Type 0
CleanCall c = CleanArgs true c.args

as_call-Runs :
    {n : ℕ} (x : Expr) → CleanExpr true x → Runs (Below n true) (as_call x) (Gives n true CleanCall)
as_call-Runs (call name args ctl) q = Runs-pure _ q.1
as_call-Runs (ident n) q = Runs-tok _ (λ t. Runs-fail _)
as_call-Runs absent q = Runs-tok _ (λ t. Runs-fail _)
as_call-Runs (str_lit s) q = Runs-tok _ (λ t. Runs-fail _)
as_call-Runs (control_path s) q = Runs-tok _ (λ t. Runs-fail _)
as_call-Runs (bool_lit b) q = Runs-tok _ (λ t. Runs-fail _)
as_call-Runs (int_lit s) q = Runs-tok _ (λ t. Runs-fail _)
as_call-Runs (field x s) q = Runs-tok _ (λ t. Runs-fail _)
as_call-Runs (binary op l r) q = Runs-tok _ (λ t. Runs-fail _)
as_call-Runs (unary op x) q = Runs-tok _ (λ t. Runs-fail _)
as_call-Runs (shell_expr c l i) q = Runs-tok _ (λ t. Runs-fail _)

module _ (compiles : Str → Bool) where
  default_of-Runs :
      (d : Bool) (k n : ℕ)
      → k ≤ n
      → Runs (Below k d) (default_of compiles n) (Gives k d (CleanDefault d))
  default_of-Runs d k n le = Runs-then (skip_kind-keeps eq) (λ has _.
      Runs-if has
        (λ _.
          Runs-then
            (Runs-lax k (λ j e.
              primary-Clean compiles d (expr compiles n) j n (omega (arith, e, le))
                (Consumes-down n (omega (arith, e, le)) (expr-Clean compiles d n))))
            (λ x q. Runs-pure _ q))
        (λ _. Runs-pure _ tt))

  params_loop-Runs :
      (d : Bool) (k n : ℕ)
      → k ≤ n
      → Runs (Below k d) (params_loop compiles n) (Gives k d (All (GoodParam d)))
  unfolding params_loop
  params_loop-Runs d zero n le = Runs-none
  params_loop-Runs d (suc k) zero le = absurd (omega arith)
  params_loop-Runs d (suc k) (suc n) le = Runs-tok _ (λ t. Runs-At (
      Runs-if (is_kind t.kind rparen) (λ _. Runs-pure _ tt)
        (λ _. Runs-then (expect-takes L.ident _ tt) (λ name _.
          Runs-then (expect-keeps colon _) (λ _ _. Runs-then param_type-Runs (λ type known.
            Runs-then (default_of-Runs d k (suc n) (omega arith)) (λ default clean.
              Runs-up (omega arith) (
                with_rest-Runs _ [] (λ r g. ((known, clean), g)) ((known, clean), tt)
                  (params_loop-Runs d k n (omega arith))))))))))

  pub params-Runs :
      (d : Bool) (k n : ℕ)
      → k ≤ n
      → Runs (Below k d) (params compiles n) (Gives k d (All (GoodParam d)))
  unfolding params
  params-Runs d k n le = Runs-then (expect-keeps lparen _) (λ _ _.
      Runs-then (params_loop-Runs d k n le)
        (λ ps q. Runs-then (expect-keeps rparen _) (λ _ _. Runs-pure _ q)))

  pub delegation-Runs :
      (k n : ℕ) (c : Option Call)
      → suc k ≤ n
      → Runs (Below (suc k) true) (delegation compiles n c) (Gives k true CleanCall)
  unfolding delegation
  delegation-Runs k n c le =
      refuse_if-then _ (is_some c)
        (λ _. Runs-then ((expr-Clean compiles true n).from k le) (λ x q. as_call-Runs x q))
