-- ===== src/Lang/Parser/Accepted.antt =====
-- internal/lang/def_parser.go, `parseDefs`, and `parseLibrary` of internal/lang/parser.go: both end, and
-- the defs that they accept are well formed.
use shellf.Prelude.{
  ℕ, zero, suc, ◌≤◌, Bool, true, false, not, ◌&&◌, List, [], ◌∷◌, ◌++◌, Option, none, some, Str,
  str, str_eq, length, ◌≡◌, ◌≢◌, refl, ap, ◌∙◌, arith, inl, All, All-append, subst,
}
use shellf.Lang.Ast.{Phase, Param, Call, Def}
use shellf.Lang.Lexer.{TokKind, eof, is_kind, kind_number, Token, lbrace, rbrace}
use shellf.Lang.Lexer as L
use shellf.Lang.Parser.{
  Parsed, ok, failed, out_of_fuel, P, ◌>>◌, adv, is_word, new_parser, Caught, parsed, refused,
  starved, catch,
}
use shellf.Lang.Parser.ExprsClean.{peek_is_call-Runs}
use shellf.Lang.Parser.StmtsClean.{phase-Clean}
use shellf.Lang.Parser.Checks.{is_phase, is_removed}
use shellf.Lang.Parser.Defs.{
  enter_def, leave_def, body_loop, header, def_body, def, defs_loop, parse_defs, is_def_start,
  lexer, def_with_source, library_def, parse_library,
}
use shellf.Lang.Parser.DefsClean.{
  check_body_form-Runs, header_loop-Runs, params-Runs, delegation-Runs,
}
use shellf.Lang.Parser.Clean.{GoodParam, GoodPhase, CleanDelegate, WellFormed}
use shellf.Lang.Parser.Ensures.{
  Ensures, Runs, measure, Below, Gives, Any, Runs-up, Runs-none, Runs-At, Runs-fail, Runs-if,
  Runs-tok, Runs-then, Runs-pure,
}
use shellf.Lang.Parser.Steps.{adv-Below, expect-takes, expect-keeps, refuse_if-then}

abbrev GoodBody : List Phase × Option Call → Type 0
GoodBody b = All GoodPhase b.0 × CleanDelegate b.1

second_true : (a b : Bool) → (a && b) ≡ true → b ≡ true
second_true true b c = c
second_true false b c = cc

enter_def-Runs : {n : ℕ} {d : Bool} → Runs (Below n d) enter_def (Gives n true (λ outer. outer ≡ d))
unfolding enter_def measure
enter_def-Runs = record {
  run = λ p b. record { left = record { room = b.room; place = refl }; good = b.place };
}

leave_def-Runs :
    {n : ℕ} {d : Bool} (outer : Bool)
    → outer ≡ d
    → Runs (Below n true) (leave_def outer) (Gives n d Any)
unfolding leave_def measure
leave_def-Runs outer e = record {
  run = λ p b. record { left = record { room = b.room; place = e }; good = tt };
}

lexer-Runs : {n : ℕ} {d : Bool} → Runs (Below n d) lexer (Gives n d Any)
unfolding lexer
lexer-Runs = record { run = λ p b. record { left = b; good = tt } }

header-Runs : {n : ℕ} {d : Bool} → Runs (Below (suc n) d) header (Gives n d Any)
header-Runs = Runs-then (expect-takes L.ident _ tt) (λ kw _.
    Runs-if (str_eq kw.val (str "override"))
      (λ _. Runs-then (expect-keeps L.ident _) (λ _ _. Runs-pure _ tt)) (λ _. Runs-pure _ tt))

module _ (compiles : Str → Bool) where
  body_loop-Runs :
      (k n : ℕ) (phs : List Phase) (c : Option Call)
      → k ≤ n
      → GoodBody (phs, c)
      → Runs (Below k true) (body_loop compiles n phs c) (Gives k true GoodBody)
  unfolding body_loop
  body_loop-Runs zero n phs c le g = Runs-none
  body_loop-Runs (suc k) zero phs c le g = absurd (omega arith)
  body_loop-Runs (suc k) (suc n) phs c le g = Runs-tok _ (λ t.
      Runs-if (is_kind t.kind rbrace) (λ _. Runs-At (Runs-pure _ g))
        (λ _.
          Runs-if (is_kind t.kind L.ident && is_phase t.val)
            (λ h. Runs-then (phase-Clean compiles true k (suc n) t (omega arith)) (λ ph q.
              Runs-up (omega arith) (
                body_loop-Runs k n (phs ++ (ph ∷ [])) c (omega arith) (
                  All-append GoodPhase phs (ph ∷ []) g.0
                      ((ap is_phase q.0 ∙ second_true _ _ h, q.1), tt),
                  g.1,
                ))))
            (λ _.
              Runs-if (is_kind t.kind L.ident && is_removed t.val) (λ _. Runs-fail _)
                (λ _.
                  Runs-if (is_word t (str "return")) (λ _. Runs-fail _)
                    (λ _.
                      Runs-if (is_kind t.kind L.ident)
                        (λ _. Runs-At (
                          Runs-then peek_is_call-Runs (λ calls _.
                            Runs-if calls
                              (λ _.
                                Runs-then (delegation-Runs compiles k (suc n) c (omega arith))
                                  (λ c' q.
                                    Runs-up (omega arith)
                                      (body_loop-Runs k n phs (some c') (omega arith) (g.0, q))))
                              (λ _. Runs-fail _))))
                        (λ _. Runs-fail _))))))

  def_body-Runs :
      (k n : ℕ) (name : Str) (ps : List Param) (override : Bool)
      → k ≤ n
      → All (GoodParam false) ps
      → Runs (Below k true) (def_body compiles n name ps override) (Gives k true WellFormed)
  unfolding def_body
  def_body-Runs k n name ps override le good =
      Runs-then (header_loop-Runs k n [] [] le (inl refl)) (λ escalation interp.
        Runs-then (expect-keeps lbrace _) (λ _ _.
          Runs-then (body_loop-Runs k n [] none le (tt, tt)) (λ body q.
            Runs-then (expect-keeps rbrace _) (λ _ _.
              Runs-then (check_body_form-Runs body.0 body.1) (λ _ form. Runs-pure _ (record {
                params = good;
                interp = interp;
                phases = q.0;
                delegate = q.1;
                form = form;
                verdict = refl;
              }))))))

  -- Outside of a def, `def` takes a token and answers a well-formed def, within the fuel of the measure.
  def-Runs :
      (k n : ℕ) → k ≤ n → Runs (Below (suc k) false) (def compiles n) (Gives k false WellFormed)
  unfolding def
  def-Runs k n le = Runs-then header-Runs (λ kw _. refuse_if-then _ _ (λ _.
      Runs-then (expect-keeps L.ident _) (λ name _.
        Runs-then (params-Runs compiles false k n le) (λ ps good.
          Runs-then enter_def-Runs (λ outer e.
            Runs-then (def_body-Runs k n name.val ps kw.0 le good)
              (λ d q. Runs-then (leave_def-Runs outer e) (λ _ _. Runs-pure _ q)))))))

  -- The source text of a def is no part of its form.
  with_source-WellFormed : (d : Def) (s : Str) → WellFormed d → WellFormed (record d { source = s })
  with_source-WellFormed d s w = record {
    params = w.params;
    interp = w.interp;
    phases = w.phases;
    delegate = w.delegate;
    form = w.form;
    verdict = w.verdict;
  }

  library_def-Runs :
      (k n : ℕ)
      → k ≤ n
      → Runs (Below (suc k) false) (library_def compiles n) (Gives k false WellFormed)
  unfolding library_def def_with_source
  library_def-Runs k n le = Runs-tok _ (λ t. Runs-At (
      refuse_if-then _ (is_word t (str "import")) (λ _.
        refuse_if-then _ (not (is_def_start t)) (λ _. Runs-then lexer-Runs (λ before _.
          Runs-then (def-Runs k n le) (λ d q.
            Runs-then lexer-Runs (λ behind _. Runs-pure _ (with_source-WellFormed d _ q))))))))

defs_loop-Runs :
    (one : P Def) (k n : ℕ)
    → k ≤ n
    → ((j : ℕ) → suc j ≤ k → Runs (Below (suc j) false) one (Gives j false WellFormed))
    → Runs (Below k false) (defs_loop n one) (Gives k false (All WellFormed))
unfolding defs_loop
defs_loop-Runs one zero n le h = Runs-none
defs_loop-Runs one (suc k) zero le h = absurd (omega arith)
defs_loop-Runs one (suc k) (suc n) le h = Runs-tok _ (λ t. Runs-At (
    Runs-if (is_kind t.kind eof) (λ _. Runs-pure _ tt)
      (λ _. Runs-then (h k (omega arith)) (λ d q.
        Runs-then
          (Runs-up (omega arith)
            (defs_loop-Runs one k n (omega arith) (λ j lt. h j (omega (arith, lt)))))
          (λ ds r. Runs-pure _ (q, r))))))

-- A parse that ended, with good defs if it accepted the text.
abbrev GoodParse : Caught (List Def) → Type 0
GoodParse (parsed ds) = All WellFormed ds
GoodParse (refused e) = Unit {0}
GoodParse starved = ⊥

start-Below : (trusted : Bool) (src : Str) → Below (suc (length src)) false (new_parser trusted src)
unfolding measure is_kind kind_number
start-Below trusted src = record { room = omega arith; place = refl }

file-GoodParse :
    (src : Str) (trusted : Bool) (one : P Def)
    → ((j : ℕ)
        → suc j ≤ suc (length src)
        → Runs (Below (suc j) false) one (Gives j false WellFormed))
    → GoodParse (catch ((adv >> defs_loop (suc (length src)) one) (new_parser trusted src)))
file-GoodParse src trusted one h = from _ (
    (Runs-then adv-Below
        (λ _ _. defs_loop-Runs one (suc (length src)) (suc (length src)) (omega arith) h)).run
      (new_parser trusted src) (start-Below trusted src))
  where
    from :
        (r : Parsed (List Def))
        → Ensures (Gives (suc (length src)) false (All WellFormed)) r
        → GoodParse (catch r)
    from (ok ds p) g = g.good
    from (failed e) g = tt
    from out_of_fuel g = g

module _ (compiles : Str → Bool) where
  parse_defs-GoodParse : (src : Str) (trusted : Bool) → GoodParse (parse_defs compiles src trusted)
  unfolding parse_defs
  parse_defs-GoodParse src trusted =
      file-GoodParse src trusted (def compiles (suc (length src)))
        (λ j lt. def-Runs compiles j (suc (length src)) (omega (arith, lt)))

  parse_library-GoodParse : (src : Str) → GoodParse (parse_library compiles src)
  unfolding parse_library
  parse_library-GoodParse src =
      file-GoodParse src false (library_def compiles (suc (length src)))
        (λ j lt. library_def-Runs compiles j (suc (length src)) (omega (arith, lt)))

not_starved : (r : Caught (List Def)) → GoodParse r → r ≢ starved
not_starved r g e = subst GoodParse e g

parsed_good :
    (r : Caught (List Def)) (ds : List Def) → GoodParse r → r ≡ parsed ds → All WellFormed ds
parsed_good r ds g e = subst GoodParse e g

-- On every text, from the project or of a library, trusted or not, the parse of a file of defs ends:
-- it accepts the text or reports an error, and never runs out of the turns that the length of the text
-- allows.
pub parse_defs_terminates :
    (compiles : Str → Bool) (src : Str) (trusted : Bool)
    → (parse_defs compiles src trusted ≢ starved) × (parse_library compiles src ≢ starved)
parse_defs_terminates compiles src trusted = (
  not_starved _ (parse_defs-GoodParse compiles src trusted),
  not_starved _ (parse_library-GoodParse compiles src),
)

-- Every def that `parseDefs` accepts is well formed: each parameter is a `str` or a `bool`; the
-- interpreters are known ones; the phases have known names; in the body stand no path of the control
-- host and no unknown primitive; a def that delegates has `check` phases only and no shell call among the
-- arguments that `hasShell` looks into; in any other def each `apply` ends with a `return`; and the
-- verdict of check mode is the nominal return of the phases.
pub parse_defs-WellFormed :
    (compiles : Str → Bool) (src : Str) (trusted : Bool) (ds : List Def)
    → parse_defs compiles src trusted ≡ parsed ds
    → All WellFormed ds
parse_defs-WellFormed compiles src trusted ds =
    parsed_good _ ds (parse_defs-GoodParse compiles src trusted)

-- Every def that `parseLibrary` accepts is well formed in the same sense.
pub parse_library-WellFormed :
    (compiles : Str → Bool) (src : Str) (ds : List Def)
    → parse_library compiles src ≡ parsed ds
    → All WellFormed ds
parse_library-WellFormed compiles src ds = parsed_good _ ds (parse_library-GoodParse compiles src)
