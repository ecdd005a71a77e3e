-- ===== src/Lang/Parser/Steps.antt =====
-- internal/lang/parser.go: the rules for `adv`, `expect`, the looks ahead and the shell blocks.
use shellf.Prelude.{
  ℕ, zero, suc, ◌+◌, ◌≤◌, ◌<◌, Bool, true, false, not, ◌||◌, Option, none, some, if◌then◌else◌,
  List, [], Str, str, length, ◌≡◌, ◌⊎◌, inl, inr, refl, sym, ap, ◌∙◌, arith, Bool-cases,
}
use shellf.Prelude
use shellf.Lang.Lexer.{TokKind, is_kind, Token, Lexer, Lexed, token, lex_error, next}
use shellf.Lang.Lexer.Raw.{Captured, try_raw_byte, raw_ident, raw_shell_body}
use shellf.Lang.Lexer.Raw
use shellf.Lang.Lexer.Shrinks.{
  GoodLexed, next-Good, raw_shell_body-le, try_raw_byte-le, raw_ident-le, CapturedWithin,
}
use shellf.Lang.ShellRules.{check_shell_body}
use shellf.Lang.Parser.{
  ParserState, Parsed, ok, failed, out_of_fuel, P, ◌>>◌, pure, fail, refuse_if, take_token, adv,
  expect, is_word, skip_kind, peek, Complaint,
}
use shellf.Lang.Parser.Shell.{
  valid_interp, on_lexer, take_captured, raw_body, is_trusted, shell_interp, refuse_command,
  check_body, shell_block,
}
use shellf.Lang.Parser.Clean.{GoodInterp, CleanExpr}
use shellf.Lang.Parser.Ensures.{
  Ensures, Ensures-weaken, Runs, measure, Live, Below, Ready, At, Gives, Any, Runs-At, not_eof,
  Runs-fail, Runs-if, Runs-tok, Runs-Ready, Runs-bind, Runs-then, Runs-here, Runs-pure,
}

-- The token that is in hand is dropped, and the next one takes its place in the measure.
pub adv-Ready : {n : ℕ} {d : Bool} → Runs (Ready n d) adv (Gives n d Any)
unfolding adv measure
adv-Ready {n} {d} = record { run = λ p pre. go p pre (next p.lex) (next-Good p.lex) }
  where
    go :
        (p : ParserState)
        → Ready n d p
        → (r : Lexed) → GoodLexed p.lex r
        → Ensures (Gives n d Any) (take_token p r)
    go p pre (lex_error e) g = tt
    go p pre (token t l) (inl (k, e)) = record {
      left = record {
        room =
            omega (arith, pre.room, ap length e, ap (λ b. length l.rest + (if b then 0 else 1)) k);
        place = pre.place;
      };
      good = tt;
    }
    go p pre (token t l) (inr (k, lt)) = record {
      left = record {
        room = omega (arith, pre.room, lt, ap (λ b. length l.rest + (if b then 0 else 1)) k);
        place = pre.place;
      };
      good = tt;
    }

pub Ready-Below :
    {A : Type 0} {m : P A} {Post : A → ParserState → Type 0} {n : ℕ} {d : Bool}
    → Runs (Ready n d) m Post
    → Runs (Below n d) m Post
unfolding measure
Ready-Below h = record {
  run = λ p b. h.run p (record { room = omega (arith, b.room); place = b.place });
}

pub adv-Below : {n : ℕ} {d : Bool} → Runs (Below n d) adv (Gives n d Any)
adv-Below = Ready-Below adv-Ready

-- What follows an `adv` past a token that is not the end.
pub adv-then :
    {A : Type 0} {Post : A → ParserState → Type 0} {n : ℕ} {d : Bool} {t : Token} {m : P A}
    (k : TokKind)
    → Live k
    → is_kind t.kind k ≡ true
    → Runs (Below n d) m Post
    → Runs (At t (Below (suc n) d)) (adv >> m) Post
adv-then {t = t} k live h r = Runs-Ready (not_eof t.kind k live h) (Runs-then adv-Ready (λ _ _. r))

abbrev expect_at : TokKind → Str → Token → P Token
expect_at k what t =
    if is_kind t.kind k then (adv >> pure t) else fail (Complaint.expected what t.val)

expect_at-takes :
    {n : ℕ} {d : Bool} (k : TokKind) (what : Str) (t : Token)
    → Live k
    → Runs (At t (Below (suc n) d)) (expect_at k what t) (Gives n d Any)
expect_at-takes k what t live =
    Runs-if (is_kind t.kind k) (λ h. adv-then k live h (Runs-pure _ tt)) (λ h. Runs-fail _)

-- The token that is in hand is one token.
Runs-hand :
    {A : Type 0} {m : P A} {Pre : ParserState → Type 0} {Post : A → ParserState → Type 0}
    {t u : Token}
    → (u ≡ t → Runs (At u Pre) m Post)
    → Runs (At u (At t Pre)) m Post
Runs-hand h = record {
  run = λ p pre.
      (h (sym pre.hand ∙ pre.also.hand)).run p (record { hand = pre.hand; also = pre.also.also });
}

-- `expect`, of a kind that is not the end's, takes a token.
pub expect-takes :
    {n : ℕ} {d : Bool} (k : TokKind) (what : Str)
    → Live k
    → Runs (Below (suc n) d) (expect k what) (Gives n d Any)
unfolding expect
expect-takes k what live = Runs-tok _ (λ t. expect_at-takes k what t live)

-- `expect` answers the token in hand.
pub expect-hand :
    {n : ℕ} {d : Bool} (k : TokKind) (what : Str) (t : Token)
    → Live k
    → Runs (At t (Below (suc n) d)) (expect k what) (Gives n d (λ u. u ≡ t))
unfolding expect
expect-hand k what t live = Runs-tok _ (λ u.
    Runs-hand
      (λ e. Runs-if (is_kind u.kind k) (λ h. adv-then k live h (Runs-pure _ e)) (λ h. Runs-fail _)))

pub expect-keeps :
    {n : ℕ} {d : Bool} (k : TokKind) (what : Str) → Runs (Below n d) (expect k what) (Gives n d Any)
unfolding expect
expect-keeps k what = Runs-tok _ (λ t.
    Runs-if (is_kind t.kind k) (λ h. Runs-then (Runs-At adv-Below) (λ _ _. Runs-pure _ tt))
      (λ h. Runs-fail _))

pub skip_kind-keeps :
    {n : ℕ} {d : Bool} (k : TokKind) → Runs (Below n d) (skip_kind k) (Gives n d Any)
unfolding skip_kind
skip_kind-keeps k = Runs-tok _ (λ t.
    Runs-if (is_kind t.kind k) (λ h. Runs-then (Runs-At adv-Below) (λ _ _. Runs-pure _ tt))
      (λ h. Runs-At (Runs-pure _ tt)))

refuse_if-keeps :
    {Pre : ParserState → Type 0} (c : Complaint) (test : Bool)
    → Runs Pre (refuse_if test c) (λ _ p. Pre p × (test ≡ false))
unfolding refuse_if
refuse_if-keeps c true = record { run = λ p b. tt }
refuse_if-keeps c false = record { run = λ p b. (b, refl) }

-- What follows a guard.
pub refuse_if-then :
    {A : Type 0} {Pre : ParserState → Type 0} {Post : A → ParserState → Type 0} {m : P A}
    (c : Complaint) (test : Bool)
    → (test ≡ false → Runs Pre m Post)
    → Runs Pre (refuse_if test c >> m) Post
refuse_if-then c test h =
    Runs-bind _ _ (refuse_if-keeps c test) (λ _. record { run = λ p b. (h b.1).run p b.0 })

pub refuse_if-Gives :
    {n : ℕ} {d : Bool} (c : Complaint) (test : Bool)
    → Runs (Below n d) (refuse_if test c) (Gives n d (λ _. test ≡ false))
unfolding refuse_if
refuse_if-Gives c true = record { run = λ p b. tt }
refuse_if-Gives c false = record { run = λ p b. record { left = b; good = refl } }

-- A look ahead leaves the state as it was.
pub peek-keeps :
    {A : Type 0} {Pre : ParserState → Type 0} {Mid : A → ParserState → Type 0} (m : P A)
    → Runs Pre m Mid
    → Runs Pre (peek m) (λ _ p. Pre p)
unfolding peek
peek-keeps {A} {Pre} {Mid} m h = record { run = λ p pre. go p pre (m p) (h.run p pre) }
  where
    go :
        (p : ParserState)
        → Pre p
        → (r : Parsed A) → Ensures Mid r
        → Ensures
            (λ (_ : A) (p' : ParserState). Pre p')
            (elim r [ ok a p' ↦ ok a p | failed e ↦ failed e | out_of_fuel ↦ out_of_fuel ])
    go p pre (ok a p') q = pre
    go p pre (failed e) q = tt
    go p pre out_of_fuel q = q

pub peek-Gives :
    {A : Type 0} {n : ℕ} {d : Bool} (m : P A)
    → Runs (Below n d) m (Gives n d Any)
    → Runs (Below n d) (peek m) (Gives n d Any)
peek-Gives {n = n} {d} m h = record {
  run = λ p b.
      Ensures-weaken (λ a p' q. record { left = q; good = tt }) (peek m p)
        ((peek-keeps m h).run p b);
}

-- A move of the lexer that gives no text back.
pub on_lexer-keeps :
    {A : Type 0} {n : ℕ} {d : Bool} (f : Lexer → A × Lexer)
    → ((l : Lexer) → length (f l).1.rest ≤ length l.rest)
    → Runs (Ready n d) (on_lexer f) (λ _ p. Ready n d p)
unfolding on_lexer
on_lexer-keeps f le = record {
  run = λ p b. record { room = omega (arith, b.room, le p.lex); place = b.place };
}

record InterpGiven (n : ℕ) (d : Bool) (i : Str) (p : ParserState) : Type 0 where
  ready : Ready n d p
  interp : GoodInterp i

pub not-false : (b : Bool) → not b ≡ false → b ≡ true
not-false true h = refl
not-false false h = cc

shell_interp-keeps : {n : ℕ} {d : Bool} → Runs (Ready n d) shell_interp (InterpGiven n d)
unfolding shell_interp
shell_interp-keeps = Runs-bind _ _ (on_lexer-keeps _ (try_raw_byte-le b'(')) (λ opened.
    Runs-if opened
      (λ h. Runs-bind _ _ (on_lexer-keeps _ raw_ident-le) (λ name.
        Runs-bind _ _ (on_lexer-keeps _ (try_raw_byte-le b')')) (λ closed.
          refuse_if-then _ (not closed) (λ c. refuse_if-then _ (not (valid_interp name)) (λ v.
            Runs-here _
              (λ p b. record { ready = b; interp = inr (not-false (valid_interp name) v) }))))))
      (λ h. Runs-here _ (λ p b. record { ready = b; interp = inl refl })))

raw_body-keeps : {n : ℕ} {d : Bool} → Runs (Ready n d) raw_body (λ _ p. Ready n d p)
unfolding raw_body
raw_body-keeps {n} {d} = record {
  run = λ p b. go p b (raw_shell_body p.lex) (raw_shell_body-le p.lex);
}
  where
    go :
        (p : ParserState)
        → Ready n d p
        → (r : Captured) → CapturedWithin p.lex r
        → Ensures (λ (_ : Str) (p' : ParserState). Ready n d p') (take_captured p r)
    go p b (Raw.captured s l) w = record { room = omega (arith, b.room, w); place = b.place }
    go p b (Raw.failed e) w = tt

is_trusted-keeps : {Pre : ParserState → Type 0} → Runs Pre is_trusted (λ _ p. Pre p)
unfolding is_trusted
is_trusted-keeps = record { run = λ p b. b }

check_body-keeps :
    {n : ℕ} {d : Bool} (unsafe : Bool) (body : Str)
    → Runs (Ready n d) (check_body unsafe body) (λ _ p. Ready n d p)
unfolding check_body
check_body-keeps {n} {d} unsafe body = Runs-bind _ _ is_trusted-keeps (λ trusted.
    Runs-if (unsafe || trusted) (λ h. Runs-here _ (λ p b. b))
      (λ h. by_rule (check_shell_body body)))
  where
    by_rule : (o : Option Str) → Runs (Ready n d) (refuse_command o) (λ _ p. Ready n d p)
    by_rule none = Runs-here _ (λ p b. b)
    by_rule (some c) = Runs-fail _

from_given :
    {A : Type 0} {m : P A} {Post : A → ParserState → Type 0} {n : ℕ} {d : Bool} {i : Str}
    → (GoodInterp i → Runs (Ready n d) m Post)
    → Runs (InterpGiven n d i) m Post
from_given h = record { run = λ p g. (h g.interp).run p g.ready }

-- A shell block: the word `shell` is in hand.
pub shell_block-Clean :
    {n : ℕ} {d : Bool} (unsafe : Bool)
    → Runs (Ready n d) (shell_block unsafe) (Gives n d (CleanExpr d))
unfolding shell_block
shell_block-Clean unsafe = Runs-tok _ (λ keyword. Runs-At (
    Runs-bind _ _ shell_interp-keeps (λ interp. from_given (λ good.
      Runs-bind _ _ raw_body-keeps (λ body. Runs-bind _ _ (check_body-keeps unsafe body) (λ _.
        Runs-then adv-Ready (λ _ _. Runs-tok _ (λ t.
          Runs-At
            (refuse_if-then _ (is_word t (Prelude.str "unless")) (λ _. Runs-pure _ good))))))))))
