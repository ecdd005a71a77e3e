-- ===== src/Lang/ArgCheck/PrimitivesStill.antt =====
-- A pure primitive leaves the world as it was, where its arguments do.
use shellf.Prelude.{
  length, ◌==◌, ℕ, zero, suc, Bool, true, false, not, ◌||◌, if◌then◌else◌, List, [], ◌∷◌, Option,
  none, some, Str, str, str_eq, All, ◌≡◌,
}
use shellf.Lang.Value.{
  Value, nil, text, int, bool, bytes, control, outcome, wrong_kind, bad_pattern,
}
use shellf.Lang.Monad.{M, ◌>>=◌, pure, fail}
use shellf.Lang.Services.{Services, Config}
use shellf.Lang.Primitives.{
  control_call, argument, content_of, same_kind, text_replacement, text_answer, eval_text, arity,
}
use shellf.Lang.ArgCheck.{is_pure_primitive}
use shellf.Lang.ArgCheck.Rules.{Still-bind, Still-pure, Still-fail, Still-if, Still}

module _ {W : Type 0} (sv : Services W) (cfg : Config) where
  Thunks : Type 0
  Thunks = List (M W Value)

  argument-Still :
      (i : ℕ) (ts : List (M W Value)) → All (λ t. Still t) ts → Still (argument sv cfg i ts)
  argument-Still i [] q = Still-fail _
  argument-Still zero (t ∷ ts) q = q.0
  argument-Still (suc i) (t ∷ ts) q = argument-Still i ts q.1

  text_replacement-Still :
      (name : Str) (ts : List (M W Value))
      → All (λ t. Still t) ts
      → Still (text_replacement sv cfg name ts)
  unfolding text_replacement
  text_replacement-Still name ts q =
      Still-bind (argument sv cfg 2 ts)
        (λ v. elim (content_of sv cfg v) [ none ↦ fail (wrong_kind name) | some t ↦ pure t ])
        (argument-Still 2 ts q) (λ v. of_content (content_of sv cfg v))
    where
      of_content :
          (o : Option Str)
          → Still {W = W}
              (elim o as (λ _. M W Str) [ none ↦ fail (wrong_kind name) | some t ↦ pure t ])
      of_content none = Still-fail _
      of_content (some t) = Still-pure t

  text_answer-Still :
      (name pattern_ : Str) (subject : Value) (ts : List (M W Value))
      → All (λ t. Still t) ts
      → Still (text_answer sv cfg name pattern_ subject ts)
  unfolding text_answer
  text_answer-Still name pattern_ subject ts q = of_content (content_of sv cfg subject)
    where
      with_text : Str → M W Value
      with_text s =
          if str_eq name (str "text.matches")
          then pure (bool (sv.regexp.matches pattern_ s))
          else (text_replacement sv cfg name ts >>= λ r.
              pure (same_kind sv cfg subject (sv.regexp.replace_all_literal pattern_ s r)))

      of_content :
          (o : Option Str)
          → Still
              (elim o as (λ _. M W Value) [ none ↦ fail (wrong_kind name) | some s ↦ with_text s ])
      of_content none = Still-fail _
      of_content (some s) = Still-if (str_eq name (str "text.matches")) _ _ (Still-pure _) (
          Still-bind (text_replacement sv cfg name ts)
            (λ r. pure (same_kind sv cfg subject (sv.regexp.replace_all_literal pattern_ s r)))
            (text_replacement-Still name ts q) (λ r. Still-pure _))

  eval_text-Still :
      (name : Str) (ts : List (M W Value))
      → All (λ t. Still t) ts
      → Still (eval_text sv cfg name ts)
  unfolding eval_text
  eval_text-Still name ts q =
      Still-bind (argument sv cfg 0 ts) (λ subject. argument sv cfg 1 ts >>= with_pattern subject)
        (argument-Still 0 ts q)
        (λ subject.
          Still-bind (argument sv cfg 1 ts) (with_pattern subject) (argument-Still 1 ts q)
            (with_pattern-Still subject))
    where
      with_pattern : Value → Value → M W Value
      with_pattern subject p = elim p [
        | text pattern_ ↦
            if sv.regexp.compiles pattern_
            then text_answer sv cfg name pattern_ subject ts
            else fail bad_pattern
        | _ ↦ fail (wrong_kind name)
      ]

      with_pattern-Still : (subject p : Value) → Still (with_pattern subject p)
      with_pattern-Still subject (text pattern_) =
          Still-if (sv.regexp.compiles pattern_) _ _ (text_answer-Still name pattern_ subject ts q)
            (Still-fail _)
      with_pattern-Still subject nil = Still-fail _
      with_pattern-Still subject (int n) = Still-fail _
      with_pattern-Still subject (bool b) = Still-fail _
      with_pattern-Still subject (bytes b) = Still-fail _
      with_pattern-Still subject (control c) = Still-fail _
      with_pattern-Still subject (Value.shell r) = Still-fail _
      with_pattern-Still subject (outcome r) = Still-fail _

  Still-if_true :
      {A : Type 0} (b : Bool) (m k : M W A) → b ≡ true → Still m → Still (if b then m else k)
  Still-if_true true m k e h = h
  Still-if_true false m k e h = cc

  pub control_call-Still :
      (name : Str) (ts : List (M W Value))
      → is_pure_primitive name ≡ true
      → All (λ t. Still t) ts
      → Still (control_call sv cfg name ts)
  unfolding control_call is_pure_primitive
  control_call-Still name ts known q = Still-if (not (length ts == arity name)) _ _ (Still-fail _) (
      Still-if_true (str_eq name (str "text.matches") || str_eq name (str "text.replace")) _ _ known
        (eval_text-Still name ts q))
