-- ===== src/Lang/ArgCheck/Rules.antt =====
-- Computations of the evaluator that leave the world as it was, and the ways to put them together.
use shellf.Prelude.{
  length, suc, Bool, true, false, not, if◌then◌else◌, Option, none, some, Str, str, str_eq, lookup,
  ◌≡◌, refl, ◌∙◌,
}
use shellf.Lang.Value.{
  Value, EvalError, nil, text, int, bool, bytes, control, outcome, unbound, no_such_field,
  uncomparable, is_comparable, equal,
}
use shellf.Lang.Monad.{
  Ev, Out, done, failed, stopped, out_of_fuel, M, ◌>>=◌, ◌>>◌, pure, fail, refuse_if,
}
use shellf.Lang.Interp
use shellf.Lang.Interp.{Text, interpolate}
use shellf.Lang.Eval.{
  interpolate_here, eval_ident, field_of, compare_values, set_last, set_var, from_text, scope,
  last_ok,
}

-- Every way out of the computation leaves the world of the evaluator as it was.
abbrev pub StillOut : {W A : Type 0} → W → Out W A → Type 0
StillOut w (done a e) = e.world ≡ w
StillOut w (failed err e) = e.world ≡ w
StillOut w (stopped r e) = e.world ≡ w
StillOut w out_of_fuel = Unit {0}

pub record Still {W A : Type 0} (m : M W A) : Type 0 where
  pub still : (e : Ev W) → StillOut e.world (m e)

module _ {W : Type 0} where
  -- What follows needs to be still on the values that `m` returns only.
  pub Still-bind_returned :
      {A B : Type 0} (m : M W A) (f : A → M W B)
      → Still m
      → ((a : A) (e e' : Ev W) → m e ≡ done a e' → StillOut e'.world (f a e'))
      → Still (m >>= f)
  Still-bind_returned {A} {B} m f h g = record { still = λ e. go e (m e) refl (h.still e) }
    where
      moved : (w : W) (e : Ev W) → e.world ≡ w → (o : Out W B) → StillOut e.world o → StillOut w o
      moved w e q (done b e') s = s ∙ q
      moved w e q (failed err e') s = s ∙ q
      moved w e q (stopped r e') s = s ∙ q
      moved w e q out_of_fuel s = tt

      go :
          (e : Ev W) (o : Out W A)
          → m e ≡ o
          → StillOut e.world o
          → StillOut e.world (elim o [
            | done a e' ↦ f a e'
            | failed err e' ↦ failed err e'
            | stopped r e' ↦ stopped r e'
            | out_of_fuel ↦ out_of_fuel
          ])
      go e (done a e') p q = moved e.world e' q (f a e') (g a e e' p)
      go e (failed err e') p q = q
      go e (stopped r e') p q = q
      go e out_of_fuel p q = tt

  pub Still-bind :
      {A B : Type 0} (m : M W A) (f : A → M W B)
      → Still m
      → ((a : A) → Still (f a))
      → Still (m >>= f)
  Still-bind m f h g = Still-bind_returned m f h (λ a e e' p. (g a).still e')

  pub Still-pure : {A : Type 0} (a : A) → Still {W = W} (pure a)
  Still-pure a = record { still = λ e. refl }

  pub Still-fail : {A : Type 0} (err : EvalError) → Still {W = W} {A = A} (fail err)
  Still-fail err = record { still = λ e. refl }

  pub Still-if :
      {A : Type 0} (b : Bool) (m k : M W A) → Still m → Still k → Still (if b then m else k)
  Still-if true m k h g = h
  Still-if false m k h g = g

  pub Still-refuse : (b : Bool) (err : EvalError) → Still {W = W} (refuse_if b err)
  Still-refuse true err = record { still = λ e. refl }
  Still-refuse false err = record { still = λ e. refl }

  pub interpolate_here-Still : (s : Str) → Still {W = W} (interpolate_here s)
  unfolding interpolate_here
  interpolate_here-Still s = record {
    still = λ e. go (interpolate (suc (length s)) s (scope e.vars)) e;
  }
    where
      go : (t : Text) (e : Ev W) → StillOut e.world (from_text t e)
      go (Interp.text t late) e = refl
      go (Interp.refused r) e = refl
      go Interp.out_of_fuel e = tt

  pub eval_ident-Still : (n : Str) → Still {W = W} (eval_ident n)
  unfolding eval_ident
  eval_ident-Still n = record {
    still = λ e. go e (str_eq n (str "ok")) (str_eq n (str "err")) (lookup n e.vars);
  }
    where
      go :
          (e : Ev W) (b c : Bool) (o : Option Value)
          → StillOut {A = Value} e.world (
              if b
              then done (bool (last_ok e.last)) e
              else if c
              then done (bool (not (last_ok e.last))) e
              else elim o [ none ↦ failed (unbound n) e | some v ↦ done v e ])
      go e true c o = refl
      go e false true o = refl
      go e false false none = refl
      go e false false (some v) = refl

  pub field_of-Still : (v : Value) (name : Str) → Still {W = W} (field_of v name)
  unfolding field_of
  field_of-Still (Value.shell r) name = Still-if (str_eq name (str "exit")) _ _ (Still-pure _) (
      Still-if (str_eq name (str "stdout")) _ _ (Still-pure _) (
        Still-if (str_eq name (str "stderr")) (pure (text r.stderr)) (fail (no_such_field name))
          (Still-pure _) (Still-fail _)))
  field_of-Still nil name = Still-fail _
  field_of-Still (text t) name = Still-fail _
  field_of-Still (int n) name = Still-fail _
  field_of-Still (bool b) name = Still-fail _
  field_of-Still (bytes b) name = Still-fail _
  field_of-Still (control p) name = Still-fail _
  field_of-Still (outcome r) name = Still-fail _

  pub compare_values-Still : (op : Str) (l r : Value) → Still {W = W} (compare_values op l r)
  unfolding compare_values
  compare_values-Still op l r =
      Still-bind (refuse_if (not (is_comparable l)) (uncomparable l))
        (λ _.
          refuse_if (not (is_comparable r)) (uncomparable r)
          >> pure (bool (if str_eq op (str "==") then equal l r else not (equal l r))))
        (Still-refuse _ _)
        (λ _.
          Still-bind (refuse_if (not (is_comparable r)) (uncomparable r))
            (λ _. pure (bool (if str_eq op (str "==") then equal l r else not (equal l r))))
            (Still-refuse _ _) (λ _. Still-pure _))

  pub set_last-Still : (v : Value) → Still {W = W} (set_last v)
  set_last-Still v = record { still = λ e. refl }

  pub set_var-Still : (k : Str) (v : Value) → Still {W = W} (set_var k v)
  set_var-Still k v = record { still = λ e. refl }
