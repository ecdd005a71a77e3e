-- ===== src/Proto/Resolve/Total.antt =====
-- The expansion of a request's steps always answers.
use shellf.Prelude.{
  ℕ, zero, suc, ◌<◌, [], ◌∷◌, Str, Map, lookup, insert, merge, length, ◌≢◌, inl, inr, refl, arith,
  Option-cases,
}
use shellf.Engine.{Env}
use shellf.Lang.Interp.{cut_byte, cut_mark}
use shellf.Lang.Interp.Enough.{cut_byte-lt, cut_mark-lt}
use shellf.Proto.{Fields, Step, step, Steps, stop, also, no_if, if_block, Cond, no_cond, cond}
use shellf.Proto.Resolve.{
  Resolved, ok, refused, out_of_fuel, ◌>>=◌, expand_inventory, add_refs, add_templates,
  resolve_call, resolve_refs, resolve_step, resolve_cond,
}

then-ne :
    {A B : Type 0} (r : Resolved A) (f : A → Resolved B)
    → r ≢ out_of_fuel
    → ((a : A) → f a ≢ out_of_fuel)
    → (r >>= f) ≢ out_of_fuel
then-ne (ok a) f h k = k a
then-ne (refused e) f h k = λ q. cc
then-ne out_of_fuel f h k = λ q. h refl

expand_inventory-ne :
    (fuel : ℕ) (s : Str) (env : Env) → length s < fuel → expand_inventory fuel s env ≢ out_of_fuel
unfolding expand_inventory
expand_inventory-ne zero s env h = omega (arith, h)
expand_inventory-ne (suc fuel) s env h = elim (Option-cases (cut_mark s)) [
  | inl none_ ↦ rw (expand_inventory, none_) (λ q. cc)
  | inr (p, mark) ↦ elim (Option-cases (cut_byte b'}' p.1)) [
    | inl open_ ↦ rw (expand_inventory, mark, open_) (λ q. cc)
    | inr (r, close) ↦ elim (Option-cases (lookup r.0 env)) [
      | inl unknown ↦ rw (expand_inventory, mark, close, unknown) (λ q. cc)
      | inr (v, known) ↦
          rw (expand_inventory, mark, close, known)
            (then-ne (expand_inventory fuel r.1 env) _
              (expand_inventory-ne fuel r.1 env
                (omega (arith, h, cut_mark-lt s p mark, cut_byte-lt b'}' p.1 r close)))
              (λ t q. cc))
    ]
  ]
]

add_refs-ne : (refs : Map Str) (env : Env) (args : Map Str) → add_refs refs env args ≢ out_of_fuel
unfolding add_refs
add_refs-ne [] env args = λ q. cc
add_refs-ne ((name, var) ∷ refs) env args = elim (Option-cases (lookup var env)) [
  | inl unknown ↦ rw (add_refs, unknown) (λ q. cc)
  | inr (v, known) ↦ rw (add_refs, known) (add_refs-ne refs env (insert name v args))
]

add_templates-ne :
    (ts : Map Str) (env : Env) (args : Map Str) → add_templates ts env args ≢ out_of_fuel
unfolding add_templates
add_templates-ne [] env args = λ q. cc
add_templates-ne ((name, t) ∷ ts) env args =
    then-ne (expand_inventory (suc (length t)) t env) _
      (expand_inventory-ne (suc (length t)) t env (omega arith))
      (λ v. add_templates-ne ts env (insert name v args))

resolve_call-ne : (f : Fields) (env : Env) (interp : Str) → resolve_call f env interp ≢ out_of_fuel
unfolding resolve_call
resolve_call-ne f env interp =
    then-ne (add_refs f.refs env (merge [] f.args)) _ (add_refs-ne f.refs env (merge [] f.args))
      (λ args.
        then-ne (add_templates f.templates env args) _ (add_templates-ne f.templates env args)
          (λ a q. cc))

mutual
  unfolding resolve_refs

  resolve_refs-ne :
      (ss : Steps) (env : Env) (interp : Str) → resolve_refs ss env interp ≢ out_of_fuel
  resolve_refs-ne stop env interp = λ q. cc
  resolve_refs-ne (also s ss) env interp =
      then-ne (resolve_step s env interp) _ (resolve_step-ne s env interp)
        (λ s'. then-ne (resolve_refs ss env interp) _ (resolve_refs-ne ss env interp) (λ a q. cc))

  resolve_step-ne : (s : Step) (env : Env) (interp : Str) → resolve_step s env interp ≢ out_of_fuel
  resolve_step-ne (step f block parallel (if_block c match_ ref negate then_ else_)) env interp =
      then-ne (resolve_cond c env interp) _ (resolve_cond-ne c env interp) (λ c'.
        then-ne (resolve_refs then_ env interp) _ (resolve_refs-ne then_ env interp) (λ t.
          then-ne (resolve_refs else_ env interp) _ (resolve_refs-ne else_ env interp) (λ a q. cc)))
  resolve_step-ne (step f (also b bs) parallel no_if) env interp =
      then-ne (resolve_step b env interp) _ (resolve_step-ne b env interp)
        (λ s'. then-ne (resolve_refs bs env interp) _ (resolve_refs-ne bs env interp) (λ a q. cc))
  resolve_step-ne (step f stop (also p ps) no_if) env interp =
      then-ne (resolve_step p env interp) _ (resolve_step-ne p env interp)
        (λ s'. then-ne (resolve_refs ps env interp) _ (resolve_refs-ne ps env interp) (λ a q. cc))
  resolve_step-ne (step f stop stop no_if) env interp =
      then-ne (resolve_call f env interp) _ (resolve_call-ne f env interp) (λ a q. cc)

  resolve_cond-ne : (c : Cond) (env : Env) (interp : Str) → resolve_cond c env interp ≢ out_of_fuel
  resolve_cond-ne no_cond env interp = λ q. cc
  resolve_cond-ne (cond s) env interp =
      then-ne (resolve_step s env interp) _ (resolve_step-ne s env interp) (λ a q. cc)

-- The expansion of the references of a plan's steps always answers: it never ends for want of fuel.
pub resolve_refs_terminates :
    (ss : Steps) (env : Env) (interp : Str) → resolve_refs ss env interp ≢ out_of_fuel
resolve_refs_terminates = resolve_refs-ne
