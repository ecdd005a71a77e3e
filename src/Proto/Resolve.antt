-- ===== src/Proto/Resolve.antt =====
-- internal/proto/proto.go, `ResolveRefs`: the references of a plan's steps, resolved for one host.
pub mod Total
use shellf.Prelude.{
  ℕ, zero, suc, Bool, true, false, not, [], ◌∷◌, ◌++◌, none, some, Str, str, str_eq, has_prefix,
  drop, length, if◌then◌else◌, is_empty, Map, lookup, insert, merge, any, keys,
}
use shellf.Engine.{Env}
use shellf.Lang.Interp.{cut_byte, cut_mark, inventory_prefix}
use shellf.Proto.{Fields, Step, step, Steps, stop, also, no_if, if_block, Cond, no_cond, cond}

-- The refusals, each with the name that its message shows.
pub data RefError : Type 0 where
  undefined_variable : Str → RefError
  unterminated : RefError
  no_field : Str → RefError
  no_field_of_host : Str → Str → RefError
  undefined_host : Str → RefError

pub data Resolved (A : Type 0) : Type 0 where
  ok : A → Resolved A
  refused : RefError → Resolved A
  out_of_fuel : Resolved A

infixl 5 ◌>>=◌
abbrev pub ◌>>=◌ : {A B : Type 0} → Resolved A → (A → Resolved B) → Resolved B
ok a >>= f = f a
refused e >>= f = refused e
out_of_fuel >>= f = out_of_fuel

-- `missingInventory`
unfoldable pub missing_inventory : Str → Env → RefError
missing_inventory name env =
    if not (has_prefix name inventory_prefix)
    then undefined_variable name
    else elim (cut_byte b'.' (drop (length inventory_prefix) name)) [
      | none ↦ no_field (drop (length inventory_prefix) name)
      | some (host, field) ↦
          if any (λ k. has_prefix k (inventory_prefix ++ (host ++ str "."))) (keys env)
          then no_field_of_host host field
          else undefined_host host
    ]

-- `expandInventory`; one unit of fuel for each `${`.
unfoldable pub expand_inventory : ℕ → Str → Env → Resolved Str
unfolding missing_inventory
expand_inventory zero s env = out_of_fuel
expand_inventory (suc fuel) s env = elim (cut_mark s) [
  | none ↦ ok s
  | some (before, behind) ↦ elim (cut_byte b'}' behind) [
    | none ↦ refused unterminated
    | some (name, tail) ↦ elim (lookup name env) [
      | none ↦ refused (missing_inventory name env)
      | some v ↦ expand_inventory fuel tail env >>= λ t. ok (before ++ (v ++ t))
    ]
  ]
]

-- `for argName, varName := range s.Refs`
unfoldable pub add_refs : Map Str → Env → Map Str → Resolved (Map Str)
add_refs [] env args = ok args
add_refs ((name, var) ∷ refs) env args = elim (lookup var env) [
  | none ↦ refused (undefined_variable var)
  | some v ↦ add_refs refs env (insert name v args)
]

-- `for argName, tmpl := range s.Templates`
unfoldable pub add_templates : Map Str → Env → Map Str → Resolved (Map Str)
unfolding expand_inventory
add_templates [] env args = ok args
add_templates ((name, template) ∷ ts) env args =
    expand_inventory (suc (length template)) template env >>= λ v.
    add_templates ts env (insert name v args)

-- The environment and the interpreter of a plan-level shell.
unfoldable pub shell_context : Fields → Env → Str → Fields
shell_context f env interp =
    if str_eq f.instruction (str "shell")
    then record f {
      env = if is_empty f.with_ then env else merge (merge [] env) f.with_;
      interp = if is_empty f.interp then interp else f.interp;
    }
    else f

-- The step of an instruction, with its arguments resolved and no reference left.
unfoldable pub resolve_call : Fields → Env → Str → Resolved Fields
unfolding add_refs add_templates shell_context
resolve_call f env interp = add_refs f.refs env (merge [] f.args) >>= λ args.
    add_templates f.templates env args >>= λ all.
    ok (shell_context (record f { args = all; refs = []; templates = []; env = [] }) env interp)

-- What a composed step keeps of its fields: `Control`, and for a block `Become`.
abbrev pub no_fields : Fields
no_fields = record {
  instruction = [];
  args = [];
  refs = [];
  templates = [];
  bind = [];
  caught = false;
  become = [];
  interp = [];
  env = [];
  with_ = [];
  control = [];
  line = 0;
  col = 0;
}

abbrev composed : Fields → Bool → Bool → Fields
composed f control become = record no_fields {
  control = if control then f.control else [];
  become = if become then f.become else [];
}

unfoldable mutual
  unfolding resolve_call

  -- `ResolveRefs`
  pub resolve_refs : Steps → Env → Str → Resolved Steps
  resolve_refs stop env interp = ok stop
  resolve_refs (also s ss) env interp =
      resolve_step s env interp >>= λ s'. resolve_refs ss env interp >>= λ ss'. ok (also s' ss')

  pub resolve_step : Step → Env → Str → Resolved Step
  resolve_step (step f block parallel (if_block c match_ ref negate then_ else_)) env interp =
      resolve_cond c env interp >>= λ c'. resolve_refs then_ env interp >>= λ t.
      resolve_refs else_ env interp >>= λ e.
      ok (step (composed f true false) stop stop (if_block c' match_ ref negate t e))
  resolve_step (step f (also b bs) parallel no_if) env interp = resolve_step b env interp >>= λ b'.
      resolve_refs bs env interp >>= λ bs'.
      ok (step (composed f true true) (also b' bs') stop no_if)
  resolve_step (step f stop (also p ps) no_if) env interp = resolve_step p env interp >>= λ p'.
      resolve_refs ps env interp >>= λ ps'.
      ok (step (composed f false false) stop (also p' ps') no_if)
  resolve_step (step f stop stop no_if) env interp =
      resolve_call f env interp >>= λ f'. ok (step f' stop stop no_if)

  pub resolve_cond : Cond → Env → Str → Resolved Cond
  resolve_cond no_cond env interp = ok no_cond
  resolve_cond (cond s) env interp = resolve_step s env interp >>= λ s'. ok (cond s')
