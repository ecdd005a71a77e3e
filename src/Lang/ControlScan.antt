-- ===== src/Lang/ControlScan.antt =====
-- internal/lang/control_scan.go: what a plan asks the control host for.
pub mod Allowed
use shellf.Prelude.{
  List, [], ◌∷◌, Option, none, some, Str, str, lookup, add_once, add_once-In, nothing, joined,
  sort_strings, In-sort_strings, In, ◌≡◌, ◌⊎◌, ◌↔◌, inl, inr, refl, sym, subst, some-injective,
}
use shellf.Lang.Primitives.{resource_key}
use shellf.Proto.{
  Fields, Step, step, Steps, stop, also, Branch, no_if, if_block, Cond, no_cond, cond,
}

-- The four resources that a declared path stands for.
abbrev pub add_path : Str → List Str → List Str
add_path p seen =
    add_once
      (add_once
        (add_once (add_once seen (resource_key (str "file.read") p))
          (resource_key (str "file.render") p))
        (resource_key (str "dir.list") p))
      (resource_key (str "dir.sync") p)

abbrev pub add_value : Option Str → List Str → List Str
add_value none seen = seen
add_value (some p) seen = add_path p seen

-- The loop of `scanSteps` over the marked arguments of a step.
unfoldable pub scan_control : Fields → List Str → List Str → List Str
scan_control f [] seen = seen
scan_control f (a ∷ as_) seen = scan_control f as_ (add_value (lookup a f.args) seen)

unfoldable mutual
  -- `scanSteps`
  pub scan_steps : Steps → List Str → List Str
  scan_steps stop seen = seen
  scan_steps (also s ss) seen = scan_steps ss (scan_step s seen)

  pub scan_step : Step → List Str → List Str
  scan_step (step f block parallel branch) seen =
      scan_branch branch (scan_steps parallel (scan_steps block (scan_control f f.control seen)))

  pub scan_branch : Branch → List Str → List Str
  scan_branch no_if seen = seen
  scan_branch (if_block c match_ ref negate then_ else_) seen =
      scan_steps else_ (scan_steps then_ (scan_cond c seen))

  pub scan_cond : Cond → List Str → List Str
  scan_cond no_cond seen = seen
  scan_cond (cond s) seen = scan_step s seen

-- `ControlResources`
unfoldable pub control_resources : Steps → List Str
control_resources ss = sort_strings (scan_steps ss [])
