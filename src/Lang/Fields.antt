-- ===== src/Lang/Fields.antt =====
-- internal/lang/eval.go, `converged`, `diffFields` and `truthyStr`: the comparison of an observed
-- state with the arguments of a def. Both are maps with distinct keys.
pub mod Agree
use shellf.Prelude.{
  ℕ, Bool, true, false, not, ◌&&◌, ◌||◌, List, [], ◌∷◌, Option, none, some, Str, str, str_eq,
  str_eq_iff, if◌then◌else◌, is_empty, Map, lookup, keys, sort_strings, ◌≡◌, refl, arith, any,
}
use shellf.Engine.{FieldDiff}

-- `truthyStr`
unfoldable pub truthy_str : Str → Bool
truthy_str s = not (is_empty s) && not (str_eq s (str "false")) && not (str_eq s (str "0"))

-- The three rules for one observed field, given the desired value of that name.
unfoldable pub field_converged : Str → Option Str → Bool
unfolding truthy_str
field_converged got none = truthy_str got
field_converged got (some want) = if is_empty want then true else str_eq got want

-- `converged`
unfoldable pub converged : Map Str → Map Str → Bool
unfolding field_converged
converged [] desired = true
converged ((field, got) ∷ observed) desired =
    let rest = converged observed desired in
    if field_converged got (lookup field desired) then rest else false

-- The line of `diffFields` for one field.
unfoldable pub diff_field : Str → Str → Option Str → FieldDiff
unfolding truthy_str
diff_field name cur none = record {
  name = name;
  current = cur;
  desired = str "true";
  converged = truthy_str cur;
}
diff_field name cur (some want) =
    if is_empty want
    then record { name = name; current = cur; desired = cur; converged = true }
    else record { name = name; current = cur; desired = want; converged = str_eq cur want }

-- `observed[name]`, of a name that is there.
abbrev value_of : Option Str → Str
value_of none = []
value_of (some v) = v

unfoldable pub diff_names : List Str → Map Str → Map Str → List FieldDiff
unfolding diff_field
diff_names [] observed desired = []
diff_names (n ∷ ns) observed desired =
    diff_field n (value_of (lookup n observed)) (lookup n desired) ∷ diff_names ns observed desired

-- `diffFields`
unfoldable pub diff_fields : Map Str → Map Str → List FieldDiff
unfolding diff_names
diff_fields observed desired = diff_names (sort_strings (keys observed)) observed desired

unfoldable pub all_converged : List FieldDiff → Bool
all_converged [] = true
all_converged (f ∷ fs) = let rest = all_converged fs in if f.converged then rest else false
