-- ===== src/Lang/Value.antt =====
-- internal/lang/eval.go: the values of the evaluator and the pure functions on them.
use shellf.Prelude.{
  ℕ, zero, suc, ◌+◌, ◌*◌, ◌-◌, ◌/◌, ◌%◌, ◌^◌, Bool, true, false, not, ◌&&◌, ◌||◌, List, [], ◌∷◌,
  Option, none, some, Str, str, str_eq, leb, ltb, if◌then◌else◌, is_empty, is_blank, trim_right, ℤ,
  pos, negsuc, int_eq, Map,
}
use shellf.Engine.{ShellResult, is_ok, Result, Category, ok_category, err_category, would_category}
use shellf.Lang.Ast.{Param}
use shellf.Lang.Interp.{Refusal}

-- `value`: the kinds that the interface holds, `nil` among them.
pub data Value : Type 0 where
  nil : Value
  text : Str → Value
  int : ℤ → Value
  bool : Bool → Value
  bytes : Str → Value
  control : Str → Value
  shell : ShellResult → Value
  outcome : Result → Value

-- The failures of an evaluation (`evalErr`), each with what its message names.
pub data EvalError : Type 0 where
  unbound : Str → EvalError
  bad_integer : Str → EvalError
  bad_text : Refusal → EvalError
  bytes_in_text : Str → EvalError
  bytes_in_env : Str → EvalError
  bytes_as_argument : Str → EvalError
  not_a_boolean : Str → EvalError
  uncomparable : Value → EvalError
  not_a_shell_result : Str → EvalError
  no_such_field : Str → EvalError
  unevaluable : EvalError
  no_resolver : Str → EvalError
  call_cycle : List Str → Str → EvalError
  unknown_instruction : Str → EvalError
  wrong_arity : Str → EvalError
  in_callee : Str → EvalError → EvalError
  no_channel : Str → EvalError
  not_a_primitive : Str → EvalError
  wrong_kind : Str → EvalError
  write_failed : Str → EvalError
  from_host : Str → EvalError
  unreadable : Str → EvalError
  bad_compare : Str → EvalError
  bad_pattern : EvalError
  no_verdict : Str → EvalError
  unknown_category : Str → EvalError

-- `strconv.FormatBool`
abbrev pub format_bool : Bool → Str
format_bool true = str "true"
format_bool false = str "false"

-- `strconv.Itoa`, with the number itself as fuel for its digits.
unfoldable pub digits_onto : ℕ → ℕ → Str → Str
digits_onto zero n out = out
digits_onto (suc fuel) n out =
    let rest = digits_onto fuel (n / 10) ((b'0' + n % 10) ∷ out) in
    if ltb n 10 then (b'0' + n) ∷ out else rest

unfoldable pub itoa : ℤ → Str
unfolding digits_onto
itoa (pos n) = digits_onto (suc n) n []
itoa (negsuc n) = b'-' ∷ digits_onto (suc (suc n)) (suc n) []

-- `strconv.Atoi` on the digits of an integer literal: at least one, and within 64 bits.
unfoldable pub atoi_onto : ℕ → Str → Option ℕ
atoi_onto acc [] = some acc
atoi_onto acc (c ∷ s) =
    let rest = atoi_onto (acc * 10 + (c - b'0')) s in
    if leb b'0' c && leb c b'9' then rest else none

unfoldable pub in_range : Option ℕ → Option ℤ
in_range none = none
in_range (some n) = if ltb n (2 ^ 63) then some (pos n) else none

unfoldable pub atoi : Str → Option ℤ
unfolding atoi_onto in_range
atoi s = if is_empty s then none else in_range (atoi_onto 0 s)

unfoldable pub stringify : Value → Str
stringify (text t) = t
stringify (bool b) = format_bool b
stringify (int n) = itoa n
stringify (control p) = p
stringify (shell r) = trim_right is_blank r.stdout
stringify (bytes b) = []
stringify (outcome r) = []
stringify nil = []

abbrev category_is_ok : Category → Bool
category_is_ok ok_category = true
category_is_ok err_category = false
category_is_ok would_category = false

unfoldable pub truthy : Value → Bool
truthy (bool b) = b
truthy (shell r) = is_ok r
truthy (outcome r) = category_is_ok r.category
truthy nil = false
truthy (text t) = false
truthy (int n) = false
truthy (bytes b) = false
truthy (control p) = false

abbrev bool_eq : Bool → Bool → Bool
bool_eq true b = b
bool_eq false b = not b

-- `a == b` between two interface values of the kinds that `refuseUncomparable` lets through.
unfoldable pub equal : Value → Value → Bool
equal (text a) (text b) = str_eq a b
equal (int a) (int b) = int_eq a b
equal (bool a) (bool b) = bool_eq a b
equal _ _ = false

-- `refuseUncomparable`, for one operand.
unfoldable pub is_comparable : Value → Bool
is_comparable (text t) = true
is_comparable (int n) = true
is_comparable (bool b) = true
is_comparable nil = false
is_comparable (bytes b) = false
is_comparable (control p) = false
is_comparable (shell r) = false
is_comparable (outcome r) = false

-- `refuseBytes`
abbrev pub is_bytes : Value → Bool
is_bytes (bytes b) = true
is_bytes nil = false
is_bytes (text t) = false
is_bytes (int n) = false
is_bytes (bool b) = false
is_bytes (control p) = false
is_bytes (shell r) = false
is_bytes (outcome r) = false

-- `checkParamType`: whether the value passes.
unfoldable pub fits_type : Param → Value → Bool
fits_type p (bool b) = true
fits_type p (text t) =
    if str_eq p.type (str "bool") then str_eq t (str "true") || str_eq t (str "false") else true
fits_type p _ = not (str_eq p.type (str "bool"))

-- `shellEnv` and `renderScope` keep these.
unfoldable pub scalar : Value → Option Str
scalar (text t) = some t
scalar (bool b) = some (format_bool b)
scalar (int n) = some (itoa n)
scalar nil = none
scalar (bytes b) = none
scalar (control p) = none
scalar (shell r) = none
scalar (outcome r) = none

unfoldable pub scalars : Map Value → Map Str
unfolding scalar
scalars [] = []
scalars ((k, v) ∷ vars) = elim (scalar v) [ none ↦ scalars vars | some t ↦ (k, t) ∷ scalars vars ]

-- The first variable that holds bytes.
unfoldable pub find_bytes : Map Value → Option Str
find_bytes [] = none
find_bytes ((k, v) ∷ vars) = let rest = find_bytes vars in if is_bytes v then some k else rest
