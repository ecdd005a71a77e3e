-- ===== src/Lang/Fields/Agree.antt =====
-- The report of `status` and the skip of `run` read an observed state alike.
use shellf.Prelude.{
  Bool, true, ◌&&◌, List, [], ◌∷◌, Option, none, some, Str, str_eq, str_eq_iff, str_eq_refl, Map,
  lookup, keys, sort_strings, insert_sorted, ◌≡◌, ◌∙◌, inl, inr, refl, ap, arith, In, Bool-cases,
}
use shellf.Lang.Fields.{
  field_converged, converged, diff_field, diff_names, diff_fields, all_converged, value_of,
}

-- No key stands twice.
abbrev pub Distinct : Map Str → Type 0
Distinct [] = Unit
Distinct ((k, v) ∷ m) = (¬ In k (keys m)) × Distinct m

all_keys : List Str → Map Str → Map Str → Bool
all_keys [] observed desired = true
all_keys (n ∷ ns) observed desired =
    field_converged (value_of (lookup n observed)) (lookup n desired)
    && all_keys ns observed desired

diff_field-converged :
    (n cur : Str) (want : Option Str) → (diff_field n cur want).converged ≡ field_converged cur want
unfolding diff_field field_converged
diff_field-converged n cur none = refl
diff_field-converged n cur (some want) = ground arith

all_converged-diff_names :
    (ns : List Str) (observed desired : Map Str)
    → all_converged (diff_names ns observed desired) ≡ all_keys ns observed desired
unfolding all_converged diff_names all_keys
all_converged-diff_names [] observed desired = refl
all_converged-diff_names (n ∷ ns) observed desired = ground (
  arith,
  diff_field-converged n (value_of (lookup n observed)) (lookup n desired),
  all_converged-diff_names ns observed desired,
)

all_keys-insert_sorted :
    (n : Str) (ns : List Str) (observed desired : Map Str)
    → all_keys (insert_sorted n ns) observed desired ≡ all_keys (n ∷ ns) observed desired
unfolding all_keys insert_sorted
all_keys-insert_sorted n [] observed desired = refl
all_keys-insert_sorted n (k ∷ ns) observed desired =
    ground (arith, all_keys-insert_sorted n ns observed desired)

all_keys-sort :
    (ns : List Str) (observed desired : Map Str)
    → all_keys (sort_strings ns) observed desired ≡ all_keys ns observed desired
unfolding all_keys sort_strings
all_keys-sort [] observed desired = refl
all_keys-sort (n ∷ ns) observed desired =
    all_keys-insert_sorted n (sort_strings ns) observed desired
    ∙ ap (λ b. field_converged (value_of (lookup n observed)) (lookup n desired) && b)
        (all_keys-sort ns observed desired)

-- A key that is not asked for can be left out.
all_keys-cons :
    (ns : List Str) (k v : Str) (observed desired : Map Str)
    → ¬ In k ns
    → all_keys ns ((k, v) ∷ observed) desired ≡ all_keys ns observed desired
unfolding all_keys lookup
all_keys-cons [] k v observed desired h = refl
all_keys-cons (n ∷ ns) k v observed desired h = elim (Bool-cases (str_eq k n)) [
  | inl same ↦ absurd (h (inl ((str_eq_iff k n).0 same)))
  | inr other ↦ rw (other, all_keys-cons ns k v observed desired (λ m. h (inr m)))
]

all_keys-converged :
    (observed desired : Map Str)
    → Distinct observed
    → all_keys (keys observed) observed desired ≡ converged observed desired
unfolding all_keys keys converged lookup
all_keys-converged [] desired d = refl
all_keys-converged ((k, v) ∷ observed) desired (fresh, d) =
    rw (str_eq_refl k, all_keys-cons (keys observed) k v observed desired fresh)
      (ground (arith, all_keys-converged observed desired d))

-- Of an observed state that lists no field twice, every line of the field report says `converged`
-- exactly if the def would be skipped as already in the desired state.
pub all_converged-diff_fields :
    (observed desired : Map Str)
    → Distinct observed
    → all_converged (diff_fields observed desired) ≡ converged observed desired
unfolding diff_fields
all_converged-diff_fields observed desired d =
    all_converged-diff_names (sort_strings (keys observed)) observed desired
    ∙ all_keys-sort (keys observed) observed desired
    ∙ all_keys-converged observed desired d
