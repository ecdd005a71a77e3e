-- ===== src/Lang/Interp.antt =====
-- internal/lang/parser.go, `interpolate`: `${name}` in a string. The loop runs on fuel, one unit
-- for each `${`; Interp/Enough shows that more than the length of the string is enough.
pub mod Enough
use shellf.Prelude.{
  ℕ, zero, suc, Bool, true, false, not, ◌&&◌, ◌||◌, List, [], ◌∷◌, ◌++◌, Option, none, some, Str,
  str, str_eq, ◌==◌, if◌then◌else◌, is_empty, has_prefix, drop, any, length,
}

-- `strings.IndexByte(s, c)`: what stands before the byte and behind it.
unfoldable pub cut_byte : ℕ → Str → Option (Str × Str)
cut_byte c [] = none
cut_byte c (x ∷ s) =
    let rest = cut_byte c s in
    if x == c
    then some ([], s)
    else elim rest [ none ↦ none | some (before, behind) ↦ some (x ∷ before, behind) ]

-- `strings.Index(s, "${")`: what stands before the mark and behind it.
unfoldable pub cut_mark : Str → Option (Str × Str)
cut_mark [] = none
cut_mark (x ∷ s) =
    let rest = cut_mark s in
    if has_prefix (x ∷ s) (str "${")
    then some ([], drop 1 s)
    else elim rest [ none ↦ none | some (before, behind) ↦ some (x ∷ before, behind) ]

-- `strings.Split(s, c)`: one segment more than there are separators.
unfoldable pub split_onto : ℕ → Str → Str → List Str
split_onto c [] seg = seg ∷ []
split_onto c (x ∷ s) seg = elim (x == c) [
  | true ↦ seg ∷ split_onto c s []
  | false ↦ split_onto c s (seg ++ x ∷ [])
]

unfoldable pub split : ℕ → Str → List Str
unfolding split_onto
split c s = split_onto c s []

abbrev pub inventory_prefix : Str
inventory_prefix = str "inventory."

abbrev pub get_last : Str → List Str → Str
get_last d [] = d
get_last d (x ∷ xs) = get_last x xs

-- The reasons of a refusal.
pub data Refusal : Type 0 where
  unterminated : Refusal
  no_field : Str → Refusal
  too_many_segments : Str → Refusal
  private_key : Str → Refusal
  undefined : Str → Refusal
  holds_bytes : Str → Refusal

-- What the caller's lookup answers for a name.
pub data Found : Type 0 where
  found : Str → Found
  missing opaque_bytes : Found

pub data Text : Type 0 where
  -- the text, and whether it still carries a `${inventory.…}`
  text : Str → Bool → Text
  refused : Refusal → Text
  out_of_fuel : Text

abbrev more_than_two : List Str → Bool
more_than_two [] = false
more_than_two (a ∷ []) = false
more_than_two (a ∷ b ∷ []) = false
more_than_two (a ∷ b ∷ c ∷ r) = true

-- The checks on what follows `inventory.`.
unfoldable pub check_field : Str → Str → Option Refusal
unfolding split
check_field name field =
    let seg = split b'.' field in
    if is_empty field
    then some (no_field name)
    else if more_than_two seg
    then some (too_many_segments name)
    else if any is_empty seg
    then some (no_field name)
    else if str_eq (get_last [] seg) (str "key")
    then some (private_key name)
    else none

abbrev pub after_text : Str → Bool → Text → Text
after_text before late (text t d) = text (before ++ t) (late || d)
after_text before late (refused e) = refused e
after_text before late out_of_fuel = out_of_fuel

-- What a name in braces stands for: a text and whether it is left for later, or a refusal.
unfoldable pub expand_name : (Str → Found) → Str → Text
unfolding check_field
expand_name find name =
    if has_prefix name inventory_prefix
    then elim (check_field name (drop (length inventory_prefix) name)) [
      | some e ↦ refused e
      | none ↦ text (str "${" ++ (name ++ str "}")) true
    ]
    else elim (find name) [
      | missing ↦ refused (undefined name)
      | opaque_bytes ↦ refused (holds_bytes name)
      | found v ↦ text v false
    ]

abbrev pub before_rest : Text → Text → Text
before_rest (text t d) rest = after_text t d rest
before_rest (refused e) rest = refused e
before_rest out_of_fuel rest = out_of_fuel

unfoldable pub interpolate : ℕ → Str → (Str → Found) → Text
unfolding expand_name cut_mark cut_byte
interpolate zero s find = out_of_fuel
interpolate (suc fuel) s find = elim (cut_mark s) [
  | none ↦ text s false
  | some (before, behind) ↦ elim (cut_byte b'}' behind) [
    | none ↦ refused unterminated
    | some (name, tail) ↦
        after_text before false (before_rest (expand_name find name) (interpolate fuel tail find))
  ]
]
