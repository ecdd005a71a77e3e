-- ===== src/Lang/Interp/Enough.antt =====
-- The fuel of `interpolate` suffices.
use shellf.Prelude.{
  ℕ, zero, suc, ◌<◌, Bool-cases, ◌==◌, has_prefix, drop, str, Bool, false, [], ◌∷◌, some, Str,
  length, ◌≡◌, ◌≢◌, inl, inr, refl, sym, subst, arith, Option-cases, some-injective,
}
use shellf.Lang.Interp.{
  cut_byte, cut_mark, Found, Text, text, refused, out_of_fuel, after_text, before_rest, expand_name,
  interpolate, check_field, inventory_prefix, missing, opaque_bytes, found, undefined, holds_bytes,
}

-- What stands behind a byte that was found is shorter.
pub cut_byte-lt : (c : ℕ) (s : Str) (p : Str × Str) → cut_byte c s ≡ some p → length p.1 < length s
unfolding cut_byte
cut_byte-lt c [] p h = cc
cut_byte-lt c (d ∷ s) p h = elim (Bool-cases (d == c)) [
  | inl here ↦
      subst (λ q. length q.1 < length (d ∷ s)) (some-injective (rw here at h)) (omega arith)
  | inr later ↦ elim (Option-cases (cut_byte c s)) [
    | inl none_ ↦ absurd (ground (arith, rw (later, none_) at h))
    | inr (q, found_) ↦
        subst (λ r. length r.1 < length (d ∷ s)) (some-injective (rw (later, found_) at h))
          (omega (arith, cut_byte-lt c s q found_))
  ]
]

pub cut_mark-lt : (s : Str) (p : Str × Str) → cut_mark s ≡ some p → length p.1 < length s
unfolding cut_mark drop
cut_mark-lt [] p h = cc
cut_mark-lt (d ∷ s) p h = elim (Bool-cases (has_prefix (d ∷ s) (str "${"))) [
  | inl here ↦ subst (λ q. length q.1 < length (d ∷ s)) (some-injective (rw here at h)) (drop-lt s)
  | inr later ↦ elim (Option-cases (cut_mark s)) [
    | inl none_ ↦ absurd (ground (arith, rw (later, none_) at h))
    | inr (q, found_) ↦
        subst (λ r. length r.1 < length (d ∷ s)) (some-injective (rw (later, found_) at h))
          (omega (arith, cut_mark-lt s q found_))
  ]
]
  where
    drop-lt : (t : Str) → length (drop 1 t) < suc (length t)
    drop-lt [] = omega arith
    drop-lt (x ∷ t) = omega arith

before_rest-ne : (a b : Text) → a ≢ out_of_fuel → b ≢ out_of_fuel → before_rest a b ≢ out_of_fuel
before_rest-ne (text t d) (text u e) h k = λ q. cc
before_rest-ne (text t d) (refused e) h k = λ q. cc
before_rest-ne (text t d) out_of_fuel h k = λ q. k refl
before_rest-ne (refused e) b h k = λ q. cc
before_rest-ne out_of_fuel b h k = λ q. h refl

after_text-ne : (t : Str) (d : Bool) (a : Text) → a ≢ out_of_fuel → after_text t d a ≢ out_of_fuel
after_text-ne t d (text u e) h = λ q. cc
after_text-ne t d (refused e) h = λ q. cc
after_text-ne t d out_of_fuel h = λ q. h refl

abbrev IsFuel : Text → Type 0
IsFuel (text t d) = ⊥
IsFuel (refused e) = ⊥
IsFuel out_of_fuel = Unit

expand_name-ne : (find : Str → Found) (name : Str) → expand_name find name ≢ out_of_fuel
unfolding expand_name
expand_name-ne find name q = elim (Bool-cases (has_prefix name inventory_prefix)) [
  | inl late ↦ elim (Option-cases (check_field name (drop (length inventory_prefix) name))) [
    | inl none_ ↦ no_fuel (sym (rw (late, none_) at q))
    | inr (e, wrong) ↦ no_fuel (sym (rw (late, wrong) at q))
  ]
  | inr now ↦ looked_up (find name) refl (rw now at q)
]
  where
    no_fuel : {a : Text} → out_of_fuel ≡ a → IsFuel a
    no_fuel e = subst IsFuel e tt

    looked_up :
        (f : Found)
        → find name ≡ f
        → elim (find name) [
          | missing ↦ refused (undefined name)
          | opaque_bytes ↦ refused (holds_bytes name)
          | found v ↦ text v false
        ]
          ≡ out_of_fuel
        → ⊥
    looked_up missing e h = no_fuel (sym (rw e at h))
    looked_up opaque_bytes e h = no_fuel (sym (rw e at h))
    looked_up (found v) e h = no_fuel (sym (rw e at h))

-- With more fuel than the text has bytes, the expansion of its `${name}` parts answers.
pub interpolate_terminates :
    (fuel : ℕ) (s : Str) (find : Str → Found)
    → length s < fuel
    → interpolate fuel s find ≢ out_of_fuel
unfolding interpolate
interpolate_terminates zero s find h = omega (arith, h)
interpolate_terminates (suc fuel) s find h = elim (Option-cases (cut_mark s)) [
  | inl none_ ↦ λ q. no_fuel (sym (rw (interpolate, none_) at q))
  | inr (p, mark) ↦ elim (Option-cases (cut_byte b'}' p.1)) [
    | inl open_ ↦ λ q. no_fuel (sym (rw (interpolate, mark, open_) at q))
    | inr (r, close) ↦
        rw (interpolate, mark, close)
          (after_text-ne p.0 false _ (
            before_rest-ne _ _ (expand_name-ne find r.0) (
              interpolate_terminates fuel r.1 find
                (omega (arith, cut_mark-lt s p mark, cut_byte-lt b'}' p.1 r close)))))
  ]
]
  where
    no_fuel : {a : Text} → out_of_fuel ≡ a → IsFuel a
    no_fuel e = subst IsFuel e tt
