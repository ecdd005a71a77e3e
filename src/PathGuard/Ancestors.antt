-- ===== src/PathGuard/Ancestors.antt =====
-- A path that is trusted, and the directories on the way to it.
use shellf.Prelude.{
  ◌≢◌, ◌<◌, length, ℕ, zero, suc, true, false, Str, str, str_eq, str_eq_refl, ◌≡◌, refl, subst,
  arith, Bool-cases, ◌⊎◌, inl, inr,
}
use shellf.PathGuard.{
  out_of_fuel, FileInfo, Stat, no_file, no_owner, info, Verdict, trusted, is_ours, is_hazard, judge,
  owned_and_unwritable,
}

module _ (lstat : Str → Stat) (dir : Str → Str) (own : ℕ) where
  -- `q` is `p` or a directory on the way from `p` to the root.
  pub data Above : Str → Str → Type 0 where
    here : {p q : Str} → p ≡ q → Above p q
    up : {p q : Str} → str_eq p (dir p) ≡ false → Above (dir p) q → Above p q

  -- The file is ours or root's, and nobody else can replace it.
  abbrev pub Safe : Str → Type 0
  Safe q =
      (fi : FileInfo) × (lstat q ≡ info fi)
      × (is_ours lstat dir own fi ≡ true)
      × (is_hazard lstat dir own fi ≡ false)

  judge-trusted :
      (p : Str) (above : Verdict) (s : Stat)
      → lstat p ≡ s
      → judge lstat dir own p above s ≡ trusted
      → Safe p × ((str_eq p (dir p) ≡ true) ⊎ (above ≡ trusted))
  judge-trusted p above no_file e h = absurd (ground (arith, h))
  judge-trusted p above no_owner e h = absurd (ground (arith, h))
  judge-trusted p above (info fi) e h = elim (Bool-cases (is_ours lstat dir own fi)) [
    | inr theirs ↦ absurd (ground (arith, rw theirs at h))
    | inl ours ↦ elim (Bool-cases (is_hazard lstat dir own fi)) [
      | inl hazard ↦ absurd (ground (arith, rw (ours, hazard) at h))
      | inr safe ↦ elim (Bool-cases (str_eq p (dir p))) [
        | inl root ↦ ((fi, e, ours, safe), inl root)
        | inr below ↦ ((fi, e, ours, safe), inr (rw (ours, safe, below) at h))
      ]
    ]
  ]

  -- If a path is trusted, then the path and every directory on the way to the root can be read, belong
  -- to the user or to root, and cannot be rewritten by others.
  pub owned_and_unwritable-trusted :
      (fuel : ℕ) (p q : Str)
      → owned_and_unwritable lstat dir own fuel p ≡ trusted
      → Above p q
      → Safe q
  unfolding owned_and_unwritable
  owned_and_unwritable-trusted zero p q h a = absurd (ground (arith, h))
  owned_and_unwritable-trusted (suc fuel) p q h (here e) =
      subst Safe e
        (judge-trusted p (owned_and_unwritable lstat dir own fuel (dir p)) (lstat p) refl h).0
  owned_and_unwritable-trusted (suc fuel) p q h (up below a) =
      elim (judge-trusted p (owned_and_unwritable lstat dir own fuel (dir p)) (lstat p) refl h).1 [
        | inl root ↦ absurd (ground (arith, root, below))
        | inr above ↦ owned_and_unwritable-trusted fuel (dir p) q above a
      ]

  judge-answers :
      (p : Str) (above : Verdict) (s : Stat)
      → (str_eq p (dir p) ≡ false → above ≢ out_of_fuel)
      → judge lstat dir own p above s ≢ out_of_fuel
  judge-answers p above no_file k = λ q. cc
  judge-answers p above no_owner k = λ q. cc
  judge-answers p above (info fi) k = elim (Bool-cases (is_ours lstat dir own fi)) [
    | inr theirs ↦ rw theirs (λ q. cc)
    | inl ours ↦ elim (Bool-cases (is_hazard lstat dir own fi)) [
      | inl hazard ↦ rw (ours, hazard) (λ q. cc)
      | inr safe ↦ elim (Bool-cases (str_eq p (dir p))) [
        | inl root ↦ rw (ours, safe, root) (λ q. cc)
        | inr below ↦ rw (ours, safe, below) (k below)
      ]
    ]
  ]

  -- What `filepath.Dir` does with a path: a root and `.` are their own directory, and the directory
  -- of any other path is `.` or shorter than the path.
  abbrev pub ShortensPaths : Type 0
  ShortensPaths =
      (dir (str ".") ≡ str ".")
      × ((q : Str) → (dir q ≡ q) ⊎ ((dir q ≡ str ".") ⊎ (length (dir q) < length q)))

  here_judged :
      (fuel : ℕ) (p : Str)
      → dir p ≡ p
      → owned_and_unwritable lstat dir own (suc fuel) p ≢ out_of_fuel
  unfolding owned_and_unwritable
  here_judged fuel p e =
      judge-answers p (owned_and_unwritable lstat dir own fuel (dir p)) (lstat p)
        (λ below. absurd (ground (arith, str_eq_refl p, rw e at below)))

  -- If `.` is its own directory, and every other path is its own directory or has one that is `.` or
  -- shorter than the path, then with two units of fuel more than the path has bytes the check answers,
  -- whatever the path.
  pub owned_and_unwritable_terminates :
      (fuel : ℕ) (p : Str)
      → ShortensPaths
      → suc (length p) < fuel
      → owned_and_unwritable lstat dir own fuel p ≢ out_of_fuel
  unfolding owned_and_unwritable
  owned_and_unwritable_terminates zero p laws h = omega (arith, h)
  owned_and_unwritable_terminates (suc zero) p laws h = omega (arith, h)
  owned_and_unwritable_terminates (suc (suc fuel)) p laws h = elim (laws.1 p) [
    | inl root ↦ here_judged (suc fuel) p root
    | inr (inl dot) ↦
        judge-answers p (owned_and_unwritable lstat dir own (suc fuel) (dir p)) (lstat p)
          (λ below. rw dot (here_judged fuel (str ".") laws.0))
    | inr (inr shorter) ↦
        judge-answers p (owned_and_unwritable lstat dir own (suc fuel) (dir p)) (lstat p) (λ below.
          owned_and_unwritable_terminates (suc fuel) (dir p) laws (omega (arith, h, shorter)))
  ]
