-- ===== src/Module/Pinned.antt =====
-- internal/module/lock.go, `ResolveLocked`: the lock is what a resolved module is trusted by.
use shellf.Prelude.{
  Bool, true, false, not, if◌then◌else◌, List, Option, none, some, Str, str_eq_iff, Map, lookup,
  lookup-insert_same, lookup-insert_other, ◌≡◌, ◌≢◌, ◌⊎◌, inl, inr, refl, sym, ◌∙◌, subst,
}
use shellf.Module.{
  Spec, Entry, ModuleError, Outside, Io, ◌>>=◌, pure, refuse_if, content_hash, resolve_sha, resolve,
  Locked, lock_key, refetch, from_cache, pin, pinned, at_entry, resolve_locked,
}

-- A result that satisfies `Q` if it is no error.
abbrev Ensures : {W A : Type 0} → (A → Type 0) → (A ⊎ ModuleError) × W → Type 0
Ensures Q (inl a, w) = Q a
Ensures Q (inr e, w) = Unit {0}

record Runs {W A : Type 0} (m : Io W A) (Q : A → Type 0) : Type 0 where
  run : (w : W) → Ensures Q (m w)

module _ {W : Type 0} where
  Runs-bind :
      {A B : Type 0} {Q : A → Type 0} {R : B → Type 0} (m : Io W A) (f : A → Io W B)
      → Runs m Q
      → ((a : A) → Q a → Runs (f a) R)
      → Runs (m >>= f) R
  unfolding ◌>>=◌
  Runs-bind {A} {B} {Q} {R} m f h g = record { run = λ w. go (m w) (h.run w) }
    where
      go :
          (r : (A ⊎ ModuleError) × W)
          → Ensures Q r
          → Ensures {W = W} R (elim r.0 [ inl a ↦ f a r.1 | inr e ↦ (inr e, r.1) ])
      go (inl a, w) q = (g a q).run w
      go (inr e, w) q = tt

  Runs-pure : {A : Type 0} {Q : A → Type 0} (a : A) → Q a → Runs {W = W} (pure a) Q
  unfolding pure
  Runs-pure a q = record { run = λ w. q }

  Runs-any : {A : Type 0} (m : Io W A) → Runs m (λ _. Unit {0})
  Runs-any {A} m = record { run = λ w. go (m w) }
    where
      go : (r : (A ⊎ ModuleError) × W) → Ensures (λ _. Unit {0}) r
      go (inl a, w) = tt
      go (inr e, w) = tt

  Runs-refuse :
      (test : Bool) (e : ModuleError) → Runs {W = W} (refuse_if test e) (λ _. test ≡ false)
  unfolding refuse_if
  Runs-refuse true e = record { run = λ w. tt }
  Runs-refuse false e = record { run = λ w. refl }

  Runs-if :
      {A : Type 0} {Q : A → Type 0} (b : Bool) {m k : Io W A}
      → Runs m Q
      → Runs k Q
      → Runs (if b then m else k) Q
  Runs-if true h g = h
  Runs-if false h g = g

not-false : (b : Bool) → not b ≡ false → b ≡ true
not-false true h = refl
not-false false h = cc

-- The answer `l` for the key `key` of the lock `lock`: its sources are those that an entry of the lock
-- it leaves was made of; that lock has the entries that were there, and no other but the key's.
pub record Trusted {W : Type 0} (o : Outside W) (lock : Map Entry) (key : Str) (l : Locked)
    : Type 0 where
  pub entry : Entry
  pub found : lookup key l.lock ≡ some entry
  pub honest : content_hash o l.sources ≡ entry.hash
  pub kept : (e : Entry) → lookup key lock ≡ some e → entry ≡ e
  pub others : (j : Str) → j ≢ key → lookup j l.lock ≡ lookup j lock

module _ {W : Type 0} (o : Outside W) where
  resolve_sha-hash :
      (spec : Spec) (cache_dir sha : Str)
      → Runs (resolve_sha o spec cache_dir sha) (λ r. content_hash o r.sources ≡ r.hash)
  unfolding resolve_sha
  resolve_sha-hash spec cache_dir sha = Runs-bind _ _ (Runs-any _) (λ cached _.
      Runs-bind _ _ (Runs-any _)
        (λ _ _. Runs-bind _ _ (Runs-any _) (λ sources _. Runs-pure _ refl)))

  -- The hash that `Resolve` answers is that of the sources.
  resolve-hash :
      (spec : Spec) (cache_dir : Str)
      → Runs (resolve o spec cache_dir) (λ r. content_hash o r.sources ≡ r.hash)
  unfolding resolve
  resolve-hash spec cache_dir =
      Runs-bind _ _ (Runs-any _) (λ sha _. resolve_sha-hash spec cache_dir sha)

  -- An entry that was there already.
  by_entry :
      (lock : Map Entry) (key : Str) (entry : Entry) (sources : List Str)
      → lookup key lock ≡ some entry
      → content_hash o sources ≡ entry.hash
      → Trusted o lock key (record { sources = sources; changed = false; lock = lock })
  by_entry lock key entry sources e h = record {
    entry = entry;
    found = e;
    honest = h;
    kept = λ e' q. some_same (sym e ∙ q);
    others = λ j ne. refl;
  }
    where
      some_same : {a b : Entry} → some a ≡ some b → a ≡ b
      some_same q = cc

  from_cache-Trusted :
      (spec : Spec) (cache_dir : Str) (lock : Map Entry) (entry : Entry)
      → lookup (lock_key spec) lock ≡ some entry
      → Runs (from_cache o spec cache_dir lock entry) (Trusted o lock (lock_key spec))
  unfolding from_cache
  from_cache-Trusted spec cache_dir lock entry e = Runs-bind _ _ (Runs-any _) (λ sources _.
      Runs-bind _ _ (Runs-refuse _ _) (λ _ h.
        Runs-pure _
          (by_entry lock (lock_key spec) entry sources e ((str_eq_iff _ _).0 (not-false _ h)))))

  refetch-Trusted :
      (spec : Spec) (cache_dir : Str) (lock : Map Entry) (entry : Entry)
      → lookup (lock_key spec) lock ≡ some entry
      → Runs (refetch o spec cache_dir lock entry) (Trusted o lock (lock_key spec))
  unfolding refetch
  refetch-Trusted spec cache_dir lock entry e =
      Runs-bind _ _ (resolve-hash spec cache_dir) (λ got honest. Runs-bind _ _ (Runs-any _) (λ _ _.
        Runs-bind _ _ (Runs-refuse _ _) (λ _ h. Runs-pure _ (
          by_entry lock (lock_key spec) entry got.sources e
            (honest ∙ (str_eq_iff _ _).0 (not-false _ h))))))

  pin-Trusted :
      (spec : Spec) (cache_dir : Str) (lock : Map Entry)
      → lookup (lock_key spec) lock ≡ none
      → Runs (pin o spec cache_dir lock) (Trusted o lock (lock_key spec))
  unfolding pin
  pin-Trusted spec cache_dir lock e = Runs-bind _ _ (resolve-hash spec cache_dir) (λ got honest.
      Runs-pure _ (record {
        entry = record { sha = got.sha; hash = got.hash };
        found = lookup-insert_same key _ lock;
        honest = honest;
        kept = λ e' q. absurd (none_some (sym e ∙ q));
        others = λ j ne. lookup-insert_other key j _ lock ne;
      }))
    where
      key : Str
      key = lock_key spec

      none_some : {a : Entry} → none ≢ some a
      none_some q = cc

  resolve_locked-Runs :
      (spec : Spec) (cache_dir : Str) (lock : Map Entry)
      → Runs (resolve_locked o spec cache_dir lock) (Trusted o lock (lock_key spec))
  unfolding resolve_locked pinned
  resolve_locked-Runs spec cache_dir lock = by_lookup (lookup (lock_key spec) lock) refl
    where
      by_lookup :
          (r : Option Entry)
          → lookup (lock_key spec) lock ≡ r
          → Runs (at_entry o spec cache_dir lock r) (Trusted o lock (lock_key spec))
      by_lookup none e = pin-Trusted spec cache_dir lock e
      by_lookup (some entry) e = Runs-bind _ _ (Runs-any _) (λ cached _.
          Runs-if cached (from_cache-Trusted spec cache_dir lock entry e)
            (refetch-Trusted spec cache_dir lock entry e))

  -- If `ResolveLocked` answers sources, then the lock as it leaves it has an entry for the module, whose
  -- hash is the content hash of those very sources; an entry that was there before is still the same,
  -- and no other key has changed.
  pub resolve_locked-Trusted :
      (spec : Spec) (cache_dir : Str) (lock : Map Entry) (w w' : W) (l : Locked)
      → resolve_locked o spec cache_dir lock w ≡ (inl l, w')
      → Trusted o lock (lock_key spec) l
  resolve_locked-Trusted spec cache_dir lock w w' l e =
      subst (Ensures (Trusted o lock (lock_key spec))) e
        ((resolve_locked-Runs spec cache_dir lock).run w)
