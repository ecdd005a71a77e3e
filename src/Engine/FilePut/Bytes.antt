-- ===== src/Engine/FilePut/Bytes.antt =====
-- `FilePut` in apply mode, on a content that was encoded: which bytes end up where.
use shellf.Prelude.{
  Bool, true, false, ◌&&◌, Option, none, some, [], ◌∷◌, Str, str, str_eq_iff, is_empty, trim_space,
  if◌then◌else◌, ◌≡◌, ◌⊎◌, inl, inr, refl, sym, ap, subst, ◌∙◌, arith, Bool-cases, some-injective,
}
use shellf.Engine.{Result, ok_category, err_category, ok_result, err_result, is_ok, apply_mode}
use shellf.Engine.Exec.{ShellExecutor, Machine, shell}
use shellf.Engine.Run.{Acted-category, run, run-modes}
use shellf.Engine.FilePut.{
  Codec, TempFiles, guard_command, place_command, sum, place, close_then_place, fill, stage, apply,
  pre_check, guard, file_put,
}

-- The temporary files of the operating system, seen through `Holds`: a file holds the bytes of a
-- write that went well, and still does once it is closed.
module _ {W : Type 0} (codec : Codec) (machine : Machine W) (temp : TempFiles W)
    (Holds : Str → Str → W → Type 0)
    (write-Holds : (tmp b : Str) (w : W)
      → (temp.write tmp b w).0 ≡ true
      → Holds tmp b (temp.write tmp b w).1)
    (close-Holds : (tmp b : Str) (w : W)
      → Holds tmp b w
      → (temp.close tmp w).0 ≡ true
      → Holds tmp b (temp.close tmp w).1) where
  -- The command that replaces the destination by the file `tmp` ended well while `tmp` held `b`, and
  -- left the machine `w'`.
  abbrev pub Ran : Str → Str → Str → ShellExecutor → W → Type 0
  Ran path b tmp ex w' =
      (w : W) × Holds tmp b w
      × (is_ok (shell machine ex place_command ((str "tmp", tmp) ∷ (str "dst", path) ∷ []) w).0
          ≡ true)
      × (w' ≡ (shell machine ex place_command ((str "tmp", tmp) ∷ (str "dst", path) ∷ []) w).1)

  -- So it did on some temporary file, which was then removed.
  abbrev pub Placed : Str → Str → ShellExecutor → W → Type 0
  Placed path b ex w' = (tmp : Str) × (w : W) × Ran path b tmp ex w × (w' ≡ temp.remove tmp w)

  -- The digest that the guard read of the destination is that of `b`, and nothing else was done.
  abbrev pub AlreadyThere : Str → Str → ShellExecutor → W → W → Type 0
  AlreadyThere path b ex w w' =
      (is_ok (shell machine ex guard_command ((str "dst", path) ∷ []) w).0 ≡ true)
      × (trim_space (shell machine ex guard_command ((str "dst", path) ∷ []) w).0.stdout
          ≡ codec.sha256_hex b)
      × (w' ≡ (shell machine ex guard_command ((str "dst", path) ∷ []) w).1)

  place-Ran :
      (path b tmp : Str) (ex : ShellExecutor) (w : W)
      → Holds tmp b w
      → (place codec machine temp path tmp ex w).0.category ≡ ok_category
      → Ran path b tmp ex (place codec machine temp path tmp ex w).1
  unfolding place
  place-Ran path b tmp ex w held h =
      elim (Bool-cases
        (is_ok (shell machine ex place_command ((str "tmp", tmp) ∷ (str "dst", path) ∷ []) w).0)) [
          | inl well ↦ (w, held, well, refl)
          | inr ill ↦ absurd (ground (arith, rw ill at h))
        ]

  close-Ran :
      (path b tmp : Str) (ex : ShellExecutor) (w : W)
      → Holds tmp b w
      → (close_then_place codec machine temp path tmp ex w).0.category ≡ ok_category
      → Ran path b tmp ex (close_then_place codec machine temp path tmp ex w).1
  unfolding close_then_place
  close-Ran path b tmp ex w held h = elim (Bool-cases (temp.close tmp w).0) [
    | inl closed ↦ rw closed (
        place-Ran path b tmp ex (temp.close tmp w).1 (close-Holds tmp b w held closed)
          (rw closed at h))
    | inr open_ ↦ absurd (ground (arith, rw open_ at h))
  ]

  fill-Ran :
      (path b tmp : Str) (ex : ShellExecutor) (w : W)
      → (fill codec machine temp path b tmp ex w).0.category ≡ ok_category
      → Ran path b tmp ex (fill codec machine temp path b tmp ex w).1
  unfolding fill
  fill-Ran path b tmp ex w h = elim (Bool-cases (temp.write tmp b w).0) [
    | inl written ↦ rw written (
        close-Ran path b tmp ex (temp.write tmp b w).1 (write-Holds tmp b w written)
          (rw written at h))
    | inr refused ↦ absurd (ground (arith, rw refused at h))
  ]

  stage-Placed :
      (path b : Str) (ex : ShellExecutor) (made : Option Str × W)
      → (stage codec machine temp path b ex made).0.category ≡ ok_category
      → Placed path b ex (stage codec machine temp path b ex made).1
  unfolding stage
  stage-Placed path b ex (none, w) h = absurd (ground (arith, h))
  stage-Placed path b ex (some tmp, w) h =
      (tmp, (fill codec machine temp path b tmp ex w).1, fill-Ran path b tmp ex w h, refl)

  apply-encode :
      (path b : Str) (ex : ShellExecutor) (w : W)
      → apply codec machine temp path (codec.encode b) ex w
        ≡ stage codec machine temp path b ex (temp.create w)
  unfolding apply
  apply-encode path b ex w = rw (apply, codec.decode-encode b)

  apply-Placed :
      (path b : Str) (ex : ShellExecutor) (w : W)
      → (apply codec machine temp path (codec.encode b) ex w).0.category ≡ ok_category
      → Placed path b ex (apply codec machine temp path (codec.encode b) ex w).1
  apply-Placed path b ex w h =
      subst (λ o. Placed path b ex o.1) (sym (apply-encode path b ex w))
        (stage-Placed path b ex (temp.create w)
          (ap (λ o. o.0.category) (sym (apply-encode path b ex w)) ∙ h))

  -- The check of the arguments refuses the empty path alone, with an `err`.
  pre_check-encode :
      (path b : Str)
      → ((is_empty path ≡ false) × (pre_check codec machine temp path (codec.encode b) ≡ none))
        ⊎ ((r : Result) × (r.category ≡ err_category)
            × (pre_check codec machine temp path (codec.encode b) ≡ some r))
  unfolding pre_check
  pre_check-encode path b = elim (Bool-cases (is_empty path)) [
    | inl empty_ ↦ inr (err_result (str "pathMustNotBeEmpty"), refl, rw empty_ refl)
    | inr named ↦ inl (named, rw (named, pre_check, codec.decode-encode b) refl)
  ]

  guard-AlreadyThere :
      (path b : Str) (ex : ShellExecutor) (w : W) (r : Result) (w' : W)
      → guard codec machine temp path (codec.encode b) ex w ≡ (some r, w')
      → AlreadyThere path b ex w w'
  unfolding guard sum
  guard-AlreadyThere path b ex w r w' e =
      let (well, same) = both _ _ (if_some (ok_result (str "already")) _ (ap (λ o. o.0) e)) in
      (well, (str_eq_iff _ _).0 same ∙ rw (sum, codec.decode-encode b) refl, sym (ap (λ o. o.1) e))
    where
      if_some :
          (v : Result) (t : Bool)
          → ◌≡◌ {A = Option Result} (if t then some v else none) (some r)
          → t ≡ true
      if_some v true h = refl
      if_some v false h = cc

      both : (a c : Bool) → (a && c) ≡ true → (a ≡ true) × (c ≡ true)
      both true c h = (refl, h)
      both false c h = cc

  -- Let a temporary file hold what was written to it without error, and still hold it once it is
  -- closed without error. If `FilePut` of encoded bytes then succeeds in apply mode, the path is
  -- not empty, and either the guard read the digest of those bytes off the destination and nothing
  -- else was done, or the command that replaces the destination ended well on a temporary file that
  -- held those bytes, and that file was then removed.
  pub file_put-places :
      (path b : Str) (ex : ShellExecutor) (w : W) (r : Result) (w' : W)
      → run (file_put codec machine temp path (codec.encode b)) ex apply_mode w ≡ (r, w')
      → r.category ≡ ok_category
      → (is_empty path ≡ false) × (AlreadyThere path b ex w w' ⊎ Placed path b ex w')
  unfolding file_put
  file_put-places path b ex w r w' e h =
      elim (run-modes (file_put codec machine temp path (codec.encode b)) ex w) [
        | inl (r₁, w₁, decided, all) ↦ elim decided [
          | inl (pre, same) ↦
              refused (pre_check-encode path b) pre
                (ap (λ o. o.0.category) (sym (all apply_mode) ∙ e) ∙ h)
          | inr (pre, gu) ↦ (
            named (pre_check-encode path b) pre,
            inl (
                subst (AlreadyThere path b ex w) (ap (λ o. o.1) (sym (all apply_mode) ∙ e))
                  (guard-AlreadyThere path b ex w r₁ w₁ gu)),
          )
        ]
        | inr (w₁, (pre, gu), checked, shown, previewed, asked, kept, acted, left) ↦ (
          named (pre_check-encode path b) pre,
          inr (
              subst (Placed path b ex) (sym left ∙ ap (λ o. o.1) e) (
                apply-Placed path b ex w₁
                  (sym (Acted-category _ _ acted) ∙ ap (λ o. o.0.category) e ∙ h))),
        )
      ]
    where
      Refuses : Type 0
      Refuses =
          (q : Result) × (q.category ≡ err_category)
          × (pre_check codec machine temp path (codec.encode b) ≡ some q)

      named :
          ((is_empty path ≡ false) × (pre_check codec machine temp path (codec.encode b) ≡ none))
            ⊎ Refuses
          → pre_check codec machine temp path (codec.encode b) ≡ none
          → is_empty path ≡ false
      named (inl (n, p)) pre = n
      named (inr (q, f, p)) pre = cc

      refused :
          {G : Type 0} {q : Result}
          → ((is_empty path ≡ false) × (pre_check codec machine temp path (codec.encode b) ≡ none))
            ⊎ Refuses
          → pre_check codec machine temp path (codec.encode b) ≡ some q
          → q.category ≡ ok_category
          → G
      refused (inl (n, p)) pre fine = cc
      refused (inr (q', f, p)) pre fine =
          absurd (ground (arith, fine, f, ap (λ x. x.category) (some-injective (sym pre ∙ p))))
