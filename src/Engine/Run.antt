-- ===== src/Engine/Run.antt =====
-- internal/engine/instruction.go: a Go instruction and the driver that decides whether it acts.
use shellf.Prelude.{
  true, Option, none, some, Str, ◌≡◌, ◌≢◌, ◌⊎◌, inl, inr, refl, ap, arith, Option-cases,
}
use shellf.Engine.{
  Category, ok_category, err_category, would_category, Mode, apply_mode, check_mode, status_mode,
  ShellResult, Result, would_result,
}
use shellf.Engine.Exec.{ShellExecutor}

-- The interface `Instruction`, over the state `W` of the machine.
pub record Instruction (W : Type 0) : Type 0 where
  pub name : Str
  pub changed_tag : Str
  pub pre_check : Option Result
  pub guard : ShellExecutor → W → Option Result × W
  pub apply : ShellExecutor → W → Result × W
  pub preview : ShellExecutor → W → Option ShellResult × W

-- `if r.Category == OK { r.Changed = true }`
abbrev pub mark_changed : Result → Category → Result
mark_changed r ok_category = record r { changed = true }
mark_changed r err_category = r
mark_changed r would_category = r

-- A result that announces the change `tag`.
abbrev pub Announces : Str → Result → Type 0
Announces tag r = (r.category ≡ would_category) × (r.tag ≡ tag) × (r.changed ≡ true)

-- `r` is what `Apply` returned, marked as changed exactly where that is an `ok`.
abbrev pub Acted : Result → Result → Type 0
Acted r applied =
    ((applied.category ≡ ok_category) × (r ≡ record applied { changed = true }))
    ⊎ ((applied.category ≢ ok_category) × (r ≡ applied))

mark_changed-Acted : (r : Result) (c : Category) → r.category ≡ c → Acted (mark_changed r c) r
mark_changed-Acted r ok_category e = inl (e, refl)
mark_changed-Acted r err_category e = inr (λ q. ground (arith, e, q), refl)
mark_changed-Acted r would_category e = inr (λ q. ground (arith, e, q), refl)

pub Acted-category : (r applied : Result) → Acted r applied → r.category ≡ applied.category
Acted-category r applied (inl (fine, e)) = ap (λ x. x.category) e
Acted-category r applied (inr (other, e)) = ap (λ x. x.category) e

module _ {W : Type 0} where
  -- The branch of `Run` for check and status mode: the preview is asked for in check mode only.
  unfoldable pub decide : Instruction W → ShellExecutor → Mode → W → Result × W
  decide i ex check_mode w =
      let (p, w') = i.preview ex w in
      (record (would_result i.changed_tag) { changed = true; shell = p }, w')
  decide i ex apply_mode w = (record (would_result i.changed_tag) { changed = true }, w)
  decide i ex status_mode w = (record (would_result i.changed_tag) { changed = true }, w)

  unfoldable pub act : Instruction W → ShellExecutor → W → Result × W
  act i ex w = let (r, w') = i.apply ex w in (mark_changed r r.category, w')

  unfoldable pub proceed : Instruction W → ShellExecutor → Mode → W → Result × W
  unfolding decide act
  proceed i ex apply_mode w = act i ex w
  proceed i ex check_mode w = decide i ex check_mode w
  proceed i ex status_mode w = decide i ex status_mode w

  -- After the guard.
  unfoldable pub guarded : Instruction W → ShellExecutor → Mode → Option Result × W → Result × W
  unfolding proceed
  guarded i ex m (some skip, w) = (skip, w)
  guarded i ex m (none, w) = proceed i ex m w

  -- `Run`
  unfoldable pub run : Instruction W → ShellExecutor → Mode → W → Result × W
  unfolding guarded
  run i ex m w = elim i.pre_check [ some r ↦ (r, w) | none ↦ guarded i ex m (i.guard ex w) ]

  -- Outside apply mode the effectful phase is never called: whatever `Apply` does, the verdict
  -- and the machine afterwards are the same.
  pub run-reads_only :
      (i : Instruction W) (other : ShellExecutor → W → Result × W) (ex : ShellExecutor) (m : Mode)
      (w : W)
      → m ≢ apply_mode
      → run i ex m w ≡ run (record i { apply = other }) ex m w
  unfolding run
  run-reads_only i other ex apply_mode w h = absurd (h refl)
  run-reads_only i other ex check_mode w h = ground arith
  run-reads_only i other ex status_mode w h = ground arith

  -- The argument check or the guard has decided: the verdict `r`, and the machine `w'` that the
  -- guard left, or that there was where it was not asked.
  abbrev pub Decided : Instruction W → ShellExecutor → W → Result → W → Type 0
  Decided i ex w r w' =
      ((i.pre_check ≡ some r) × (w' ≡ w)) ⊎ ((i.pre_check ≡ none) × (i.guard ex w ≡ (some r, w')))

  -- Neither has, and the guard left the machine `w'`.
  abbrev pub Undecided : Instruction W → ShellExecutor → W → W → Type 0
  Undecided i ex w w' = (i.pre_check ≡ none) × (i.guard ex w ≡ (none, w'))

  -- Where the argument check or the guard decides, every mode gives its verdict and the machine that
  -- it left. Where neither does, check and status mode announce the change; status mode leaves the
  -- machine as the guard did, check mode as the preview then did, whose shell result it carries; and
  -- apply mode gives what `Apply`
  -- returned, marked as changed if it is an `ok`, and the machine that `Apply` left.
  pub run-modes :
      (i : Instruction W) (ex : ShellExecutor) (w : W)
      → ((r : Result) × (w' : W) × Decided i ex w r w' × ((m : Mode) → run i ex m w ≡ (r, w')))
        ⊎ ((w' : W) × Undecided i ex w w'
            × Announces i.changed_tag (run i ex check_mode w).0
            × ((run i ex check_mode w).0.shell ≡ (i.preview ex w').0)
            × ((run i ex check_mode w).1 ≡ (i.preview ex w').1)
            × Announces i.changed_tag (run i ex status_mode w).0
            × ((run i ex status_mode w).1 ≡ w')
            × Acted (run i ex apply_mode w).0 (i.apply ex w').0
            × ((run i ex apply_mode w).1 ≡ (i.apply ex w').1))
  unfolding run
  run-modes i ex w = elim (Option-cases i.pre_check) [
    | inr (r, wrong) ↦ inl (r, w, inl (wrong, refl), λ m. rw (wrong, run) refl)
    | inl passed ↦ elim (Option-cases (i.guard ex w).0) [
      | inr (skip, shut) ↦ inl (
        skip,
        (i.guard ex w).1,
        inr (passed, λ k. (shut k, (i.guard ex w).1)),
        λ m. rw (passed, run, shut) refl,
      )
      | inl open_ ↦ inr (
        (i.guard ex w).1,
        (passed, λ k. (open_ k, (i.guard ex w).1)),
        ground arith,
        ground arith,
        ground arith,
        ground arith,
        ground arith,
        rw (passed, run, open_) (mark_changed-Acted _ _ refl),
        ground arith,
      )
    ]
  ]
