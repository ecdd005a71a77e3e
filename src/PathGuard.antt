-- ===== src/PathGuard.antt =====
-- internal/pathguard/pathguard.go: whether somebody else could have decided what a path holds. The
-- file system, `filepath.Dir` and the user's own number are parameters.
pub mod Ancestors
use shellf.Prelude.{
  ℕ, zero, suc, ◌/◌, ◌%◌, Bool, true, false, not, ◌&&◌, ◌||◌, Str, str_eq, ◌==◌, if◌then◌else◌,
}

-- What `os.Lstat` tells of a file: its owner, its permission bits, whether it is a directory, and
-- its sticky bit.
pub record FileInfo : Type 0 where
  pub uid : ℕ
  pub perm : ℕ
  pub is_dir : Bool
  pub sticky : Bool

-- `os.Lstat` with the owner read from it: neither need succeed.
pub data Stat : Type 0 where
  no_file no_owner : Stat
  info : FileInfo → Stat

-- `nil`, or the error and the path that it names.
pub data Verdict : Type 0 where
  trusted : Verdict
  cannot_stat cannot_read writable : Str → Verdict
  foreign : Str → ℕ → Verdict
  out_of_fuel : Verdict

-- `fi.Mode().Perm()&0o022 != 0`: the group or the others may write.
unfoldable pub others_write : ℕ → Bool
others_write perm = (perm / 16) % 2 == 1 || (perm / 2) % 2 == 1

module _ (lstat : Str → Stat) (dir : Str → Str) (own : ℕ) where
  abbrev pub is_ours : FileInfo → Bool
  is_ours fi = fi.uid == own || fi.uid == 0

  unfoldable pub is_hazard : FileInfo → Bool
  unfolding others_write
  is_hazard fi = others_write fi.perm && (not fi.is_dir || not fi.sticky)

  abbrev pub judge : Str → Verdict → Stat → Verdict
  judge p above no_file = cannot_stat p
  judge p above no_owner = cannot_read p
  judge p above (info fi) =
      if not (is_ours fi)
      then foreign p fi.uid
      else if is_hazard fi
      then writable p
      else if str_eq p (dir p)
      then trusted
      else above

  -- `OwnedAndUnwritable`, one unit of fuel for each directory on the way to the root.
  unfoldable pub owned_and_unwritable : ℕ → Str → Verdict
  unfolding is_hazard
  owned_and_unwritable zero p = out_of_fuel
  owned_and_unwritable (suc fuel) p =
      let above = owned_and_unwritable fuel (dir p) in judge p above (lstat p)
