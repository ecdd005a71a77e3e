-- ===== src/Module/LockFile.antt =====
-- internal/module/lock.go: the file `shellf.lock`, a line for each entry.
use shellf.Prelude.{
  ℕ, suc, ◌||◌, List, [], ◌∷◌, ◌++◌, Option, none, some, Str, str, if◌then◌else◌, has_prefix,
  is_empty, trim_space, Map, lookup, insert, keys, sort_strings, ◌⊎◌, inl, inr,
}
use shellf.Lang.ShellRules.{split_lines, words}
use shellf.Module.{Entry, ModuleError, outside, bad_line, Outside, Io}

-- The entry of a line with three fields.
abbrev pub add_fields : ℕ → Str → List Str → Map Entry → Map Entry ⊎ ModuleError
add_fields i line (k ∷ sha ∷ hash ∷ []) lock =
    inl (insert k (record { sha = sha; hash = hash }) lock)
add_fields i line [] lock = inr (bad_line i line)
add_fields i line (a ∷ []) lock = inr (bad_line i line)
add_fields i line (a ∷ b ∷ []) lock = inr (bad_line i line)
add_fields i line (a ∷ b ∷ c ∷ d ∷ e) lock = inr (bad_line i line)

-- A turn of the loop of `LoadLock`, on a line without its margins.
unfoldable pub add_line : ℕ → Str → Map Entry → Map Entry ⊎ ModuleError
add_line i line lock =
    if is_empty line || has_prefix line (str "#")
    then inl lock
    else add_fields i line (words line) lock

-- The loop of `LoadLock`, with the number of the line.
unfoldable pub load_lines : ℕ → List Str → Map Entry → Map Entry ⊎ ModuleError
load_lines i [] lock = inl lock
load_lines i (line ∷ lines) lock = elim (add_line i (trim_space line) lock) [
  | inl lock' ↦ load_lines (suc i) lines lock'
  | inr e ↦ inr e
]

-- `LoadLock`, on the text of the file.
unfoldable pub parse_lock : Str → Map Entry ⊎ ModuleError
parse_lock text = load_lines 1 (split_lines text) []

-- The comment that `SaveLock` begins with, in UTF-8.
abbrev pub lock_header : Str
lock_header =
    str "# shellf.lock "
    ++ (226 ∷ 128 ∷ 148 ∷ str " pinned remote modules (ADR-0016). Do not edit by hand.")

-- The value of a Go map at a key, its zero value if there is none.
abbrev pub entry_or_zero : Option Entry → Entry
entry_or_zero none = record { sha = []; hash = [] }
entry_or_zero (some e) = e

abbrev pub entry_line : Str → Entry → Str
entry_line k e = k ++ (b' ' ∷ (e.sha ++ (b' ' ∷ e.hash)))

-- The loop of `SaveLock`.
unfoldable pub entry_lines : List Str → Map Entry → Str
entry_lines [] lock = []
entry_lines (k ∷ ks) lock =
    entry_line k (entry_or_zero (lookup k lock)) ++ (b'\n' ∷ entry_lines ks lock)

-- The text that `SaveLock` writes.
unfoldable pub lock_text : Map Entry → Str
lock_text lock = lock_header ++ (b'\n' ∷ entry_lines (sort_strings (keys lock)) lock)

module _ {W : Type 0} (o : Outside W) where
  abbrev pub lock_path : Str → Str
  lock_path dir = o.join_path dir (str "shellf.lock")

  abbrev parsed_or_empty : Str ⊎ Str → Map Entry ⊎ ModuleError
  parsed_or_empty (inl text) = parse_lock text
  parsed_or_empty (inr e) = if o.is_not_exist e then inl [] else inr (outside e)

  -- `LoadLock`
  unfoldable pub load_lock : Str → Io W (Map Entry)
  load_lock dir w = (parsed_or_empty (o.read_file (lock_path dir) w), w)

  -- `SaveLock`
  unfoldable pub save_lock : Str → Map Entry → Io W (Unit {0})
  save_lock dir lock w =
      let (r, w') = o.write_file (lock_path dir) (lock_text lock) w in
      elim r [ none ↦ (inl tt, w') | some e ↦ (inr (outside e), w') ]
