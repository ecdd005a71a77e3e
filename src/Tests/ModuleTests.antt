-- ===== src/Tests/ModuleTests.antt =====
-- The theorems on the modules and their lock at concrete inputs.
use shellf.Prelude.{
  ℕ, Bool, true, false, List, [], ◌∷◌, ◌++◌, Option, none, some, Str, str, Map, lookup, keys, In,
  ◌≡◌, ◌⊎◌, inl, inr, refl, sym, subst,
}
use shellf.Module.{Spec, parse_spec, Entry, Outside, content_hash, Locked, lock_key, resolve_locked}
use shellf.Module.Pinned.{Trusted, resolve_locked-Trusted}
use shellf.Module.LockFile.{entry_or_zero, lock_text, parse_lock}
use shellf.Module.LockText.{GoodLine, Storable, parse_lock-lock_text}

-- A cache with one file of defs in each directory, and a digest that is the text itself.
abbrev cached_files : Outside (Unit {0})
cached_files = record {
  stat = λ p w. true;
  stat_dir = λ p w. true;
  mkdir_all = λ p w. (none, w);
  mkdir_temp = λ p w. (inl (str "tmp"), w);
  remove_all = λ p w. w;
  rename = λ a b w. (none, w);
  is_exist = λ e. false;
  read_dir = λ p w. inl (
      record { name = str "web.shellf"; is_dir = false }
      ∷ record { name = str "README"; is_dir = false }
      ∷ []);
  read_file = λ p w. inl (str "defs");
  is_not_exist = λ e. false;
  write_file = λ p t w. (none, w);
  join_path = λ a b. a ++ (str "/" ++ b);
  dir_of = λ p. p;
  sha256_hex = λ s. s;
  git = λ dir args w. (inl (str "c0ffee refs"), w);
}

abbrev web_module : Spec
web_module = record { path = str "host/web"; version = str "v1" }

abbrev defs_hash : Str
defs_hash = str "defs" ++ (0 ∷ [])

abbrev web_lock : Map Entry
web_lock = (str "host/web@v1", record { sha = str "c0ffee"; hash = defs_hash }) ∷ []

abbrev web_answer : Locked
web_answer = record { sources = str "defs" ∷ []; changed = false; lock = web_lock }

resolve_web :
    resolve_locked cached_files web_module (str "cache") web_lock tt ≡ (inl web_answer, tt)
unfolding shellf.Prelude.str_eq shellf.Prelude.str_le shellf.Prelude.has_prefix
    shellf.Prelude.has_suffix shellf.Prelude.drop shellf.Prelude.take shellf.Prelude.join
    shellf.Prelude.trim_left shellf.Prelude.trim_right shellf.Prelude.trim_space
    shellf.Prelude.lookup shellf.Prelude.insert shellf.Prelude.merge shellf.Prelude.keys
    shellf.Prelude.assign shellf.Prelude.insert_sorted shellf.Prelude.sort_strings
    shellf.Lang.ShellRules.replace_separator shellf.Lang.ShellRules.replace_separators
    shellf.Lang.ShellRules.split_lines shellf.Lang.ShellRules.split_segments
    shellf.Lang.ShellRules.split_spaces shellf.Lang.ShellRules.drop_empty
    shellf.Lang.ShellRules.words shellf.Lang.ShellRules.is_skippable
    shellf.Lang.ShellRules.is_quoted shellf.Lang.ShellRules.base_name
    shellf.Lang.ShellRules.command_of shellf.Lang.ShellRules.leading_command
    shellf.Lang.ShellRules.commands_of shellf.Lang.ShellRules.command_words
    shellf.Lang.ShellRules.is_ruled shellf.Lang.ShellRules.first_ruled
    shellf.Lang.ShellRules.check_shell_body shellf.Module.cut_last_at shellf.Module.parse_spec
    shellf.Module.◌>>=◌ shellf.Module.pure shellf.Module.refuse_if shellf.Module.ask
    shellf.Module.is_hex shellf.Module.is_sha shellf.Lang.Cited.contains shellf.Module.git_url
    shellf.Module.hashed_text shellf.Module.content_hash shellf.Module.read_sources
    shellf.Module.shellf_sources shellf.Module.resolve_tag shellf.Module.clone_into
    shellf.Module.fetch shellf.Module.resolve_sha shellf.Module.resolve shellf.Module.refetch
    shellf.Module.from_cache shellf.Module.pin shellf.Module.pinned shellf.Module.resolve_locked
    shellf.Module.LockFile.add_line shellf.Module.LockFile.load_lines
    shellf.Module.LockFile.parse_lock shellf.Module.LockFile.entry_lines
    shellf.Module.LockFile.lock_text shellf.Module.LockFile.load_lock
    shellf.Module.LockFile.save_lock
resolve_web = refl

resolve_locked-Trusted_example : Trusted cached_files web_lock (lock_key web_module) web_answer
resolve_locked-Trusted_example =
    resolve_locked-Trusted cached_files web_module (str "cache") web_lock tt tt web_answer
      resolve_web

abbrev two_modules : Map Entry
two_modules =
    (str "host/web@v1", record { sha = str "c0ffee"; hash = str "12" })
    ∷ (str "host/db@v2", record { sha = str "decaf"; hash = str "34" })
    ∷ []

web_line : GoodLine (str "host/web@v1") (entry_or_zero (lookup (str "host/web@v1") two_modules))
unfolding lookup shellf.Prelude.str_eq shellf.Prelude.has_prefix
web_line = ((refl, refl), refl, (refl, refl), (refl, refl))

db_line : GoodLine (str "host/db@v2") (entry_or_zero (lookup (str "host/db@v2") two_modules))
unfolding lookup shellf.Prelude.str_eq shellf.Prelude.has_prefix
db_line = ((refl, refl), refl, (refl, refl), (refl, refl))

two_modules-Storable : Storable two_modules
unfolding Storable keys
two_modules-Storable k (inl e) =
    subst (λ i. GoodLine i (entry_or_zero (lookup i two_modules))) (sym e) web_line
two_modules-Storable k (inr (inl e)) =
    subst (λ i. GoodLine i (entry_or_zero (lookup i two_modules))) (sym e) db_line
two_modules-Storable k (inr (inr m)) = elim m [ ]

parse_lock-lock_text_example :
    (lock : Map Entry) × (parse_lock (lock_text two_modules) ≡ inl lock)
    × ((k : Str) → lookup k lock ≡ lookup k two_modules)
parse_lock-lock_text_example = parse_lock-lock_text two_modules two_modules-Storable
