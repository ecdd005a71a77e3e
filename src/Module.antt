-- ===== src/Module.antt =====
-- internal/module: remote modules (module.go) and the lock that pins them (lock.go). Files, git and sha256
-- are parameters on a state `W` of the world.
pub mod Pinned
pub mod LockFile
pub mod LockText
use shellf.Prelude.{
  ℕ, zero, suc, ◌+◌, Bool, true, false, not, ◌&&◌, ◌||◌, List, [], ◌∷◌, ◌++◌, Option, none, some,
  Str, str, str_eq, ◌==◌, leb, if◌then◌else◌, any, length, has_prefix, has_suffix, is_empty,
  is_space, trim_space, Map, lookup, insert, keys, sort_strings, ◌⊎◌, inl, inr,
}
use shellf.Lang.Cited.{contains}
use shellf.Lang.ShellRules.{split_lines, words}

-- `Spec`
pub record Spec : Type 0 where
  pub path : Str
  pub version : Str

-- The part behind the last `@`, with the part before it.
unfoldable pub cut_last_at : Str → Option (Str × Str)
cut_last_at [] = none
cut_last_at (c ∷ s) = elim (cut_last_at s) [
  | some (a, b) ↦ some (c ∷ a, b)
  | none ↦ if c == b'@' then some ([], s) else none
]

-- `ParseSpec`
unfoldable pub parse_spec : Str → Option Spec
parse_spec s = elim (cut_last_at s) [
  | none ↦ none
  | some (a, b) ↦ if is_empty a || is_empty b then none else some (record { path = a; version = b })
]

-- `Resolved`
pub record Resolved : Type 0 where
  pub sources : List Str
  pub sha : Str
  pub hash : Str

-- `Entry`, and `Lock` as a map of them.
pub record Entry : Type 0 where
  pub sha : Str
  pub hash : Str

-- The errors of the package: those of the files and of git carry a text.
pub data ModuleError : Type 0 where
  outside : Str → ModuleError
  no_such_tag cached_content content_changed : Str → ModuleError
  other_head tag_moved : Str → Str → ModuleError
  bad_line : ℕ → Str → ModuleError

-- The entry of a directory: its name, and whether it is a directory.
pub record DirEntry : Type 0 where
  pub name : Str
  pub is_dir : Bool

-- What the package asks of `os`, `filepath`, `crypto/sha256` and of the command `git` in a directory.
pub record Outside (W : Type 0) : Type 0 where
  pub stat : Str → W → Bool
  pub stat_dir : Str → W → Bool
  pub mkdir_all : Str → W → Option Str × W
  pub mkdir_temp : Str → W → (Str ⊎ Str) × W
  pub remove_all : Str → W → W
  pub rename : Str → Str → W → Option Str × W
  pub is_exist : Str → Bool
  pub read_dir : Str → W → List DirEntry ⊎ Str
  pub read_file : Str → W → Str ⊎ Str
  pub is_not_exist : Str → Bool
  pub write_file : Str → Str → W → Option Str × W
  pub join_path : Str → Str → Str
  pub dir_of : Str → Str
  pub sha256_hex : Str → Str
  pub git : Str → List Str → W → (Str ⊎ Str) × W

-- A computation on the world, with an error.
abbrev pub Io : Type 0 → Type 0 → Type 0
Io W A = W → (A ⊎ ModuleError) × W

infixr 5 ◌>>=◌ ◌>>◌
unfoldable pub ◌>>=◌ : {W A B : Type 0} → Io W A → (A → Io W B) → Io W B
◌>>=◌ m f w = let (r, w') = m w in elim r [ inl a ↦ f a w' | inr e ↦ (inr e, w') ]

abbrev pub ◌>>◌ : {W A B : Type 0} → Io W A → Io W B → Io W B
m >> k = m >>= λ _. k

unfoldable pub pure : {W A : Type 0} → A → Io W A
pure a w = (inl a, w)

abbrev pub fail : {W A : Type 0} → ModuleError → Io W A
fail e w = (inr e, w)

unfoldable pub refuse_if : {W : Type 0} → Bool → ModuleError → Io W (Unit {0})
refuse_if test e w = if test then (inr e, w) else (inl tt, w)

-- A call whose error is passed on with the world it left.
abbrev pub call_of : {W A : Type 0} → (W → (A ⊎ Str) × W) → Io W A
call_of f w = let (r, w') = f w in elim r [ inl a ↦ (inl a, w') | inr e ↦ (inr (outside e), w') ]

abbrev pub call_or_error : {W : Type 0} → (W → Option Str × W) → Io W (Unit {0})
call_or_error f w =
    let (r, w') = f w in elim r [ none ↦ (inl tt, w') | some e ↦ (inr (outside e), w') ]

-- A question that changes nothing.
unfoldable pub ask : {W A : Type 0} → (W → A) → Io W A
ask f w = (inl (f w), w)

abbrev pub read_of : {W A : Type 0} → (W → A ⊎ Str) → Io W A
read_of f w = elim (f w) [ inl a ↦ (inl a, w) | inr e ↦ (inr (outside e), w) ]

unfoldable pub is_hex : ℕ → Bool
is_hex c = (leb b'0' c && leb c b'9') || (leb b'a' c && leb c b'f')

abbrev pub all_hex : Str → Bool
all_hex [] = true
all_hex (c ∷ s) = is_hex c && all_hex s

-- `hexSHA`
unfoldable pub is_sha : Str → Bool
is_sha s = length s == 40 && all_hex s

-- `gitURL`
unfoldable pub git_url : Str → Str
git_url path =
    if contains path (str "://") || has_prefix path (str "git@")
    then path
    else str "https://" ++ path

-- What `ContentHash` writes into the digest.
unfoldable pub hashed_text : List Str → Str
hashed_text [] = []
hashed_text (s ∷ ss) = s ++ (0 ∷ hashed_text ss)

-- The answer of `ResolveLocked`, with the lock as it leaves it.
pub record Locked : Type 0 where
  pub sources : List Str
  pub changed : Bool
  pub lock : Map Entry

abbrev pub lock_key : Spec → Str
lock_key spec = spec.path ++ (str "@" ++ spec.version)

module _ {W : Type 0} (o : Outside W) where
  -- `ContentHash`
  unfoldable pub content_hash : List Str → Str
  content_hash sources = o.sha256_hex (hashed_text (sort_strings sources))

  -- The loop of `shellfSources`.
  unfoldable pub read_sources : Str → List DirEntry → Io W (List Str)
  read_sources dir [] = pure []
  read_sources dir (e ∷ es) =
      if e.is_dir || not (has_suffix e.name (str ".shellf")) then read_sources dir es else (do
        text ← read_of (o.read_file (o.join_path dir e.name))
        rest ← read_sources dir es
        pure (text ∷ rest))

  -- `shellfSources`
  unfoldable pub shellf_sources : Str → Io W (List Str)
  shellf_sources dir = read_of (o.read_dir dir) >>= λ entries. read_sources dir entries

  abbrev pub first_field : Str → Str → List Str → Io W Str
  first_field url version [] = fail (no_such_tag version)
  first_field url version (f ∷ fs) = pure f

  -- `resolveTag`
  unfoldable pub resolve_tag : Str → Str → Io W Str
  resolve_tag url version = do
    out ← call_of (o.git [] (str "ls-remote" ∷ url ∷ (str "refs/tags/" ++ version) ∷ []))
    first_field url version (words out)

  -- The rename into the cache, which may find the module there.
  abbrev pub into_cache : Str → Str → Io W (Unit {0})
  into_cache tmp dir w =
      let (r, w') = o.rename tmp dir w in
      elim r [
        | none ↦ (inl tt, w')
        | some e ↦ if o.is_exist e then (inl tt, w') else (inr (outside e), w')
      ]

  unfoldable pub clone_into : Str → Str → Str → Str → Str → Io W (Unit {0})
  clone_into url version sha dir tmp = do
    call_of (
        o.git []
          (str "clone" ∷ str "--depth" ∷ str "1" ∷ str "--branch" ∷ version ∷ url ∷ tmp ∷ []))
    head ← call_of (o.git tmp (str "rev-parse" ∷ str "HEAD" ∷ []))
    refuse_if (not (str_eq (trim_space head) sha)) (other_head (trim_space head) sha)
    into_cache tmp dir

  -- The `defer` that removes the temporary directory.
  abbrev pub then_remove : {A : Type 0} → Str → Io W A → Io W A
  then_remove tmp m w = let (r, w') = m w in (r, o.remove_all tmp w')

  -- `fetch`
  unfoldable pub fetch : Str → Str → Str → Str → Io W (Unit {0})
  fetch url version sha dir = do
    call_or_error (o.mkdir_all (o.dir_of dir))
    tmp ← call_of (o.mkdir_temp (o.dir_of dir))
    then_remove tmp (clone_into url version sha dir tmp)

  -- The part of `Resolve` behind the version: the cache, or a fetch into it, and the sources.
  unfoldable pub resolve_sha : Spec → Str → Str → Io W Resolved
  resolve_sha spec cache_dir sha = do
    cached ← ask (o.stat (o.join_path cache_dir sha))
    if cached
        then pure tt
        else fetch (git_url spec.path) spec.version sha (o.join_path cache_dir sha)
    sources ← shellf_sources (o.join_path cache_dir sha)
    pure (record { sources = sources; sha = sha; hash = content_hash sources })

  -- `Resolve`
  unfoldable pub resolve : Spec → Str → Io W Resolved
  resolve spec cache_dir = do
    sha ←
        if is_sha spec.version
        then pure spec.version
        else resolve_tag (git_url spec.path) spec.version
    resolve_sha spec cache_dir sha

  -- The branch for a module that is pinned but not cached.
  unfoldable pub refetch : Spec → Str → Map Entry → Entry → Io W Locked
  refetch spec cache_dir lock entry = do
    got ← resolve spec cache_dir
    refuse_if (not (str_eq got.sha entry.sha)) (tag_moved entry.sha got.sha)
    refuse_if (not (str_eq got.hash entry.hash)) (content_changed (lock_key spec))
    pure (record { sources = got.sources; changed = false; lock = lock })

  -- The branch for a module that is pinned and cached.
  unfoldable pub from_cache : Spec → Str → Map Entry → Entry → Io W Locked
  from_cache spec cache_dir lock entry = do
    sources ← shellf_sources (o.join_path cache_dir entry.sha)
    refuse_if (not (str_eq (content_hash sources) entry.hash)) (cached_content (lock_key spec))
    pure (record { sources = sources; changed = false; lock = lock })

  -- The branch for a module that is not pinned.
  unfoldable pub pin : Spec → Str → Map Entry → Io W Locked
  pin spec cache_dir lock = do
    got ← resolve spec cache_dir
    pure (record {
      sources = got.sources;
      changed = true;
      lock = insert (lock_key spec) (record { sha = got.sha; hash = got.hash }) lock;
    })

  -- The branches for a module that is pinned.
  unfoldable pub pinned : Spec → Str → Map Entry → Entry → Io W Locked
  pinned spec cache_dir lock entry = do
    cached ← ask (o.stat_dir (o.join_path cache_dir entry.sha))
    if cached then from_cache spec cache_dir lock entry else refetch spec cache_dir lock entry

  abbrev pub at_entry : Spec → Str → Map Entry → Option Entry → Io W Locked
  at_entry spec cache_dir lock none = pin spec cache_dir lock
  at_entry spec cache_dir lock (some entry) = pinned spec cache_dir lock entry

  -- `ResolveLocked`
  unfoldable pub resolve_locked : Spec → Str → Map Entry → Io W Locked
  resolve_locked spec cache_dir lock = at_entry spec cache_dir lock (lookup (lock_key spec) lock)
