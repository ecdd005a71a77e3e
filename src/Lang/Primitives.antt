-- ===== src/Lang/Primitives.antt =====
-- internal/lang/eval.go, `evalControlCall` and what it calls: the primitives `~name(…)`. The
-- arguments come as computations, since a primitive evaluates them in its own order.
use shellf.Prelude.{
  ℕ, zero, suc, ◌+◌, Bool, true, false, not, ◌&&◌, ◌||◌, List, [], ◌∷◌, ◌++◌, Option, none, some,
  Str, str, str_eq, ◌==◌, ltb, if◌then◌else◌, is_empty, Map, ◌⊎◌, inl, inr, length, pos,
}
use shellf.Engine.{
  Mode, apply_mode, check_mode, status_mode, Category, ok_category, err_category, would_category,
  is_ok, result_string,
}
use shellf.Engine.Exec.{ShellExecutor, shell}
use shellf.Engine.Run.{run}
use shellf.Engine.FilePut.{file_put}
use shellf.Lang.Value.{
  Value, text, int, bool, bytes, control, nil, outcome, wrong_arity, no_channel, not_a_primitive,
  wrong_kind, write_failed, from_host, unreadable, bad_compare, bad_pattern, bytes_as_argument,
  unevaluable, stringify, is_bytes, scalars, itoa,
}
use shellf.Lang.Monad.{M, ◌>>=◌, ◌>>◌, pure, fail, get, refuse_if, on_world}
use shellf.Lang.Services.{Services, Config}

-- The arity of each primitive.
unfoldable pub arity : Str → ℕ
arity name =
    if str_eq name (str "file.write")
    then 2
    else if str_eq name (str "text.matches")
    then 2
    else if str_eq name (str "text.replace")
    then 3
    else if str_eq name (str "dir.sync")
    then 4
    else 1

-- `resourceKey`
abbrev pub resource_key : Str → Str → Str
resource_key primitive path = primitive ++ (str ":" ++ path)

-- `strings.ReplaceAll(s, "\n", "")`
unfoldable pub without_newlines : Str → Str
without_newlines [] = []
without_newlines (c ∷ s) = let rest = without_newlines s in if c == 10 then rest else c ∷ rest

abbrev name_lines : List Str → Str
name_lines [] = []
name_lines (e ∷ es) = str "\n  - " ++ (e ++ name_lines es)

abbrev count : List Str → ℕ
count = length

-- `syncSummary`
unfoldable pub sync_summary : ℕ → List Str → Bool → Str
sync_summary written extras del =
    itoa (pos written)
    ++ (str " file(s) would be transferred"
        ++ (if not del || is_empty extras
            then (if is_empty extras
                then []
                else str "; "
                  ++ (itoa (pos (count extras))
                      ++ str " extra file(s) on the target would be left alone"))
            else str "; "
              ++ (itoa (pos (count extras))
                  ++ (str " file(s) would be REMOVED from the target:" ++ name_lines extras))))

-- The command that `readTarget` runs.
unfoldable pub read_command : Str → Str
read_command primitive =
    if str_eq primitive (str "file.read")
    then str "base64 < \"$__p\""
    else str "ls -A \"$__p\" | base64"

module _ {W : Type 0} (sv : Services W) (cfg : Config) where
  abbrev Thunks : Type 0
  Thunks = List (M W Value)

  -- The i-th argument. The arity is checked before any is asked for.
  abbrev pub argument : ℕ → Thunks → M W Value
  argument i [] = fail unevaluable
  argument zero (t ∷ ts) = t
  argument (suc i) (t ∷ ts) = argument i ts

  -- `ev.acted = true` under a test.
  abbrev pub mark_acted : Bool → M W (Unit {0})
  mark_acted test e = pure tt (record e { acted = if test then true else e.acted })

  -- `readTarget`
  unfoldable pub read_target : Str → Str → M W Value
  unfolding read_command without_newlines
  read_target primitive path = do
    r ← on_world (shell sv.machine cfg.ex (read_command primitive) ((str "__p", path) ∷ []))
    refuse_if (not (is_ok r)) (unreadable primitive)
    elim (sv.codec.decode (without_newlines r.stdout)) [
      | none ↦ fail (unreadable primitive)
      | some b ↦ pure (bytes b)
    ]

  abbrev pub content_of : Value → Option Str
  content_of (bytes b) = some b
  content_of (text t) = some t
  content_of nil = none
  content_of (int n) = none
  content_of (bool b) = none
  content_of (control p) = none
  content_of (Value.shell r) = none
  content_of (outcome r) = none

  abbrev is_err : Category → Bool
  is_err err_category = true
  is_err ok_category = false
  is_err would_category = false

  -- `~file.write`, from the evaluated path and content on.
  unfoldable pub write_file : Str → Str → M W Value
  write_file path content = do
    res ←
        on_world (
          run (file_put sv.codec sv.machine sv.temp path (sv.codec.encode content)) cfg.ex cfg.mode)
    mark_acted res.changed
    refuse_if (is_err res.category) (write_failed (result_string res))
    pure (text (if res.changed then str "1" else str "0"))

  unfoldable pub file_write : Value → Thunks → M W Value
  unfolding write_file
  file_write (text path) ts = do
    v ← argument 1 ts
    elim (content_of v) [
      | none ↦ fail (wrong_kind (str "file.write"))
      | some content ↦ write_file path content
    ]
  file_write nil ts = fail (wrong_kind (str "file.write"))
  file_write (int n) ts = fail (wrong_kind (str "file.write"))
  file_write (bool b) ts = fail (wrong_kind (str "file.write"))
  file_write (bytes b) ts = fail (wrong_kind (str "file.write"))
  file_write (control p) ts = fail (wrong_kind (str "file.write"))
  file_write (Value.shell r) ts = fail (wrong_kind (str "file.write"))
  file_write (outcome r) ts = fail (wrong_kind (str "file.write"))

  -- A question to the control host, with the caller's scope where the primitive substitutes.
  unfoldable pub ask : Str → Str → Map Str → M W Str
  ask name path scope = elim sv.fetch [
    | none ↦ fail (no_channel name)
    | some fetch ↦ on_world (fetch (resource_key name path) scope) >>= λ answer. elim answer [
      | inl content ↦ pure content
      | inr message ↦ fail (from_host message)
    ]
  ]

  -- `~file.read` and `~dir.list`
  unfoldable pub file_read : Str → Value → M W Value
  unfolding ask read_target
  file_read name (control path) = do content ← ask name path []; pure (bytes content)
  file_read name (text path) = read_target name path
  file_read name nil = fail (wrong_kind name)
  file_read name (int n) = fail (wrong_kind name)
  file_read name (bool b) = fail (wrong_kind name)
  file_read name (bytes b) = fail (wrong_kind name)
  file_read name (Value.shell r) = fail (wrong_kind name)
  file_read name (outcome r) = fail (wrong_kind name)

  -- `~file.render`
  unfoldable pub file_render : Value → M W Value
  unfolding ask
  file_render (control path) = do
    e ← get
    content ← ask (str "file.render") path (scalars e.vars)
    pure (text content)
  file_render nil = fail (wrong_kind (str "file.render"))
  file_render (text t) = fail (wrong_kind (str "file.render"))
  file_render (int n) = fail (wrong_kind (str "file.render"))
  file_render (bool b) = fail (wrong_kind (str "file.render"))
  file_render (bytes b) = fail (wrong_kind (str "file.render"))
  file_render (Value.shell r) = fail (wrong_kind (str "file.render"))
  file_render (outcome r) = fail (wrong_kind (str "file.render"))

  -- `~dir.sync` in check mode: the delta is asked for, and nothing is transferred.
  unfoldable pub preview_sync : Str → Str → Str → Bool → M W Value
  unfolding sync_summary
  preview_sync src dst compare del = elim sv.preview [
    | none ↦ fail (no_channel (str "dir.sync"))
    | some preview ↦
        on_world (preview cfg.ex (resource_key (str "dir.sync") src) dst compare) >>= λ answer.
        elim answer [
          | inl (n, extras) ↦
              mark_acted (ltb 0 n || (del && not (is_empty extras)))
              >> pure (text (sync_summary n extras del))
          | inr message ↦ fail (from_host message)
        ]
  ]

  unfoldable pub transfer :
      (ShellExecutor → Str → Str → Str → Bool → W → ((ℕ × ℕ) ⊎ Str) × W)
      → Str
      → Str
      → Str
      → Bool
      → M W Value
  transfer sync src dst compare del =
      on_world (sync cfg.ex (resource_key (str "dir.sync") src) dst compare del) >>= λ answer.
      elim answer [
        | inl (written, removed) ↦
            mark_acted (ltb 0 (written + removed)) >> pure (text (itoa (pos (written + removed))))
        | inr message ↦ fail (from_host message)
      ]

  abbrev in_check : Mode → Bool
  in_check check_mode = true
  in_check apply_mode = false
  in_check status_mode = false

  abbrev is_compare : Str → Bool
  is_compare c = is_empty c || str_eq c (str "meta") || str_eq c (str "sha256")

  -- `evalSync`, once the source is known to be a control path.
  unfoldable pub sync_tree : Str → Thunks → M W Value
  unfolding preview_sync transfer
  sync_tree src ts = do
    dst_v ← argument 1 ts
    del_v ← argument 2 ts
    compare_v ← argument 3 ts
    refuse_if (is_bytes dst_v) (bytes_as_argument (str "the destination"))
    refuse_if (is_bytes del_v) (bytes_as_argument (str "delete"))
    refuse_if (is_bytes compare_v) (bytes_as_argument (str "compare"))
    refuse_if (not (is_compare (stringify compare_v))) (bad_compare (stringify compare_v))
    elim sv.sync [
      | none ↦ fail (no_channel (str "dir.sync"))
      | some sync ↦
          let del = str_eq (stringify del_v) (str "true") in
          if in_check cfg.mode
          then preview_sync src (stringify dst_v) (stringify compare_v) del
          else transfer sync src (stringify dst_v) (stringify compare_v) del
    ]

  unfoldable pub dir_sync : Value → Thunks → M W Value
  unfolding sync_tree
  dir_sync (control src) ts = sync_tree src ts
  dir_sync nil ts = fail (wrong_kind (str "dir.sync"))
  dir_sync (text t) ts = fail (wrong_kind (str "dir.sync"))
  dir_sync (int n) ts = fail (wrong_kind (str "dir.sync"))
  dir_sync (bool b) ts = fail (wrong_kind (str "dir.sync"))
  dir_sync (bytes b) ts = fail (wrong_kind (str "dir.sync"))
  dir_sync (Value.shell r) ts = fail (wrong_kind (str "dir.sync"))
  dir_sync (outcome r) ts = fail (wrong_kind (str "dir.sync"))

  -- `textReplacement`
  unfoldable pub text_replacement : Str → Thunks → M W Str
  text_replacement name ts = do
    v ← argument 2 ts
    elim (content_of v) [ none ↦ fail (wrong_kind name) | some t ↦ pure t ]

  -- The kind of the subject is kept.
  abbrev pub same_kind : Value → Str → Value
  same_kind (bytes b) t = bytes t
  same_kind nil t = text t
  same_kind (text s) t = text t
  same_kind (int n) t = text t
  same_kind (bool b) t = text t
  same_kind (control p) t = text t
  same_kind (Value.shell r) t = text t
  same_kind (outcome r) t = text t

  -- The answer of `evalText` for a subject, by its kind.
  unfoldable pub text_answer : Str → Str → Value → Thunks → M W Value
  unfolding text_replacement
  text_answer name pattern_ subject ts = elim (content_of subject) [
    | none ↦ fail (wrong_kind name)
    | some s ↦
        if str_eq name (str "text.matches")
        then pure (bool (sv.regexp.matches pattern_ s))
        else (text_replacement name ts >>= λ r.
            pure (same_kind subject (sv.regexp.replace_all_literal pattern_ s r)))
  ]

  -- `evalText`
  unfoldable pub eval_text : Str → Thunks → M W Value
  unfolding text_answer
  eval_text name ts = do
    subject ← argument 0 ts
    p ← argument 1 ts
    elim p [
      | text pattern_ ↦
          if sv.regexp.compiles pattern_
          then text_answer name pattern_ subject ts
          else fail bad_pattern
      | _ ↦ fail (wrong_kind name)
    ]

  -- The primitives that need the channel, by name.
  unfoldable pub host_primitive : Str → Thunks → M W Value
  unfolding dir_sync file_write file_read file_render
  host_primitive name ts = do
    v ← argument 0 ts
    if str_eq name (str "dir.sync")
        then dir_sync v ts
        else if str_eq name (str "file.write")
        then file_write v ts
        else if str_eq name (str "file.read") || str_eq name (str "dir.list")
        then file_read name v
        else if str_eq name (str "file.render")
        then file_render v
        else fail (not_a_primitive name)

  -- `evalControlCall`
  unfoldable pub control_call : Str → Thunks → M W Value
  unfolding eval_text host_primitive
  control_call name ts =
      if not (length ts == arity name)
      then fail (wrong_arity name)
      else if str_eq name (str "text.matches") || str_eq name (str "text.replace")
      then eval_text name ts
      else elim sv.fetch [ none ↦ fail (no_channel name) | some f ↦ host_primitive name ts ]
