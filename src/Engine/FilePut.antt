-- ===== src/Engine/FilePut.antt =====
-- internal/engine/fileput.go: writing bytes to a path, as an instruction. The digest, the base64
-- code and the temporary file are the standard library's and the operating system's.
pub mod Bytes
use shellf.Prelude.{
  Bool, ◌&&◌, ◌++◌, [], ◌∷◌, Option, none, some, Str, str, str_eq, is_empty, if◌then◌else◌,
  trim_space, ◌≡◌,
}
use shellf.Engine.{Result, ok_result, err_result, err_shell, is_ok}
use shellf.Engine.Exec.{ShellExecutor, Machine, shell}
use shellf.Engine.Run.{Instruction}

-- `encoding/base64` and `crypto/sha256`: what is encoded is decoded to itself.
pub record Codec : Type 0 where
  pub encode : Str → Str
  pub decode : Str → Option Str
  pub sha256_hex : Str → Str
  pub decode-encode : (b : Str) → decode (encode b) ≡ some b

-- `os.CreateTemp`, `Write`, `Close` and `os.Remove` on the agent's own machine. A write or a
-- close answers whether it went without error.
pub record TempFiles (W : Type 0) : Type 0 where
  pub create : W → Option Str × W
  pub write : Str → Str → W → Bool × W
  pub close : Str → W → Bool × W
  pub remove : Str → W → W

abbrev pub guard_command : Str
guard_command = str "sha256sum \"$dst\" 2>/dev/null | cut -d' ' -f1"

-- `placeCmd`
abbrev pub place_command : Str
place_command =
    str "mkdir -p \"$(dirname \"$dst\")\"\nstaged=\"$dst.shellf.$$\"\n"
    ++ (str
          "trap 'rm -f \"$staged\"' EXIT\nif [ -f \"$dst\" ]; then cp -p \"$dst\" \"$staged\"; fi\n"
        ++ str "cp \"$tmp\" \"$staged\"\nmv -f \"$staged\" \"$dst\"")

module _ {W : Type 0} (codec : Codec) (machine : Machine W) (temp : TempFiles W) where
  -- `sum`: a content that does not decode is read as no bytes.
  unfoldable pub sum : Str → Str
  sum content = elim (codec.decode content) [
    | none ↦ codec.sha256_hex []
    | some b ↦ codec.sha256_hex b
  ]

  unfoldable pub pre_check : Str → Str → Option Result
  pre_check path content =
      if is_empty path
      then some (err_result (str "pathMustNotBeEmpty"))
      else elim (codec.decode content) [
        | none ↦ some (err_result (str "badContent"))
        | some b ↦ none
      ]

  unfoldable pub guard : Str → Str → ShellExecutor → W → Option Result × W
  unfolding sum
  guard path content ex w =
      let (r, w') = shell machine ex guard_command ((str "dst", path) ∷ []) w in
      (
        if is_ok r && str_eq (trim_space r.stdout) (sum content)
            then some (ok_result (str "already"))
            else none,
        w',
      )

  -- Once the bytes are in the temporary file.
  unfoldable pub place : Str → Str → ShellExecutor → W → Result × W
  place path tmp ex w =
      let (r, w') = shell machine ex place_command ((str "tmp", tmp) ∷ (str "dst", path) ∷ []) w in
      (if is_ok r then ok_result (str "written") else err_shell (str "runtime") r, w')

  unfoldable pub close_then_place : Str → Str → ShellExecutor → W → Result × W
  unfolding place
  close_then_place path tmp ex w =
      let (closed, w') = temp.close tmp w in
      if closed then place path tmp ex w' else (err_result (str "runtime"), w')

  unfoldable pub fill : Str → Str → Str → ShellExecutor → W → Result × W
  unfolding close_then_place
  fill path bytes tmp ex w =
      let (written, w') = temp.write tmp bytes w in
      if written
      then close_then_place path tmp ex w'
      else (err_result (str "runtime"), (temp.close tmp w').1)

  -- The deferred `os.Remove` runs on every way out.
  unfoldable pub stage : Str → Str → ShellExecutor → Option Str × W → Result × W
  unfolding fill
  stage path bytes ex (none, w) = (err_result (str "runtime"), w)
  stage path bytes ex (some tmp, w) =
      let (r, w') = fill path bytes tmp ex w in (r, temp.remove tmp w')

  unfoldable pub apply : Str → Str → ShellExecutor → W → Result × W
  unfolding stage
  apply path content ex w = elim (codec.decode content) [
    | none ↦ (err_result (str "badContent"), w)
    | some b ↦ stage path b ex (temp.create w)
  ]

  -- `FilePut` as an `Instruction`.
  unfoldable pub file_put : Str → Str → Instruction W
  unfolding pre_check guard apply
  file_put path content = record {
    name = str "file.put";
    changed_tag = str "written";
    pre_check = pre_check path content;
    guard = guard path content;
    apply = apply path content;
    preview = λ ex w. (none, w);
  }
