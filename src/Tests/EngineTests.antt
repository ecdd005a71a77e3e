-- ===== src/Tests/EngineTests.antt =====
-- The theorems on the engine at concrete inputs.
use shellf.Prelude.{
  true, false, some, ℕ, [], ◌∷◌, Str, str, str_eq, int_eq, trim_space, is_empty, ◌≡◌, ◌⊎◌, refl,
  keys,
}
use shellf.Engine.{apply_mode, check_mode, status_mode, err_result, ok_result, is_ok, Mode, Result}
use shellf.Engine.Exec.{Machine, no_error, shell, command_line, command_line-keys}
use shellf.Engine.Run.{
  Instruction, Decided, Undecided, Announces, Acted, run, run-reads_only, run-modes,
}
use shellf.Engine.FilePut.{TempFiles, file_put}
use shellf.Engine.FilePut.Bytes.{AlreadyThere, Placed, file_put-places}
use shellf.Tests.{counting, plain_codec, one_temp, plain_executor}

abbrev motd : Instruction ℕ
motd = file_put plain_codec counting one_temp (str "/etc/motd") (str "hi")

command_line-keys_example :
    command_line plain_executor (str "echo $p") ((str "p", str "secret") ∷ [])
    ≡ command_line plain_executor (str "echo $p") ((str "p", str "other") ∷ [])
unfolding keys
command_line-keys_example =
    command_line-keys plain_executor (str "echo $p") ((str "p", str "secret") ∷ [])
      ((str "p", str "other") ∷ []) refl

abbrev broken : Instruction ℕ
broken = record motd { apply = λ ex w. (err_result (str "broken"), w) }

run-reads_only_example :
    run motd plain_executor check_mode 0 ≡ run broken plain_executor check_mode 0
run-reads_only_example =
    run-reads_only motd (λ ex w. (err_result (str "broken"), w)) plain_executor check_mode 0
      (λ e. cc)

run-modes_example :
    ((r : Result) × (w : ℕ) × Decided motd plain_executor 0 r w
      × ((m : Mode) → run motd plain_executor m 0 ≡ (r, w)))
    ⊎ ((w : ℕ) × Undecided motd plain_executor 0 w
        × Announces motd.changed_tag (run motd plain_executor check_mode 0).0
        × ((run motd plain_executor check_mode 0).0.shell ≡ (motd.preview plain_executor w).0)
        × ((run motd plain_executor check_mode 0).1 ≡ (motd.preview plain_executor w).1)
        × Announces motd.changed_tag (run motd plain_executor status_mode 0).0
        × ((run motd plain_executor status_mode 0).1 ≡ w)
        × Acted (run motd plain_executor apply_mode 0).0 (motd.apply plain_executor w).0
        × ((run motd plain_executor apply_mode 0).1 ≡ (motd.apply plain_executor w).1))
run-modes_example = run-modes motd plain_executor 0

-- A machine that is the content of its one temporary file; each command succeeds and writes
-- nothing.
abbrev one_file : TempFiles Str
one_file = record {
  create = λ w. (some (str "/tmp/t"), []);
  write = λ path bytes w. (true, bytes);
  close = λ path w. (true, w);
  remove = λ path w. [];
}

abbrev silent : Machine Str
silent = record {
  environ = [];
  spawn = λ argv env w. (record { ending = no_error; stdout = []; stderr = [] }, w);
}

abbrev FileHolds : Str → Str → Str → Type 0
FileHolds path b w = w ≡ b

abbrev greeting : Instruction Str
greeting = file_put plain_codec silent one_file (str "/etc/motd") (str "hi")

greeting_written :
    run greeting plain_executor apply_mode []
    ≡ (record (ok_result (str "written")) { changed = true }, [])
unfolding run file_put shellf.Engine.FilePut.pre_check shellf.Engine.FilePut.guard
    shellf.Engine.FilePut.apply shell is_ok int_eq trim_space shellf.Engine.FilePut.sum str_eq
greeting_written = refl

file_put-places_example :
    (is_empty (str "/etc/motd") ≡ false)
    × (AlreadyThere plain_codec silent one_file FileHolds
          (λ t b w h. refl)
          (λ t b w h c. h)
          (str "/etc/motd")
          (str "hi")
          plain_executor
          []
          []
        ⊎ Placed plain_codec silent one_file FileHolds
            (λ t b w h. refl)
            (λ t b w h c. h)
            (str "/etc/motd")
            (str "hi")
            plain_executor
            [])
file_put-places_example =
    file_put-places plain_codec silent one_file FileHolds (λ t b w h. refl) (λ t b w h c. h)
      (str "/etc/motd") (str "hi") plain_executor []
      (record (ok_result (str "written")) { changed = true }) [] greeting_written refl
