-- ===== src/Main.antt =====
-- src/main.rs: the command line, and the end of the program once the child has run.
pub mod Arguments
pub mod Laws
pub mod Start
pub mod Started
use iosock.Prelude.{
  ℕ, Bool, true, false, ◌&&◌, ◌||◌, Option, none, some, List, [], ◌∷◌, ◌==◌, if◌then◌else◌,
}
use iosock.Io.{Result, ok, err}

-- A string, by its characters.
abbrev pub Text : Type 0
Text = List ℕ

abbrev pub is_text : Text → Text → Bool
is_text [] [] = true
is_text [] (y ∷ t) = false
is_text (x ∷ s) [] = false
is_text (x ∷ s) (y ∷ t) = x == y && is_text s t

-- "-p" and "--pty"
abbrev pub short_flag : Text
short_flag = 45 ∷ 112 ∷ []

abbrev pub long_flag : Text
long_flag = 45 ∷ 45 ∷ 112 ∷ 116 ∷ 121 ∷ []

abbrev pub is_pty_flag : Text → Bool
is_pty_flag s = is_text s short_flag || is_text s long_flag

-- What `main` takes from its arguments.
pub record Invocation : Type 0 where
  pub use_pty : Bool
  pub sock_path : Text
  pub program : Text
  pub program_args : List Text

-- `command_line`, of which the first is the program.
abbrev pub with_command : Bool → Text → List Text → Option Invocation
with_command use_pty sock_path [] = none
with_command use_pty sock_path (program ∷ program_args) = some (record {
  use_pty = use_pty;
  sock_path = sock_path;
  program = program;
  program_args = program_args;
})

abbrev pub after_flag : List Text → Option Invocation
after_flag [] = none
after_flag (sock_path ∷ command_line) = with_command true sock_path command_line

-- The arguments behind the program's own name; `none` where `main` calls `usage`.
unfoldable pub parse_args : List Text → Option Invocation
parse_args [] = none
parse_args (sock_path ∷ args) =
    if is_pty_flag sock_path then after_flag args else with_command false sock_path args

-- What `main` waits for at its end: the child, whose status has a code unless a signal ended it;
-- the pipe to the worker; the worker's thread, which panics or returns a result; and the file
-- system.
pub record Host : Type 1 where
  pub World : Type 0
  pub wait : World → Result (Option ℕ) × World
  pub write_all : List ℕ → World → Result (Unit {0}) × World
  pub join : World → Option (Result (Unit {0})) × World
  pub remove_file : Text → World → Result (Unit {0}) × World

-- The argument of `exit` in `die`
abbrev pub die_code : ℕ
die_code = 255

abbrev pub exit_code : Result (Option ℕ) → ℕ
exit_code (ok (some code)) = code
exit_code (ok none) = 254
exit_code (err e) = 255

module _ (host : Host) where
  abbrev pub after_remove : Result (Option ℕ) → Result (Unit {0}) × host.World → ℕ × host.World
  after_remove wait_result (ok u, w) = (exit_code wait_result, w)
  after_remove wait_result (err e, w) = (die_code, w)

  abbrev pub after_join :
      Text → Result (Option ℕ) → Option (Result (Unit {0})) × host.World → ℕ × host.World
  after_join sock_path wait_result (none, w) = (die_code, w)
  after_join sock_path wait_result (some (err e), w) = (die_code, w)
  after_join sock_path wait_result (some (ok u), w) =
      after_remove wait_result (host.remove_file sock_path w)

  -- `main` from `child.wait()` on: the code that the process exits with, and what it leaves.
  unfoldable pub finish : Text → host.World → ℕ × host.World
  finish sock_path w =
      let (wait_result, w1) = host.wait w in
      let (notified, w2) = host.write_all (1 ∷ []) w1 in
      after_join sock_path wait_result (host.join w2)
