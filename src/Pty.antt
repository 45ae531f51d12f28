-- ===== src/Pty.antt =====
-- src/pty.rs, `PtyFile`: the master of a pseudo-terminal.
pub mod Eof
pub mod Libc
pub mod Open
pub mod Spawn
pub mod Ownership
pub mod Retry
pub mod Table
pub mod Patience
pub mod Streams
use iosock.Prelude.{ℕ, Bool, false, Option, none, some, List, [], ◌==◌, if◌then◌else◌}
use iosock.Io.{Result, ok, err, Read, Write}
use iosock.Os.{Os}

abbrev pub is_errno : Option ℕ → ℕ → Bool
is_errno none n = false
is_errno (some e) n = e == n

module _ (os : Os) where
  -- `PtyFile::ignore_eio`, on what the operation returned; `zero` is what `Ok(0)` is for it.
  unfoldable pub ignore_eio : {A : Type 0} → A → Result A → Result A
  ignore_eio zero (ok a) = ok a
  ignore_eio zero (err e) = if is_errno e.raw_os_error os.eio then ok zero else err e

  unfoldable pub read : ℕ → os.World → ℕ → Result (List ℕ) × os.World
  read fd w n = let (answer, w') = os.read fd w n in (ignore_eio [] answer, w')

  unfoldable pub write : ℕ → os.World → List ℕ → Result ℕ × os.World
  write fd w bs = let (answer, w') = os.write fd w bs in (ignore_eio 0 answer, w')

  unfoldable pub flush : ℕ → os.World → Result (Unit {0}) × os.World
  flush fd w = os.flush fd w

-- `impl Read for PtyFile` and `impl Write for PtyFile`
abbrev pub pty_reader : (os : Os) → ℕ → Read os.World
pty_reader os fd = record { read = read os fd }

abbrev pub pty_writer : (os : Os) → ℕ → Write os.World
pty_writer os fd = record { write = write os fd; flush = flush os fd }
