-- ===== src/Stdio.antt =====
-- src/io.rs: the trait `ChildStdio`, over the child's streams, of type `S`.
pub mod Pipes
pub mod Pty
use iosock.Prelude.{ℕ, Bool, Option}
use iosock.Outcome.{Outcome}
use iosock.Buffer.{FlipBuffer, BufferStateChange}
use iosock.Polled.{PolledFdSet}
use iosock.Os.{Os}

-- What a method that moves bytes returns, with the buffer and the system that it leaves.
abbrev pub Moved : Os → Type 0
Moved os = Outcome (Bool × BufferStateChange) × FlipBuffer × os.World

pub record ChildStdio (os : Os) (S : Type 0) : Type 0 where
  pub initialize : S → PolledFdSet os.flags → Outcome (PolledFdSet os.flags)
  pub stdin_fd : S → Option ℕ
  pub stdout_fd : S → Option ℕ
  pub stderr_fd : S → Option ℕ
  pub write_stdin : S → FlipBuffer → os.World → Moved os
  pub read_stdout : S → FlipBuffer → os.World → Moved os
  pub read_stderr : S → FlipBuffer → os.World → Moved os
  pub hangup :
      ℕ → S → PolledFdSet os.flags → os.World → Outcome (S × PolledFdSet os.flags × os.World)
