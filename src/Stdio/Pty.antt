-- ===== src/Stdio/Pty.antt =====
-- src/io.rs, `ChildPty`: one pseudo-terminal for all the child's streams.
use iosock.Prelude.{ℕ, false, Option, none, some, if◌then◌else◌}
use iosock.Outcome.{Outcome, done, fail, panic, of_result}
use iosock.Buffer.{FlipBuffer, BufferStateChange}
use iosock.Channel.{channel_to_buffer, buffer_to_channel}
use iosock.Polled.{PolledFdSet, register, unregister_closed}
use iosock.Os.{Os}
use iosock.Pty.{pty_reader, pty_writer}
use iosock.Stdio.{ChildStdio, Moved}
use iosock.Stdio.Pipes.{is_fd}

pub record ChildPty : Type 0 where
  pub pty : Option ℕ

-- `ChildPty::new`
unfoldable pub new : ℕ → ChildPty
new pty = record { pty = some pty }

module _ (os : Os) where
  abbrev initialize_pty : Option ℕ → PolledFdSet os.flags → Outcome (PolledFdSet os.flags)
  initialize_pty none s = panic
  initialize_pty (some fd) s = register os.flags fd os.flags.epollin s

  unfoldable pub initialize : ChildPty → PolledFdSet os.flags → Outcome (PolledFdSet os.flags)
  initialize p s = initialize_pty p.pty s

  abbrev pub write_pty : Option ℕ → FlipBuffer → os.World → Moved os
  write_pty none buffer w = (done (false, BufferStateChange.none), buffer, w)
  write_pty (some fd) buffer w =
      let (r, buffer', w') = buffer_to_channel (pty_writer os fd) buffer w in
      (of_result r, buffer', w')

  unfoldable pub write_stdin : ChildPty → FlipBuffer → os.World → Moved os
  write_stdin p = write_pty p.pty

  abbrev pub read_pty : Option ℕ → FlipBuffer → os.World → Moved os
  read_pty none buffer w = (done (false, BufferStateChange.none), buffer, w)
  read_pty (some fd) buffer w =
      let (r, buffer', w') = channel_to_buffer (pty_reader os fd) buffer w in
      (of_result r, buffer', w')

  unfoldable pub read_stdout : ChildPty → FlipBuffer → os.World → Moved os
  read_stdout p = read_pty p.pty

  unfoldable pub read_stderr : ChildPty → FlipBuffer → os.World → Moved os
  read_stderr p buffer w = (panic, buffer, w)

  -- The pty is dropped, which closes its descriptor.
  unfoldable pub hangup :
      ℕ
      → ChildPty
      → PolledFdSet os.flags
      → os.World
      → Outcome (ChildPty × PolledFdSet os.flags × os.World)
  hangup fd p s w =
      if is_fd p.pty fd
      then elim (unregister_closed os.flags fd s) [
        | done s' ↦ done (record { pty = none }, s', os.close fd w)
        | fail e ↦ fail e
        | panic ↦ panic
      ]
      else done (p, s, w)

  abbrev pub pty_stdio : ChildStdio os ChildPty
  pty_stdio = record {
    initialize = initialize;
    stdin_fd = λ p. p.pty;
    stdout_fd = λ p. p.pty;
    stderr_fd = λ p. none;
    write_stdin = write_stdin;
    read_stdout = read_stdout;
    read_stderr = read_stderr;
    hangup = hangup;
  }
