-- ===== src/Stdio/Pipes.antt =====
-- src/io.rs, `ChildPipes`: stdin, stdout and stderr are three pipes.
use iosock.Prelude.{ℕ, Bool, false, Option, none, some, ◌==◌, if◌then◌else◌}
use iosock.Outcome.{Outcome, done, fail, panic, of_result}
use iosock.Buffer.{FlipBuffer, BufferStateChange}
use iosock.Channel.{channel_to_buffer, buffer_to_channel}
use iosock.Polled.{PolledFdSet, register, unregister_closed}
use iosock.Os.{Os, reader, writer}
use iosock.Stdio.{ChildStdio, Moved}

-- A stream is the descriptor that it owns.
pub record ChildPipes : Type 0 where
  pub stdin : Option ℕ
  pub stdout : Option ℕ
  pub stderr : Option ℕ

-- `ChildPipes::new`
unfoldable pub new : ℕ → ℕ → ℕ → ChildPipes
new stdin stdout stderr = record { stdin = some stdin; stdout = some stdout; stderr = some stderr }

-- `o == Some(fd)`
abbrev pub is_fd : Option ℕ → ℕ → Bool
is_fd none fd = false
is_fd (some f) fd = f == fd

module _ (os : Os) where
  -- `fd_set.register(o.as_ref().unwrap(), events)`
  unfoldable pub register_some :
      Option ℕ → os.flags.Events → PolledFdSet os.flags → Outcome (PolledFdSet os.flags)
  register_some none events s = panic
  register_some (some fd) events s = register os.flags fd events s

  unfoldable pub initialize : ChildPipes → PolledFdSet os.flags → Outcome (PolledFdSet os.flags)
  initialize p s = elim (register_some p.stdin os.flags.empty s) [
    | done s' ↦ elim (register_some p.stdout os.flags.epollin s') [
      | done s'' ↦ register_some p.stderr os.flags.epollin s''
      | fail e ↦ fail e
      | panic ↦ panic
    ]
    | fail e ↦ fail e
    | panic ↦ panic
  ]

  -- `if let Some(stream) = … { … } else { Ok((false, None)) }`, for a reader and for a writer
  unfoldable pub read_some : Option ℕ → FlipBuffer → os.World → Moved os
  read_some none buffer w = (done (false, BufferStateChange.none), buffer, w)
  read_some (some fd) buffer w =
      let (r, buffer', w') = channel_to_buffer (reader os fd) buffer w in (of_result r, buffer', w')

  unfoldable pub write_some : Option ℕ → FlipBuffer → os.World → Moved os
  write_some none buffer w = (done (false, BufferStateChange.none), buffer, w)
  write_some (some fd) buffer w =
      let (r, buffer', w') = buffer_to_channel (writer os fd) buffer w in (of_result r, buffer', w')

  unfoldable pub write_stdin : ChildPipes → FlipBuffer → os.World → Moved os
  write_stdin p = write_some p.stdin

  unfoldable pub read_stdout : ChildPipes → FlipBuffer → os.World → Moved os
  read_stdout p = read_some p.stdout

  -- The source reads `self.stdout` here too.
  unfoldable pub read_stderr : ChildPipes → FlipBuffer → os.World → Moved os
  read_stderr p = read_some p.stdout

  -- `fd_set.unregister_closed(&fd)`, and the drop of the stream, which closes its descriptor.
  unfoldable pub drop_stream :
      ℕ
      → ChildPipes
      → PolledFdSet os.flags
      → os.World
      → Outcome (ChildPipes × PolledFdSet os.flags × os.World)
  drop_stream fd p s w = elim (unregister_closed os.flags fd s) [
    | done s' ↦ done (p, s', os.close fd w)
    | fail e ↦ fail e
    | panic ↦ panic
  ]

  unfoldable pub hangup :
      ℕ
      → ChildPipes
      → PolledFdSet os.flags
      → os.World
      → Outcome (ChildPipes × PolledFdSet os.flags × os.World)
  hangup fd p s w =
      if is_fd p.stdin fd
      then drop_stream fd (record p { stdin = none }) s w
      else if is_fd p.stdout fd
      then drop_stream fd (record p { stdout = none }) s w
      else if is_fd p.stderr fd
      then drop_stream fd (record p { stderr = none }) s w
      else done (p, s, w)

  abbrev pub pipes_stdio : ChildStdio os ChildPipes
  pipes_stdio = record {
    initialize = initialize;
    stdin_fd = λ p. p.stdin;
    stdout_fd = λ p. p.stdout;
    stderr_fd = λ p. p.stderr;
    write_stdin = write_stdin;
    read_stdout = read_stdout;
    read_stderr = read_stderr;
    hangup = hangup;
  }
