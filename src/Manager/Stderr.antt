-- ===== src/Manager/Stderr.antt =====
-- src/io.rs, `on_readable` of the stderr of `ChildPipes`.
use iosock.Prelude.{ℕ, ◌≡◌, ◌≢◌, true, false, none, some, arith}
use iosock.Outcome.{done}
use iosock.Channel.{Context}
use iosock.Os.{Os}
use iosock.Stdio.Pipes.{ChildPipes, is_fd, read_some, pipes_stdio}
use iosock.Stdio.Pipes
use iosock.Manager.{IosockChannelManager, is_client, has_output_channel, read_stdout, read_stderr}
use iosock.Manager.Handlers.{output_read_done, output_on_readable, on_readable}

module _ {os : Os} where
  -- A readable stderr is served by a read of stdout: the handler is that of a descriptor from which
  -- the child's stdout is read.
  stderr_reads_stdout :
      (c : Context os (IosockChannelManager ChildPipes)) (fd : ℕ)
      → fd ≢ c.mgr.server_socket
      → is_client c.mgr.client_socket fd ≡ false
      → is_fd c.mgr.child.stdout fd ≡ false
      → c.mgr.child.stderr ≡ some fd
      → on_readable (pipes_stdio os) fd c
        ≡ output_on_readable (pipes_stdio os) fd (read_stdout (pipes_stdio os)) c
  unfolding on_readable output_on_readable read_stdout read_stderr Pipes.read_stdout
      Pipes.read_stderr
  stderr_reads_stdout c fd n k o e = ground arith

  -- Once stdout is closed, a readable stderr changes nothing at all, while there is an output: its
  -- bytes are not read, and the set keeps polling it.
  pub stderr_unread :
      (c : Context os (IosockChannelManager ChildPipes)) (fd : ℕ)
      → fd ≢ c.mgr.server_socket
      → is_client c.mgr.client_socket fd ≡ false
      → c.mgr.child.stdout ≡ none
      → c.mgr.child.stderr ≡ some fd
      → has_output_channel (pipes_stdio os) c.mgr ≡ true
      → on_readable (pipes_stdio os) fd c ≡ (done tt, c)
  unfolding on_readable output_on_readable output_read_done read_stderr Pipes.read_stderr read_some
  stderr_unread c fd n k o e h = ground arith
