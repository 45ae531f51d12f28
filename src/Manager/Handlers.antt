-- ===== src/Manager/Handlers.antt =====
-- src/io.rs: `IOSockChannelManager` as a `ChannelManager`, its event handlers.
use iosock.Prelude.{ℕ, Bool, true, false, not, Option, none, some, ◌==◌, ltb, if◌then◌else◌}
use iosock.Outcome.{done, of_result}
use iosock.Buffer.{BufferStateChange, became_empty, became_non_empty, writable_size}
use iosock.Channel.{◌>>=◌, ◌>>◌, pure, assert, on_set, ChannelManager}
use iosock.Polled.{register}
use iosock.Os.{Os}
use iosock.Stdio.{ChildStdio}
use iosock.Stdio.Pipes.{is_fd, register_some}
use iosock.Manager.{
  read_only, write_only, read_write, UnixClient, IosockChannelManager, is_read_only, is_write_only,
  is_some, is_client, client_readable, client_writable, set_availability, Handler,
  has_output_channel, poll_read, poll_write, poll_write_some, set_client, close_fd, discard_out,
  on_hangup, read_client, write_stream, read_stdout, read_stderr, write_stdin,
  request_primary_output_writable,
}

-- `c.availability == SocketAvailability::ReadOnly`, and the same for `WriteOnly`
abbrev pub is_read_only_client : Option UnixClient → Bool
is_read_only_client none = false
is_read_only_client (some c) = is_read_only c.availability

abbrev pub is_write_only_client : Option UnixClient → Bool
is_write_only_client none = false
is_write_only_client (some c) = is_write_only c.availability

module _ {os : Os} {S : Type 0} (io : ChildStdio os S) where
  abbrev pub client_as : ℕ → UnixClient
  client_as fd = record { stream = fd; availability = read_write }

  unfoldable pub initialize : Handler io (Unit {0})
  initialize = do
    λ c. on_set (io.initialize c.mgr.child) c
    λ c. on_set (register os.flags c.mgr.server_socket os.flags.epollin) c
    λ c. on_set (register_some os c.mgr.console os.flags.empty) c

  -- `self.server_socket.accept()?`
  unfoldable pub accept : Handler io ℕ
  accept c =
      let (r, w) = os.accept c.mgr.server_socket c.world in (of_result r, record c { world = w })

  -- The branch of `on_readable` for a connection that becomes the client.
  unfoldable pub promote : ℕ → Handler io (Unit {0})
  promote fd = do
    λ c.
        (let pending = ltb 0 (writable_size c.mgr.out_buffer) in
          on_set (register os.flags fd (os.flags.set os.flags.epollin os.flags.epollout pending)) c)
    set_client io (some (client_as fd))
    λ c. poll_write_some io c.mgr.console false c

  -- A connection that does not become the client is dropped, which closes it.
  unfoldable pub accept_client : Handler io (Unit {0})
  accept_client = do
    fd ← accept
    λ c. (if is_some c.mgr.client_socket then close_fd io fd c else promote fd c)

  -- The client has nothing more to read: what follows depends on the other direction.
  unfoldable pub end_client_reads : ℕ → Handler io (Unit {0})
  end_client_reads fd c =
      if is_read_only_client c.mgr.client_socket
      then on_hangup io fd c
      else (do
        poll_read io fd false
        λ c. set_client io (set_availability write_only c.mgr.client_socket) c)
          c

  abbrev pub wake_stdin : Option ℕ → Handler io Bool
  wake_stdin none = pure true
  wake_stdin (some stdin) = do poll_write io stdin true; pure false

  -- `should_discard` of the client's arm.
  unfoldable pub client_read_done : ℕ → Bool × BufferStateChange → Handler io Bool
  client_read_done fd (true, state) c = (do end_client_reads fd; pure false) c
  client_read_done fd (false, became_non_empty) c = wake_stdin (io.stdin_fd c.mgr.child) c
  client_read_done fd (false, became_empty) c = (done (not (is_some (io.stdin_fd c.mgr.child))), c)
  client_read_done fd (false, BufferStateChange.none) c =
      (done (not (is_some (io.stdin_fd c.mgr.child))), c)

  unfoldable pub client_on_readable : ℕ → Handler io (Unit {0})
  client_on_readable fd = do
    λ c. assert (client_readable c.mgr.client_socket) c
    r ← read_client io fd
    should_discard ← client_read_done fd r
    discard_out io should_discard

  -- `should_discard` of the arms of stdout and stderr.
  unfoldable pub output_read_done : ℕ → Bool × BufferStateChange → Handler io Bool
  output_read_done fd (true, state) c = (do on_hangup io fd; pure false) c
  output_read_done fd (false, became_non_empty) c =
      (do requested ← request_primary_output_writable io; pure (not requested)) c
  output_read_done fd (false, became_empty) c = (done (not (has_output_channel io c.mgr)), c)
  output_read_done fd (false, BufferStateChange.none) c =
      (done (not (has_output_channel io c.mgr)), c)

  unfoldable pub output_on_readable :
      ℕ → Handler io (Bool × BufferStateChange) → Handler io (Unit {0})
  output_on_readable fd read = do
    r ← read
    should_discard ← output_read_done fd r
    discard_out io should_discard

  unfoldable pub on_readable : ℕ → Handler io (Unit {0})
  on_readable fd c =
      if fd == c.mgr.server_socket
      then accept_client c
      else if is_client c.mgr.client_socket fd
      then client_on_readable fd c
      else if is_fd (io.stdout_fd c.mgr.child) fd
      then output_on_readable fd (read_stdout io) c
      else if is_fd (io.stderr_fd c.mgr.child) fd
      then output_on_readable fd (read_stderr io) c
      else (done tt, c)

  -- The client takes nothing more. The source stops polling for reads here, as it does above.
  unfoldable pub end_client_writes : ℕ → Handler io (Unit {0})
  end_client_writes fd c =
      if is_write_only_client c.mgr.client_socket
      then on_hangup io fd c
      else (do
        poll_read io fd false
        λ c. set_client io (set_availability read_only c.mgr.client_socket) c)
          c

  unfoldable pub client_write_done : ℕ → Bool × BufferStateChange → Handler io (Unit {0})
  client_write_done fd (true, state) = end_client_writes fd
  client_write_done fd (false, became_empty) = poll_write io fd false
  client_write_done fd (false, became_non_empty) = pure tt
  client_write_done fd (false, BufferStateChange.none) = pure tt

  unfoldable pub client_on_writable : ℕ → Handler io (Unit {0})
  client_on_writable fd = do
    λ c. assert (client_writable c.mgr.client_socket) c
    r ← write_stream io fd
    client_write_done fd r

  unfoldable pub console_write_done : ℕ → Bool × BufferStateChange → Handler io (Unit {0})
  console_write_done fd (true, state) = on_hangup io fd
  console_write_done fd (false, became_empty) = poll_write io fd false
  console_write_done fd (false, became_non_empty) = pure tt
  console_write_done fd (false, BufferStateChange.none) = pure tt

  unfoldable pub stdin_write_done : Bool → ℕ → Bool × BufferStateChange → Handler io (Unit {0})
  stdin_write_done readable fd (true, state) = on_hangup io fd
  stdin_write_done true fd (false, became_empty) = poll_write io fd false
  stdin_write_done false fd (false, became_empty) = pure tt
  stdin_write_done readable fd (false, became_non_empty) = pure tt
  stdin_write_done readable fd (false, BufferStateChange.none) = pure tt

  unfoldable pub on_writable : ℕ → Handler io (Unit {0})
  on_writable fd c =
      if is_client c.mgr.client_socket fd
      then client_on_writable fd c
      else if is_fd c.mgr.console fd
      then (do r ← write_stream io fd; console_write_done fd r) c
      else let readable = client_readable c.mgr.client_socket in
        if is_fd (io.stdin_fd c.mgr.child) fd
        then (do r ← write_stdin io; stdin_write_done readable fd r) c
        else (done tt, c)

  abbrev pub iosock_manager : ChannelManager os (IosockChannelManager S)
  iosock_manager = record {
    initialize = initialize;
    on_readable = on_readable;
    on_writable = on_writable;
    on_hangup = on_hangup io;
  }
