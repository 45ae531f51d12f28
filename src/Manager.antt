-- ===== src/Manager.antt =====
-- src/io.rs: `IOSockChannelManager`, which relays between the child's streams, the console and one
-- client of the server socket.
pub mod Handlers
pub mod Accept
pub mod Connections
pub mod Races
pub mod Shutdown
pub mod Stderr
pub mod Wired
pub mod Served
pub mod Attends
pub mod Streams
pub mod Writes
pub mod Joins
pub mod Reads
pub mod Gone
pub mod GivenUp
pub mod Requests
pub mod Polling
pub mod Removal
pub mod Hangup
pub mod Children
use iosock.Prelude.{
  ℕ, Bool, true, false, not, ◌&&◌, ◌||◌, Option, none, some, ◌==◌, ltb, if◌then◌else◌,
}
use iosock.Outcome.{Outcome, done, fail, panic, of_result}
use iosock.Buffer.{
  FlipBuffer, BufferStateChange, became_empty, became_non_empty, writable_size, discard,
}
use iosock.Buffer
use iosock.Channel.{
  Context, M, ◌>>=◌, ◌>>◌, pure, assert, on_set, ChannelManager, channel_to_buffer,
  buffer_to_channel,
}
use iosock.Polled.{register, modify, unregister, unregister_closed, poll_for_read, poll_for_write}
use iosock.Os.{Os, reader, writer}
use iosock.Stdio.{ChildStdio}
use iosock.Stdio.Pipes.{is_fd}

pub data SocketAvailability : Type 0 where
  read_only write_only read_write : SocketAvailability

-- A stream is the descriptor that it owns.
pub record UnixClient : Type 0 where
  pub stream : ℕ
  pub availability : SocketAvailability

pub record IosockChannelManager (S : Type 0) : Type 0 where
  pub child : S
  pub console : Option ℕ
  pub server_socket : ℕ
  pub client_socket : Option UnixClient
  pub in_buffer : FlipBuffer
  pub out_buffer : FlipBuffer

-- `IOSockChannelManager::new`; `stdout` is the descriptor of `stdout()`.
unfoldable pub new : {S : Type 0} → ℕ → S → ℕ → IosockChannelManager S
new stdout stdio server_socket = record {
  child = stdio;
  console = some stdout;
  server_socket = server_socket;
  client_socket = none;
  in_buffer = Buffer.new;
  out_buffer = Buffer.new;
}

abbrev pub is_read_only : SocketAvailability → Bool
is_read_only read_only = true
is_read_only _ = false

abbrev pub is_write_only : SocketAvailability → Bool
is_write_only write_only = true
is_write_only _ = false

abbrev pub is_some : {A : Type 0} → Option A → Bool
is_some none = false
is_some (some a) = true

-- `Some(c) if c.stream.as_raw_fd() == fd`
abbrev pub is_client : Option UnixClient → ℕ → Bool
is_client none fd = false
is_client (some c) fd = c.stream == fd

-- `client_socket_readable` and `client_socket_writable`
abbrev pub client_readable : Option UnixClient → Bool
client_readable none = false
client_readable (some c) = not (is_write_only c.availability)

abbrev pub client_writable : Option UnixClient → Bool
client_writable none = false
client_writable (some c) = not (is_read_only c.availability)

-- `c.availability = a`, for the client that there is.
abbrev pub set_availability : SocketAvailability → Option UnixClient → Option UnixClient
set_availability a none = none
set_availability a (some c) = some (record c { availability = a })

-- The descriptor of the primary output, the client's if there is one.
abbrev pub primary_output : Option UnixClient → Option ℕ → Option ℕ
primary_output (some client) console = some client.stream
primary_output none console = console

module _ {os : Os} {S : Type 0} (io : ChildStdio os S) where
  abbrev pub Handler : Type 0 → Type 0
  Handler A = M os (IosockChannelManager S) A

  abbrev pub has_output_channel : IosockChannelManager S → Bool
  has_output_channel m = is_some m.console || client_writable m.client_socket

  -- `fd_set.modify(&fd, |pfd| pfd.poll_for_read(b))`, and the same for writes
  abbrev pub poll_read : ℕ → Bool → Handler (Unit {0})
  poll_read fd b = on_set (modify os.flags fd (poll_for_read os.flags b))

  abbrev pub poll_write : ℕ → Bool → Handler (Unit {0})
  poll_write fd b = on_set (modify os.flags fd (poll_for_write os.flags b))

  -- The same if there is such a stream.
  abbrev pub poll_write_some : Option ℕ → Bool → Handler (Unit {0})
  poll_write_some none b c = (done tt, c)
  poll_write_some (some fd) b c = poll_write fd b c

  abbrev pub set_client : Option UnixClient → Handler (Unit {0})
  set_client client c = (done tt, record c { mgr = record c.mgr { client_socket = client } })

  abbrev pub close_fd : ℕ → Handler (Unit {0})
  close_fd fd c = (done tt, record c { world = os.close fd c.world })

  -- `self.out_buffer.discard()`, if so decided
  abbrev pub discard_out : Bool → Handler (Unit {0})
  discard_out false c = (done tt, c)
  discard_out true c =
      (done tt, record c { mgr = record c.mgr { out_buffer = (discard c.mgr.out_buffer).1 } })

  abbrev pub request_output_some : Option ℕ → Handler Bool
  request_output_some none = pure false
  request_output_some (some fd) = do poll_write fd true; pure true

  unfoldable pub request_primary_output_writable : Handler Bool
  request_primary_output_writable c =
      request_output_some (primary_output c.mgr.client_socket c.mgr.console) c

  -- The arm of `on_hangup` for the client. `self.client_socket = None` drops its stream.
  unfoldable pub hangup_client : ℕ → Handler (Unit {0})
  hangup_client fd = do
    on_set (unregister_closed os.flags fd)
    set_client none
    close_fd fd
    λ c.
        (if ltb 0 (writable_size c.mgr.out_buffer)
          then poll_write_some c.mgr.console true c
          else (done tt, c))

  unfoldable pub hangup_child : ℕ → Handler (Unit {0})
  hangup_child fd c = elim (io.hangup fd c.mgr.child c.fd_set c.world) [
    | done (child, fd_set, world) ↦
        (done tt, record { mgr = record c.mgr { child = child }; fd_set = fd_set; world = world })
    | fail e ↦ (fail e, c)
    | panic ↦ (panic, c)
  ]

  unfoldable pub hangup_console : ℕ → Handler (Unit {0})
  hangup_console fd = do
    on_set (unregister os.flags fd)
    λ c. (done tt, record c { mgr = record c.mgr { console = none } })

  abbrev pub is_child : S → ℕ → Bool
  is_child s fd = is_fd (io.stdin_fd s) fd || is_fd (io.stdout_fd s) fd || is_fd (io.stderr_fd s) fd

  unfoldable pub on_hangup : ℕ → Handler (Unit {0})
  on_hangup fd c =
      if is_client c.mgr.client_socket fd
      then hangup_client fd c
      else if is_child c.mgr.child fd
      then hangup_child fd c
      else if is_fd c.mgr.console fd
      then hangup_console fd c
      else (done tt, c)

  -- `channel_to_buffer(&mut c.stream, &mut self.in_buffer)?`
  unfoldable pub read_client : ℕ → Handler (Bool × BufferStateChange)
  read_client fd c =
      let (r, buffer, w) = channel_to_buffer (reader os fd) c.mgr.in_buffer c.world in
      (of_result r, record c { mgr = record c.mgr { in_buffer = buffer }; world = w })

  -- `buffer_to_channel(&mut self.out_buffer, stream)?`, for the client and for the console
  unfoldable pub write_stream : ℕ → Handler (Bool × BufferStateChange)
  write_stream fd c =
      let (r, buffer, w) = buffer_to_channel (writer os fd) c.mgr.out_buffer c.world in
      (of_result r, record c { mgr = record c.mgr { out_buffer = buffer }; world = w })

  unfoldable pub read_stdout : Handler (Bool × BufferStateChange)
  read_stdout c =
      let (r, buffer, w) = io.read_stdout c.mgr.child c.mgr.out_buffer c.world in
      (r, record c { mgr = record c.mgr { out_buffer = buffer }; world = w })

  unfoldable pub read_stderr : Handler (Bool × BufferStateChange)
  read_stderr c =
      let (r, buffer, w) = io.read_stderr c.mgr.child c.mgr.out_buffer c.world in
      (r, record c { mgr = record c.mgr { out_buffer = buffer }; world = w })

  unfoldable pub write_stdin : Handler (Bool × BufferStateChange)
  write_stdin c =
      let (r, buffer, w) = io.write_stdin c.mgr.child c.mgr.in_buffer c.world in
      (r, record c { mgr = record c.mgr { in_buffer = buffer }; world = w })
