-- ===== src/Relay/Calls.antt =====
-- src/io.rs: the bytes that `on_readable`, `on_writable` and `on_hangup` move.
use iosock.Prelude.{ℕ, ◌≡◌, Bool, true, false, [], ◌==◌, Bool-cases, inl, inr, arith}
use iosock.Outcome.{done, of_result}
use iosock.Channel.{Context, M, ◌>>=◌, channel_to_buffer, buffer_to_channel}
use iosock.Buffer.{BufferStateChange}
use iosock.Channel.After.{After-if}
use iosock.Channel.Pending.{buffer_to_channel-TellsWrite}
use iosock.Os.{Os, reader, writer}
use iosock.Os.Laws.{OsLaws}
use iosock.Stdio.{ChildStdio}
use iosock.Stdio.Pipes.{is_fd}
use iosock.Manager.{
  IosockChannelManager, is_client, is_child, client_readable, client_writable, discard_out,
  on_hangup, read_client, write_stream, read_stdout, read_stderr, write_stdin,
}
use iosock.Manager.Handlers.{
  accept_client, client_read_done, client_on_readable, output_read_done, output_on_readable,
  on_readable, client_write_done, client_on_writable, console_write_done, stdin_write_done,
  on_writable,
}
use iosock.Manager.Served.{StreamLaws}
use iosock.Manager.Attends.{IsSound}
use iosock.Relay.{LogLaws}
use iosock.Relay.Transfer.{channel_to_buffer-ReadBy, buffer_to_channel-WrittenBy}
use iosock.Relay.Streams.{RelayLaws, reader-Notes, writer-Notes}
use iosock.Relay.Settling.{Anywhere, Settling, Settling-on_hangup}
use iosock.Relay.Answers.{
  Settling-discard, Choosing-client_read_done, Choosing-output_read_done,
  Settling-client_write_done, Settling-console_write_done, Settling-stdin_write_done,
  Settling-accept_client,
}
use iosock.Relay.Conserving.{
  Conserves-refl, Conserving, after_transfer, settling-Conserving, client_read, child_read,
  stdin_write, output_write,
}

module _ {os : Os} {S : Type 0} {system : OsLaws os} {logs : LogLaws os} {io : ChildStdio os S}
    (streams : StreamLaws system io) (laws : RelayLaws logs io) where
  abbrev Ctx : Type 0
  Ctx = Context os (IosockChannelManager S)

  idle : (c : Ctx) → Conserving streams laws c (done tt, c)
  idle c = ([], Conserves-refl streams laws c)

  client_on_readable-Conserving :
      (fd : ℕ) (c : Ctx)
      → IsSound streams c
      → is_client c.mgr.client_socket fd ≡ true
      → Conserving streams laws c (client_on_readable io fd c)
  unfolding client_on_readable read_client
  client_on_readable-Conserving fd c h e = elim (Bool-cases (client_readable c.mgr.client_socket)) [
    | inr n ↦ rw n tt
    | inl y ↦
        let (r, b, w) = channel_to_buffer (reader os fd) c.mgr.in_buffer c.world in
        let (es, l, t) =
          channel_to_buffer-ReadBy (reader os fd) logs.log fd (system.reads fd)
            (reader-Notes logs fd) c.mgr.in_buffer c.world h.in_valid in
        rw y (
          after_transfer streams laws c
            (record c { mgr = record c.mgr { in_buffer = b }; world = w }) es (of_result r)
            (λ a. client_read_done io fd a >>= discard_out io)
            (client_read streams laws fd c b w es e l t) h.out_valid
            (λ a.
              Settling-discard laws (client_read_done io fd a)
                (Choosing-client_read_done laws fd a)))
  ]

  stdout_on_readable-Conserving :
      (fd : ℕ) (c : Ctx)
      → IsSound streams c
      → Conserving streams laws c (output_on_readable io fd (read_stdout io) c)
  unfolding output_on_readable read_stdout
  stdout_on_readable-Conserving fd c h =
      let (r, b, w) = io.read_stdout c.mgr.child c.mgr.out_buffer c.world in
      let told = streams.read_stdout-Tells c.mgr.child c.mgr.out_buffer c.world h.out_valid in
      let (es, l, t) = laws.read_stdout-Reads c.mgr.child c.mgr.out_buffer c.world h.out_valid in
      after_transfer streams laws c (record c { mgr = record c.mgr { out_buffer = b }; world = w })
        es r (λ a. output_read_done io fd a >>= discard_out io)
        (child_read streams laws c b w es h l t) told.0
        (λ a.
          Settling-discard laws (output_read_done io fd a) (Choosing-output_read_done laws fd a))

  stderr_on_readable-Conserving :
      (fd : ℕ) (c : Ctx)
      → IsSound streams c
      → is_fd (io.stderr_fd c.mgr.child) fd ≡ true
      → Conserving streams laws c (output_on_readable io fd (read_stderr io) c)
  unfolding output_on_readable read_stderr
  stderr_on_readable-Conserving fd c h k =
      let (r, b, w) = io.read_stderr c.mgr.child c.mgr.out_buffer c.world in
      let told = streams.read_stderr-Tells fd c.mgr.child c.mgr.out_buffer c.world k h.out_valid in
      let (es, l, t) = laws.read_stderr-Reads c.mgr.child c.mgr.out_buffer c.world h.out_valid in
      after_transfer streams laws c (record c { mgr = record c.mgr { out_buffer = b }; world = w })
        es r (λ a. output_read_done io fd a >>= discard_out io)
        (child_read streams laws c b w es h l t) told.0
        (λ a.
          Settling-discard laws (output_read_done io fd a) (Choosing-output_read_done laws fd a))

  pub on_readable-Conserving :
      (fd : ℕ) (c : Ctx) → IsSound streams c → Conserving streams laws c (on_readable io fd c)
  unfolding on_readable
  on_readable-Conserving fd c h =
      After-if Anywhere _ (fd == c.mgr.server_socket) _ _
        (λ e. settling-Conserving streams laws c (accept_client io) h (Settling-accept_client laws))
        (λ e.
          After-if Anywhere _ (is_client c.mgr.client_socket fd) _ _
            (λ k. client_on_readable-Conserving fd c h k)
            (λ k.
              After-if Anywhere _ (is_fd (io.stdout_fd c.mgr.child) fd) _ _
                (λ k. stdout_on_readable-Conserving fd c h)
                (λ k.
                  After-if Anywhere _ (is_fd (io.stderr_fd c.mgr.child) fd) _ _
                    (λ k. stderr_on_readable-Conserving fd c h k) (λ k. idle c))))

  -- The transfer to an output, the client or the console, and what follows it.
  write_stream-Conserving :
      (fd : ℕ) (f : Bool × BufferStateChange → M os (IosockChannelManager S) (Unit {0})) (c : Ctx)
      → IsSound streams c
      → is_child io c.mgr.child fd ≡ false
      → ((a : Bool × BufferStateChange) → Settling laws (f a))
      → Conserving streams laws c ((write_stream io fd >>= f) c)
  unfolding write_stream
  write_stream-Conserving fd f c h n k =
      let (r, b, w) = buffer_to_channel (writer os fd) c.mgr.out_buffer c.world in
      let told =
        buffer_to_channel-TellsWrite (writer os fd) (system.writes fd) c.mgr.out_buffer c.world
          h.out_valid in
      let (es, l, t) =
        buffer_to_channel-WrittenBy (writer os fd) logs.log fd (system.writes fd)
          (logs.log-flush fd) (writer-Notes logs fd) c.mgr.out_buffer c.world h.out_valid in
      after_transfer streams laws c (record c { mgr = record c.mgr { out_buffer = b }; world = w })
        es (of_result r) f (output_write streams laws fd c b w es n l t) told.0 k

  client_not_child :
      (fd : ℕ) (c : Ctx)
      → IsSound streams c
      → is_client c.mgr.client_socket fd ≡ true
      → is_child io c.mgr.child fd ≡ false
  client_not_child fd c h e = let o = h.client_off fd e in ground (arith, o)

  console_not_child :
      (fd : ℕ) (c : Ctx)
      → IsSound streams c
      → is_fd c.mgr.console fd ≡ true
      → is_child io c.mgr.child fd ≡ false
  console_not_child fd c h e = elim (Bool-cases (is_child io c.mgr.child fd)) [
    | inl k ↦ let o = h.wired.child_apart fd k in ground (arith, o, e)
    | inr k ↦ k
  ]

  client_on_writable-Conserving :
      (fd : ℕ) (c : Ctx)
      → IsSound streams c
      → is_client c.mgr.client_socket fd ≡ true
      → Conserving streams laws c (client_on_writable io fd c)
  unfolding client_on_writable
  client_on_writable-Conserving fd c h e = elim (Bool-cases (client_writable c.mgr.client_socket)) [
    | inr n ↦ rw n tt
    | inl y ↦ rw y (
        write_stream-Conserving fd (client_write_done io fd) c h (client_not_child fd c h e)
          (Settling-client_write_done laws fd))
  ]

  stdin_on_writable-Conserving :
      (readable : Bool) (fd : ℕ) (c : Ctx)
      → IsSound streams c
      → Conserving streams laws c ((write_stdin io >>= stdin_write_done io readable fd) c)
  unfolding write_stdin
  stdin_on_writable-Conserving readable fd c h =
      let (r, b, w) = io.write_stdin c.mgr.child c.mgr.in_buffer c.world in
      let (es, l, t) = laws.write_stdin-Writes c.mgr.child c.mgr.in_buffer c.world h.in_valid in
      after_transfer streams laws c (record c { mgr = record c.mgr { in_buffer = b }; world = w })
        es r (stdin_write_done io readable fd) (stdin_write streams laws c b w es l t) h.out_valid
        (Settling-stdin_write_done laws readable fd)

  pub on_writable-Conserving :
      (fd : ℕ) (c : Ctx) → IsSound streams c → Conserving streams laws c (on_writable io fd c)
  unfolding on_writable
  on_writable-Conserving fd c h =
      After-if Anywhere _ (is_client c.mgr.client_socket fd) _ _
        (λ k. client_on_writable-Conserving fd c h k)
        (λ e.
          After-if Anywhere _ (is_fd c.mgr.console fd) _ _
            (λ k.
              write_stream-Conserving fd (console_write_done io fd) c h (console_not_child fd c h k)
                (Settling-console_write_done laws fd))
            (λ k.
              After-if Anywhere _ (is_fd (io.stdin_fd c.mgr.child) fd) _ _
                (λ k. stdin_on_writable-Conserving (client_readable c.mgr.client_socket) fd c h)
                (λ k. idle c)))

  pub on_hangup-Conserving :
      (fd : ℕ) (c : Ctx) → IsSound streams c → Conserving streams laws c (on_hangup io fd c)
  on_hangup-Conserving fd c h =
      settling-Conserving streams laws c (on_hangup io fd) h (Settling-on_hangup laws fd)
