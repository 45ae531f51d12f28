-- ===== src/Manager/Shutdown.antt =====
-- src/io.rs: a client that has shut down one direction.
use iosock.Prelude.{
  ◌≡◌, ◌≢◌, refl, ap, ◌++◌, take, length, length-take, true, false, none, some, arith,
}
use iosock.Outcome.{done, panic}
use iosock.Buffer.{FlipBuffer, BufferStateChange, discard}
use iosock.Buffer.Contents.{IsValid, contents}
use iosock.Buffer.Drain.{discard_lem}
use iosock.Epoll.{FlagLaws}
use iosock.Polled.{has_fd, modify, modify_first, poll_for_read}
use iosock.Polled.Asks.{asks, asks_in-stop, asks_out-stop}
use iosock.Io.{ok}
use iosock.Channel.{Context, channel_to_buffer, buffer_to_channel}
use iosock.Os.{Os, reader, writer}
use iosock.Stdio.{ChildStdio}
use iosock.Manager.{
  IosockChannelManager, UnixClient, SocketAvailability, read_only, write_only, read_write,
  read_client, write_stream, is_write_only,
}
use iosock.Manager.Handlers.{
  end_client_reads, client_read_done, client_on_readable, on_readable, end_client_writes,
  client_write_done, client_on_writable, on_writable,
}

module _ {os : Os} {S : Type 0} (io : ChildStdio os S) where
  -- The context after the client is left with the availability `a` and is polled for reads no more.
  abbrev pub half_closed :
      UnixClient
      → SocketAvailability
      → Context os (IosockChannelManager S)
      → Context os (IosockChannelManager S)
  half_closed x a c = record c {
    mgr = record c.mgr { client_socket = some (record x { availability = a }) };
    fd_set = record c.fd_set {
      existing = modify_first x.stream (poll_for_read os.flags false) c.fd_set.existing;
    };
  }

  writes_end :
      (c : Context os (IosockChannelManager S)) (x : UnixClient) (buffer : FlipBuffer)
      (w : os.World) (change : BufferStateChange)
      → c.mgr.client_socket ≡ some x
      → x.availability ≡ read_write
      → has_fd x.stream c.fd_set.existing ≡ true
      → buffer_to_channel (writer os x.stream) c.mgr.out_buffer c.world
        ≡ (ok (true, change), buffer, w)
      → on_writable io x.stream c ≡ (
        done tt,
        half_closed x read_only
            (record c { mgr = record c.mgr { out_buffer = buffer }; world = w }),
      )
  unfolding on_writable client_on_writable write_stream client_write_done end_client_writes modify
  writes_end c x buffer w change e a h r = ground arith

  panics_when_read_only :
      (c : Context os (IosockChannelManager S)) (x : UnixClient)
      → c.mgr.client_socket ≡ some x
      → x.availability ≡ read_only
      → (on_writable io x.stream c).0 ≡ panic
  unfolding on_writable client_on_writable
  panics_when_read_only c x e a = ground arith

  -- When the client, open both ways, takes nothing more, the first writable event leaves it
  -- `ReadOnly` but polled for writes as before, and polled for reads no more; a second writable
  -- event then panics.
  pub write_shutdown_panics :
      (laws : FlagLaws os.flags) (c : Context os (IosockChannelManager S)) (x : UnixClient)
      (buffer : FlipBuffer) (w : os.World) (change : BufferStateChange)
      → c.mgr.client_socket ≡ some x
      → x.availability ≡ read_write
      → has_fd x.stream c.fd_set.existing ≡ true
      → buffer_to_channel (writer os x.stream) c.mgr.out_buffer c.world
        ≡ (ok (true, change), buffer, w)
      → let (r, c') = on_writable io x.stream c in
        (r ≡ done tt)
        × (c'.mgr.client_socket ≡ some (record x { availability = read_only }))
        × (asks os.flags.epollout x.stream c'.fd_set.existing
            ≡ asks os.flags.epollout x.stream c.fd_set.existing)
        × (asks os.flags.epollin x.stream c'.fd_set.existing ≡ false)
        × ((on_writable io x.stream c').0 ≡ panic)
  write_shutdown_panics laws c x buffer w change e a h r =
      let d = record c { mgr = record c.mgr { out_buffer = buffer }; world = w } in
      rw (writes_end c x buffer w change e a h r) (
        refl,
        refl,
        asks_out-stop laws x.stream c.fd_set.existing,
        asks_in-stop laws x.stream c.fd_set.existing,
        panics_when_read_only (half_closed x read_only d) (record x { availability = read_only })
            refl refl,
      )

  reads_end :
      (c : Context os (IosockChannelManager S)) (x : UnixClient) (buffer : FlipBuffer)
      (w : os.World) (change : BufferStateChange)
      → c.mgr.client_socket ≡ some x
      → x.stream ≢ c.mgr.server_socket
      → x.availability ≡ read_write
      → has_fd x.stream c.fd_set.existing ≡ true
      → channel_to_buffer (reader os x.stream) c.mgr.in_buffer c.world
        ≡ (ok (true, change), buffer, w)
      → on_readable io x.stream c ≡ (
        done tt,
        half_closed x write_only
            (record c { mgr = record c.mgr { in_buffer = buffer }; world = w }),
      )
  unfolding on_readable client_on_readable read_client client_read_done end_client_reads modify
  reads_end c x buffer w change e n a h r = ground arith

  -- When the client, open both ways, sends nothing more, it stays the client, as `WriteOnly`: it is
  -- polled for reads no more, it is polled for writes as before, and the output that waits for it
  -- is kept.
  pub read_shutdown_keeps_client :
      (laws : FlagLaws os.flags) (c : Context os (IosockChannelManager S)) (x : UnixClient)
      (buffer : FlipBuffer) (w : os.World) (change : BufferStateChange)
      → c.mgr.client_socket ≡ some x
      → x.stream ≢ c.mgr.server_socket
      → x.availability ≡ read_write
      → has_fd x.stream c.fd_set.existing ≡ true
      → channel_to_buffer (reader os x.stream) c.mgr.in_buffer c.world
        ≡ (ok (true, change), buffer, w)
      → let (r, c') = on_readable io x.stream c in
        (r ≡ done tt)
        × (c'.mgr.client_socket ≡ some (record x { availability = write_only }))
        × (asks os.flags.epollin x.stream c'.fd_set.existing ≡ false)
        × (asks os.flags.epollout x.stream c'.fd_set.existing
            ≡ asks os.flags.epollout x.stream c.fd_set.existing)
        × (c'.mgr.out_buffer ≡ c.mgr.out_buffer)
  read_shutdown_keeps_client laws c x buffer w change e n a h r =
      rw (reads_end c x buffer w change e n a h r) (
        refl,
        refl,
        asks_in-stop laws x.stream c.fd_set.existing,
        asks_out-stop laws x.stream c.fd_set.existing,
        refl,
      )

  unheard_input :
      (c : Context os (IosockChannelManager S)) (x : UnixClient) (buffer : FlipBuffer)
      (w : os.World) (change : BufferStateChange)
      → c.mgr.client_socket ≡ some x
      → x.stream ≢ c.mgr.server_socket
      → is_write_only x.availability ≡ false
      → io.stdin_fd c.mgr.child ≡ none
      → channel_to_buffer (reader os x.stream) c.mgr.in_buffer c.world
        ≡ (ok (false, change), buffer, w)
      → on_readable io x.stream c ≡ (
        done tt,
        record c {
          mgr = record c.mgr { in_buffer = buffer; out_buffer = (discard c.mgr.out_buffer).1 };
          world = w;
        },
      )
  unfolding on_readable client_on_readable read_client client_read_done
  unheard_input c x buffer w change e n a s r = ground arith

  -- Input of the client while the child's stdin is closed throws away output: the input that was
  -- read stays in its buffer, with no stream to take it, and the output buffer, if it is valid, stays
  -- valid and loses its last bytes, those of the write page, and only them.
  pub input_discards_output :
      (c : Context os (IosockChannelManager S)) (x : UnixClient) (buffer : FlipBuffer)
      (w : os.World) (change : BufferStateChange)
      → c.mgr.client_socket ≡ some x
      → x.stream ≢ c.mgr.server_socket
      → is_write_only x.availability ≡ false
      → io.stdin_fd c.mgr.child ≡ none
      → channel_to_buffer (reader os x.stream) c.mgr.in_buffer c.world
        ≡ (ok (false, change), buffer, w)
      → IsValid c.mgr.out_buffer
      → let (r, d) = on_readable io x.stream c in
        let lost = take c.mgr.out_buffer.write_cursor c.mgr.out_buffer.write_page in
        (r ≡ done tt)
        × (d.mgr.in_buffer ≡ buffer)
        × IsValid d.mgr.out_buffer
        × (contents d.mgr.out_buffer ++ lost ≡ contents c.mgr.out_buffer)
        × (length lost ≡ c.mgr.out_buffer.write_cursor)
        × (d.mgr.client_socket ≡ some x)
  input_discards_output c x buffer w change e n a s r v =
      let b = c.mgr.out_buffer in
      let (valid, kept, told) = discard_lem b v in
      rw (unheard_input c x buffer w change e n a s r) (
        refl,
        refl,
        valid,
        ap (λ q. q ++ take b.write_cursor b.write_page) kept,
        omega (arith, length-take b.write_cursor b.write_page, v),
        e,
      )
