-- ===== src/Manager/Writes.antt =====
-- src/io.rs, `on_writable`, against the invariant of the manager.
use iosock.Prelude.{ℕ, ◌≡◌, refl, Bool, true, false, List, arith}
use iosock.Outcome.{done, of_result}
use iosock.Buffer.{FlipBuffer, BufferStateChange, became_empty, became_non_empty}
use iosock.Buffer.Contents.{contents}
use iosock.Channel.{Context, M, ◌>>=◌, buffer_to_channel}
use iosock.Channel.After.{After, After-then, After-if}
use iosock.Channel.Pending.{
  has_bytes, TellsWrite, buffer_to_channel-TellsWrite, buffer_to_channel-keeps, bind-TellsWrite,
}
use iosock.Os.Laws.{OsLaws}
use iosock.Os.{Os, writer}
use iosock.Stdio.{ChildStdio}
use iosock.Stdio.Pipes.{is_fd}
use iosock.Manager.{
  IosockChannelManager, read_only, is_client, is_child, poll_read, poll_write, set_client,
  set_availability, client_readable, client_writable, write_stream, write_stdin,
}
use iosock.Manager.Handlers.{
  is_write_only_client, end_client_writes, client_write_done, client_on_writable,
  console_write_done, stdin_write_done, on_writable,
}
use iosock.Manager.Served.{StreamLaws}
use iosock.Manager.Attends.{
  Attends-weaken, Attends-buffers, Attends-availability, IsSound, IsNewcomer,
}
use iosock.Manager.Requests.{IsPolled, client-IsPolled, output_apart, rest_stream, stop_reads}
use iosock.Manager.GivenUp.{on_hangup-After}
use iosock.Manager.Reads.{Kept}

module _ {os : Os} {S : Type 0} {system : OsLaws os} {io : ChildStdio os S}
    (laws : StreamLaws system io) where
  end_client_writes-After :
      (fd : ℕ) (c : Context os (IosockChannelManager S))
      → IsSound laws c
      → is_client c.mgr.client_socket fd ≡ true
      → After (IsNewcomer laws) (Kept laws) (end_client_writes io fd c)
  unfolding end_client_writes
  end_client_writes-After fd c h e =
      After-if (IsNewcomer laws) (Kept laws) (is_write_only_client c.mgr.client_socket) _ _
        (λ k. on_hangup-After laws fd c h)
        (λ k.
          After-then (IsNewcomer laws) (λ d. IsSound laws d) (Kept laws) (poll_read io fd false)
            (λ d. set_client io (set_availability read_only d.mgr.client_socket) d) c
            (stop_reads laws fd c h (client-IsPolled laws fd c h e))
            (λ d k'. Attends-availability laws read_only k'))

  -- A stream of the output has taken all bytes.
  rest_output :
      (fd : ℕ) (c : Context os (IosockChannelManager S))
      → IsSound laws c
      → IsPolled laws fd c
      → is_child io c.mgr.child fd ≡ false
      → has_bytes c.mgr.out_buffer ≡ false
      → After (IsNewcomer laws) (Kept laws) (poll_write io fd false c)
  rest_output fd c h n a e = rest_stream laws fd c h n (λ k. e) (λ k. ground arith)

  client_write_done-After :
      (fd : ℕ) (a : Bool × BufferStateChange) (q : List ℕ) (c : Context os (IosockChannelManager S))
      → IsSound laws c
      → is_client c.mgr.client_socket fd ≡ true
      → TellsWrite q (contents c.mgr.out_buffer) (done a)
      → After (IsNewcomer laws) (Kept laws) (client_write_done io fd a c)
  unfolding client_write_done
  client_write_done-After fd (true, state) q c h e t = end_client_writes-After fd c h e
  client_write_done-After fd (false, became_empty) q c h e t =
      rest_output fd c h (client-IsPolled laws fd c h e) (ground (arith, h.client_off fd e))
        (t.1 refl)
  client_write_done-After fd (false, became_non_empty) q c h e t = h
  client_write_done-After fd (false, BufferStateChange.none) q c h e t = h

  console_write_done-After :
      (fd : ℕ) (a : Bool × BufferStateChange) (q : List ℕ) (c : Context os (IosockChannelManager S))
      → IsSound laws c
      → is_fd c.mgr.console fd ≡ true
      → TellsWrite q (contents c.mgr.out_buffer) (done a)
      → After (IsNewcomer laws) (Kept laws) (console_write_done io fd a c)
  unfolding console_write_done
  console_write_done-After fd (true, state) q c h e t = on_hangup-After laws fd c h
  console_write_done-After fd (false, became_empty) q c h e t =
      rest_output fd c h (λ n. ground (arith, h.wired.registered fd))
        (ground (arith, h.wired.child_apart fd)) (t.1 refl)
  console_write_done-After fd (false, became_non_empty) q c h e t = h
  console_write_done-After fd (false, BufferStateChange.none) q c h e t = h

  stdin_write_done-After :
      (readable : Bool) (fd : ℕ) (a : Bool × BufferStateChange) (q : List ℕ)
      (c : Context os (IosockChannelManager S))
      → IsSound laws c
      → is_fd (io.stdin_fd c.mgr.child) fd ≡ true
      → TellsWrite q (contents c.mgr.in_buffer) (done a)
      → After (IsNewcomer laws) (Kept laws) (stdin_write_done io readable fd a c)
  unfolding stdin_write_done
  stdin_write_done-After readable fd (true, state) q c h e t = on_hangup-After laws fd c h
  stdin_write_done-After true fd (false, became_empty) q c h e t =
      rest_stream laws fd c h (λ n. ground (arith, h.wired.registered fd))
        (λ k. ground (arith, output_apart laws fd c h k)) (λ k. t.1 refl)
  stdin_write_done-After false fd (false, became_empty) q c h e t = h
  stdin_write_done-After true fd (false, became_non_empty) q c h e t = h
  stdin_write_done-After false fd (false, became_non_empty) q c h e t = h
  stdin_write_done-After true fd (false, BufferStateChange.none) q c h e t = h
  stdin_write_done-After false fd (false, BufferStateChange.none) q c h e t = h

  -- The handler of a stream that takes output, with what it does after the write.
  write_stream-After :
      (fd : ℕ) (f : Bool × BufferStateChange → M os (IosockChannelManager S) (Unit {0}))
      (c : Context os (IosockChannelManager S))
      → IsSound laws c
      → ((a : Bool × BufferStateChange) (b : FlipBuffer) (w : os.World)
          → let d = record c { mgr = record c.mgr { out_buffer = b }; world = w } in
            IsSound laws d
            → TellsWrite (contents c.mgr.out_buffer) (contents b) (done a)
            → After (IsNewcomer laws) (Kept laws) (f a d))
      → After (IsNewcomer laws) (Kept laws) ((write_stream io fd >>= f) c)
  unfolding write_stream
  write_stream-After fd f c h k =
      let (r, b, w) = buffer_to_channel (writer os fd) c.mgr.out_buffer c.world in
      let told =
        buffer_to_channel-TellsWrite (writer os fd) (system.writes fd) c.mgr.out_buffer c.world
          h.out_valid in
      let d : Context os (IosockChannelManager S) = record c {
        mgr = record c.mgr { out_buffer = b };
        world = w;
      } in
      bind-TellsWrite (IsNewcomer laws) (Kept laws) f d (contents c.mgr.out_buffer) (contents b)
        (of_result r) told.1
        (λ a t.
          k a b w
            (Attends-weaken laws
              (Attends-buffers laws c.mgr.in_buffer b w h h.in_valid told.0 (λ g.
                buffer_to_channel-keeps (writer os fd) (system.writes fd) (λ v. system.watched v g)
                  (λ v bs. system.watched-write fd v bs g) (λ v. system.watched-flush fd v g)
                  c.mgr.out_buffer c.world h.out_valid))
              t.0 (λ p. p))
            t)

  write_stdin-After :
      (fd : ℕ) (readable : Bool) (c : Context os (IosockChannelManager S))
      → IsSound laws c
      → is_fd (io.stdin_fd c.mgr.child) fd ≡ true
      → After (IsNewcomer laws) (Kept laws) ((write_stdin io >>= stdin_write_done io readable fd) c)
  unfolding write_stdin
  write_stdin-After fd readable c h e =
      let (r, b, w) = io.write_stdin c.mgr.child c.mgr.in_buffer c.world in
      let told = laws.write_stdin-Tells c.mgr.child c.mgr.in_buffer c.world h.in_valid in
      let d : Context os (IosockChannelManager S) = record c {
        mgr = record c.mgr { in_buffer = b };
        world = w;
      } in
      bind-TellsWrite (IsNewcomer laws) (Kept laws) (stdin_write_done io readable fd) d
        (contents c.mgr.in_buffer) (contents b) r told.1
        (λ a t.
          stdin_write_done-After readable fd a (contents c.mgr.in_buffer) d
            (Attends-weaken laws
              (Attends-buffers laws b c.mgr.out_buffer w h told.0 h.out_valid told.2) (λ p. p) t.0)
            e t)

  client_on_writable-After :
      (fd : ℕ) (c : Context os (IosockChannelManager S))
      → IsSound laws c
      → is_client c.mgr.client_socket fd ≡ true
      → client_writable c.mgr.client_socket ≡ true
      → After (IsNewcomer laws) (Kept laws) (client_on_writable io fd c)
  unfolding client_on_writable
  client_on_writable-After fd c h e writable = rw writable (
      write_stream-After fd (client_write_done io fd) c h
        (λ a b w k t. client_write_done-After fd a (contents c.mgr.out_buffer) _ k e t))

  -- Unless it fails with an `io::Error`, `on_writable` keeps the invariant of the manager:
  -- afterwards every stream is in the set, and the stream that is to take the bytes that wait is
  -- polled for writes. It panics only if the client was taken since the set was last given to
  -- epoll. A client that is written to must still be `WriteOnly` or `ReadWrite`.
  pub on_writable-After :
      (fd : ℕ) (c : Context os (IosockChannelManager S))
      → IsSound laws c
      → (is_client c.mgr.client_socket fd ≡ true → client_writable c.mgr.client_socket ≡ true)
      → After (IsNewcomer laws) (λ u d. IsSound laws d) (on_writable io fd c)
  unfolding on_writable
  on_writable-After fd c h writable =
      After-if (IsNewcomer laws) (Kept laws) (is_client c.mgr.client_socket fd) _ _
        (λ e. client_on_writable-After fd c h e (writable e))
        (λ e.
          After-if (IsNewcomer laws) (Kept laws) (is_fd c.mgr.console fd) _ _
            (λ k.
              write_stream-After fd (console_write_done io fd) c h
                (λ a b w s t. console_write_done-After fd a (contents c.mgr.out_buffer) _ s k t))
            (λ k.
              After-if (IsNewcomer laws) (Kept laws) (is_fd (io.stdin_fd c.mgr.child) fd) _ _
                (λ n. write_stdin-After fd (client_readable c.mgr.client_socket) c h n) (λ n. h)))
