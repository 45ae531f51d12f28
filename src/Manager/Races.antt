-- ===== src/Manager/Races.antt =====
-- src/io.rs: a client that is taken, and output of the child in the same round.
use iosock.Prelude.{ℕ, ◌≡◌, ◌≢◌, refl, ◌∙◌, true, false, Option, none, some, List, arith}
use iosock.Io.{ok}
use iosock.Outcome.{done, panic}
use iosock.Buffer.{FlipBuffer, became_non_empty}
use iosock.Polled.{PolledFd, has_fd, has_new, modify, poll_for_write}
use iosock.Polled.Lookup.{has_fd-modify_first, fd-poll_for_write}
use iosock.Channel.{Context, ◌>>◌}
use iosock.Epoll.{Flags}
use iosock.Os.{Os}
use iosock.Stdio.{ChildStdio}
use iosock.Stdio.Pipes.{is_fd}
use iosock.Manager.{IosockChannelManager, UnixClient, read_stdout, request_primary_output_writable}
use iosock.Manager.Handlers.{client_as, output_read_done, output_on_readable, on_readable}
use iosock.Manager.Removal.{holds, polled}
use iosock.Manager.Accept.{taken, first_client_lem}

has_fd-polled :
    {fl : Flags} (fd : ℕ) (o : Option ℕ) (l : List (PolledFd fl))
    → has_fd fd (polled false o l) ≡ has_fd fd l
has_fd-polled fd none l = refl
has_fd-polled {fl} fd (some k) l =
    has_fd-modify_first k fd (poll_for_write fl false) l (fd-poll_for_write false)

module _ {os : Os} {S : Type 0} (io : ChildStdio os S) where
  output_panics :
      (c : Context os (IosockChannelManager S)) (x : UnixClient) (out : ℕ) {b : FlipBuffer}
      {w : os.World}
      → out ≢ c.mgr.server_socket
      → c.mgr.client_socket ≡ some x
      → x.stream ≢ out
      → has_fd x.stream c.fd_set.existing ≡ false
      → is_fd (io.stdout_fd c.mgr.child) out ≡ true
      → io.read_stdout c.mgr.child c.mgr.out_buffer c.world ≡ (done (false, became_non_empty), b, w)
      → (on_readable io out c).0 ≡ panic
  unfolding on_readable output_on_readable read_stdout output_read_done
      request_primary_output_writable modify
  output_panics c x out ne e n h s r = ground arith

  -- A client is taken, and then, before the set is handed to epoll, the child's stdout is read into
  -- an empty buffer: the handler panics, since the client's descriptor cannot be modified yet. The
  -- hypotheses are those of `first_client_lem`, and that stdout has bytes for the empty buffer.
  pub output_after_accept_panics :
      (c : Context os (IosockChannelManager S)) (fd out : ℕ) (w w' : os.World) (b : FlipBuffer)
      → c.mgr.client_socket ≡ none
      → os.accept c.mgr.server_socket c.world ≡ (ok fd, w)
      → has_fd fd c.fd_set.existing ≡ false
      → has_new fd c.fd_set.new ≡ false
      → holds c.mgr.console c.fd_set.existing ≡ true
      → out ≢ c.mgr.server_socket
      → fd ≢ out
      → is_fd (io.stdout_fd c.mgr.child) out ≡ true
      → io.read_stdout c.mgr.child c.mgr.out_buffer w ≡ (done (false, became_non_empty), b, w')
      → ((on_readable io c.mgr.server_socket >> on_readable io out) c).0 ≡ panic
  output_after_accept_panics c fd out w w' b e a h n k ne d s r =
      rw (first_client_lem io c fd w e a h n k) (
        output_panics (taken io fd w c) (client_as io fd) out ne refl d
          (has_fd-polled fd c.mgr.console c.fd_set.existing ∙ h) s r)
