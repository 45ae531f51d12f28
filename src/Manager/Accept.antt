-- ===== src/Manager/Accept.antt =====
-- src/io.rs, `on_readable` of the server socket.
use iosock.Prelude.{ℕ, ◌≡◌, refl, true, false, Option, none, some, [], ◌∷◌, ◌++◌, ltb, arith}
use iosock.Io.{ok}
use iosock.Outcome.{done}
use iosock.Buffer.{writable_size}
use iosock.Polled.{has_fd, has_new, register, modify}
use iosock.Channel.{Context}
use iosock.Os.{Os}
use iosock.Stdio.{ChildStdio}
use iosock.Manager.{IosockChannelManager, UnixClient}
use iosock.Manager.Handlers.{client_as, accept, promote, accept_client, on_readable}
use iosock.Manager.Removal.{holds, polled}

module _ {os : Os} {S : Type 0} (io : ChildStdio os S) where
  -- A connection that is accepted while there is a client is closed at once, and nothing else
  -- changes.
  pub second_client_lem :
      (c : Context os (IosockChannelManager S)) (x : UnixClient) (fd : ℕ) (w : os.World)
      → c.mgr.client_socket ≡ some x
      → os.accept c.mgr.server_socket c.world ≡ (ok fd, w)
      → on_readable io c.mgr.server_socket c ≡ (done tt, record c { world = os.close fd w })
  unfolding on_readable accept_client accept
  second_client_lem c x fd w e a = ground arith

  -- The context after the connection `fd` became the client.
  abbrev pub taken :
      ℕ → os.World → Context os (IosockChannelManager S) → Context os (IosockChannelManager S)
  taken fd w c =
      let pending = ltb 0 (writable_size c.mgr.out_buffer) in
      let events = os.flags.set os.flags.epollin os.flags.epollout pending in
      record {
        mgr = record c.mgr { client_socket = some (client_as io fd) };
        fd_set = record c.fd_set {
          existing = polled false c.mgr.console c.fd_set.existing;
          new = c.fd_set.new ++ (fd, events) ∷ [];
        };
        world = w;
      }

  pub promote_lem :
      (console : Option ℕ) (c : Context os (IosockChannelManager S)) (fd : ℕ)
      → console ≡ c.mgr.console
      → has_fd fd c.fd_set.existing ≡ false
      → has_new fd c.fd_set.new ≡ false
      → holds console c.fd_set.existing ≡ true
      → promote io fd c ≡ (done tt, taken fd c.world c)
  unfolding promote register modify
  promote_lem none c fd e h n k = ground arith
  promote_lem (some g) c fd e h n k = ground arith

  -- A connection that is accepted while there is no client becomes the client, of which both
  -- directions are open: it is registered for reads, and for writes if there is output waiting, and
  -- the console, if there is one, is polled for writes no more. The descriptor must be new to the
  -- set, and the console's must be in it.
  pub first_client_lem :
      (c : Context os (IosockChannelManager S)) (fd : ℕ) (w : os.World)
      → c.mgr.client_socket ≡ none
      → os.accept c.mgr.server_socket c.world ≡ (ok fd, w)
      → has_fd fd c.fd_set.existing ≡ false
      → has_new fd c.fd_set.new ≡ false
      → holds c.mgr.console c.fd_set.existing ≡ true
      → on_readable io c.mgr.server_socket c ≡ (done tt, taken fd w c)
  unfolding on_readable accept_client accept
  first_client_lem c fd w e a h n k =
      ground (arith, promote_lem c.mgr.console (record c { world = w }) fd refl h n k)
