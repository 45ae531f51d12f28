-- ===== src/Pollster/LastRound.antt =====
-- src/pollster.rs, the round in which the close notification arrives, with the manager of src/io.rs.
use iosock.Prelude.{ℕ, suc, ◌+◌, ◌≡◌, refl, ap, ◌∙◌, true, false, ◌||◌, some, [], ◌∷◌, ◌==◌, arith}
use iosock.Io.{ok}
use iosock.Outcome.{done}
use iosock.Epoll.{Event}
use iosock.Buffer.{FlipBuffer, became_non_empty}
use iosock.Channel.{Context}
use iosock.Polled.{has_fd, modify, modify_first, poll_for_write}
use iosock.Os.{Os}
use iosock.Stdio.{ChildStdio}
use iosock.Stdio.Pipes.{is_fd}
use iosock.Manager.{
  IosockChannelManager, is_client, primary_output, read_stdout, request_output_some,
  request_primary_output_writable,
}
use iosock.Manager.Handlers.{output_on_readable, output_read_done, on_readable, iosock_manager}
use iosock.Pollster.{raw_fd, dispatch, run_for, pollster_max_fds}
use iosock.Pollster.Rounds.{here, handle_all, run_returns}

module _ {os : Os} {S : Type 0} (io : ChildStdio os S) where
  abbrev Ctx : Type 0
  Ctx = Context os (IosockChannelManager S)

  -- The event says that its descriptor is readable, and nothing else.
  abbrev pub ReadableOnly : Event → Type 0
  ReadableOnly e =
      let actions = os.flags.from_bits_truncate e.events in
      (os.flags.contains actions os.flags.epollin ≡ true)
      × (os.flags.contains actions os.flags.epollout ≡ false)
      × ((os.flags.contains actions os.flags.epollerr
            || os.flags.contains actions os.flags.epollhup)
          ≡ false)

  -- The child's stdout, which is no other stream, has bytes for the empty buffer, and there is an
  -- output that is in the set.
  pub record Speaks (fd g : ℕ) (c : Ctx) (b : FlipBuffer) (w : os.World) : Type 0 where
    pub not_server : (fd == c.mgr.server_socket) ≡ false
    pub not_client : is_client c.mgr.client_socket fd ≡ false
    pub is_stdout : is_fd (io.stdout_fd c.mgr.child) fd ≡ true
    pub answers :
        io.read_stdout c.mgr.child c.mgr.out_buffer c.world ≡ (done (false, became_non_empty), b, w)
    pub output : primary_output c.mgr.client_socket c.mgr.console ≡ some g
    pub in_set : has_fd g c.fd_set.existing ≡ true

  -- What the handler leaves.
  abbrev pub read_in : ℕ → Ctx → FlipBuffer → os.World → Ctx
  read_in g c b w = record {
    mgr = record c.mgr { out_buffer = b };
    fd_set = record c.fd_set {
      existing = modify_first g (poll_for_write os.flags true) c.fd_set.existing;
    };
    world = w;
  }

  requested :
      (g : ℕ) (c : Ctx)
      → has_fd g c.fd_set.existing ≡ true
      → request_output_some io (some g) c ≡ (done true, read_in g c c.mgr.out_buffer c.world)
  unfolding modify
  requested g c h = ground (arith, h)

  stdout_read :
      (fd g : ℕ) (c : Ctx) (b : FlipBuffer) (w : os.World)
      → Speaks fd g c b w
      → on_readable io fd c ≡ (done tt, read_in g c b w)
  unfolding on_readable output_on_readable read_stdout output_read_done
      request_primary_output_writable
  stdout_read fd g c b w h =
      let r =
        requested g (record { mgr = record c.mgr { out_buffer = b }; fd_set = c.fd_set; world = w })
          h.in_set in
      rw (h.not_server, h.not_client, h.is_stdout, h.answers, h.output, r) refl

  dispatched :
      (e : Event) (c d : Ctx)
      → ReadableOnly e
      → on_readable io (raw_fd e) c ≡ (done tt, d)
      → dispatch (iosock_manager io) e c ≡ (done tt, d)
  unfolding dispatch
  dispatched e c d (i, o, u) h = rw (i, o, u, h) refl

  handled :
      (close_fd : ℕ) (e close : Event) (c d : Ctx)
      → (raw_fd e == close_fd) ≡ false
      → (raw_fd close == close_fd) ≡ true
      → dispatch (iosock_manager io) e c ≡ (done tt, d)
      → handle_all (iosock_manager io) close_fd (e ∷ close ∷ []) c ≡ (done tt, d)
  unfolding handle_all
  handled close_fd e close c d n z h = rw (n, z, h) refl

  -- Output that arrives together with the close notification is not delivered: if a wait reports
  -- that the child's stdout is readable and then the close notification, and the buffer was empty,
  -- the loop returns `Ok` with the bytes that the handler has just read still in the buffer. Its only
  -- call of the manager is that one read.
  pub last_output_unsent :
      (poll_fd close_fd g n : ℕ) (c : Ctx) (e close : Event) (w w' : os.World) (b : FlipBuffer)
      → os.epoll_wait poll_fd pollster_max_fds c.world ≡ (ok (e ∷ close ∷ []), w)
      → ReadableOnly e
      → (raw_fd e == close_fd) ≡ false
      → (raw_fd close == close_fd) ≡ true
      → Speaks (raw_fd e) g (record c { world = w }) b w'
      → run_for (iosock_manager io) (suc n) poll_fd close_fd c
        ≡ some (done tt, read_in g (record c { world = w }) b w')
  last_output_unsent poll_fd close_fd g n c e close w w' b waits only n_close z s =
      let d = read_in g (record c { world = w }) b w' in
      ap (λ m. run_for (iosock_manager io) m poll_fd close_fd c) {x = suc n} {y = 0 + suc n}
        (omega arith)
      ∙ run_returns (iosock_manager io) close_fd poll_fd 0 n c c (e ∷ close ∷ []) w d here waits
          (rw (n_close, z) refl)
          (handled close_fd e close (record c { world = w }) d n_close z
            (dispatched e (record c { world = w }) d only
              (stdout_read (raw_fd e) g (record c { world = w }) b w' s)))
