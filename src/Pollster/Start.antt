-- ===== src/Pollster/Start.antt =====
-- src/pollster.rs, `Pollster::new`, with the manager of src/io.rs over the child's pipes or its
-- pty.
use mathlib.Core.Path.{subst}
use iosock.Prelude.{ℕ, ◌≡◌, refl, sym, true, none, List, [], ◌∷◌, arith}
use iosock.Io.{ok}
use iosock.Outcome.{Outcome, done, fail, panic}
use iosock.Epoll.{ctl_add}
use iosock.Channel.{Context}
use iosock.Polled.{PolledFdSet, register, new_set}
use iosock.Polled.Interest.{IsNodup, elem}
use iosock.Os.{Os}
use iosock.Os.Laws.{OsLaws}
use iosock.Stdio.{ChildStdio}
use iosock.Stdio.Pipes
use iosock.Stdio.Pipes.{ChildPipes, is_fd, register_some, pipes_stdio}
use iosock.Stdio.Pty as Terminal
use iosock.Stdio.Pty.{ChildPty, pty_stdio}
use iosock.Manager
use iosock.Manager.{IosockChannelManager, is_child}
use iosock.Manager.Handlers
use iosock.Manager.Handlers.{iosock_manager}
use iosock.Manager.Served.{StreamLaws}
use iosock.Manager.Streams.{pipes_streams, pty_streams}
use iosock.Pollster
use iosock.Pollster.{Pollster, set_up, new_created, apply_poll_updates}
use iosock.Pollster.Settled.{IsSettled}
use iosock.Pollster.Fresh.{registered, IsFresh, started, watch_list}

module _ {os : Os} (system : OsLaws os) where
  -- What `Pollster::new` asks of the system: a new instance that takes the close notification and,
  -- but for that, watches nothing.
  pub record Creates (w w' w'' : os.World) : Type 0 where
    pub created : os.epoll_create w ≡ (ok system.poll_fd, w')
    pub close_added :
        os.epoll_ctl system.poll_fd ctl_add system.close_fd
          (os.flags.new_event os.flags.epollin system.close_fd)
          w'
        ≡ (ok tt, w'')
    pub nothing_watched : (g : ℕ) → system.watched w'' g ≡ none

  -- `Pollster::new` returned a pollster in a settled state, for which epoll watches exactly the
  -- listed descriptors, each with its events, besides the close notification.
  abbrev pub Starts :
      {S : Type 0} {io : ChildStdio os S}
      → StreamLaws system io
      → List (ℕ × os.flags.Events)
      → Outcome (Pollster os (IosockChannelManager S))
      → Type 0
  Starts {io = io} laws news (done p) =
      (p.poll_fd ≡ system.poll_fd)
      × (p.close_fd ≡ system.close_fd)
      × IsSettled laws (iosock_manager io) p.context
      × ((g : ℕ) → system.watched p.context.world g ≡ watch_list os.flags news g)
  Starts laws news (fail e) = ⊥
  Starts laws news panic = ⊥

  -- All of the descriptors are of files that epoll supports.
  abbrev pub ArePollable : List ℕ → Type 0
  ArePollable fds = (g : ℕ) → elem g fds ≡ true → system.pollable g ≡ true

  pub initialize_pipes :
      (stdin stdout stderr server console : ℕ) (w : os.World)
      → IsNodup (stdin ∷ stdout ∷ stderr ∷ server ∷ console ∷ system.close_fd ∷ [])
      → let m = Manager.new console (Pipes.new stdin stdout stderr) server in
        Handlers.initialize
          (pipes_stdio os)
          (record { mgr = m; fd_set = new_set os.flags; world = w })
        ≡ (
          done tt,
          record {
            mgr = m;
            fd_set = record {
              existing = [];
              new =
                  (stdin, os.flags.empty)
                  ∷ (stdout, os.flags.epollin)
                  ∷ (stderr, os.flags.epollin)
                  ∷ (server, os.flags.epollin)
                  ∷ (console, os.flags.empty)
                  ∷ [];
              removed = [];
            };
            world = w;
          },
        )
  unfolding Handlers.initialize Pipes.initialize register_some register new_set Manager.new
      Pipes.new
  initialize_pipes stdin stdout stderr server console w (a, (b, (c, (d, (e, f))))) = ground arith

  initialize_pty :
      (pty server console : ℕ) (w : os.World)
      → IsNodup (pty ∷ server ∷ console ∷ system.close_fd ∷ [])
      → let m = Manager.new console (Terminal.new pty) server in
        Handlers.initialize
          (pty_stdio os)
          (record { mgr = m; fd_set = new_set os.flags; world = w })
        ≡ (
          done tt,
          record {
            mgr = m;
            fd_set = record {
              existing = [];
              new =
                  (pty, os.flags.epollin)
                  ∷ (server, os.flags.epollin)
                  ∷ (console, os.flags.empty)
                  ∷ [];
              removed = [];
            };
            world = w;
          },
        )
  unfolding Handlers.initialize Terminal.initialize register_some register new_set Manager.new
      Terminal.new
  initialize_pty pty server console w (a, (b, (c, d))) = ground arith

  IsFresh-pipes :
      (stdin stdout stderr server console : ℕ)
      → IsNodup (stdin ∷ stdout ∷ stderr ∷ server ∷ console ∷ system.close_fd ∷ [])
      → ArePollable (stdin ∷ stdout ∷ stderr ∷ server ∷ console ∷ [])
      → IsFresh
          (pipes_streams system)
          (Manager.new console (Pipes.new stdin stdout stderr) server)
          ((stdin, os.flags.empty)
            ∷ (stdout, os.flags.epollin)
            ∷ (stderr, os.flags.epollin)
            ∷ (server, os.flags.epollin)
            ∷ (console, os.flags.empty)
            ∷ [])
  unfolding Manager.new Pipes.new
  IsFresh-pipes stdin stdout stderr server console (a, (b, (c, (d, (e, f))))) own = record {
    no_client = refl;
    in_new = refl;
    out_new = refl;
    apart = λ g. ground arith;
    console_apart = λ g h. ground arith;
    distinct = (ground arith, (ground arith, (ground arith, (ground arith, (refl, tt)))));
    all_known = λ g h. ground arith;
    all_own = λ g h. ground (arith, own g, h);
  }

  IsFresh-pty :
      (pty server console : ℕ)
      → IsNodup (pty ∷ server ∷ console ∷ system.close_fd ∷ [])
      → ArePollable (pty ∷ server ∷ console ∷ [])
      → IsFresh
          (pty_streams system)
          (Manager.new console (Terminal.new pty) server)
          ((pty, os.flags.epollin) ∷ (server, os.flags.epollin) ∷ (console, os.flags.empty) ∷ [])
  unfolding Manager.new Terminal.new
  IsFresh-pty pty server console (a, (b, (c, d))) own = record {
    no_client = refl;
    in_new = refl;
    out_new = refl;
    apart = tt;
    console_apart = λ g h. ground arith;
    distinct = (ground arith, (ground arith, (refl, tt)));
    all_known = λ g h. ground arith;
    all_own = λ g h. ground (arith, own g, h);
  }

  set_up_lem :
      {S : Type 0} (io : ChildStdio os S) (m : IosockChannelManager S) (s : PolledFdSet os.flags)
      (w w' : os.World) (d : Context os (IosockChannelManager S))
      → os.epoll_ctl system.poll_fd ctl_add system.close_fd
          (os.flags.new_event os.flags.epollin system.close_fd)
          w
        ≡ (ok tt, w')
      → Handlers.initialize io (record { mgr = m; fd_set = new_set os.flags; world = w' })
        ≡ (done tt, record { mgr = m; fd_set = s; world = w' })
      → apply_poll_updates
          (iosock_manager io)
          system.poll_fd
          (record { mgr = m; fd_set = s; world = w' })
        ≡ (done tt, d)
      → set_up
          (iosock_manager io)
          system.poll_fd
          system.close_fd
          (record { mgr = m; fd_set = new_set os.flags; world = w })
        ≡ (done tt, d)
  unfolding set_up
  set_up_lem io m s w w' d a i u = rw (a, i, u) refl

  new_lem :
      {S : Type 0} (io : ChildStdio os S) (m : IosockChannelManager S) (w w' : os.World)
      (d : Context os (IosockChannelManager S))
      → os.epoll_create w ≡ (ok system.poll_fd, w')
      → set_up
          (iosock_manager io)
          system.poll_fd
          system.close_fd
          (record { mgr = m; fd_set = new_set os.flags; world = w' })
        ≡ (done tt, d)
      → Pollster.new (iosock_manager io) m system.close_fd w ≡ (
        done (record { poll_fd = system.poll_fd; close_fd = system.close_fd; context = d }),
        d.world,
      )
  unfolding Pollster.new new_created
  new_lem io m w w' d c u = rw (c, u) refl

  new-Starts :
      {S : Type 0} {io : ChildStdio os S} (laws : StreamLaws system io) (m : IosockChannelManager S)
      (news : List (ℕ × os.flags.Events)) (w w' w'' : os.World)
      → Creates w w' w''
      → IsFresh laws m news
      → Handlers.initialize io (record { mgr = m; fd_set = new_set os.flags; world = w'' })
        ≡ (done tt, record { mgr = m; fd_set = registered laws news; world = w'' })
      → Starts laws news (Pollster.new (iosock_manager io) m system.close_fd w).0
  new-Starts {io = io} laws m news w w' w'' h f i =
      let (e, s, k) = started laws news m w'' f h.nothing_watched in
      let c : Context os (IosockChannelManager _) = record {
        mgr = m;
        fd_set = registered laws news;
        world = w'';
      } in
      let d = (apply_poll_updates (iosock_manager io) system.poll_fd c).1 in
      let u = set_up_lem io m (registered laws news) w' w'' d h.close_added i (λ k. (e k, d)) in
      subst (λ r. Starts laws news r.0) (sym (new_lem io m w w' d h.created u)) (refl, refl, s, k)

  -- With descriptors that are all distinct and that epoll supports, and a new epoll instance that
  -- takes the close notification and nothing else, `Pollster::new` over the child's pipes returns a
  -- pollster in a settled state. Besides the close notification epoll then watches the child's
  -- stdout and stderr and the server socket for reads, the child's stdin and the console for nothing
  -- yet, and no other descriptor.
  pub new_pipes-Starts :
      (stdin stdout stderr server console : ℕ) (w w' w'' : os.World)
      → Creates w w' w''
      → IsNodup (stdin ∷ stdout ∷ stderr ∷ server ∷ console ∷ system.close_fd ∷ [])
      → ArePollable (stdin ∷ stdout ∷ stderr ∷ server ∷ console ∷ [])
      → Starts
          (pipes_streams system)
          ((stdin, os.flags.empty)
            ∷ (stdout, os.flags.epollin)
            ∷ (stderr, os.flags.epollin)
            ∷ (server, os.flags.epollin)
            ∷ (console, os.flags.empty)
            ∷ [])
          (Pollster.new
            (iosock_manager (pipes_stdio os))
            (Manager.new console (Pipes.new stdin stdout stderr) server)
            system.close_fd
            w).0
  new_pipes-Starts stdin stdout stderr server console w w' w'' h d p =
      new-Starts (pipes_streams system) (Manager.new console (Pipes.new stdin stdout stderr) server)
        _ w w' w'' h (IsFresh-pipes stdin stdout stderr server console d p)
        (initialize_pipes stdin stdout stderr server console w'' d)

  -- The same over the child's pty, which is read and written by one descriptor.
  new_pty-Starts :
      (pty server console : ℕ) (w w' w'' : os.World)
      → Creates w w' w''
      → IsNodup (pty ∷ server ∷ console ∷ system.close_fd ∷ [])
      → ArePollable (pty ∷ server ∷ console ∷ [])
      → Starts
          (pty_streams system)
          ((pty, os.flags.epollin) ∷ (server, os.flags.epollin) ∷ (console, os.flags.empty) ∷ [])
          (Pollster.new
            (iosock_manager (pty_stdio os))
            (Manager.new console (Terminal.new pty) server)
            system.close_fd
            w).0
  new_pty-Starts pty server console w w' w'' h d p =
      new-Starts (pty_streams system) (Manager.new console (Terminal.new pty) server) _ w w' w'' h
        (IsFresh-pty pty server console d p) (initialize_pty pty server console w'' d)
