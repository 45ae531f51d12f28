-- ===== src/Main/Started.antt =====
-- src/main.rs: the child that was started, the signals, and the worker's thread.
use mathlib.Core.Path.{subst}
use iosock.Prelude.{ℕ, suc, ◌+◌, ◌≡◌, refl, ◌∙◌, ap, true, none, some, List, [], ◌∷◌, if◌then◌else◌}
use iosock.Io.{Result, ok, err}
use iosock.Outcome.{done}
use iosock.Epoll.{Event}
use iosock.Channel.{Context}
use iosock.Os.{Os}
use iosock.Os.Laws.{OsLaws}
use iosock.Signals.{Process, kill_child_on_signal}
use iosock.Signals.Laws.{
  SignalLaws, is_termination, KillsChild, Registered, kill_child_on_signal_lem,
}
use iosock.Polled.Interest.{IsNodup}
use iosock.Stdio.Pipes
use iosock.Stdio.Pipes.{ChildPipes, pipes_stdio}
use iosock.Manager
use iosock.Manager.{IosockChannelManager}
use iosock.Manager.Handlers.{iosock_manager}
use iosock.Manager.Streams.{pipes_streams}
use iosock.Pollster
use iosock.Pollster.{Pollster, run, run_for, pollster_max_fds}
use iosock.Pollster.Rounds.{Quiet, closes, handle_all, run_returns}
use iosock.Pollster.Settled.{IsSettled}
use iosock.Pollster.Runs.{rounds-IsSettled}
use iosock.Pollster.Start.{Starts, Creates, ArePollable, new_pipes-Starts}
use iosock.Main.{Invocation}
use iosock.Main.Start.{
  Launcher, Child, Started, Machine, Running, bound, launched, notified, listening, start,
  run_stdio_pipes, run_stdio_pty, pipes_worker, ended, work,
}

module _ (host : Launcher) (laws : SignalLaws host.calls) where
  -- If the start succeeded, each of the three signals sends SIGTERM to the child.
  abbrev pub Guarded : Running host → Type 0
  Guarded (none, m) = Unit
  Guarded (some (child, closer_write), m) =
      (g : ℕ) → is_termination laws g ≡ true → KillsChild laws (host.id child) m.process g

  bound-Guarded :
      (child : Child host) (closer_write : ℕ) (w : host.libc.World) (p : Process host.calls)
      (r : Result (Unit {0}) × Process host.calls)
      → Registered laws (host.id child) p.world r
      → Guarded (bound host child closer_write w r)
  bound-Guarded child closer_write w p (ok u, q) h = h.0
  bound-Guarded child closer_write w p (err e, q) h = tt

  launched-Guarded :
      (closer_write : ℕ) (p : Process host.calls) (s : Started host)
      → Guarded (launched host closer_write p s)
  launched-Guarded closer_write p (none, w) = tt
  launched-Guarded closer_write p (some child, w) =
      bound-Guarded child closer_write w p (kill_child_on_signal host.calls (host.id child) p)
        (kill_child_on_signal_lem laws (host.id child) p)

  notified-Guarded :
      (inv : Invocation) (listener : ℕ) (p : Process host.calls)
      (r : Result (ℕ × ℕ) × host.libc.World)
      → Guarded (notified host inv listener p r)
  notified-Guarded inv listener p (err e, w) = tt
  notified-Guarded inv listener p (ok (closer_read, closer_write), w) =
      launched-Guarded closer_write p (
        if inv.use_pty
        then run_stdio_pty host listener closer_read w
        else run_stdio_pipes host inv listener closer_read w)

  listening-Guarded :
      (inv : Invocation) (p : Process host.calls) (r : Result ℕ × host.libc.World)
      → Guarded (listening host inv p r)
  listening-Guarded inv p (err e, w) = tt
  listening-Guarded inv p (ok listener, w) = notified-Guarded inv listener p (host.pipe w)

  -- If the start of the program succeeds, over pipes or over a pty, then SIGHUP, SIGTERM and SIGINT
  -- have a handler that sends SIGTERM to the very child that was started.
  pub start-Guarded : (inv : Invocation) (m : Machine host) → Guarded (start host inv m)
  unfolding start
  start-Guarded inv m = listening-Guarded inv m.process (host.bind inv.sock_path m.system)

module _ {os : Os} (system : OsLaws os) where
  work_lem :
      (stdin stdout stderr server console rounds : ℕ) (w w' : os.World)
      (p : Pollster os (IosockChannelManager ChildPipes))
      (e : Context os (IosockChannelManager ChildPipes))
      → Pollster.new
          (iosock_manager (pipes_stdio os))
          (Manager.new console (Pipes.new stdin stdout stderr) server)
          system.close_fd
          w
        ≡ (done p, w')
      → run (iosock_manager (pipes_stdio os)) rounds p ≡ some (done tt, e)
      → work os console rounds (pipes_worker stdin stdout stderr server system.close_fd) w
        ≡ some (done tt)
  unfolding work
  work_lem stdin stdout stderr server console rounds w w' p e n r = rw n (ap (ended os) r)

  run_lem :
      (rounds : ℕ) (p : Pollster os (IosockChannelManager ChildPipes))
      → p.poll_fd ≡ system.poll_fd
      → p.close_fd ≡ system.close_fd
      → run (iosock_manager (pipes_stdio os)) rounds p
        ≡ run_for (iosock_manager (pipes_stdio os)) rounds system.poll_fd system.close_fd p.context
  unfolding run
  run_lem rounds p a b = rw (a, b) refl

  -- The worker's thread over pipes ends with `Ok`, for any number of rounds that it is given beyond
  -- those: the descriptors are distinct and epoll supports them, a new epoll instance takes the close notification and
  -- nothing else, and after `k` rounds that do not end the loop a wait reports the close
  -- notification and the handlers of its other events return. Before that wait the state is
  -- settled.
  pub work_returns :
      (stdin stdout stderr server console k n : ℕ) (w w' w'' v u : os.World)
      (p : Pollster os (IosockChannelManager ChildPipes)) (events : List Event)
      (d e : Context os (IosockChannelManager ChildPipes))
      → Creates system w w' w''
      → IsNodup (stdin ∷ stdout ∷ stderr ∷ server ∷ console ∷ system.close_fd ∷ [])
      → ArePollable system (stdin ∷ stdout ∷ stderr ∷ server ∷ console ∷ [])
      → Pollster.new
          (iosock_manager (pipes_stdio os))
          (Manager.new console (Pipes.new stdin stdout stderr) server)
          system.close_fd
          w
        ≡ (done p, v)
      → Quiet (iosock_manager (pipes_stdio os)) system.close_fd system.poll_fd k p.context d
      → os.epoll_wait system.poll_fd pollster_max_fds d.world ≡ (ok events, u)
      → closes system.close_fd events ≡ true
      → handle_all (iosock_manager (pipes_stdio os)) system.close_fd events (record d { world = u })
        ≡ (done tt, e)
      → (work os console (k + suc n) (pipes_worker stdin stdout stderr server system.close_fd) w
          ≡ some (done tt))
        × IsSettled (pipes_streams system) (iosock_manager (pipes_stdio os)) d
  work_returns stdin stdout stderr server console k n w w' w'' v u p events d e c nd pollable made
        quiet waits close handled =
      let news : List (ℕ × os.flags.Events) =
        (stdin, os.flags.empty)
        ∷ (stdout, os.flags.epollin)
        ∷ (stderr, os.flags.epollin)
        ∷ (server, os.flags.epollin)
        ∷ (console, os.flags.empty)
        ∷ [] in
      let (a, b, s, watches) : Starts system (pipes_streams system) news (done p) =
        subst (λ r. Starts system (pipes_streams system) news r.0) made
          (new_pipes-Starts system stdin stdout stderr server console w w' w'' c nd pollable) in
      (
        work_lem stdin stdout stderr server console (k + suc n) w v p e made (
            run_lem (k + suc n) p a b
            ∙ run_returns (iosock_manager (pipes_stdio os)) system.close_fd system.poll_fd k n
                p.context d events u e quiet waits close handled),
        rounds-IsSettled (pipes_streams system) k quiet s,
      )
