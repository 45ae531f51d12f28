-- ===== src/Tests/Launched.antt =====
-- src/main.rs at concrete inputs: a child on a pty, and a worker over pipes.
use iosock.Prelude.{ℕ, ◌≡◌, refl, true, some, List, [], ◌∷◌, arith}
use iosock.Io.{ok, from_kind, other}
use iosock.Outcome.{done}
use iosock.Epoll.{Event}
use iosock.Pty.Libc.{pos, Libc}
use iosock.Pty.Open.{
  open_pty, safe_openpt, safe_grantpt, safe_unlockpt, checked, safe_set_tty_size, safe_tcgetattr,
  safe_tcsetattr, safe_ptsname,
}
use iosock.Pty.Spawn.{spawn, stop_translation}
use iosock.Signals.{
  kill_child_on_signal, terminate_mask, install_all, safe_sigaddset, safe_sigaction,
}
use iosock.Main.{Invocation}
use iosock.Main.Start.{
  Worker, pty_worker, pipes_worker, Launcher, Machine, start, run_stdio_pty, work,
}
use iosock.Main.Started.{Guarded, start-Guarded, work_returns}
use iosock.Manager
use iosock.Stdio.Pipes
use iosock.Pollster
use iosock.Pollster.Rounds.{here, handle_all}
use iosock.Pollster.Settled.{IsSettled}
use iosock.Manager.Streams.{pipes_streams}
use iosock.Tests.Kernel.{kernel_os, kernel_laws}
use iosock.Tests.Signalled
use iosock.Tests.Signalled.{calls}
use iosock.Tests.Steady
use iosock.Tests.Steady.{cm, talking, close_added, creates, new_start}

-- The state is the workers that run.
abbrev plain_libc : Libc
plain_libc = record {
  World = List Worker;
  Termios = ℕ;
  without_onlcr = λ t. t;
  last_os_error = λ w. from_kind (other 22);
  open_file = λ path w. (pos 9, w);
  posix_openpt = λ w. (pos 8, w);
  grantpt = λ fd w. (pos 0, w);
  unlockpt = λ fd w. (pos 0, w);
  ptsname = λ fd w. (some (47 ∷ []), w);
  dup2 = λ src dest w. (dest, w);
  set_winsize = λ fd s w. (pos 0, w);
  tcgetattr = λ fd w. (pos 0, 5, w);
  tcsetattr = λ fd t w. (pos 0, w);
  setsid = λ w. (pos 77, w);
  Child = ℕ;
  spawn = λ name w. (ok 77, w);
  close = λ fd w. w;
}

abbrev host : Launcher
host = record {
  libc = plain_libc;
  calls = calls;
  id = λ child. pos child;
  bind = λ path w. (ok 3, w);
  pipe = λ w. (ok (30, 31), w);
  spawn_piped = λ program args w. (ok (77, some 4, some 5, some 6), w);
  spawn_thread = λ worker w. worker ∷ w;
}

abbrev on_pty : Invocation
on_pty = record { use_pty = true; sock_path = 115 ∷ []; program = 99 ∷ []; program_args = [] }

abbrev machine : Machine host
machine = record { system = []; process = Signalled.start }

start-Guarded_example : Guarded host Signalled.laws (start host on_pty machine)
start-Guarded_example = start-Guarded host Signalled.laws on_pty machine

started_on_pty :
    let (r, m) = start host on_pty machine in
    (r ≡ some (77, 31)) × (m.system ≡ pty_worker (pos 8) 3 30 ∷ [])
unfolding start run_stdio_pty open_pty safe_openpt safe_grantpt safe_unlockpt checked spawn
    safe_set_tty_size stop_translation safe_tcgetattr safe_tcsetattr safe_ptsname
    kill_child_on_signal terminate_mask install_all safe_sigaddset safe_sigaction
started_on_pty = (refl, refl)

-- The first wait reports the close notification.
abbrev closing : List Event
closing = record { events = 1; data_field = 30 } ∷ []

abbrev at_start : List (List Event)
at_start = closing ∷ []

work_returns_example :
    (work kernel_os 1 3 (pipes_worker 4 5 6 7 30) (talking at_start) ≡ some (done tt))
    × IsSettled (pipes_streams kernel_laws) cm (Steady.start at_start)
unfolding handle_all
work_returns_example =
    work_returns kernel_laws 4 5 6 7 1 0 2 (talking at_start) (talking at_start)
      (close_added at_start)
      (Pollster.new cm (Manager.new 1 (Pipes.new 4 5 6) 7) 30 (talking at_start)).1
      (record (Steady.start at_start).world { waits = [] })
      (record { poll_fd = 3; close_fd = 30; context = Steady.start at_start }) closing
      (Steady.start at_start)
      (record (Steady.start at_start) {
        world = record (Steady.start at_start).world { waits = [] };
      })
      (creates at_start) (refl, (refl, (refl, (refl, (refl, (refl, tt))))))
      (λ g h. ground (arith, h)) made here refl refl refl
  where
    made : Pollster.new cm (Manager.new 1 (Pipes.new 4 5 6) 7) 30 (talking at_start) ≡ (
      done (record { poll_fd = 3; close_fd = 30; context = Steady.start at_start }),
      (Pollster.new cm (Manager.new 1 (Pipes.new 4 5 6) 7) 30 (talking at_start)).1,
    )
    made i = (
      new_start at_start i,
      (Pollster.new cm (Manager.new 1 (Pipes.new 4 5 6) 7) 30 (talking at_start)).1,
    )
