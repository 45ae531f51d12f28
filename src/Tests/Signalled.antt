-- ===== src/Tests/Signalled.antt =====
-- src/signals.rs at a concrete input: a system that keeps a table of handlers.
use iosock.Prelude.{
  ℕ, ◌≡◌, refl, Bool, false, ◌||◌, Option, none, some, List, [], ◌∷◌, ◌==◌, if◌then◌else◌, arith,
}
use iosock.Io.{ok, from_kind, other}
use iosock.Pty.Libc.{ℤ, pos, negsuc}
use iosock.Signals.{
  Action, SignalCalls, Process, kill_child_on_signal, run_handler, terminate_mask, install_all,
  safe_sigaddset, safe_sigaction,
}
use iosock.Signals.Laws.{SignalLaws, Registered, kill_child_on_signal_lem}

abbrev pub Signals : Type 0
Signals = ℕ → Bool

pub record Table : Type 0 where
  pub handlers : ℕ → Option (Action Signals)
  pub killed : List (ℤ × ℕ)

-- SIGKILL, 9, has no handler.
abbrev pub calls : SignalCalls
calls = record {
  World = Table;
  Sigset = Signals;
  zeroed = λ g. false;
  sighup = 1;
  sigint = 2;
  sigterm = 15;
  sigalrm = 14;
  last_os_error = λ w. from_kind (other 22);
  sigaddset = λ m s w. (pos 0, (λ g. g == s || m g), w);
  sigaction = λ s a w.
      if s == 9
      then (negsuc 0, w)
      else (pos 0, record w { handlers = λ g. if g == s then some a else w.handlers g });
  alarm = λ n w. w;
  kill = λ pid s w. record w { killed = (pid, s) ∷ w.killed };
  exit_now = λ n w. w;
}

pub laws : SignalLaws calls
laws = record {
  handler = λ w. w.handlers;
  member = λ m. m;
  member-sigaddset = λ m s w e g. refl;
  handler-sigaddset = λ m s w g. refl;
  handler-sigaction = λ s a w g. ground arith;
}

abbrev pub start : Process calls
start = record { child_pid = pos 0; world = record { handlers = λ g. none; killed = [] } }

kill_child_on_signal_lem_example :
    Registered laws (pos 42) start.world (kill_child_on_signal calls (pos 42) start)
kill_child_on_signal_lem_example = kill_child_on_signal_lem laws (pos 42) start

-- SIGINT comes, and its handler runs.
interrupted_child :
    let (r, s) = kill_child_on_signal calls (pos 42) start in
    (r ≡ ok tt)
    × (elim (s.world.handlers 2) [
      | some a ↦ (run_handler calls a.sa_sigaction s).world.killed
      | none ↦ []
    ]
        ≡ (pos 42, 15) ∷ [])
unfolding kill_child_on_signal terminate_mask install_all safe_sigaddset safe_sigaction run_handler
interrupted_child = (refl, refl)
