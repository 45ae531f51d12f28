-- ===== src/Main/Start.antt =====
-- src/main.rs: the start of the child and of the worker's thread, and what the thread does.
use iosock.Prelude.{ℕ, suc, ◌-◌, ◌^◌, Option, none, some, List, if◌then◌else◌}
use iosock.Io.{Result, ok, err}
use iosock.Outcome.{Outcome, done, fail, panic}
use iosock.Channel.{Context}
use iosock.Os.{Os}
use iosock.Pty.Libc.{ℤ, pos, negsuc, Libc}
use iosock.Pty.Open.{PtyPair, open_pty}
use iosock.Pty.Spawn.{spawn}
use iosock.Signals.{SignalCalls, Process, kill_child_on_signal}
use iosock.Stdio.{ChildStdio}
use iosock.Stdio.Pipes
use iosock.Stdio.Pipes.{pipes_stdio}
use iosock.Stdio.Pty as Terminal
use iosock.Stdio.Pty.{pty_stdio}
use iosock.Manager
use iosock.Manager.{IosockChannelManager}
use iosock.Manager.Handlers.{iosock_manager}
use iosock.Pollster
use iosock.Pollster.{Pollster, run}
use iosock.Main.{Text, Invocation}

-- What the closure of the worker's thread captures: the descriptors of the child's streams, of the
-- listener, and of the end of the notification pipe that is read.
pub data Worker : Type 0 where
  pipes_worker : ℕ → ℕ → ℕ → ℕ → ℕ → Worker
  pty_worker : ℤ → ℕ → ℕ → Worker

-- What `main` calls until the child runs, over two parts of the system's state: the one of libc
-- that src/pty.rs uses, and the one of src/signals.rs.
pub record Launcher : Type 1 where
  pub libc : Libc
  pub calls : SignalCalls
  -- `child.id() as i32`
  pub id : libc.Child → ℤ
  -- `UnixListener::bind`, and `pipe`, the end that is read first
  pub bind : Text → libc.World → Result ℕ × libc.World
  pub pipe : libc.World → Result (ℕ × ℕ) × libc.World
  -- `Command::spawn` with three pipes, and the ends that the child has for us
  pub spawn_piped :
      Text
      → List Text
      → libc.World
      → Result (libc.Child × Option ℕ × Option ℕ × Option ℕ) × libc.World
  -- `std::thread::spawn`
  pub spawn_thread : Worker → libc.World → libc.World

module _ (host : Launcher) where
  abbrev pub Child : Type 0
  Child = host.libc.Child

  abbrev pub Started : Type 0
  Started = Option Child × host.libc.World

  pub record Machine : Type 0 where
    pub system : host.libc.World
    pub process : Process host.calls

  -- The three `take`s; `none` is a call of `die`.
  abbrev with_pipes : ℕ → ℕ → Child → Option ℕ → Option ℕ → Option ℕ → host.libc.World → Started
  with_pipes listener closer_read child (some stdin) (some stdout) (some stderr) w =
      (some child, host.spawn_thread (pipes_worker stdin stdout stderr listener closer_read) w)
  with_pipes listener closer_read child _ _ _ w = (none, w)

  abbrev piped : ℕ → ℕ → Result (Child × Option ℕ × Option ℕ × Option ℕ) × host.libc.World → Started
  piped listener closer_read (err e, w) = (none, w)
  piped listener closer_read (ok (child, stdin, stdout, stderr), w) =
      with_pipes listener closer_read child stdin stdout stderr w

  unfoldable pub run_stdio_pipes : Invocation → ℕ → ℕ → host.libc.World → Started
  run_stdio_pipes command listener closer_read w =
      piped listener closer_read (host.spawn_piped command.program command.program_args w)

  abbrev pty_spawned : ℕ → ℕ → Result (Child × ℤ) × host.libc.World → Started
  pty_spawned listener closer_read (err e, w) = (none, w)
  pty_spawned listener closer_read (ok (child, pty_master), w) =
      (some child, host.spawn_thread (pty_worker pty_master listener closer_read) w)

  abbrev pty_opened : ℕ → ℕ → Result PtyPair × host.libc.World → Started
  pty_opened listener closer_read (err e, w) = (none, w)
  pty_opened listener closer_read (ok pty, w) =
      pty_spawned listener closer_read (spawn host.libc pty w)

  -- The command is part of what `Libc.spawn` stands for.
  unfoldable pub run_stdio_pty : ℕ → ℕ → host.libc.World → Started
  run_stdio_pty listener closer_read w = pty_opened listener closer_read (open_pty host.libc w)

  -- What `main` has once the child runs: the child, and the end of the pipe that is written.
  abbrev pub Running : Type 0
  Running = Option (Child × ℕ) × Machine

  abbrev pub bound : Child → ℕ → host.libc.World → Result (Unit {0}) × Process host.calls → Running
  bound child closer_write w (ok u, p) =
      (some (child, closer_write), record { system = w; process = p })
  bound child closer_write w (err e, p) = (none, record { system = w; process = p })

  abbrev pub launched : ℕ → Process host.calls → Started → Running
  launched closer_write p (none, w) = (none, record { system = w; process = p })
  launched closer_write p (some child, w) =
      bound child closer_write w (kill_child_on_signal host.calls (host.id child) p)

  abbrev pub notified :
      Invocation → ℕ → Process host.calls → Result (ℕ × ℕ) × host.libc.World → Running
  notified inv listener p (err e, w) = (none, record { system = w; process = p })
  notified inv listener p (ok (closer_read, closer_write), w) = launched closer_write p (
      if inv.use_pty
      then run_stdio_pty listener closer_read w
      else run_stdio_pipes inv listener closer_read w)

  abbrev pub listening : Invocation → Process host.calls → Result ℕ × host.libc.World → Running
  listening inv p (err e, w) = (none, record { system = w; process = p })
  listening inv p (ok listener, w) = notified inv listener p (host.pipe w)

  -- `main` from `UnixListener::bind` to `kill_child_on_signal`; `none` is a call of `die`.
  unfoldable pub start : Invocation → Machine → Running
  start inv m = listening inv m.process (host.bind inv.sock_path m.system)

-- A descriptor as the manager has it.
abbrev pub fd_of : ℤ → ℕ
fd_of (pos n) = n
fd_of (negsuc n) = 2 ^ 32 - suc n

module _ (os : Os) where
  abbrev pub ended :
      {Manager : Type 0}
      → Option (Outcome (Unit {0}) × Context os Manager)
      → Option (Outcome (Unit {0}))
  ended none = none
  ended (some (r, c)) = some r

  -- `Pollster::new(…)?` and then `pollster.run()`, for at most so many rounds.
  abbrev pub poll :
      {S : Type 0}
      → ChildStdio os S
      → ℕ
      → Outcome (Pollster os (IosockChannelManager S)) × os.World
      → Option (Outcome (Unit {0}))
  poll io rounds (fail e, w) = some (fail e)
  poll io rounds (panic, w) = some panic
  poll io rounds (done p, w) = ended (run (iosock_manager io) rounds p)

  -- The body of the thread; `none` if it has not ended after so many rounds. `stdout` is the
  -- descriptor of `stdout()`.
  unfoldable pub work : ℕ → ℕ → Worker → os.World → Option (Outcome (Unit {0}))
  work stdout rounds (pipes_worker child_stdin child_stdout child_stderr listener closer_read) w =
      poll (pipes_stdio os) rounds (
        Pollster.new (iosock_manager (pipes_stdio os))
          (Manager.new stdout (Pipes.new child_stdin child_stdout child_stderr) listener)
          closer_read w)
  work stdout rounds (pty_worker pty_master listener closer_read) w = poll (pty_stdio os) rounds (
      Pollster.new (iosock_manager (pty_stdio os))
        (Manager.new stdout (Terminal.new (fd_of pty_master)) listener) closer_read w)
