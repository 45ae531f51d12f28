-- ===== src/Signals.antt =====
-- src/signals.rs: the handlers of signals, and their registration.
pub mod Laws
use iosock.Prelude.{ℕ, zero, Bool, true, false, if◌then◌else◌}
use iosock.Io.{IoError, Result, ok, err}
use iosock.Pty.Libc.{ℤ, pos, negsuc}

-- The two `extern "C"` functions, as what an action points to.
pub data Handler : Type 0 where
  on_terminate_signal on_exit_alarm : Handler

-- `libc::sigaction`, the struct: the fields that the code sets.
pub record Action (Sigset : Type 0) : Type 0 where
  pub sa_sigaction : Handler
  pub sa_mask : Sigset

-- The functions of libc that the file calls, over the state of the system.
pub record SignalCalls : Type 1 where
  pub World : Type 0
  pub Sigset : Type 0
  -- `zeroed()`
  pub zeroed : Sigset
  pub sighup : ℕ
  pub sigint : ℕ
  pub sigterm : ℕ
  pub sigalrm : ℕ
  -- `io::Error::last_os_error`
  pub last_os_error : World → IoError
  -- the set is passed by its address, and is returned here
  pub sigaddset : Sigset → ℕ → World → ℤ × Sigset × World
  pub sigaction : ℕ → Action Sigset → World → ℤ × World
  pub alarm : ℕ → World → World
  pub kill : ℤ → ℕ → World → World
  -- `libc::_exit`
  pub exit_now : ℕ → World → World

-- `== 0`
abbrev pub is_zero : ℤ → Bool
is_zero (pos zero) = true
is_zero _ = false

-- The `?` of a call on the state of the system.
abbrev pub and_then : {A B W : Type 0} → Result A × W → (A → W → Result B × W) → Result B × W
and_then (ok a, w) f = f a w
and_then (err e, w) f = (err e, w)

module _ (calls : SignalCalls) where
  -- The static `CHILD_PID`, and the system.
  pub record Process : Type 0 where
    pub child_pid : ℤ
    pub world : calls.World

  unfoldable pub run_handler : Handler → Process → Process
  run_handler on_terminate_signal s = record s {
    world = calls.kill s.child_pid calls.sigterm s.world;
  }
  run_handler on_exit_alarm s = record s { world = calls.exit_now 255 s.world }

  unfoldable pub safe_sigaddset : calls.Sigset → ℕ → calls.World → Result calls.Sigset × calls.World
  safe_sigaddset sigset signum w =
      let (n, sigset', w') = calls.sigaddset sigset signum w in
      if is_zero n then (ok sigset', w') else (err (calls.last_os_error w'), w')

  unfoldable pub safe_sigaction :
      ℕ → Action calls.Sigset → calls.World → Result (Unit {0}) × calls.World
  safe_sigaction signum action w =
      let (n, w') = calls.sigaction signum action w in
      if is_zero n then (ok tt, w') else (err (calls.last_os_error w'), w')

  -- The three calls of `sigaddset` in `kill_child_on_signal`.
  unfoldable pub terminate_mask : calls.World → Result calls.Sigset × calls.World
  terminate_mask w =
      and_then (safe_sigaddset calls.zeroed calls.sighup w) (λ m w.
        and_then (safe_sigaddset m calls.sigterm w) (λ m w. safe_sigaddset m calls.sigint w))

  -- The three calls of `sigaction`.
  unfoldable pub install_all : Action calls.Sigset → calls.World → Result (Unit {0}) × calls.World
  install_all action w = and_then (safe_sigaction calls.sighup action w) (λ u w.
      and_then (safe_sigaction calls.sigterm action w)
        (λ u w. safe_sigaction calls.sigint action w))

  unfoldable pub kill_child_on_signal : ℤ → Process → Result (Unit {0}) × Process
  kill_child_on_signal child_pid s =
      let (r, w) =
        and_then (terminate_mask s.world)
          (λ m w. install_all (record { sa_sigaction = on_terminate_signal; sa_mask = m }) w) in
      (r, record { child_pid = child_pid; world = w })

  unfoldable pub exit_after_timeout : ℕ → calls.World → Result (Unit {0}) × calls.World
  exit_after_timeout seconds w = and_then (safe_sigaddset calls.zeroed calls.sigalrm w) (λ m w.
      and_then
        (safe_sigaction calls.sigalrm (record { sa_sigaction = on_exit_alarm; sa_mask = m }) w)
        (λ u w. (ok tt, calls.alarm seconds w)))
