-- ===== src/Pty/Spawn.antt =====
-- src/pty.rs, `Pty::spawn`: the parent's side, and what the new process runs before the program.
use iosock.Prelude.{ℕ, Option, none, some, List}
use iosock.Io.{Result, ok, err}
use iosock.Pty.Libc.{ℤ, pos, Libc}
use iosock.Pty.Open.{
  Call, PtyPair, checked, owning, safe_open, safe_dup2, safe_set_tty_size, safe_tcgetattr,
  safe_tcsetattr, safe_ptsname, retry_interrupted,
}

module _ (libc : Libc) where
  abbrev pub changed : ℤ → Result libc.Termios × libc.World → Result (Unit {0}) × libc.World
  changed fd (err e, w) = (err e, w)
  changed fd (ok termios, w) = safe_tcsetattr libc fd (libc.without_onlcr termios) w

  -- `safe_tcgetattr(&self.master).and_then(...)`
  unfoldable pub stop_translation : ℤ → Call libc (Unit {0})
  stop_translation fd w = changed fd (safe_tcgetattr libc fd w)

  -- `command.spawn().map(|child| (child, master))`: the closure drops the master if it is not
  -- called.
  abbrev pub with_master : ℤ → Result libc.Child × libc.World → Result (libc.Child × ℤ) × libc.World
  with_master fd (ok child, w) = (ok (child, fd), w)
  with_master fd (err e, w) = (err e, libc.close fd w)

  abbrev pub spawned : ℤ → Result (List ℕ) × libc.World → Result (libc.Child × ℤ) × libc.World
  spawned fd (err e, w) = (err e, libc.close fd w)
  spawned fd (ok slave_fname, w) = with_master fd (libc.spawn slave_fname w)

  -- `Pty::spawn`, which owns the master until it returns it.
  unfoldable pub spawn : PtyPair → Call libc (libc.Child × ℤ)
  spawn p w = owning libc p.master (safe_set_tty_size libc p.master p.winsize w) (λ w'.
      owning libc p.master (stop_translation p.master w')
        (λ w''. spawned p.master (safe_ptsname libc p.master w'')))

  -- The slave is dropped when the closure returns.
  abbrev pub dropping :
      ℤ → Option (Result (Unit {0}) × libc.World) → Option (Result (Unit {0}) × libc.World)
  dropping fd none = none
  dropping fd (some (r, w)) = some (r, libc.close fd w)

  abbrev pub and_then :
      {A : Type 0}
      → Option (Result A × libc.World)
      → (A → libc.World → Option (Result (Unit {0}) × libc.World))
      → Option (Result (Unit {0}) × libc.World)
  and_then none f = none
  and_then (some (err e, w)) f = some (err e, w)
  and_then (some (ok a, w)) f = f a w

  -- The three duplicates of the slave; `tries` bounds each `retry_interrupted`.
  unfoldable pub bind_stdio : ℕ → ℤ → libc.World → Option (Result (Unit {0}) × libc.World)
  bind_stdio tries slave_fd w =
      and_then (retry_interrupted libc tries (safe_dup2 libc slave_fd (pos 0)) w) (λ u w'.
        and_then (retry_interrupted libc tries (safe_dup2 libc slave_fd (pos 1)) w')
          (λ u' w''. retry_interrupted libc tries (safe_dup2 libc slave_fd (pos 2)) w''))

  -- The closure of `command.pre_exec`
  unfoldable pub pre_exec : ℕ → List ℕ → libc.World → Option (Result (Unit {0}) × libc.World)
  pre_exec tries slave_fname w = and_then (some (checked libc tt (libc.setsid w))) (λ u w'.
      and_then (retry_interrupted libc tries (safe_open libc slave_fname) w')
        (λ slave_fd w''. dropping slave_fd (bind_stdio tries slave_fd w'')))
