-- ===== src/Pty/Open.antt =====
-- src/pty.rs: the wrappers of libc, `retry_interrupted`, and `Pty::open` and its setters.
use iosock.Prelude.{ℕ, zero, suc, Bool, true, false, Option, none, some, List, if◌then◌else◌}
use iosock.Io.{ErrorKind, interrupted, Result, ok, err}
use iosock.Pty.Libc.{ℤ, is_minus_one, Winsize, Libc}

-- A call of a function that may fail, on the state of the system.
abbrev pub Call : Libc → Type 0 → Type 0
Call libc A = libc.World → Result A × libc.World

abbrev pub default_pty_rows : ℕ
default_pty_rows = 64

abbrev pub default_pty_cols : ℕ
default_pty_cols = 256

-- `Pty`
pub record PtyPair : Type 0 where
  pub master : ℤ
  pub winsize : Winsize

abbrev pub default_winsize : Winsize
default_winsize = record {
  ws_row = default_pty_rows;
  ws_col = default_pty_cols;
  ws_xpixel = 0;
  ws_ypixel = 0;
}

unfoldable pub set_columns : ℕ → PtyPair → PtyPair
set_columns columns p = record p { winsize = record p.winsize { ws_col = columns } }

unfoldable pub set_rows : ℕ → PtyPair → PtyPair
set_rows rows p = record p { winsize = record p.winsize { ws_row = rows } }

module _ (libc : Libc) where
  -- What the wrappers return: a value, or the last error if the call returned -1.
  unfoldable pub checked : {A : Type 0} → A → ℤ × libc.World → Result A × libc.World
  checked a (n, w) = if is_minus_one n then (err (libc.last_os_error w), w) else (ok a, w)

  unfoldable pub safe_open : List ℕ → Call libc ℤ
  safe_open path w = let (fd, w') = libc.open_file path w in checked fd (fd, w')

  unfoldable pub safe_openpt : Call libc ℤ
  safe_openpt w = let (fd, w') = libc.posix_openpt w in checked fd (fd, w')

  unfoldable pub safe_grantpt : ℤ → Call libc (Unit {0})
  safe_grantpt fd w = checked tt (libc.grantpt fd w)

  unfoldable pub safe_unlockpt : ℤ → Call libc (Unit {0})
  safe_unlockpt fd w = checked tt (libc.unlockpt fd w)

  unfoldable pub safe_dup2 : ℤ → ℤ → Call libc (Unit {0})
  safe_dup2 src dest w = checked tt (libc.dup2 src dest w)

  unfoldable pub safe_set_tty_size : ℤ → Winsize → Call libc (Unit {0})
  safe_set_tty_size tty winsize w = checked tt (libc.set_winsize tty winsize w)

  unfoldable pub safe_tcgetattr : ℤ → Call libc libc.Termios
  safe_tcgetattr tty w = let (n, output, w') = libc.tcgetattr tty w in checked output (n, w')

  unfoldable pub safe_tcsetattr : ℤ → libc.Termios → Call libc (Unit {0})
  safe_tcsetattr tty termios w = checked tt (libc.tcsetattr tty termios w)

  abbrev pub named : Option (List ℕ) × libc.World → Result (List ℕ) × libc.World
  named (none, w) = (err (libc.last_os_error w), w)
  named (some name, w) = (ok name, w)

  -- The bytes have no NUL, so `CString::new` does not fail.
  unfoldable pub safe_ptsname : ℤ → Call libc (List ℕ)
  safe_ptsname fd w = named (libc.ptsname fd w)

  -- A step that owns `fd`, and drops it if it fails.
  abbrev pub owning :
      {A : Type 0} → ℤ → Result (Unit {0}) × libc.World → Call libc A → Result A × libc.World
  owning fd (ok u, w) rest = rest w
  owning fd (err e, w) rest = (err e, libc.close fd w)

  abbrev pub opened : Result ℤ × libc.World → Result PtyPair × libc.World
  opened (err e, w) = (err e, w)
  opened (ok fd, w) = owning fd (safe_grantpt fd w) (λ w'.
      owning fd (safe_unlockpt fd w')
        (λ w''. (ok (record { master = fd; winsize = default_winsize }), w'')))

  -- `Pty::open`
  unfoldable pub open_pty : Call libc PtyPair
  open_pty w = opened (safe_openpt w)

  abbrev pub is_retried : ErrorKind → Bool
  is_retried interrupted = true
  is_retried _ = false

  abbrev pub after_try :
      {A : Type 0}
      → Result A × libc.World
      → Option (Result A × libc.World)
      → Option (Result A × libc.World)
  after_try (ok a, w) rest = some (ok a, w)
  after_try (err e, w) rest = if is_retried e.kind then rest else some (err e, w)

  -- `retry_interrupted`, for at most so many tries; `none` if all of them were interrupted.
  unfoldable pub retry_interrupted :
      {A : Type 0} → ℕ → Call libc A → libc.World → Option (Result A × libc.World)
  retry_interrupted zero func w = none
  retry_interrupted (suc n) func w =
      let (r, w') = func w in let rest = retry_interrupted n func w' in after_try (r, w') rest
