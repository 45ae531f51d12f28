-- ===== src/Pty/Libc.antt =====
-- The functions of libc that src/pty.rs calls, over the state of the system. They are no part of
-- the program.
use iosock.Prelude.{ℕ, zero, ◌≡◌, Bool, true, false, Option, List, ◌∷◌}
use iosock.Io.{IoError, Result}

-- A `c_int`: a descriptor, or a negative number.
pub data ℤ : Type 0 where
  pos negsuc : ℕ → ℤ

-- `== -1`
abbrev pub is_minus_one : ℤ → Bool
is_minus_one (negsuc zero) = true
is_minus_one _ = false

-- `libc::winsize`; `u16`s
pub record Winsize : Type 0 where
  pub ws_row : ℕ
  pub ws_col : ℕ
  pub ws_xpixel : ℕ
  pub ws_ypixel : ℕ

pub record Libc : Type 1 where
  pub World : Type 0
  pub Termios : Type 0
  -- `termios.c_oflag & !libc::ONLCR`, stored to `termios.c_oflag`
  pub without_onlcr : Termios → Termios
  -- `io::Error::last_os_error`
  pub last_os_error : World → IoError
  -- `libc::open` with `O_RDWR`, `libc::posix_openpt` with `O_RDWR | O_NOCTTY`
  pub open_file : List ℕ → World → ℤ × World
  pub posix_openpt : World → ℤ × World
  pub grantpt : ℤ → World → ℤ × World
  pub unlockpt : ℤ → World → ℤ × World
  -- `libc::ptsname`, with the bytes that it points to up to the NUL
  pub ptsname : ℤ → World → Option (List ℕ) × World
  pub dup2 : ℤ → ℤ → World → ℤ × World
  -- `libc::ioctl` with `TIOCSWINSZ`
  pub set_winsize : ℤ → Winsize → World → ℤ × World
  pub tcgetattr : ℤ → World → ℤ × Termios × World
  -- `libc::tcsetattr` with `TCSANOW`
  pub tcsetattr : ℤ → Termios → World → ℤ × World
  pub setsid : World → ℤ × World
  -- `Command::spawn`, which in the child runs the closure for the terminal with this name
  pub Child : Type 0
  pub spawn : List ℕ → World → Result Child × World
  -- the drop of an `OwnedFd`
  pub close : ℤ → World → World

-- The descriptors that were dropped: a drop adds its own, and no other call does.
pub record DropLaws (libc : Libc) : Type 0 where
  pub closed : libc.World → List ℤ
  pub closed-close : (fd : ℤ) (w : libc.World) → closed (libc.close fd w) ≡ fd ∷ closed w
  pub closed-openpt : (w : libc.World) → closed (libc.posix_openpt w).1 ≡ closed w
  pub closed-grantpt : (fd : ℤ) (w : libc.World) → closed (libc.grantpt fd w).1 ≡ closed w
  pub closed-unlockpt : (fd : ℤ) (w : libc.World) → closed (libc.unlockpt fd w).1 ≡ closed w
  pub closed-ptsname : (fd : ℤ) (w : libc.World) → closed (libc.ptsname fd w).1 ≡ closed w
  pub closed-set_winsize :
      (fd : ℤ) (s : Winsize) (w : libc.World) → closed (libc.set_winsize fd s w).1 ≡ closed w
  pub closed-tcgetattr : (fd : ℤ) (w : libc.World) → closed (libc.tcgetattr fd w).2 ≡ closed w
  pub closed-tcsetattr :
      (fd : ℤ) (t : libc.Termios) (w : libc.World) → closed (libc.tcsetattr fd t w).1 ≡ closed w
  pub closed-spawn : (name : List ℕ) (w : libc.World) → closed (libc.spawn name w).1 ≡ closed w
