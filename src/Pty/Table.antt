-- ===== src/Pty/Table.antt =====
-- The table of descriptors of a process, and what the calls of src/pty.rs do to it.
use iosock.Prelude.{
  ℕ, ◌≡◌, ap, Bool, true, false, ◌||◌, Option, none, some, List, ◌==◌, if◌then◌else◌, ==_iff,
  ==_refl,
}
use iosock.Pty.Libc.{ℤ, pos, negsuc, is_minus_one, Libc}

abbrev pub same_fd : ℤ → ℤ → Bool
same_fd (pos m) (pos n) = m == n
same_fd (negsuc m) (negsuc n) = m == n
same_fd (pos m) (negsuc n) = false
same_fd (negsuc m) (pos n) = false

pub same_fd_path : (x y : ℤ) → same_fd x y ≡ true → x ≡ y
same_fd_path (pos m) (pos n) e = ap pos ((==_iff m n).0 e)
same_fd_path (negsuc m) (negsuc n) e = ap negsuc ((==_iff m n).0 e)
same_fd_path (pos m) (negsuc n) e = cc
same_fd_path (negsuc m) (pos n) e = cc

abbrev pub is_stdio : ℤ → Bool
is_stdio g = same_fd g (pos 0) || same_fd g (pos 1) || same_fd g (pos 2)

-- What each descriptor is open to, by the name of the file.
abbrev pub Table : Type 0
Table = ℤ → Option (List ℕ)

abbrev pub opens : ℤ → Option (List ℕ) → Table → Table
opens fd file t g = if same_fd g fd then file else t g

pub same_fd_refl : (x : ℤ) → same_fd x x ≡ true
same_fd_refl (pos n) = ==_refl n
same_fd_refl (negsuc n) = ==_refl n

-- What the documentation of the calls says of the table: open(2) takes a descriptor that is not
-- open, dup2(2) makes the second what the first is, and a call that fails leaves it alone.
pub record TableLaws (libc : Libc) : Type 0 where
  pub table : libc.World → Table
  pub table-setsid : (w : libc.World) (g : ℤ) → table (libc.setsid w).1 g ≡ table w g
  pub open_fresh :
      (name : List ℕ) (w : libc.World)
      → is_minus_one (libc.open_file name w).0 ≡ false
      → table w (libc.open_file name w).0 ≡ none
  pub table-open :
      (name : List ℕ) (w : libc.World) (g : ℤ)
      → table (libc.open_file name w).1 g ≡ (
          if is_minus_one (libc.open_file name w).0
          then table w g
          else opens (libc.open_file name w).0 (some name) (table w) g)
  pub table-dup2 :
      (src dest : ℤ) (w : libc.World) (g : ℤ)
      → table (libc.dup2 src dest w).1 g ≡ (
          if is_minus_one (libc.dup2 src dest w).0
          then table w g
          else opens dest (table w src) (table w) g)
  pub table-close :
      (fd : ℤ) (w : libc.World) (g : ℤ) → table (libc.close fd w) g ≡ opens fd none (table w) g
