-- ===== src/Tests/Terminals.antt =====
-- src/pty.rs at concrete inputs: a small libc with a table of descriptors.
use iosock.Prelude.{
  ℕ, ◌≡◌, ◌≢◌, ◌≤◌, refl, Bool, true, false, Option, none, some, List, [], ◌∷◌, if◌then◌else◌,
  arith, Bool-cases, inl, inr,
}
use iosock.Io.{ErrorKind, interrupted, other, Result, ok, err}
use iosock.Pty.Libc.{ℤ, pos, negsuc, is_minus_one, Libc}
use iosock.Pty.Open.{safe_open, safe_dup2, checked}
use iosock.Pty.Spawn.{pre_exec}
use iosock.Pty.Retry.{Interrupted, at_once, again, IsFinal}
use iosock.Pty.Table.{Table, opens, is_stdio, TableLaws}
use iosock.Pty.Patience.{Patient}
use iosock.Pty.Streams.{Binds, pre_exec-Binds}

-- The next `dup2` is interrupted if a signal waits.
record Task : Type 0 where
  table : Table
  signalled : Bool
  errno : ErrorKind

abbrev is_open : Option (List ℕ) → Bool
is_open none = false
is_open (some name) = true

abbrev failed : ErrorKind → Task → ℤ × Task
failed e w = (negsuc 0, record w { errno = e })

abbrev opened : List ℕ → Task → ℤ × Task
opened name w =
    if is_open (w.table (pos 9))
    then failed (other 24) w
    else (pos 9, record w { table = opens (pos 9) (some name) w.table })

abbrev duplicated : ℤ → ℤ → Task → ℤ × Task
duplicated src (negsuc n) w = failed (other 9) w
duplicated src (pos n) w =
    if w.signalled
    then failed interrupted (record w { signalled = false })
    else (pos n, record w { table = opens (pos n) (w.table src) w.table })

abbrev task_libc : Libc
task_libc = record {
  World = Task;
  Termios = ℕ;
  without_onlcr = λ t. t;
  last_os_error = λ w. record { kind = w.errno; raw_os_error = none };
  open_file = opened;
  posix_openpt = λ w. (pos 8, w);
  grantpt = λ fd w. (pos 0, w);
  unlockpt = λ fd w. (pos 0, w);
  ptsname = λ fd w. (none, w);
  dup2 = duplicated;
  set_winsize = λ fd s w. (pos 0, w);
  tcgetattr = λ fd w. (pos 0, 5, w);
  tcsetattr = λ fd t w. (pos 0, w);
  setsid = λ w. (pos 77, w);
  Child = ℕ;
  spawn = λ name w. (ok 77, w);
  close = λ fd w. record w { table = opens fd none w.table };
}

free : (o : Option (List ℕ)) → is_open o ≡ false → o ≡ none
free none e = refl
free (some name) e = cc

opened_fresh :
    (name : List ℕ) (w : Task)
    → is_minus_one (opened name w).0 ≡ false
    → w.table (opened name w).0 ≡ none
opened_fresh name w h = elim (Bool-cases (is_open (w.table (pos 9)))) [
  | inl e ↦ let k : is_minus_one (opened name w).0 ≡ true = rw e refl in ground (arith, h, k)
  | inr e ↦ rw e (free (w.table (pos 9)) e)
]

table-duplicated :
    (src dest : ℤ) (w : Task) (g : ℤ)
    → (duplicated src dest w).1.table g ≡ (
        if is_minus_one (duplicated src dest w).0
        then w.table g
        else opens dest (w.table src) w.table g)
table-duplicated src (negsuc n) w g = refl
table-duplicated src (pos n) w g = ground arith

abbrev task_laws : TableLaws task_libc
task_laws = record {
  table = λ w. w.table;
  table-setsid = λ w g. refl;
  open_fresh = opened_fresh;
  table-open = λ name w g. ground arith;
  table-dup2 = table-duplicated;
  table-close = λ fd w g. refl;
}

open-IsFinal :
    (name : List ℕ) (w : Task)
    → IsFinal task_libc (safe_open task_libc name) (safe_open task_libc name w).0
unfolding safe_open checked
open-IsFinal name w = elim (Bool-cases (is_open (w.table (pos 9)))) [
  | inl e ↦ rw e (λ k. cc)
  | inr e ↦ rw e tt
]

open-Patient : (name : List ℕ) → Patient task_libc 1 (safe_open task_libc name)
open-Patient name w =
    let (r, u) = safe_open task_libc name w in
    (0, w, r, u, omega arith, at_once, refl, open-IsFinal name w)

-- Once no signal waits.
abbrev calm : Task → Task
calm w = record w { signalled = false; errno = interrupted }

dup2-refused :
    (src : ℤ) (n : ℕ) (w : Task)
    → IsFinal task_libc
        (safe_dup2 task_libc src (negsuc n))
        (safe_dup2 task_libc src (negsuc n) w).0
unfolding safe_dup2 checked
dup2-refused src n w = λ k. cc

dup2-IsFinal :
    (src dest : ℤ) (w : Task)
    → w.signalled ≡ false
    → IsFinal task_libc (safe_dup2 task_libc src dest) (safe_dup2 task_libc src dest w).0
unfolding safe_dup2 checked
dup2-IsFinal src (negsuc n) w e = dup2-refused src n w
dup2-IsFinal src (pos n) w e = rw e tt

dup2-interrupted :
    (src : ℤ) (n : ℕ) (w : Task)
    → w.signalled ≡ true
    → safe_dup2 task_libc src (pos n) w
      ≡ (err (record { kind = interrupted; raw_os_error = none }), calm w)
unfolding safe_dup2 checked
dup2-interrupted src n w e = rw e refl

dup2-Patient : (src dest : ℤ) → Patient task_libc 1 (safe_dup2 task_libc src dest)
dup2-Patient src dest w = elim (Bool-cases w.signalled) [
  | inr e ↦ (0, w, _, _, omega arith, at_once, refl, dup2-IsFinal src dest w e)
  | inl e ↦ signal dest e
]
  where
    signal :
        (dest : ℤ)
        → w.signalled ≡ true
        → (n : ℕ) × (v : Task) × (r : Result (Unit {0})) × (u : Task) × (n ≤ 1)
          × Interrupted task_libc (safe_dup2 task_libc src dest) n w v
          × (safe_dup2 task_libc src dest v ≡ (r, u))
          × IsFinal task_libc (safe_dup2 task_libc src dest) r
    signal (pos n) e = (
      1,
      calm w,
      _,
      _,
      omega arith,
      again (record { kind = interrupted; raw_os_error = none }) (dup2-interrupted src n w e) refl
          at_once,
      refl,
      dup2-IsFinal src (pos n) (calm w) refl,
    )
    signal (negsuc n) e = (0, w, _, _, omega arith, at_once, refl, dup2-refused src n w)

-- 0, 1 and 2 are open to the file 7, and a signal waits.
abbrev forked : Task
forked = record {
  table = λ g. if is_stdio g then some (7 ∷ []) else none;
  signalled = true;
  errno = interrupted;
}

stdio_open : (g : ℤ) → is_stdio g ≡ true → forked.table g ≢ none
stdio_open g e = rw e (λ k. cc)

pre_exec-Binds_example :
    Binds task_laws (5 ∷ []) forked.table (pre_exec task_libc 2 (5 ∷ []) forked)
pre_exec-Binds_example =
    pre_exec-Binds task_laws 1 (5 ∷ []) forked stdio_open (open-Patient (5 ∷ [])) dup2-Patient
