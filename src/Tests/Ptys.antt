-- ===== src/Tests/Ptys.antt =====
-- src/pty.rs at concrete inputs: a small libc, in which `interrupts` calls of `dup2` are
-- interrupted.
use iosock.Prelude.{ℕ, zero, suc, ◌≡◌, refl, Bool, not, none, some, List, [], ◌∷◌, ◌==◌, arith}
use iosock.Io.{interrupted, other, IoError, Result, ok, err, ReadsWithin}
use iosock.Os.{Os, reader}
use iosock.Buffer.{BufferStateChange, new}
use iosock.Buffer.Contents.{IsValid, contents, room, new-IsValid}
use iosock.Channel.{channel_to_buffer}
use iosock.Pty.{pty_reader}
use iosock.Pty.Eof.{eio_closes}
use iosock.Pty.Libc.{ℤ, pos, negsuc, Libc, DropLaws}
use iosock.Pty.Open.{
  PtyPair, default_winsize, set_rows, set_columns, open_pty, safe_dup2, safe_open, checked,
  retry_interrupted,
}
use iosock.Pty.Spawn.{spawn, bind_stdio, pre_exec}
use iosock.Pty.Ownership.{OpensOrDrops, open_pty-OpensOrDrops, DropsOnError, spawn-DropsOnError}
use iosock.Pty.Retry.{Interrupted, at_once, again, retry_interrupted_lem}
use iosock.Tests.Platform.{World, toy_os, calm}

abbrev eio : IoError
eio = record { kind = other 5; raw_os_error = some 5 }

-- The platform, but every read fails as on a pseudo-terminal with no slave.
abbrev hung_os : Os
hung_os = record toy_os { read = λ fd w n. (err eio, w) }

hung-ReadsWithin : ReadsWithin (reader hung_os 9)
hung-ReadsWithin w n bs e = ground arith

eio_closes_example :
    let (r, b', w'') = channel_to_buffer (pty_reader hung_os 9) new calm in
    IsValid b'
    × (◌≡◌ {A = Result (Bool × BufferStateChange) × List ℕ × World}
        (r, contents b', w'')
        (ok (not (room new == 0), BufferStateChange.none), contents new, calm))
eio_closes_example = eio_closes hung_os 9 new calm calm eio hung-ReadsWithin new-IsValid refl refl

record System : Type 0 where
  dropped : List ℤ
  interrupts : ℕ
  table : List ℤ

abbrev fresh : System
fresh = record { dropped = []; interrupts = 0; table = [] }

abbrev duplicate : ℤ → ℕ → System → ℤ × System
duplicate dest zero w = (dest, record w { table = dest ∷ w.table })
duplicate dest (suc n) w = (negsuc 0, record w { interrupts = n })

-- It has no terminal to name, so that `spawn` fails late.
abbrev toy_libc : Libc
toy_libc = record {
  World = System;
  Termios = ℕ;
  without_onlcr = λ t. t;
  last_os_error = λ w. record { kind = interrupted; raw_os_error = some 4 };
  open_file = λ path w. (pos 9, w);
  posix_openpt = λ w. (pos 8, w);
  grantpt = λ fd w. (pos 0, w);
  unlockpt = λ fd w. (negsuc 0, w);
  ptsname = λ fd w. (none, w);
  dup2 = λ src dest w. duplicate dest w.interrupts w;
  set_winsize = λ fd s w. (pos 0, w);
  tcgetattr = λ fd w. (pos 0, 5, w);
  tcsetattr = λ fd t w. (pos 0, w);
  setsid = λ w. (pos 77, w);
  Child = ℕ;
  spawn = λ name w. (ok 77, w);
  close = λ fd w. record w { dropped = fd ∷ w.dropped };
}

abbrev toy_drops : DropLaws toy_libc
toy_drops = record {
  closed = λ w. w.dropped;
  closed-close = λ fd w. refl;
  closed-openpt = λ w. refl;
  closed-grantpt = λ fd w. refl;
  closed-unlockpt = λ fd w. refl;
  closed-ptsname = λ fd w. refl;
  closed-set_winsize = λ fd s w. refl;
  closed-tcgetattr = λ fd w. refl;
  closed-tcsetattr = λ fd t w. refl;
  closed-spawn = λ name w. refl;
}

open_pty-OpensOrDrops_example : OpensOrDrops toy_drops (pos 8) fresh (open_pty toy_libc fresh)
open_pty-OpensOrDrops_example = open_pty-OpensOrDrops toy_drops fresh

abbrev pair : PtyPair
pair = set_rows 24 (set_columns 80 (record { master = pos 8; winsize = default_winsize }))

pair_size : (pair.winsize.ws_row ≡ 24) × (pair.winsize.ws_col ≡ 80)
unfolding set_rows set_columns
pair_size = (refl, refl)

spawn-DropsOnError_example :
    DropsOnError toy_drops
      (pos 8)
      fresh
      (spawn toy_libc (record { master = pos 8; winsize = default_winsize }) fresh)
spawn-DropsOnError_example =
    spawn-DropsOnError toy_drops (record { master = pos 8; winsize = default_winsize }) fresh

abbrev eintr : IoError
eintr = record { kind = interrupted; raw_os_error = some 4 }

twice :
    Interrupted toy_libc
      (safe_dup2 toy_libc (pos 9) (pos 0))
      2
      (record fresh { interrupts = 2 })
      fresh
unfolding safe_dup2 checked
twice =
    again {v = record fresh { interrupts = 1 }} eintr refl refl
      (again {v = fresh} eintr refl refl at_once)

retry_interrupted_lem_example :
    retry_interrupted toy_libc 3
      (safe_dup2 toy_libc (pos 9) (pos 0))
      (record fresh { interrupts = 2 })
    ≡ some (ok tt, record fresh { table = pos 0 ∷ [] })
unfolding safe_dup2 checked
retry_interrupted_lem_example =
    retry_interrupted_lem toy_libc (safe_dup2 toy_libc (pos 9) (pos 0)) 2 0 twice refl tt

-- The new process: three descriptors, and the slave dropped.
pre_exec_toy :
    pre_exec toy_libc 3 [] (record fresh { interrupts = 2 })
    ≡ some (ok tt, record fresh { dropped = pos 9 ∷ []; table = pos 2 ∷ pos 1 ∷ pos 0 ∷ [] })
unfolding pre_exec bind_stdio retry_interrupted safe_open safe_dup2 checked
pre_exec_toy = refl
