-- ===== src/Tests/Kernel.antt =====
-- A platform with an epoll instance, for which the documented behaviour of the system is proved.
use iosock.Prelude.{
  ℕ, ◌+◌, ◌≡◌, ◌≢◌, refl, ap, Bool, true, false, not, ◌||◌, none, List, [], ◌∷◌, ◌++◌, ◌==◌,
  if◌then◌else◌, take, drop, length, length-take, arith,
}
use iosock.Io.{Result, other, from_kind, ok, err}
use iosock.Epoll.{Event, ControlOptions, ctl_add, ctl_mod, ctl_del}
use iosock.Polled.Interest.{Interest, cut, is_some}
use iosock.Polled.Interest
use iosock.Os.{Os}
use iosock.Os.Laws.{OsLaws, RefuseLaws}
use iosock.Relay.{Entry, got, put, LogLaws}
use iosock.Tests.Platform.{toy_flags, toy_laws}

-- What epoll watches, what the streams are to be read, the next descriptor, the events to come, and
-- the transfers so far.
pub record Kernel : Type 0 where
  pub table : Interest
  pub inbox : List ℕ
  pub next_fd : ℕ
  pub waits : List (List Event)
  pub log : List Entry

abbrev nothing_watched : Interest
nothing_watched g = none

abbrev pub idle : Kernel
idle = record { table = nothing_watched; inbox = []; next_fd = 20; waits = []; log = [] }

-- The descriptor 9 is open to a file.
abbrev is_open : ℕ → Bool
is_open fd = not (fd == 9)

abbrev control : ControlOptions → ℕ → Event → Kernel → Result (Unit {0}) × Kernel
control ctl_add fd e w =
    if is_open fd
    then (if is_some (w.table fd)
        then (err (from_kind (other 17)), w)
        else (ok tt, record w { table = Interest.put fd e w.table }))
    else (err (from_kind (other 1)), w)
control ctl_mod fd e w =
    if is_some (w.table fd)
    then (ok tt, record w { table = Interest.put fd e w.table })
    else (err (from_kind (other 17)), w)
control ctl_del fd e w =
    if is_some (w.table fd)
    then (ok tt, record w { table = cut fd w.table })
    else (err (from_kind (other 17)), w)

abbrev first : List (List Event) → List Event
first [] = []
first (es ∷ ws) = es

-- A descriptor is free if nothing watches it and it is neither the close notification, 30, nor the
-- file.
abbrev is_free : ℕ → Kernel → Bool
is_free fd w = if is_some (w.table fd) || (fd == 30 || fd == 9) then false else true

abbrev pub kernel_os : Os
kernel_os = record {
  flags = toy_flags;
  World = Kernel;
  eio = 5;
  read = λ fd w n. (
    ok (take n w.inbox),
    record w { inbox = drop n w.inbox; log = w.log ++ got fd (take n w.inbox) ∷ [] },
  );
  write =
      λ fd w bs. (ok (length bs), record w { log = w.log ++ put fd (take (length bs) bs) ∷ [] });
  flush = λ fd w. (ok tt, w);
  accept = λ fd w.
      if is_free w.next_fd w
      then (ok w.next_fd, record w { next_fd = w.next_fd + 1 })
      else (err (from_kind (other 17)), w);
  close = λ fd w. record w { table = cut fd w.table };
  epoll_create = λ w. (ok 3, record w { table = nothing_watched });
  epoll_ctl = λ p op fd e w. control op fd e w;
  epoll_wait = λ p n w. (ok (first w.waits), record w { waits = drop 1 w.waits });
}

abbrev seen : Kernel → Interest
seen w = cut 30 w.table

pub seen-add :
    (fd : ℕ) (e : Event) (w : Kernel)
    → fd ≢ 30
    → is_open fd ≡ true
    → seen w fd ≡ none
    → let r = control ctl_add fd e w in
      (r.0 ≡ ok tt) × ((g : ℕ) → seen r.1 g ≡ Interest.put fd e (seen w) g)
seen-add fd e w n p h = (ground (arith, n, p, h), λ g. ground (arith, n, p, h))

pub seen-mod :
    (fd : ℕ) (e : Event) (w : Kernel)
    → is_some (seen w fd) ≡ true
    → let r = control ctl_mod fd e w in
      (r.0 ≡ ok tt) × ((g : ℕ) → seen r.1 g ≡ Interest.put fd e (seen w) g)
seen-mod fd e w h = (ground (arith, h), λ g. ground (arith, h))

pub accepts :
    (server fd : ℕ) (w : Kernel)
    → (kernel_os.accept server w).0 ≡ ok fd
    → (fd ≢ 30) × (seen w fd ≡ none) × (is_open fd ≡ true)
accepts server fd w e = (ground (arith, e), ground (arith, e), ground (arith, e))

abbrev pub kernel_laws : OsLaws kernel_os
kernel_laws = record {
  flags = toy_laws;
  reads = λ fd w n bs e. ground (arith, length-take n w.inbox);
  writes = λ fd w bs n e. ground arith;
  poll_fd = 3;
  close_fd = 30;
  pollable = is_open;
  watched = seen;
  watched-read = λ fd w n g. refl;
  watched-write = λ fd w bs g. refl;
  watched-flush = λ fd w g. refl;
  watched-accept = λ fd w g. ground arith;
  watched-close = λ fd w g. ground arith;
  watched-wait = λ n w g. refl;
  accepts_new = λ server fd w w' e. accepts server fd w (ap (λ t. t.0) e);
  add_ok = seen-add;
  mod_ok = λ fd e w h. seen-mod fd e w h;
  del_ok = λ fd e w h. (ground (arith, h), λ g. ground (arith, h));
}

pub refused :
    (fd : ℕ) (e : Event) (w : Kernel)
    → is_open fd ≡ false
    → (control ctl_add fd e w).0 ≡ err (from_kind (other 1))
refused fd e w n = ground (arith, n)

abbrev pub kernel_refuses : RefuseLaws kernel_laws
kernel_refuses = record { add_refused = λ fd e w n. (from_kind (other 1), refused fd e w n) }

pub same_log :
    (op : ControlOptions) (fd : ℕ) (e : Event) (w : Kernel) → (control op fd e w).1.log ≡ w.log
same_log ctl_add fd e w = ground arith
same_log ctl_mod fd e w = ground arith
same_log ctl_del fd e w = ground arith

abbrev pub kernel_logs : LogLaws kernel_os
kernel_logs = record {
  log = λ w. w.log;
  log-read = λ fd w n. refl;
  log-write = λ fd w bs. refl;
  log-flush = λ fd w. refl;
  log-accept = λ fd w. ground arith;
  log-close = λ fd w. refl;
  log-epoll_ctl = λ p op fd e w. same_log op fd e w;
  log-epoll_wait = λ p n w. refl;
}
