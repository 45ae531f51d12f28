-- ===== src/Tests/Platform.antt =====
-- A small platform: flags as four booleans, and a system whose streams all read one inbox.
use Prim.Native.Nat.{◌/◌}
use iosock.Prelude.{
  ℕ, ◌+◌, ◌%◌, ◌≡◌, refl, Bool, true, false, not, ◌&&◌, ◌||◌, List, [], ◌∷◌, ◌++◌, ◌==◌,
  if◌then◌else◌, take, drop, length, arith,
}
use iosock.Io.{broken_pipe, from_kind, ok, err}
use iosock.Epoll.{Event, Flags, FlagLaws}
use iosock.Os.{Os}

pub record ToyEvents : Type 0 where
  pub readable : Bool
  pub writable : Bool
  pub errored : Bool
  pub hung : Bool

abbrev pub nothing : ToyEvents
nothing = record { readable = false; writable = false; errored = false; hung = false }

abbrev toy_bits : ToyEvents → ℕ
toy_bits e =
    (if e.readable then 1 else 0)
    + ((if e.writable then 4 else 0) + ((if e.errored then 8 else 0) + (if e.hung then 16 else 0)))

abbrev toy_from : ℕ → ToyEvents
toy_from n = record {
  readable = n % 2 == 1;
  writable = n / 4 % 2 == 1;
  errored = n / 8 % 2 == 1;
  hung = n / 16 % 2 == 1;
}

abbrev toy_contains : ToyEvents → ToyEvents → Bool
toy_contains e f =
    (not f.readable || e.readable)
    && ((not f.writable || e.writable) && ((not f.errored || e.errored) && (not f.hung || e.hung)))

abbrev toy_set : ToyEvents → ToyEvents → Bool → ToyEvents
toy_set e f b = record {
  readable = if f.readable then b else e.readable;
  writable = if f.writable then b else e.writable;
  errored = if f.errored then b else e.errored;
  hung = if f.hung then b else e.hung;
}

abbrev pub toy_flags : Flags
toy_flags = record {
  Events = ToyEvents;
  empty = nothing;
  epollin = record nothing { readable = true };
  epollout = record nothing { writable = true };
  epollerr = record nothing { errored = true };
  epollhup = record nothing { hung = true };
  bits = toy_bits;
  from_bits_truncate = toy_from;
  contains = toy_contains;
  set = toy_set;
  new_event = λ e d. record { events = toy_bits e; data_field = d };
}

toy_from-bits :
    (r w e h : Bool)
    → let t : ToyEvents = record { readable = r; writable = w; errored = e; hung = h } in
      toy_from (toy_bits t) ≡ t
toy_from-bits r w e h = ground arith

pub toy_laws : FlagLaws toy_flags
toy_laws = record {
  from_bits_truncate-bits = λ e. toy_from-bits e.readable e.writable e.errored e.hung;
  contains_in-empty = refl;
  contains_out-empty = refl;
  contains_in-epollin = refl;
  contains_out-epollin = refl;
  contains_in-set_in = λ e b. ground arith;
  contains_out-set_out = λ e b. ground arith;
  contains_out-set_in = λ e b. ground arith;
  contains_in-set_out = λ e b. ground arith;
  events-new_event = λ e d. refl;
  data-new_event = λ e d. refl;
}

-- `broken` makes writes fail as on a pipe with no reader. `waits` are the answers to come.
pub record World : Type 0 where
  pub inbox : List ℕ
  pub sent : List ℕ
  pub broken : Bool
  pub next_fd : ℕ
  pub closed : List ℕ
  pub waits : List (List Event)

abbrev pub calm : World
calm = record { inbox = []; sent = []; broken = false; next_fd = 20; closed = []; waits = [] }

abbrev next_events : List (List Event) → List Event
next_events [] = []
next_events (es ∷ ws) = es

abbrev pub toy_os : Os
toy_os = record {
  flags = toy_flags;
  World = World;
  eio = 5;
  read = λ fd w n. (ok (take n w.inbox), record w { inbox = drop n w.inbox });
  write = λ fd w bs.
      if w.broken
      then (err (from_kind broken_pipe), w)
      else (ok (length bs), record w { sent = w.sent ++ bs });
  flush = λ fd w. (ok tt, w);
  accept = λ fd w. (ok w.next_fd, record w { next_fd = w.next_fd + 1 });
  close = λ fd w. record w { closed = fd ∷ w.closed };
  epoll_create = λ w. (ok 3, w);
  epoll_ctl = λ p op fd e w. (ok tt, w);
  epoll_wait = λ p n w. (ok (next_events w.waits), record w { waits = drop 1 w.waits });
}
