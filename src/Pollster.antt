-- ===== src/Pollster.antt =====
-- src/pollster.rs: `Pollster`, which waits for events and hands them to a channel manager.
pub mod Rounds
pub mod Events
pub mod Invariant
pub mod Settled
pub mod Runs
pub mod Fresh
pub mod Start
pub mod LastRound
pub mod Refused
use iosock.Prelude.{
  ℕ, zero, suc, ◌%◌, ◌^◌, Bool, true, false, ◌||◌, Option, none, some, List, [], ◌∷◌, ◌==◌, ltb,
  length, if◌then◌else◌,
}
use iosock.Io.{ErrorKind, interrupted, IoError, Result, ok, err}
use iosock.Outcome.{Outcome, done, fail, panic, of_result}
use iosock.Epoll.{Event, ctl_add, ctl_mod, ctl_del}
use iosock.Polled.{PolledFd, PolledFdSet, Callbacks, new_fd, new_set, apply_updates}
use iosock.Channel.{Context, M, ◌>>=◌, ◌>>◌, pure, ChannelManager}
use iosock.Os.{Os}

abbrev pub pollster_max_fds : ℕ
pollster_max_fds = 5

-- `event.data as RawFd`: the low 32 bits.
abbrev pub raw_fd : Event → ℕ
raw_fd event = event.data_field % 2 ^ 32

abbrev pub is_interrupted : ErrorKind → Bool
is_interrupted interrupted = true
is_interrupted _ = false

-- `new_fn` of `apply_poll_updates`, on the answer of `epoll::ctl`
abbrev pub added : (os : Os) → ℕ → Event → Result (Unit {0}) → Result (PolledFd os.flags)
added os fd event (ok u) = ok (new_fd os.flags fd event)
added os fd event (err e) = err e

-- The callbacks of `apply_poll_updates`. A descriptor is not negative, and is its own `u64`.
unfoldable pub poll_callbacks : (os : Os) → ℕ → Callbacks os.flags os.World
poll_callbacks os poll_fd = record {
  new_fn = λ fd events w.
      (let event = os.flags.new_event events fd in
        let (answer, w') = os.epoll_ctl poll_fd ctl_add fd event w in
        (added os fd event answer, w'));
  update_fn = λ fd event w. os.epoll_ctl poll_fd ctl_mod fd event w;
  delete_fn = λ fd w. os.epoll_ctl poll_fd ctl_del fd (os.flags.new_event os.flags.empty fd) w;
}

-- `Pollster`, without the array that `epoll::wait` fills; the set of descriptors and the manager
-- are in the context.
pub record Pollster (os : Os) (Manager : Type 0) : Type 0 where
  pub poll_fd : ℕ
  pub close_fd : ℕ
  pub context : Context os Manager

module _ {os : Os} {Manager : Type 0} (cm : ChannelManager os Manager) where
  unfoldable pub apply_poll_updates : ℕ → M os Manager (Unit {0})
  apply_poll_updates poll_fd c =
      let (r, fd_set, world) = apply_updates (poll_callbacks os poll_fd) c.fd_set c.world in
      (of_result r, record c { fd_set = fd_set; world = world })

  -- `Pollster::new`, past `epoll::create`
  unfoldable pub set_up : ℕ → ℕ → M os Manager (Unit {0})
  set_up poll_fd close_fd = do
    λ c.
        (let event = os.flags.new_event os.flags.epollin close_fd in
          let (r, w) = os.epoll_ctl poll_fd ctl_add close_fd event c.world in
          (of_result r, record c { world = w }))
    cm.initialize
    apply_poll_updates poll_fd

  -- What `set_up` ended with, as the answer of `Pollster::new`.
  abbrev pub made_of :
      ℕ → ℕ → Outcome (Unit {0}) × Context os Manager → Outcome (Pollster os Manager) × os.World
  made_of poll_fd close_fd (done u, c) =
      (done (record { poll_fd = poll_fd; close_fd = close_fd; context = c }), c.world)
  made_of poll_fd close_fd (fail e, c) = (fail e, c.world)
  made_of poll_fd close_fd (panic, c) = (panic, c.world)

  unfoldable pub new_created :
      Manager → ℕ → Result ℕ × os.World → Outcome (Pollster os Manager) × os.World
  new_created mgr close_fd (err e, w) = (fail e, w)
  new_created mgr close_fd (ok poll_fd, w) =
      made_of poll_fd close_fd
        (set_up poll_fd close_fd (record { mgr = mgr; fd_set = new_set os.flags; world = w }))

  -- `Pollster::new`
  unfoldable pub new : Manager → ℕ → os.World → Outcome (Pollster os Manager) × os.World
  new mgr close_fd w = new_created mgr close_fd (os.epoll_create w)

  abbrev pub when : Bool → M os Manager (Unit {0}) → M os Manager (Unit {0})
  when b m c = if b then m c else (done tt, c)

  -- The body of the loop over the events of one wait.
  unfoldable pub dispatch : Event → M os Manager (Unit {0})
  dispatch event =
      let fd = raw_fd event in
      let actions = os.flags.from_bits_truncate event.events in
      do
        when (os.flags.contains actions os.flags.epollin) (cm.on_readable fd)
        when (os.flags.contains actions os.flags.epollout) (cm.on_writable fd)
        when
            (os.flags.contains actions os.flags.epollerr
              || os.flags.contains actions os.flags.epollhup)
            (cm.on_hangup fd)

  -- That loop; it returns `final_iteration`.
  unfoldable pub dispatch_all : ℕ → List Event → Bool → M os Manager Bool
  dispatch_all close_fd [] final_iteration = pure final_iteration
  dispatch_all close_fd (event ∷ events) final_iteration =
      let rest = dispatch_all close_fd events in
      λ c.
        (if raw_fd event == close_fd
          then rest true c
          else (do dispatch event; rest final_iteration) c)

  -- `num_events`, as the events themselves.
  unfoldable pub waited : Result (List Event) → Outcome (List Event)
  waited (ok events) = done events
  waited (err e) = if is_interrupted e.kind then done [] else fail e

  unfoldable pub wait : ℕ → M os Manager (List Event)
  wait poll_fd c =
      let (r, w) = os.epoll_wait poll_fd pollster_max_fds c.world in
      (waited r, record c { world = w })

  -- One round of the loop of `run`; it returns true if `run` returns.
  unfoldable pub round : ℕ → ℕ → M os Manager Bool
  round poll_fd close_fd = do
    events ← wait poll_fd
    final_iteration ← dispatch_all close_fd events false
    λ c.
        (if final_iteration
          then (done true, c)
          else (do when (ltb 0 (length events)) (apply_poll_updates poll_fd); pure false) c)

  abbrev pub after_round :
      Outcome Bool × Context os Manager
      → Option (Outcome (Unit {0}) × Context os Manager)
      → Option (Outcome (Unit {0}) × Context os Manager)
  after_round (done true, c) rest = some (done tt, c)
  after_round (done false, c) rest = rest
  after_round (fail e, c) rest = some (fail e, c)
  after_round (panic, c) rest = some (panic, c)

  -- The loop of `run`, for at most so many rounds; `none` if it has not returned by then.
  unfoldable pub run_for :
      ℕ → ℕ → ℕ → Context os Manager → Option (Outcome (Unit {0}) × Context os Manager)
  run_for zero poll_fd close_fd c = none
  run_for (suc n) poll_fd close_fd c =
      let (r, c') = round poll_fd close_fd c in
      let rest = run_for n poll_fd close_fd c' in after_round (r, c') rest

  -- `Pollster::run`
  unfoldable pub run : ℕ → Pollster os Manager → Option (Outcome (Unit {0}) × Context os Manager)
  run rounds p = run_for rounds p.poll_fd p.close_fd p.context
