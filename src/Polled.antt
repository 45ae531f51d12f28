-- ===== src/Polled.antt =====
-- src/polled_fd.rs: `PolledFd`, a file descriptor with the mask last given to epoll and the mask
-- that is asked for, and `PolledFdSet`, the set that the channel manager changes and the pollster
-- hands to epoll.
pub mod Lookup
pub mod Asks
pub mod Settled
pub mod Pending
pub mod Interest
pub mod Sync
pub mod Apply
pub mod Again
pub mod Keeps
use iosock.Prelude.{
  ℕ, Bool, true, false, ◌||◌, Option, none, some, List, [], ◌∷◌, ◌++◌, ◌==◌, if◌then◌else◌,
}
use iosock.Io.{Result, ok, err}
use iosock.Outcome.{Outcome, done, panic}
use iosock.Epoll.{Flags, Event}

-- A `RawFd` is a number: the descriptors that the system hands out are not negative.
pub record PolledFd (fl : Flags) : Type 0 where
  pub fd : ℕ
  pub event : Event
  pub new_events : fl.Events

pub record PolledFdSet (fl : Flags) : Type 0 where
  pub existing : List (PolledFd fl)
  pub new : List (ℕ × fl.Events)
  pub removed : List ℕ

-- `iter().position(|pf| pf.fd == fd).is_some()`
abbrev pub has_fd : {fl : Flags} → ℕ → List (PolledFd fl) → Bool
has_fd fd [] = false
has_fd fd (p ∷ ps) = p.fd == fd || has_fd fd ps

abbrev pub has_new : {E : Type 0} → ℕ → List (ℕ × E) → Bool
has_new fd [] = false
has_new fd ((nfd, e) ∷ ns) = nfd == fd || has_new fd ns

-- The first entry of the descriptor, changed in place.
abbrev pub modify_first :
    {fl : Flags} → ℕ → (PolledFd fl → PolledFd fl) → List (PolledFd fl) → List (PolledFd fl)
modify_first fd f [] = []
modify_first fd f (p ∷ ps) = if p.fd == fd then f p ∷ ps else p ∷ modify_first fd f ps

-- `existing.remove(position)`
abbrev pub remove_first : {fl : Flags} → ℕ → List (PolledFd fl) → List (PolledFd fl)
remove_first fd [] = []
remove_first fd (p ∷ ps) = if p.fd == fd then ps else p ∷ remove_first fd ps

module _ (fl : Flags) where
  -- `PolledFd::new`
  unfoldable pub new_fd : ℕ → Event → PolledFd fl
  new_fd fd event = record {
    fd = fd;
    event = event;
    new_events = fl.from_bits_truncate event.events;
  }

  unfoldable pub poll_for_read : Bool → PolledFd fl → PolledFd fl
  poll_for_read poll_reads p = record p { new_events = fl.set p.new_events fl.epollin poll_reads }

  unfoldable pub poll_for_write : Bool → PolledFd fl → PolledFd fl
  poll_for_write poll_writes p = record p {
    new_events = fl.set p.new_events fl.epollout poll_writes;
  }

  -- `PolledFd::apply_updates`
  unfoldable pub apply_fd : PolledFd fl → Option Event × PolledFd fl
  apply_fd p =
      let changed = record p.event { events = fl.bits p.new_events } in
      if p.event.events == fl.bits p.new_events
      then (none, p)
      else (some changed, record p { event = changed })

  unfoldable pub new_set : PolledFdSet fl
  new_set = record { existing = []; new = []; removed = [] }

  unfoldable pub register : ℕ → fl.Events → PolledFdSet fl → Outcome (PolledFdSet fl)
  register fd events s =
      if has_fd fd s.existing
      then panic
      else if has_new fd s.new
      then panic
      else done (record s { new = s.new ++ (fd, events) ∷ [] })

  unfoldable pub modify :
      ℕ → (PolledFd fl → PolledFd fl) → PolledFdSet fl → Outcome (PolledFdSet fl)
  modify fd modify_fn s =
      if has_fd fd s.existing
      then done (record s { existing = modify_first fd modify_fn s.existing })
      else panic

  unfoldable pub unregister : ℕ → PolledFdSet fl → Outcome (PolledFdSet fl)
  unregister fd s =
      if has_fd fd s.existing
      then done (record s { existing = remove_first fd s.existing; removed = s.removed ++ fd ∷ [] })
      else panic

  unfoldable pub unregister_closed : ℕ → PolledFdSet fl → Outcome (PolledFdSet fl)
  unregister_closed fd s =
      if has_fd fd s.existing
      then done (record s { existing = remove_first fd s.existing })
      else panic

  -- The callbacks of `PolledFdSet::apply_updates`, over what they capture.
  pub record Callbacks (W : Type 0) : Type 0 where
    pub new_fn : ℕ → fl.Events → W → Result (PolledFd fl) × W
    pub update_fn : ℕ → Event → W → Result (Unit {0}) × W
    pub delete_fn : ℕ → W → Result (Unit {0}) × W

module _ {fl : Flags} {W : Type 0} (cb : Callbacks fl W) where
  -- `if let Some(new_event) = pfd.apply_updates() { update_fn(pfd.fd, new_event)?; }`
  unfoldable pub notify : ℕ → Option Event → W → Result (Unit {0}) × W
  notify fd none w = (ok tt, w)
  notify fd (some event) w = cb.update_fn fd event w

  -- The loop over `existing`, which it changes in place up to the first error.
  unfoldable pub update_existing :
      List (PolledFd fl) → W → Result (Unit {0}) × List (PolledFd fl) × W
  update_existing [] w = (ok tt, [], w)
  update_existing (p ∷ ps) w =
      let (change, p') = apply_fd fl p in
      let (answer, w') = notify p.fd change w in
      let (result, ps', w'') = update_existing ps w' in
      elim answer [ ok u ↦ (result, p' ∷ ps', w'') | err e ↦ (err e, p' ∷ ps, w') ]

  -- The loop over `new.drain(..)`, which pushes to `existing`.
  unfoldable pub add_new :
      List (ℕ × fl.Events) → List (PolledFd fl) → W → Result (Unit {0}) × List (PolledFd fl) × W
  add_new [] existing w = (ok tt, existing, w)
  add_new ((fd, events) ∷ ns) existing w =
      let (answer, w') = cb.new_fn fd events w in
      elim answer [ ok p ↦ add_new ns (existing ++ p ∷ []) w' | err e ↦ (err e, existing, w') ]

  -- The loop over `removed.drain(..)`.
  unfoldable pub delete_removed : List ℕ → W → Result (Unit {0}) × W
  delete_removed [] w = (ok tt, w)
  delete_removed (fd ∷ fds) w =
      let (answer, w') = cb.delete_fn fd w in
      elim answer [ ok u ↦ delete_removed fds w' | err e ↦ (err e, w') ]

  -- The three loops. A drain that is left early by `?` empties its vector all the same.
  unfoldable pub after_add :
      PolledFdSet fl
      → Result (Unit {0}) × List (PolledFd fl) × W
      → Result (Unit {0}) × PolledFdSet fl × W
  after_add s (err e, existing, w) = (err e, record s { existing = existing; new = [] }, w)
  after_add s (ok u, existing, w) =
      let (answer, w') = delete_removed s.removed w in
      (answer, record { existing = existing; new = []; removed = [] }, w')

  unfoldable pub after_update :
      PolledFdSet fl
      → Result (Unit {0}) × List (PolledFd fl) × W
      → Result (Unit {0}) × PolledFdSet fl × W
  after_update s (err e, existing, w) = (err e, record s { existing = existing }, w)
  after_update s (ok u, existing, w) = after_add s (add_new s.new existing w)

  -- `PolledFdSet::apply_updates`
  unfoldable pub apply_updates : PolledFdSet fl → W → Result (Unit {0}) × PolledFdSet fl × W
  apply_updates s w = after_update s (update_existing s.existing w)
