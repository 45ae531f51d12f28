-- ===== src/Polled/Interest.antt =====
-- src/polled_fd.rs, `apply_updates`, against the interest list of an epoll instance.
use iosock.Prelude.{
  ℕ, ◌≡◌, refl, Bool, true, false, ◌||◌, Option, none, some, List, [], ◌∷◌, ◌==◌, if◌then◌else◌,
  arith,
}
use iosock.Io.{IoError, ok, err}
use iosock.Epoll.{Flags, Event}
use iosock.Polled.{PolledFd, Callbacks, has_new, new_fd, apply_fd}

-- What epoll_ctl(2) says: each watched descriptor has one event. EPOLL_CTL_ADD fails on a
-- descriptor that is watched, EPOLL_CTL_MOD and EPOLL_CTL_DEL fail on one that is not.
abbrev pub Interest : Type 0
Interest = ℕ → Option Event

abbrev pub put : ℕ → Event → Interest → Interest
put fd e k g = if g == fd then some e else k g

abbrev pub cut : ℕ → Interest → Interest
cut fd k g = if g == fd then none else k g

abbrev pub is_some : Option Event → Bool
is_some none = false
is_some (some e) = true

-- `PolledFd::new` on the event that the pollster makes.
abbrev pub made : (fl : Flags) → ℕ → fl.Events → PolledFd fl
made fl fd events = new_fd fl fd (fl.new_event events fd)

-- The callbacks over an interest list, with the errors EEXIST and ENOENT.
abbrev pub interest_callbacks : (fl : Flags) → IoError → IoError → Callbacks fl Interest
interest_callbacks fl exists absent = record {
  new_fn = λ fd events k.
      if is_some (k fd)
      then (err exists, k)
      else (ok (made fl fd events), put fd (fl.new_event events fd) k);
  update_fn = λ fd e k. if is_some (k fd) then (ok tt, put fd e k) else (err absent, k);
  delete_fn = λ fd k. if is_some (k fd) then (ok tt, cut fd k) else (err absent, k);
}

-- The event of the descriptor in the set.
abbrev pub stored : {fl : Flags} → ℕ → List (PolledFd fl) → Option Event
stored g [] = none
stored g (p ∷ ps) = if p.fd == g then some p.event else stored g ps

abbrev pub settle_all : {fl : Flags} → List (PolledFd fl) → List (PolledFd fl)
settle_all [] = []
settle_all {fl} (p ∷ ps) = (apply_fd fl p).1 ∷ settle_all ps

abbrev pub make_all : {fl : Flags} → List (ℕ × fl.Events) → List (PolledFd fl)
make_all [] = []
make_all {fl} ((fd, events) ∷ ns) = made fl fd events ∷ make_all ns

abbrev pub elem : ℕ → List ℕ → Bool
elem g [] = false
elem g (fd ∷ fds) = fd == g || elem g fds

abbrev pub IsDistinctNew : {E : Type 0} → List (ℕ × E) → Type 0
IsDistinctNew [] = Unit
IsDistinctNew ((fd, e) ∷ ns) = (has_new fd ns ≡ false) × IsDistinctNew ns

abbrev pub IsNodup : List ℕ → Type 0
IsNodup [] = Unit
IsNodup (fd ∷ fds) = (elem fd fds ≡ false) × IsNodup fds

pub fd-apply_fd : (fl : Flags) (p : PolledFd fl) → (apply_fd fl p).1.fd ≡ p.fd
unfolding apply_fd
fd-apply_fd fl p = ground arith

pub fd-made :
    (fl : Flags) (fd : ℕ) (e : fl.Events)
    → ((made fl fd e).fd ≡ fd) × ((made fl fd e).event ≡ fl.new_event e fd)
unfolding new_fd
fd-made fl fd e = (refl, refl)

-- Callbacks over a state in which `view` is the interest list of an instance that only the set
-- changes; they succeed where EPOLL_CTL_ADD, EPOLL_CTL_MOD and EPOLL_CTL_DEL do. `own` are the
-- descriptors that may be added.
pub record Watches {fl : Flags} {W : Type 0} (cb : Callbacks fl W) (view : W → Interest)
    (own : ℕ → Bool) : Type 0 where
  pub new_ok :
      (fd : ℕ) (events : fl.Events) (w : W)
      → own fd ≡ true
      → view w fd ≡ none
      → let r = cb.new_fn fd events w in
        (r.0 ≡ ok (made fl fd events))
        × ((g : ℕ) → view r.1 g ≡ put fd (fl.new_event events fd) (view w) g)
  pub update_ok :
      (fd : ℕ) (e : Event) (w : W)
      → is_some (view w fd) ≡ true
      → let r = cb.update_fn fd e w in (r.0 ≡ ok tt) × ((g : ℕ) → view r.1 g ≡ put fd e (view w) g)
  pub delete_ok :
      (fd : ℕ) (w : W)
      → is_some (view w fd) ≡ true
      → let r = cb.delete_fn fd w in (r.0 ≡ ok tt) × ((g : ℕ) → view r.1 g ≡ cut fd (view w) g)

pub interest_callbacks-Watches :
    (fl : Flags) (exists absent : IoError)
    → Watches (interest_callbacks fl exists absent) (λ k. k) (λ fd. true)
interest_callbacks-Watches fl exists absent = record {
  new_ok = λ fd events k o h. (ground (arith, h), λ g. ground (arith, h));
  update_ok = λ fd e k h. (ground (arith, h), λ g. ground (arith, h));
  delete_ok = λ fd k h. (ground (arith, h), λ g. ground (arith, h));
}
