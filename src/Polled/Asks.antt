-- ===== src/Polled/Asks.antt =====
-- src/polled_fd.rs: what the entries of the set ask to be polled for.
use iosock.Prelude.{
  ℕ, ◌≡◌, ◌≢◌, refl, Bool, true, false, List, [], ◌∷◌, ◌++◌, ◌==◌, if◌then◌else◌, Bool-cases, inl,
  inr, arith,
}
use iosock.Epoll.{Flags, FlagLaws}
use iosock.Polled.{
  PolledFd, PolledFdSet, has_fd, has_new, modify_first, remove_first, poll_for_read, poll_for_write,
}
use iosock.Polled.Interest.{stored}
use iosock.Polled.Lookup.{has_fd-modify_first}

-- Whether the first entry of the descriptor asks for reads, and for writes.
abbrev pub asks : {fl : Flags} → fl.Events → ℕ → List (PolledFd fl) → Bool
asks flag fd [] = false
asks {fl} flag fd (p ∷ ps) = if p.fd == fd then fl.contains p.new_events flag else asks flag fd ps

abbrev pub asks_new : (fl : Flags) → fl.Events → ℕ → List (ℕ × fl.Events) → Bool
asks_new fl flag fd [] = false
asks_new fl flag fd ((g, events) ∷ ns) =
    if g == fd then fl.contains events flag else asks_new fl flag fd ns

module _ {fl : Flags} (laws : FlagLaws fl) where
  pub asks_in-stop :
      (fd : ℕ) (l : List (PolledFd fl))
      → asks fl.epollin fd (modify_first fd (poll_for_read fl false) l) ≡ false
  unfolding poll_for_read
  asks_in-stop fd [] = refl
  asks_in-stop fd (p ∷ ps) =
      ground (arith, laws.contains_in-set_in p.new_events false, asks_in-stop fd ps)

  pub asks_out-stop :
      (fd : ℕ) (l : List (PolledFd fl))
      → asks fl.epollout fd (modify_first fd (poll_for_read fl false) l) ≡ asks fl.epollout fd l
  unfolding poll_for_read
  asks_out-stop fd [] = refl
  asks_out-stop fd (p ∷ ps) =
      ground (arith, laws.contains_out-set_in p.new_events false, asks_out-stop fd ps)

  pub asks_out-set :
      (b : Bool) (fd : ℕ) (l : List (PolledFd fl))
      → has_fd fd l ≡ true
      → asks fl.epollout fd (modify_first fd (poll_for_write fl b) l) ≡ b
  unfolding poll_for_write
  asks_out-set b fd [] h = cc
  asks_out-set b fd (p ∷ ps) h =
      ground (arith, laws.contains_out-set_out p.new_events b, asks_out-set b fd ps)

module _ {fl : Flags} where
  pub asks-modify_ne :
      (flag : fl.Events) (fd g : ℕ) (f : PolledFd fl → PolledFd fl) (l : List (PolledFd fl))
      → ((p : PolledFd fl) → (f p).fd ≡ p.fd)
      → g ≢ fd
      → asks flag g (modify_first fd f l) ≡ asks flag g l
  asks-modify_ne flag fd g f [] h n = refl
  asks-modify_ne flag fd g f (p ∷ ps) h n = ground (arith, h p, asks-modify_ne flag fd g f ps h n)

  pub asks-remove_ne :
      (flag : fl.Events) (fd g : ℕ) (l : List (PolledFd fl))
      → g ≢ fd
      → asks flag g (remove_first fd l) ≡ asks flag g l
  asks-remove_ne flag fd g [] n = refl
  asks-remove_ne flag fd g (p ∷ ps) n = ground (arith, asks-remove_ne flag fd g ps n)

  -- Whether the set asks that the descriptor be polled for writes.
  abbrev pub wants_out : ℕ → PolledFdSet fl → Bool
  wants_out fd s =
      if has_fd fd s.existing
      then asks fl.epollout fd s.existing
      else asks_new fl fl.epollout fd s.new

  pub wants_out-new :
      (fd : ℕ) (events : fl.Events) (s : PolledFdSet fl)
      → has_fd fd s.existing ≡ false
      → has_new fd s.new ≡ false
      → wants_out fd (record s { new = s.new ++ (fd, events) ∷ [] })
        ≡ fl.contains events fl.epollout
  wants_out-new fd events s h n = rw h (last s.new n)
    where
      last :
          (l : List (ℕ × fl.Events))
          → has_new fd l ≡ false
          → asks_new fl fl.epollout fd (l ++ (fd, events) ∷ []) ≡ fl.contains events fl.epollout
      last [] e = ground arith
      last ((g, x) ∷ l) e = ground (arith, last l)

  pub wants_out-new_ne :
      (fd g : ℕ) (events : fl.Events) (s : PolledFdSet fl)
      → g ≢ fd
      → wants_out g (record s { new = s.new ++ (fd, events) ∷ [] }) ≡ wants_out g s
  wants_out-new_ne fd g events s ne = elim (Bool-cases (has_fd g s.existing)) [
    | inl h ↦ rw h refl
    | inr h ↦ rw h (other s.new)
  ]
    where
      other :
          (l : List (ℕ × fl.Events))
          → asks_new fl fl.epollout g (l ++ (fd, events) ∷ []) ≡ asks_new fl fl.epollout g l
      other [] = ground arith
      other ((k, x) ∷ l) = ground (arith, other l)

  stored-modify :
      (fd g : ℕ) (f : PolledFd fl → PolledFd fl) (l : List (PolledFd fl))
      → ((p : PolledFd fl) → (f p).fd ≡ p.fd)
      → ((p : PolledFd fl) → (f p).event ≡ p.event)
      → stored g (modify_first fd f l) ≡ stored g l
  stored-modify fd g f [] h e = refl
  stored-modify fd g f (p ∷ ps) h e = ground (arith, h p, e p, stored-modify fd g f ps h e)

  pub event-poll_for_read : (b : Bool) (p : PolledFd fl) → (poll_for_read fl b p).event ≡ p.event
  unfolding poll_for_read
  event-poll_for_read b p = refl

  pub event-poll_for_write : (b : Bool) (p : PolledFd fl) → (poll_for_write fl b p).event ≡ p.event
  unfolding poll_for_write
  event-poll_for_write b p = refl

  -- The set after a change of one entry's mask.
  abbrev pub tuned : ℕ → (PolledFd fl → PolledFd fl) → PolledFdSet fl → PolledFdSet fl
  tuned fd f s = record s { existing = modify_first fd f s.existing }

  -- What a change of the masks of `fd` alone keeps.
  pub record IsTuned (fd : ℕ) (s s' : PolledFdSet fl) : Type 0 where
    pub same_fds : (g : ℕ) → has_fd g s'.existing ≡ has_fd g s.existing
    pub same_new : s'.new ≡ s.new
    pub same_removed : s'.removed ≡ s.removed
    pub same_stored : (g : ℕ) → stored g s'.existing ≡ stored g s.existing
    pub same_wants : (g : ℕ) → g ≢ fd → wants_out g s' ≡ wants_out g s

  pub tuned-IsTuned :
      (fd : ℕ) (f : PolledFd fl → PolledFd fl) (s : PolledFdSet fl)
      → ((p : PolledFd fl) → (f p).fd ≡ p.fd)
      → ((p : PolledFd fl) → (f p).event ≡ p.event)
      → IsTuned fd s (tuned fd f s)
  tuned-IsTuned fd f s h e = record {
    same_fds = λ g. has_fd-modify_first fd g f s.existing h;
    same_new = refl;
    same_removed = refl;
    same_stored = λ g. stored-modify fd g f s.existing h e;
    same_wants = λ g n. ground (
      arith,
      has_fd-modify_first fd g f s.existing h,
      asks-modify_ne fl.epollout fd g f s.existing h n,
    );
  }
