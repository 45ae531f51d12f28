-- ===== src/Polled/Settled.antt =====
-- src/polled_fd.rs: the set after `apply_updates`, against the set before.
use iosock.Prelude.{
  ℕ, ◌≡◌, refl, sym, ◌∙◌, true, false, ◌||◌, some, List, [], ◌∷◌, ◌++◌, ◌==◌, if◌then◌else◌,
  Bool-cases, inl, inr, arith,
}
use iosock.Epoll.{Flags, FlagLaws, Event}
use iosock.Polled.{PolledFd, PolledFdSet, has_fd, has_new, apply_fd, new_fd}
use iosock.Polled.Lookup.{IsDistinct, has_fd-append}
use iosock.Polled.Interest.{
  Interest, stored, settle_all, make_all, made, IsDistinctNew, fd-apply_fd, fd-made,
}
use iosock.Polled.Asks.{asks, asks_new, wants_out}
use iosock.Polled.Apply.{
  IsPending, AllSettled, applied, has_fd-settle_all, has_fd-make_all, stored-none, stored-some,
}

module _ {fl : Flags} (laws : FlagLaws fl) where
  new_events-apply_fd : (p : PolledFd fl) → (apply_fd fl p).1.new_events ≡ p.new_events
  unfolding apply_fd
  new_events-apply_fd p = ground arith

  new_events-made : (fd : ℕ) (e : fl.Events) → (made fl fd e).new_events ≡ e
  unfolding new_fd
  new_events-made fd e = rw (laws.events-new_event, laws.from_bits_truncate-bits) refl

  asks-settle_all :
      (flag : fl.Events) (g : ℕ) (l : List (PolledFd fl))
      → asks flag g (settle_all l) ≡ asks flag g l
  asks-settle_all flag g [] = refl
  asks-settle_all flag g (p ∷ ps) =
      ground (arith, fd-apply_fd fl p, new_events-apply_fd p, asks-settle_all flag g ps)

  asks-make_all :
      (flag : fl.Events) (g : ℕ) (ns : List (ℕ × fl.Events))
      → asks flag g (make_all {fl = fl} ns) ≡ asks_new fl flag g ns
  asks-make_all flag g [] = refl
  asks-make_all flag g ((fd, e) ∷ ns) =
      ground (arith, fd-made fl fd e, new_events-made fd e, asks-make_all flag g ns)

  asks-append :
      (flag : fl.Events) (g : ℕ) (xs ys : List (PolledFd fl))
      → asks flag g (xs ++ ys) ≡ (if has_fd g xs then asks flag g xs else asks flag g ys)
  asks-append flag g [] ys = refl
  asks-append flag g (p ∷ ps) ys = ground (arith, asks-append flag g ps ys)

  asks-absent :
      (flag : fl.Events) (g : ℕ) (l : List (PolledFd fl))
      → has_fd g l ≡ false
      → asks flag g l ≡ false
  asks-absent flag g [] h = refl
  asks-absent flag g (p ∷ ps) h = ground (arith, asks-absent flag g ps)

  pub has_fd-applied :
      (g : ℕ) (s : PolledFdSet fl)
      → has_fd g (applied s).existing ≡ (has_fd g s.existing || has_new g s.new)
  has_fd-applied g s =
      has_fd-append g (settle_all s.existing) (make_all s.new)
      ∙ rw (has_fd-settle_all g s.existing, has_fd-make_all fl g s.new) refl

  pub wants_out-applied : (g : ℕ) (s : PolledFdSet fl) → wants_out g (applied s) ≡ wants_out g s
  wants_out-applied g s = ground (
    arith,
    has_fd-applied g s,
    asks-append fl.epollout g (settle_all s.existing) (make_all s.new),
    has_fd-settle_all g s.existing,
    has_fd-make_all fl g s.new,
    asks-settle_all fl.epollout g s.existing,
    asks-make_all fl.epollout g s.new,
    asks-absent fl.epollout g (make_all s.new),
  )

  IsDistinct-append :
      (xs ys : List (PolledFd fl))
      → IsDistinct xs
      → IsDistinct ys
      → ((g : ℕ) → has_fd g ys ≡ true → has_fd g xs ≡ false)
      → IsDistinct (xs ++ ys)
  IsDistinct-append [] ys dx dy h = dy
  IsDistinct-append (p ∷ ps) ys dx dy h = (
    ground (arith, has_fd-append p.fd ps ys, dx.0, h p.fd),
    IsDistinct-append ps ys dx.1 dy (λ g e. ground (arith, h g e)),
  )

  IsDistinct-settle_all : (l : List (PolledFd fl)) → IsDistinct l → IsDistinct (settle_all l)
  IsDistinct-settle_all [] d = tt
  IsDistinct-settle_all (p ∷ ps) d =
      (rw (fd-apply_fd fl p) (has_fd-settle_all p.fd ps ∙ d.0), IsDistinct-settle_all ps d.1)

  IsDistinct-make_all :
      (ns : List (ℕ × fl.Events)) → IsDistinctNew ns → IsDistinct (make_all {fl = fl} ns)
  IsDistinct-make_all [] d = tt
  IsDistinct-make_all ((fd, e) ∷ ns) d =
      (rw (fd-made fl fd e).0 (has_fd-make_all fl fd ns ∙ d.0), IsDistinct-make_all ns d.1)

  -- Nothing is waiting after `apply_updates`.
  pub applied-IsPending :
      (s : PolledFdSet fl) {k k' : Interest}
      → IsPending s k
      → ((g : ℕ) → k' g ≡ stored g (applied s).existing)
      → IsPending (applied s) k'
  applied-IsPending s {k} p e = record {
    distinct =
        IsDistinct-append (settle_all s.existing) (make_all s.new)
          (IsDistinct-settle_all s.existing p.distinct) (IsDistinct-make_all s.new p.distinct_new)
          (λ g h. has_fd-settle_all g s.existing ∙ fresh g (sym (has_fd-make_all fl g s.new) ∙ h));
    distinct_new = tt;
    distinct_removed = tt;
    known = λ g h. e g;
    waiting = λ g h. cc;
    leaving = λ g h. cc;
    nothing_else = λ g h n. e g ∙ stored-none g (applied s).existing h;
  }
    where
      fresh : (g : ℕ) → has_new g s.new ≡ true → has_fd g s.existing ≡ false
      fresh g t = ground (arith, p.waiting g t, p.known g, stored-some g s.existing)

  -- An entry that has been given to epoll as it was asked for has the mask that it asks for.
  pub stored-settled :
      (g : ℕ) (l : List (PolledFd fl))
      → AllSettled l
      → asks fl.epollout g l ≡ true
      → (e : Event) × (stored g l ≡ some e)
        × (fl.contains (fl.from_bits_truncate e.events) fl.epollout ≡ true)
  stored-settled g [] s h = cc
  stored-settled g (p ∷ ps) s h = elim (Bool-cases (p.fd == g)) [
    | inl e ↦
        (p.event, rw e refl, rw (s.0, laws.from_bits_truncate-bits p.new_events) (ground arith))
    | inr e ↦ let (x, y, z) = stored-settled g ps s.1 (ground arith) in (x, rw e y, z)
  ]
