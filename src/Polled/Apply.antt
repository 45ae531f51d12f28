-- ===== src/Polled/Apply.antt =====
-- src/polled_fd.rs, `apply_updates`, against an interest list.
use iosock.Prelude.{
  ℕ, ◌≡◌, refl, sym, ap, ◌∙◌, Bool, true, false, Option, none, List, [], ◌∷◌, ◌++◌, if◌then◌else◌,
  arith,
}
use iosock.Io.{IoError, ok}
use iosock.Epoll.{Flags, FlagLaws, Event}
use iosock.Polled.{
  Callbacks, PolledFd, PolledFdSet, has_fd, has_new, new_fd, apply_fd, update_existing, add_new,
  delete_removed, after_add, after_update, apply_updates,
}
use iosock.Polled.Lookup.{IsDistinct}
use iosock.Polled.Interest.{
  Interest, is_some, made, interest_callbacks, Watches, interest_callbacks-Watches, stored,
  settle_all, make_all, elem, IsDistinctNew, IsNodup, fd-apply_fd, fd-made,
}
use iosock.Polled.Sync.{update_lem, add_lem, delete_lem}

-- A set of which epoll knows `existing`, and has still to hear of `new` and of `removed`; epoll
-- watches nothing else. A descriptor that is in `removed` is not in `new`.
pub record IsPending {fl : Flags} (s : PolledFdSet fl) (k : Interest) : Type 0 where
  pub distinct : IsDistinct s.existing
  pub distinct_new : IsDistinctNew s.new
  pub distinct_removed : IsNodup s.removed
  pub known : (g : ℕ) → has_fd g s.existing ≡ true → k g ≡ stored g s.existing
  pub waiting : (g : ℕ) → has_new g s.new ≡ true → k g ≡ none
  pub leaving :
      (g : ℕ) → elem g s.removed ≡ true → (is_some (k g) ≡ true) × (has_fd g s.existing ≡ false)
  pub nothing_else : (g : ℕ) → has_fd g s.existing ≡ false → elem g s.removed ≡ false → k g ≡ none

-- Every entry has been given to epoll as it was asked for.
abbrev pub AllSettled : {fl : Flags} → List (PolledFd fl) → Type 0
AllSettled [] = Unit
AllSettled {fl} (p ∷ ps) = (p.event.events ≡ fl.bits p.new_events) × AllSettled ps

module _ {fl : Flags} where
  pub has_fd-settle_all : (g : ℕ) (l : List (PolledFd fl)) → has_fd g (settle_all l) ≡ has_fd g l
  has_fd-settle_all g [] = refl
  has_fd-settle_all g (p ∷ ps) = ground (arith, fd-apply_fd fl p, has_fd-settle_all g ps)

  pub stored-none : (g : ℕ) (l : List (PolledFd fl)) → has_fd g l ≡ false → stored g l ≡ none
  stored-none g [] h = refl
  stored-none g (p ∷ ps) h = ground (arith, stored-none g ps)

  stored-append :
      (g : ℕ) (xs ys : List (PolledFd fl))
      → stored g (xs ++ ys) ≡ (if has_fd g xs then stored g xs else stored g ys)
  stored-append g [] ys = refl
  stored-append g (p ∷ ps) ys = ground (arith, stored-append g ps ys)

  pub stored-some :
      (g : ℕ) (l : List (PolledFd fl)) → has_fd g l ≡ true → is_some (stored g l) ≡ true
  stored-some g [] h = cc
  stored-some g (p ∷ ps) h = ground (arith, stored-some g ps)

  AllSettled-append :
      (xs ys : List (PolledFd fl)) → AllSettled xs → AllSettled ys → AllSettled (xs ++ ys)
  AllSettled-append [] ys hx hy = hy
  AllSettled-append (p ∷ ps) ys hx hy = (hx.0, AllSettled-append ps ys hx.1 hy)

  AllSettled-settle_all : (l : List (PolledFd fl)) → AllSettled (settle_all l)
  AllSettled-settle_all [] = tt
  AllSettled-settle_all (p ∷ ps) = (settled p, AllSettled-settle_all ps)
    where
      settled :
          (p : PolledFd fl) → (apply_fd fl p).1.event.events ≡ fl.bits (apply_fd fl p).1.new_events
      settled p = unfold apply_fd in ground arith

  -- What epoll holds of one descriptor after the three loops.
  watched :
      (g : ℕ) (xs ys : List (PolledFd fl)) {k k1 k2 k3 : Option Event} {gone : Bool}
      → k1 ≡ (if has_fd g xs then stored g xs else k)
      → k2 ≡ (if has_fd g ys then stored g ys else k1)
      → k3 ≡ (if gone then none else k2)
      → (has_fd g ys ≡ true → k ≡ none)
      → (gone ≡ true → (is_some k ≡ true) × (has_fd g xs ≡ false))
      → (has_fd g xs ≡ false → gone ≡ false → k ≡ none)
      → (has_fd g ys ≡ true → has_fd g xs ≡ false)
      → k3 ≡ stored g (xs ++ ys)
  watched g xs ys e1 e2 e3 new left other apart =
      ground (arith, stored-append g xs ys, stored-none g ys, new, left, other, apart)

module _ (fl : Flags) where
  pub has_fd-make_all :
      (g : ℕ) (ns : List (ℕ × fl.Events)) → has_fd g (make_all {fl = fl} ns) ≡ has_new g ns
  has_fd-make_all g [] = refl
  has_fd-make_all g ((fd, e) ∷ ns) = ground (arith, fd-made fl fd e, has_fd-make_all g ns)

  AllSettled-make_all :
      FlagLaws fl → (ns : List (ℕ × fl.Events)) → AllSettled (make_all {fl = fl} ns)
  AllSettled-make_all laws [] = tt
  AllSettled-make_all laws ((fd, e) ∷ ns) = (settled, AllSettled-make_all laws ns)
    where
      settled : (made fl fd e).event.events ≡ fl.bits (made fl fd e).new_events
      settled = unfold new_fd in rw (laws.events-new_event, laws.from_bits_truncate-bits)

-- The set after all three loops.
abbrev pub applied : {fl : Flags} → PolledFdSet fl → PolledFdSet fl
applied s = record { existing = settle_all s.existing ++ make_all s.new; new = []; removed = [] }

module _ {fl : Flags} (flags : FlagLaws fl) {W : Type 0} {cb : Callbacks fl W} {view : W → Interest}
    {own : ℕ → Bool} (laws : Watches cb view own) where
  three_loops :
      (s : PolledFdSet fl) (w w1 w2 w3 : W)
      → update_existing cb s.existing w ≡ (ok tt, settle_all s.existing, w1)
      → add_new cb s.new (settle_all s.existing) w1
        ≡ (ok tt, settle_all s.existing ++ make_all s.new, w2)
      → delete_removed cb s.removed w2 ≡ (ok tt, w3)
      → apply_updates cb s w ≡ (ok tt, applied s, w3)
  unfolding apply_updates after_update after_add
  three_loops s w w1 w2 w3 u a d =
      ap (after_update cb s) u ∙ ap (after_add cb s) a ∙ (λ i. ((d i).0, applied s, (d i).1))

  -- The same for any callbacks that succeed where epoll_ctl(2) does.
  pub apply_updates-Watches :
      (s : PolledFdSet fl) (w : W)
      → IsPending s (view w)
      → ((g : ℕ) → has_new g s.new ≡ true → own g ≡ true)
      → (w' : W) × (apply_updates cb s w ≡ (ok tt, applied s, w'))
        × AllSettled (applied s).existing
        × ((g : ℕ) → view w' g ≡ stored g (applied s).existing)
  apply_updates-Watches s w p o =
      let fresh : (g : ℕ) → has_new g s.new ≡ true → has_fd g s.existing ≡ false =
        λ g t. ground (arith, p.waiting g, p.known g, stored-some g s.existing) in
      let (w1, e1, q1) = update_lem laws s.existing w p.distinct p.known in
      let (w2, e2, q2) =
        add_lem laws s.new (settle_all s.existing) w1 p.distinct_new o
          (λ g t. ground (arith, q1 g, p.waiting g, p.known g, stored-some g s.existing)) in
      let (w3, e3, q3) =
        delete_lem laws s.removed w2 p.distinct_removed
          (λ g t. ground (arith, q2 g, q1 g, p.waiting g, p.leaving g)) in
      (
        w3,
        three_loops s w w1 w2 w3 e1 e2 e3,
        AllSettled-append (settle_all s.existing) (make_all s.new)
            (AllSettled-settle_all s.existing) (AllSettled-make_all fl flags s.new),
        λ g.
            watched g (settle_all s.existing) (make_all s.new) {k = view w g} {k1 = view w1 g}
              {k2 = view w2 g} {k3 = view w3 g} {gone = elem g s.removed}
              (rw (has_fd-settle_all g s.existing) (q1 g)) (rw (has_fd-make_all fl g s.new) (q2 g))
              (q3 g) (λ t. p.waiting g (sym (has_fd-make_all fl g s.new) ∙ t))
              (λ t. ((p.leaving g t).0, has_fd-settle_all g s.existing ∙ (p.leaving g t).1))
              (λ t. p.nothing_else g (sym (has_fd-settle_all g s.existing) ∙ t))
              (λ t.
                has_fd-settle_all g s.existing ∙ fresh g (sym (has_fd-make_all fl g s.new) ∙ t)),
      )

module _ {fl : Flags} (laws : FlagLaws fl) (exists absent : IoError) where
  -- Against an epoll instance that watches what the set last told it, `apply_updates` succeeds;
  -- then nothing is waiting, every entry has been given to epoll as it was asked for, and epoll
  -- watches exactly the entries of the set, each with the entry's event.
  pub apply_updates_lem :
      (s : PolledFdSet fl) (k : Interest)
      → IsPending s k
      → (k' : Interest) × (apply_updates (interest_callbacks fl exists absent) s k
          ≡ (ok tt, applied s, k'))
        × AllSettled (applied s).existing
        × ((g : ℕ) → k' g ≡ stored g (applied s).existing)
  apply_updates_lem s k p =
      apply_updates-Watches laws (interest_callbacks-Watches fl exists absent) s k p (λ g t. refl)
