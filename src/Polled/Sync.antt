-- ===== src/Polled/Sync.antt =====
-- src/polled_fd.rs, `apply_updates`: each of its loops against an interest list.
use mathlib.Core.List.{append-nil, append_assoc}
use iosock.Prelude.{
  ℕ, ◌≡◌, refl, ap, ◌∙◌, true, none, some, List, [], ◌∷◌, ◌++◌, ◌==◌, if◌then◌else◌, Bool,
  Bool-cases, inl, inr, ==_iff, arith,
}
use iosock.Io.{ok}
use iosock.Epoll.{Flags}
use iosock.Polled.{
  PolledFd, Callbacks, has_fd, has_new, apply_fd, notify, update_existing, add_new, delete_removed,
}
use iosock.Polled.Lookup.{IsDistinct}
use iosock.Polled.Interest.{
  Interest, is_some, made, Watches, stored, settle_all, make_all, elem, IsDistinctNew, IsNodup,
  fd-apply_fd, fd-made,
}

at : (k : Interest) (fd g : ℕ) → (g == fd) ≡ true → k g ≡ k fd
at k fd g e = ap k ((==_iff g fd).0 e)

has_at :
    {fl : Flags} (l : List (PolledFd fl)) (fd g : ℕ) → (g == fd) ≡ true → has_fd g l ≡ has_fd fd l
has_at l fd g e = ap (λ x. has_fd x l) ((==_iff g fd).0 e)

module _ {fl : Flags} {W : Type 0} {cb : Callbacks fl W} {view : W → Interest} {own : ℕ → Bool}
    (laws : Watches cb view own) where
  -- What one call of `update_fn`, or none, leaves in the interest list.
  abbrev notified : PolledFd fl → Interest → Interest
  notified p k g = if g == p.fd then some (apply_fd fl p).1.event else k g

  notify_lem :
      (p : PolledFd fl) (w : W)
      → view w p.fd ≡ some p.event
      → let r = notify cb p.fd (apply_fd fl p).0 w in
        (r.0 ≡ ok tt) × ((g : ℕ) → view r.1 g ≡ notified p (view w) g)
  unfolding notify apply_fd
  notify_lem p w h = elim (Bool-cases (p.event.events == fl.bits p.new_events)) [
    | inl e ↦ rw e (refl, λ g. ground (arith, h, at (view w) p.fd g))
    | inr e ↦
        let r =
          laws.update_ok p.fd (record p.event { events = fl.bits p.new_events }) w (rw h refl) in
        rw e (r.0, r.1)
  ]

  update_step :
      (p : PolledFd fl) (ps : List (PolledFd fl)) (w : W)
      → let r = notify cb p.fd (apply_fd fl p).0 w in
        r.0 ≡ ok tt
        → let rest = update_existing cb ps r.1 in
          update_existing cb (p ∷ ps) w ≡ (rest.0, (apply_fd fl p).1 ∷ rest.1, rest.2)
  unfolding update_existing
  update_step p ps w h = ground arith

  -- The loop over `existing`.
  pub update_lem :
      (l : List (PolledFd fl)) (w : W)
      → IsDistinct l
      → ((g : ℕ) → has_fd g l ≡ true → view w g ≡ stored g l)
      → (w' : W) × (update_existing cb l w ≡ (ok tt, settle_all l, w'))
        × ((g : ℕ) → view w' g ≡ (if has_fd g l then stored g (settle_all l) else view w g))
  update_lem [] w d h = (w, unfold update_existing in refl, λ g. refl)
  update_lem (p ∷ ps) w d h =
      let r = notify cb p.fd (apply_fd fl p).0 w in
      let (fine, now) = notify_lem p w (ground (arith, h p.fd)) in
      let (w', e, q) =
        update_lem ps r.1 d.1 (λ g t. ground (arith, now g, h g, d.0, has_at ps p.fd g)) in
      (
        w',
        update_step p ps w fine ∙ (λ i. ((e i).0, (apply_fd fl p).1 ∷ (e i).1, (e i).2)),
        λ g. ground (arith, now g, q g, d.0, has_at ps p.fd g, fd-apply_fd fl p),
      )

  add_step :
      (fd : ℕ) (events : fl.Events) (ns : List (ℕ × fl.Events)) (l : List (PolledFd fl)) (w : W)
      → (cb.new_fn fd events w).0 ≡ ok (made fl fd events)
      → add_new cb ((fd, events) ∷ ns) l w
        ≡ add_new cb ns (l ++ made fl fd events ∷ []) (cb.new_fn fd events w).1
  unfolding add_new
  add_step fd events ns l w h = ground (arith, h)

  new_at : (ns : List (ℕ × fl.Events)) (fd g : ℕ) → (g == fd) ≡ true → has_new g ns ≡ has_new fd ns
  new_at ns fd g e = ap (λ x. has_new x ns) ((==_iff g fd).0 e)

  -- The loop over `new`.
  pub add_lem :
      (ns : List (ℕ × fl.Events)) (l : List (PolledFd fl)) (w : W)
      → IsDistinctNew ns
      → ((g : ℕ) → has_new g ns ≡ true → own g ≡ true)
      → ((g : ℕ) → has_new g ns ≡ true → view w g ≡ none)
      → (w' : W) × (add_new cb ns l w ≡ (ok tt, l ++ make_all ns, w'))
        × ((g : ℕ)
            → view w' g ≡ (if has_new g ns then stored g (make_all {fl = fl} ns) else view w g))
  add_lem [] l w d o h = (w, unfold add_new in rw (append-nil l) refl, λ g. refl)
  add_lem ((fd, e) ∷ ns) l w d o h =
      let (fine, now) = laws.new_ok fd e w (ground (arith, o fd)) (ground (arith, h fd)) in
      let (w', q, r) =
        add_lem ns (l ++ made fl fd e ∷ []) (cb.new_fn fd e w).1 d.1 (λ g t. ground (arith, o g))
          (λ g t. ground (arith, now g, h g, d.0, new_at ns fd g)) in
      (
        w',
        add_step fd e ns l w fine
            ∙ q
            ∙ (λ i. (ok tt, append_assoc l (made fl fd e ∷ []) (make_all ns) i, w')),
        λ g. ground (arith, r g, now g, d.0, new_at ns fd g, fd-made fl fd e),
      )

  delete_step :
      (fd : ℕ) (fds : List ℕ) (w : W)
      → (cb.delete_fn fd w).0 ≡ ok tt
      → delete_removed cb (fd ∷ fds) w ≡ delete_removed cb fds (cb.delete_fn fd w).1
  unfolding delete_removed
  delete_step fd fds w h = ground (arith, h)

  elem_at : (fds : List ℕ) (fd g : ℕ) → (g == fd) ≡ true → elem g fds ≡ elem fd fds
  elem_at fds fd g e = ap (λ x. elem x fds) ((==_iff g fd).0 e)

  -- The loop over `removed`.
  pub delete_lem :
      (fds : List ℕ) (w : W)
      → IsNodup fds
      → ((g : ℕ) → elem g fds ≡ true → is_some (view w g) ≡ true)
      → (w' : W) × (delete_removed cb fds w ≡ (ok tt, w'))
        × ((g : ℕ) → view w' g ≡ (if elem g fds then none else view w g))
  delete_lem [] w d h = (w, unfold delete_removed in refl, λ g. refl)
  delete_lem (fd ∷ fds) w d h =
      let (fine, now) = laws.delete_ok fd w (ground (arith, h fd)) in
      let (w', q, r) =
        delete_lem fds (cb.delete_fn fd w).1 d.1
          (λ g t. ground (arith, now g, h g, d.0, elem_at fds fd g)) in
      (w', delete_step fd fds w fine ∙ q, λ g. ground (arith, r g, now g, d.0, elem_at fds fd g))
