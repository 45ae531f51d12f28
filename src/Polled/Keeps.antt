-- ===== src/Polled/Keeps.antt =====
-- src/polled_fd.rs, `apply_updates`, with callbacks that leave something of what they capture alone.
use iosock.Prelude.{ℕ, ◌≡◌, refl, ◌∙◌, Option, none, some, List, [], ◌∷◌, ◌++◌}
use iosock.Io.{Result, ok, err}
use iosock.Epoll.{Flags, Event}
use iosock.Polled.{
  Callbacks, PolledFd, PolledFdSet, apply_fd, notify, update_existing, add_new, delete_removed,
  after_add, after_update, apply_updates,
}

module _ {fl : Flags} {W L : Type 0} (cb : Callbacks fl W) (f : W → L) where
  pub record Keeps : Type 0 where
    pub new_keeps : (fd : ℕ) (events : fl.Events) (w : W) → f (cb.new_fn fd events w).1 ≡ f w
    pub update_keeps : (fd : ℕ) (e : Event) (w : W) → f (cb.update_fn fd e w).1 ≡ f w
    pub delete_keeps : (fd : ℕ) (w : W) → f (cb.delete_fn fd w).1 ≡ f w

  module _ (h : Keeps) where
    notify_keeps : (fd : ℕ) (o : Option Event) (w : W) → f (notify cb fd o w).1 ≡ f w
    unfolding notify
    notify_keeps fd none w = refl
    notify_keeps fd (some e) w = h.update_keeps fd e w

    update_existing_keeps : (l : List (PolledFd fl)) (w : W) → f (update_existing cb l w).2 ≡ f w
    unfolding update_existing
    update_existing_keeps [] w = refl
    update_existing_keeps (p ∷ ps) w =
        go (notify cb p.fd (apply_fd fl p).0 w) (notify_keeps p.fd (apply_fd fl p).0 w)
          (update_existing_keeps ps)
      where
        go :
            (a : Result (Unit {0}) × W)
            → f a.1 ≡ f w
            → ((v : W) → f (update_existing cb ps v).2 ≡ f v)
            → let (result, ps', w'') = update_existing cb ps a.1 in
              f
                (elim a.0 as (λ t. Result (Unit {0}) × List (PolledFd fl) × W) [
                  | ok u ↦ (result, (apply_fd fl p).1 ∷ ps', w'')
                  | err e ↦ (err e, (apply_fd fl p).1 ∷ ps, a.1)
                ]).2
              ≡ f w
        go (ok u, w') e k = k w' ∙ e
        go (err x, w') e k = e

    add_new_keeps :
        (ns : List (ℕ × fl.Events)) (l : List (PolledFd fl)) (w : W) → f (add_new cb ns l w).2 ≡ f w
    unfolding add_new
    add_new_keeps [] l w = refl
    add_new_keeps ((fd, events) ∷ ns) l w =
        go (cb.new_fn fd events w) (h.new_keeps fd events w) (add_new_keeps ns)
      where
        go :
            (a : Result (PolledFd fl) × W)
            → f a.1 ≡ f w
            → ((l : List (PolledFd fl)) (v : W) → f (add_new cb ns l v).2 ≡ f v)
            → f
                (elim a.0 as (λ t. Result (Unit {0}) × List (PolledFd fl) × W) [
                  | ok p ↦ add_new cb ns (l ++ p ∷ []) a.1
                  | err e ↦ (err e, l, a.1)
                ]).2
              ≡ f w
        go (ok p, w') e k = k (l ++ p ∷ []) w' ∙ e
        go (err x, w') e k = e

    delete_removed_keeps : (fds : List ℕ) (w : W) → f (delete_removed cb fds w).1 ≡ f w
    unfolding delete_removed
    delete_removed_keeps [] w = refl
    delete_removed_keeps (fd ∷ fds) w =
        go (cb.delete_fn fd w) (h.delete_keeps fd w) (delete_removed_keeps fds)
      where
        go :
            (a : Result (Unit {0}) × W)
            → f a.1 ≡ f w
            → ((v : W) → f (delete_removed cb fds v).1 ≡ f v)
            → f
                (elim a.0 as (λ t. Result (Unit {0}) × W) [
                  | ok u ↦ delete_removed cb fds a.1
                  | err e ↦ (err e, a.1)
                ]).1
              ≡ f w
        go (ok u, w') e k = k w' ∙ e
        go (err x, w') e k = e

    after_add_keeps :
        (s : PolledFdSet fl) (r : Result (Unit {0}) × List (PolledFd fl) × W)
        → f (after_add cb s r).2 ≡ f r.2
    unfolding after_add
    after_add_keeps s (err e, l, w) = refl
    after_add_keeps s (ok u, l, w) = delete_removed_keeps s.removed w

    after_update_keeps :
        (s : PolledFdSet fl) (r : Result (Unit {0}) × List (PolledFd fl) × W)
        → f (after_update cb s r).2 ≡ f r.2
    unfolding after_update
    after_update_keeps s (err e, l, w) = refl
    after_update_keeps s (ok u, l, w) =
        after_add_keeps s (add_new cb s.new l w) ∙ add_new_keeps s.new l w

    -- Whatever the callbacks answer.
    pub apply_updates_keeps : (s : PolledFdSet fl) (w : W) → f (apply_updates cb s w).2 ≡ f w
    unfolding apply_updates
    apply_updates_keeps s w =
        after_update_keeps s (update_existing cb s.existing w) ∙ update_existing_keeps s.existing w
