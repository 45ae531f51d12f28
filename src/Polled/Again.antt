-- ===== src/Polled/Again.antt =====
-- src/polled_fd.rs: a descriptor that is unregistered and registered again before `apply_updates`.
use iosock.Prelude.{ℕ, ◌≡◌, ◌≢◌, refl, true, List, [], ◌∷◌, ◌++◌, arith}
use iosock.Io.{IoError, ok, err}
use iosock.Outcome.{Returns}
use iosock.Epoll.{Flags}
use iosock.Polled.{
  PolledFd, PolledFdSet, has_fd, remove_first, register, unregister, add_new, after_add,
  after_update, apply_updates,
}
use iosock.Polled.Lookup.{IsDistinct, has_fd-remove, has_fd-remove_self, IsDistinct-remove}
use iosock.Polled.Interest.{
  Interest, interest_callbacks, interest_callbacks-Watches, is_some, stored, settle_all,
}
use iosock.Polled.Sync.{update_lem}
use iosock.Polled.Apply.{stored-some}

module _ {fl : Flags} where
  pub stored-remove :
      (fd g : ℕ) (l : List (PolledFd fl)) → g ≢ fd → stored g (remove_first fd l) ≡ stored g l
  stored-remove fd g [] n = refl
  stored-remove fd g (p ∷ ps) n = ground (arith, stored-remove fd g ps n)

  -- What the two calls make of a set with no new descriptors.
  abbrev pub swapped : ℕ → fl.Events → PolledFdSet fl → PolledFdSet fl
  swapped fd events s = record {
    existing = remove_first fd s.existing;
    new = (fd, events) ∷ [];
    removed = s.removed ++ fd ∷ [];
  }

  module _ (exists absent : IoError) where
    refused :
        (fd : ℕ) (events : fl.Events) (s : PolledFdSet fl) (l : List (PolledFd fl)) (k : Interest)
        → is_some (k fd) ≡ true
        → (after_update (interest_callbacks fl exists absent) (swapped fd events s) (ok tt, l, k)).0
          ≡ err exists
    unfolding after_update add_new after_add
    refused fd events s l k h = ground (arith, h)

    swapped_refused :
        (fd : ℕ) (events : fl.Events) (s : PolledFdSet fl) (k : Interest)
        → IsDistinct s.existing
        → ((g : ℕ) → has_fd g s.existing ≡ true → k g ≡ stored g s.existing)
        → has_fd fd s.existing ≡ true
        → (apply_updates (interest_callbacks fl exists absent) (swapped fd events s) k).0
          ≡ err exists
    unfolding apply_updates
    swapped_refused fd events s k d h e =
        let l = remove_first fd s.existing in
        let (k', now, q) =
          update_lem (interest_callbacks-Watches fl exists absent) l k
            (IsDistinct-remove fd s.existing d)
            (λ g t.
              ground
                (arith, h g, has_fd-remove fd g s.existing d, stored-remove fd g s.existing)) in
        let watched : is_some (k' fd) ≡ true =
          ground
            (arith, q fd, has_fd-remove_self fd s.existing d, h fd, stored-some fd s.existing) in
        rw now (refused fd events s (settle_all l) k' watched)

    -- A descriptor that epoll watches is unregistered, and registered again before the next
    -- `apply_updates`: both calls succeed, and then `apply_updates` fails with the error EEXIST of
    -- EPOLL_CTL_ADD, since it adds before it deletes. The set must have no new descriptors yet.
    pub register_again_fails :
        (fd : ℕ) (events : fl.Events) (s : PolledFdSet fl) (k : Interest)
        → IsDistinct s.existing
        → ((g : ℕ) → has_fd g s.existing ≡ true → k g ≡ stored g s.existing)
        → has_fd fd s.existing ≡ true
        → s.new ≡ []
        → Returns
            (λ s'.
              Returns
                (λ s''. (apply_updates (interest_callbacks fl exists absent) s'' k).0 ≡ err exists)
                (register fl fd events s'))
            (unregister fl fd s)
    unfolding register unregister
    register_again_fails fd events s k d h e n =
        rw (e, has_fd-remove_self fd s.existing d, n) (swapped_refused fd events s k d h e)
