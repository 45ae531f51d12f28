-- ===== src/Polled/Lookup.antt =====
-- src/polled_fd.rs: which descriptors are in the set after `modify`, `unregister` and `register`.
use iosock.Prelude.{
  ℕ, ◌≡◌, ◌≢◌, refl, ◌∙◌, Bool, false, ◌||◌, List, [], ◌∷◌, ◌++◌, ◌==◌, if◌then◌else◌, Bool-cases,
  inl, inr, arith,
}
use iosock.Epoll.{Flags}
use iosock.Polled.{PolledFd, has_fd, modify_first, remove_first, poll_for_read, poll_for_write}

module _ {fl : Flags} where
  pub has_fd-modify_first :
      (fd g : ℕ) (f : PolledFd fl → PolledFd fl) (l : List (PolledFd fl))
      → ((p : PolledFd fl) → (f p).fd ≡ p.fd)
      → has_fd g (modify_first fd f l) ≡ has_fd g l
  has_fd-modify_first fd g f [] h = refl
  has_fd-modify_first fd g f (p ∷ ps) h = ground (arith, h p, has_fd-modify_first fd g f ps h)

  pub has_fd-remove_ne :
      (fd g : ℕ) (l : List (PolledFd fl)) → g ≢ fd → has_fd g (remove_first fd l) ≡ has_fd g l
  has_fd-remove_ne fd g [] h = refl
  has_fd-remove_ne fd g (p ∷ ps) h = ground (arith, has_fd-remove_ne fd g ps h)

  pub has_fd-append :
      (g : ℕ) (xs ys : List (PolledFd fl)) → has_fd g (xs ++ ys) ≡ (has_fd g xs || has_fd g ys)
  has_fd-append g [] ys = refl
  has_fd-append g (p ∷ ps) ys = ground (arith, has_fd-append g ps ys)

  -- No descriptor stands twice.
  abbrev pub IsDistinct : List (PolledFd fl) → Type 0
  IsDistinct [] = Unit
  IsDistinct (p ∷ ps) = (has_fd p.fd ps ≡ false) × IsDistinct ps

  pub has_fd-remove_self :
      (fd : ℕ) (l : List (PolledFd fl)) → IsDistinct l → has_fd fd (remove_first fd l) ≡ false
  has_fd-remove_self fd [] d = refl
  has_fd-remove_self fd (p ∷ ps) d = elim (Bool-cases (p.fd == fd)) [
    | inl e ↦ rw e (ground arith)
    | inr e ↦ rw (e, e) (has_fd-remove_self fd ps d.1)
  ]

  pub has_fd-remove :
      (fd g : ℕ) (l : List (PolledFd fl))
      → IsDistinct l
      → has_fd g (remove_first fd l) ≡ (if g == fd then false else has_fd g l)
  has_fd-remove fd g l d = ground (arith, has_fd-remove_self fd l d, has_fd-remove_ne fd g l)

  pub IsDistinct-remove :
      (fd : ℕ) (l : List (PolledFd fl)) → IsDistinct l → IsDistinct (remove_first fd l)
  IsDistinct-remove fd [] d = tt
  IsDistinct-remove fd (p ∷ ps) d = elim (Bool-cases (p.fd == fd)) [
    | inl e ↦ rw e d.1
    | inr e ↦ rw e (ground (arith, has_fd-remove fd p.fd ps d.1), IsDistinct-remove fd ps d.1)
  ]

  pub IsDistinct-modify :
      (fd : ℕ) (f : PolledFd fl → PolledFd fl) (l : List (PolledFd fl))
      → ((p : PolledFd fl) → (f p).fd ≡ p.fd)
      → IsDistinct l
      → IsDistinct (modify_first fd f l)
  IsDistinct-modify fd f [] h d = tt
  IsDistinct-modify fd f (p ∷ ps) h d = elim (Bool-cases (p.fd == fd)) [
    | inl e ↦ rw e (rw (h p) d.0, d.1)
    | inr e ↦ rw e (has_fd-modify_first fd p.fd f ps h ∙ d.0, IsDistinct-modify fd f ps h d.1)
  ]

  pub fd-poll_for_read : (b : Bool) (p : PolledFd fl) → (poll_for_read fl b p).fd ≡ p.fd
  unfolding poll_for_read
  fd-poll_for_read b p = refl

  pub fd-poll_for_write : (b : Bool) (p : PolledFd fl) → (poll_for_write fl b p).fd ≡ p.fd
  unfolding poll_for_write
  fd-poll_for_write b p = refl
