-- ===== src/Channel/After.antt =====
-- src/channel_manager.rs: what holds after an action of a channel manager, by how the action ended.
use iosock.Prelude.{◌≡◌, refl, Bool, true, false, if◌then◌else◌}
use iosock.Outcome.{Outcome, done, fail, panic}
use iosock.Os.{Os}
use iosock.Channel.{Context, M, ◌>>=◌, ◌>>◌}

module _ {os : Os} {Manager : Type 0} where
  -- If the action returned, `Q` holds of its value and of what it left. If it panicked, `P` does.
  -- An `io::Error` ends the program, and nothing is asked.
  abbrev pub After :
      {A : Type 0}
      → (Context os Manager → Type 0)
      → (A → Context os Manager → Type 0)
      → Outcome A × Context os Manager
      → Type 0
  After P Q (done a, c) = Q a c
  After P Q (fail e, c) = Unit
  After P Q (panic, c) = P c

  pub After-bind :
      {A B : Type 0} (P : Context os Manager → Type 0) (Q : A → Context os Manager → Type 0)
      (R : B → Context os Manager → Type 0) (m : M os Manager A) (f : A → M os Manager B)
      (c : Context os Manager)
      → After P Q (m c)
      → ((a : A) (d : Context os Manager) → Q a d → After P R (f a d))
      → After P R ((m >>= f) c)
  After-bind {A} {B} P Q R m f c h k = go (m c) refl h
    where
      go : (r : Outcome A × Context os Manager) → m c ≡ r → After P Q r → After P R ((m >>= f) c)
      go (done a, d) e q = rw e (k a d q)
      go (fail x, d) e q = rw e tt
      go (panic, d) e q = rw e q

  pub After-then :
      {B : Type 0} (P : Context os Manager → Type 0) (Q : Context os Manager → Type 0)
      (R : B → Context os Manager → Type 0) (m : M os Manager (Unit {0})) (k : M os Manager B)
      (c : Context os Manager)
      → After P (λ u d. Q d) (m c)
      → ((d : Context os Manager) → Q d → After P R (k d))
      → After P R ((m >> k) c)
  After-then P Q R m k c h g = After-bind P (λ u d. Q d) R m (λ u. k) c h (λ u d q. g d q)

  pub After-if :
      {A : Type 0} (P : Context os Manager → Type 0) (Q : A → Context os Manager → Type 0)
      (b : Bool) (x y : Outcome A × Context os Manager)
      → (b ≡ true → After P Q x)
      → (b ≡ false → After P Q y)
      → After P Q (if b then x else y)
  After-if P Q true x y h k = h refl
  After-if P Q false x y h k = k refl

  pub After-weaken :
      {A : Type 0} (P P' : Context os Manager → Type 0) (Q Q' : A → Context os Manager → Type 0)
      (r : Outcome A × Context os Manager)
      → ((c : Context os Manager) → P c → P' c)
      → ((a : A) (c : Context os Manager) → Q a c → Q' a c)
      → After P Q r
      → After P' Q' r
  After-weaken P P' Q Q' (done a, c) f g h = g a c h
  After-weaken P P' Q Q' (fail e, c) f g h = tt
  After-weaken P P' Q Q' (panic, c) f g h = f c h
