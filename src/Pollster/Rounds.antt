-- ===== src/Pollster/Rounds.antt =====
-- src/pollster.rs, `run`: the events of one wait, and when the loop ends.
use iosock.Prelude.{
  ℕ, zero, suc, ◌+◌, ◌≡◌, refl, sym, ◌∙◌, ap, Bool, true, false, ◌||◌, some, List, [], ◌∷◌, ◌==◌,
  if◌then◌else◌, Bool-cases, inl, inr, arith,
}
use iosock.Io.{ok}
use iosock.Outcome.{Outcome, done, fail, panic}
use iosock.Epoll.{Event}
use iosock.Channel.{Context, M, ◌>>=◌, ◌>>◌, pure, ChannelManager}
use iosock.Os.{Os}
use iosock.Pollster.{raw_fd, dispatch, dispatch_all, round, wait, waited, run_for, pollster_max_fds}

-- Some event of the list is the close notification.
abbrev pub closes : ℕ → List Event → Bool
closes close_fd [] = false
closes close_fd (e ∷ es) = raw_fd e == close_fd || closes close_fd es

or-true : (b : Bool) → (b || true) ≡ true
or-true true = refl
or-true false = refl

>>-assoc :
    {os : Os} {Manager : Type 0} (m : M os Manager (Unit {0})) (k : M os Manager Bool)
    (h : M os Manager (Unit {0})) (f : Unit {0} → M os Manager Bool) (c : Context os Manager)
    → ((d : Context os Manager) → k d ≡ (h >>= f) d)
    → (m >> k) c ≡ ((m >> h) >>= f) c
>>-assoc m k h f c e = go (m c) refl
  where
    go : (r : Outcome (Unit {0}) × Context _ _) → m c ≡ r → (m >> k) c ≡ ((m >> h) >>= f) c
    go (done u, d) q = rw q (e d)
    go (fail x, d) q = rw q refl
    go (panic, d) q = rw q refl

module _ {os : Os} {Manager : Type 0} (cm : ChannelManager os Manager) (close_fd : ℕ) where
  -- The handlers alone, over the events of other descriptors.
  unfoldable pub handle_all : List Event → M os Manager (Unit {0})
  handle_all [] c = (done tt, c)
  handle_all (e ∷ es) c =
      let rest = handle_all es in if raw_fd e == close_fd then rest c else (dispatch cm e >> rest) c

  step_close :
      (e : Event) (es : List Event) (b : Bool) (c : Context os Manager)
      → (raw_fd e == close_fd) ≡ true
      → (dispatch_all cm close_fd (e ∷ es) b c ≡ dispatch_all cm close_fd es true c)
        × (handle_all (e ∷ es) c ≡ handle_all es c)
  unfolding dispatch_all handle_all
  step_close e es b c z = (rw z refl, rw z refl)

  step_other :
      (e : Event) (es : List Event) (b : Bool) (c : Context os Manager)
      → (raw_fd e == close_fd) ≡ false
      → (dispatch_all cm close_fd (e ∷ es) b c ≡ (dispatch cm e >> dispatch_all cm close_fd es b) c)
        × (handle_all (e ∷ es) c ≡ (dispatch cm e >> handle_all es) c)
  unfolding dispatch_all handle_all
  step_other e es b c z = (rw z refl, rw z refl)

  no_events :
      (b : Bool) (c : Context os Manager)
      → dispatch_all cm close_fd [] b c ≡ (handle_all [] >>= λ u. pure (b || false)) c
  unfolding dispatch_all handle_all
  no_events true c = refl
  no_events false c = refl

  -- The loop over one wait's events runs the handlers of all events of other descriptors, in order,
  -- also those behind the close notification, and returns whether there was one.
  pub dispatch_all_lem :
      (events : List Event) (b : Bool) (c : Context os Manager)
      → dispatch_all cm close_fd events b c
        ≡ (handle_all events >>= λ u. pure (b || closes close_fd events)) c
  dispatch_all_lem [] b c = no_events b c
  dispatch_all_lem (e ∷ es) b c = elim (Bool-cases (raw_fd e == close_fd)) [
    | inl z ↦
        let (l, r) = step_close e es b c z in
        rw (l, z, r)
          (dispatch_all_lem es true c
            ∙ ap (λ t. (handle_all es >>= λ u. pure t) c) {x = true} (sym (or-true b)))
    | inr z ↦
        let (l, r) = step_other e es b c z in
        rw (l, z, r)
          (>>-assoc (dispatch cm e) (dispatch_all cm close_fd es b) (handle_all es)
            (λ u. pure (b || closes close_fd es)) c (dispatch_all_lem es b))
  ]

  -- `n` rounds that do not end the loop lead from the first context to the second.
  pub data Quiet (poll_fd : ℕ) : ℕ → Context os Manager → Context os Manager → Type 0 where
    here : {c : Context os Manager} → Quiet poll_fd zero c c
    next :
        {n : ℕ} {c d e : Context os Manager}
        → round cm poll_fd close_fd c ≡ (done false, d)
        → Quiet poll_fd n d e
        → Quiet poll_fd (suc n) c e

  step_quiet :
      (poll_fd n : ℕ) (c d : Context os Manager)
      → round cm poll_fd close_fd c ≡ (done false, d)
      → run_for cm (suc n) poll_fd close_fd c ≡ run_for cm n poll_fd close_fd d
  unfolding run_for
  step_quiet poll_fd n c d q = rw q refl

  step_last :
      (poll_fd n : ℕ) (c d : Context os Manager)
      → round cm poll_fd close_fd c ≡ (done true, d)
      → run_for cm (suc n) poll_fd close_fd c ≡ some (done tt, d)
  unfolding run_for
  step_last poll_fd n c d q = rw q refl

  run_after-Quiet :
      (poll_fd n k : ℕ) {c d : Context os Manager}
      → Quiet poll_fd k c d
      → run_for cm (k + n) poll_fd close_fd c ≡ run_for cm n poll_fd close_fd d
  run_after-Quiet poll_fd n zero here = ap (λ m. run_for cm m poll_fd close_fd _) (omega arith)
  run_after-Quiet poll_fd n (suc k) (next {c = c} {d = d} q h) =
      ap (λ m. run_for cm m poll_fd close_fd c) {x = suc k + n} {y = suc (k + n)} (omega arith)
      ∙ step_quiet poll_fd (k + n) c d q
      ∙ run_after-Quiet poll_fd n k h

  -- A round in which the close notification is reported, anywhere among the events, ends the loop,
  -- once the handlers of all the round's other events have returned.
  round-closes :
      (poll_fd : ℕ) (c : Context os Manager) (events : List Event) (w : os.World)
      (d : Context os Manager)
      → os.epoll_wait poll_fd pollster_max_fds c.world ≡ (ok events, w)
      → closes close_fd events ≡ true
      → handle_all events (record c { world = w }) ≡ (done tt, d)
      → round cm poll_fd close_fd c ≡ (done true, d)
  unfolding round wait waited
  round-closes poll_fd c events w d e z h =
      rw e (rw (dispatch_all_lem events false (record c { world = w }), h, z) refl)

  -- The loop ends well, for any number of rounds that it is given beyond those: if after `k` rounds
  -- that do not end it a wait reports the close notification, anywhere among its events, and the
  -- handlers of its other events return, then `run` returns `Ok` with what they leave.
  pub run_returns :
      (poll_fd k n : ℕ) (c d : Context os Manager) (events : List Event) (w : os.World)
      (e : Context os Manager)
      → Quiet poll_fd k c d
      → os.epoll_wait poll_fd pollster_max_fds d.world ≡ (ok events, w)
      → closes close_fd events ≡ true
      → handle_all events (record d { world = w }) ≡ (done tt, e)
      → run_for cm (k + suc n) poll_fd close_fd c ≡ some (done tt, e)
  run_returns poll_fd k n c d events w e quiet wait z h =
      run_after-Quiet poll_fd (suc n) k quiet
      ∙ step_last poll_fd n d e (round-closes poll_fd d events w e wait z h)
