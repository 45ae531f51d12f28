-- ===== src/Pollster/Invariant.antt =====
-- src/pollster.rs, one round of `run`, with the manager of src/io.rs.
use iosock.Prelude.{
  ℕ, ◌≡◌, refl, sym, ◌∙◌, ap, Bool, true, false, List, [], ◌∷◌, ltb, length, if◌then◌else◌,
  Bool-cases, inl, inr, arith,
}
use iosock.Io.{Result, ok, err}
use iosock.Outcome.{done}
use iosock.Epoll.{Event}
use iosock.Channel.{Context, M, ◌>>=◌, ◌>>◌, pure}
use iosock.Channel.After.{After, After-bind}
use iosock.Os.{Os}
use iosock.Os.Laws.{OsLaws}
use iosock.Stdio.{ChildStdio}
use iosock.Manager.{IosockChannelManager}
use iosock.Manager.Handlers.{iosock_manager}
use iosock.Manager.Served.{StreamLaws}
use iosock.Manager.Attends.{Attends-buffers, IsSound}
use iosock.Pollster.{
  when, dispatch_all, wait, waited, round, apply_poll_updates, is_interrupted, pollster_max_fds,
}
use iosock.Pollster.Settled.{IsSettled, apply_poll_updates_lem}
use iosock.Pollster.Events.{IsExposed, dispatch_all-After}

module _ {os : Os} {S : Type 0} {system : OsLaws os} {io : ChildStdio os S}
    (laws : StreamLaws system io) where
  -- What a round leaves if it does not end the loop.
  abbrev Continues : Bool → Context os (IosockChannelManager S) → Type 0
  Continues b d = b ≡ false → IsSettled laws (iosock_manager io) d

  waited-IsSettled :
      (c : Context os (IosockChannelManager S)) (w : os.World)
      → IsSettled laws (iosock_manager io) c
      → ((g : ℕ) → system.watched w g ≡ system.watched c.world g)
      → IsSettled laws (iosock_manager io) (record c { world = w })
  waited-IsSettled c w h e = record {
    sound =
        Attends-buffers laws c.mgr.in_buffer c.mgr.out_buffer w h.sound h.sound.in_valid
          h.sound.out_valid e;
    no_new = h.no_new;
    settled = h.settled;
    watches = λ g. e g ∙ h.watches g;
  }

  -- The end of a round that had events.
  update-After :
      (any b : Bool) (c : Context os (IosockChannelManager S))
      → any ≡ true
      → IsSound laws c
      → After (IsExposed laws) Continues (
          if b
          then (done true, c)
          else (when (iosock_manager io) any (apply_poll_updates (iosock_manager io) system.poll_fd)
                >> pure false)
              c)
  update-After any true c t h = λ e. cc
  update-After any false c t h =
      let (fine, settled) = apply_poll_updates_lem laws (iosock_manager io) c h in
      rw (t, fine) (λ e. settled)

  abbrev rest_of_round : List Event → M os (IosockChannelManager S) Bool
  rest_of_round events =
      dispatch_all (iosock_manager io) system.close_fd events false >>= λ final c.
      (if final
        then (done true, c)
        else (when (iosock_manager io) (ltb 0 (length events))
                (apply_poll_updates (iosock_manager io) system.poll_fd)
              >> pure false)
            c)

  rest_of_round-After :
      (events : List Event) (c : Context os (IosockChannelManager S))
      → IsSettled laws (iosock_manager io) c
      → After (IsExposed laws) Continues (rest_of_round events c)
  unfolding dispatch_all
  rest_of_round-After [] c h = λ e. h
  rest_of_round-After (e ∷ es) c h =
      After-bind (IsExposed laws) (λ b d. IsSound laws d) Continues
        (dispatch_all (iosock_manager io) system.close_fd (e ∷ es) false) _ c
        (dispatch_all-After laws system.close_fd (e ∷ es) false c h.sound)
        (λ b d s. update-After (ltb 0 (length (e ∷ es))) b d (ground arith) s)

  -- A round that starts settled and does not end the loop leaves the next one settled. It panics
  -- only where the client was taken in the round, or one direction of the client is shut down.
  -- Nothing is said of what a failure with an `io::Error` leaves.
  pub round-After :
      (c : Context os (IosockChannelManager S))
      → IsSettled laws (iosock_manager io) c
      → After
          (IsExposed laws)
          (λ b d. b ≡ false → IsSettled laws (iosock_manager io) d)
          (round (iosock_manager io) system.poll_fd system.close_fd c)
  unfolding round wait waited
  round-After c h = go (os.epoll_wait system.poll_fd pollster_max_fds c.world) refl
    where
      still :
          {r : Result (List Event)} (w : os.World)
          → os.epoll_wait system.poll_fd pollster_max_fds c.world ≡ (r, w)
          → (g : ℕ) → system.watched w g ≡ system.watched c.world g
      still w e g =
          ap (λ t. system.watched t.1 g) (sym e) ∙ system.watched-wait pollster_max_fds c.world g

      go :
          (r : Result (List Event) × os.World)
          → os.epoll_wait system.poll_fd pollster_max_fds c.world ≡ r
          → After
              (IsExposed laws)
              Continues
              (round (iosock_manager io) system.poll_fd system.close_fd c)
      go (ok events, w) e =
          rw e (
            rest_of_round-After events (record c { world = w })
              (waited-IsSettled c w h (still w e)))
      go (err x, w) e = elim (Bool-cases (is_interrupted x.kind)) [
        | inl k ↦
            rw (e, k)
              (rest_of_round-After [] (record c { world = w }) (waited-IsSettled c w h (still w e)))
        | inr k ↦ rw (e, k) tt
      ]
