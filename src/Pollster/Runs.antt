-- ===== src/Pollster/Runs.antt =====
-- src/pollster.rs, `run`, with the manager of src/io.rs: its rounds, one after the other.
use iosock.Prelude.{ℕ, ◌≡◌, ◌⊎◌, inl, inr, refl, ◌∙◌, ap, true, false, some, [], arith}
use iosock.Epoll.{Event}
use iosock.Outcome.{done}
use iosock.Channel.{Context}
use iosock.Channel.After.{After}
use iosock.Channel.Pending.{has_bytes}
use iosock.Polled.{PolledFdSet}
use iosock.Polled.Asks.{asks, asks_new, wants_out}
use iosock.Polled.Settled.{stored-settled}
use iosock.Os.{Os}
use iosock.Os.Laws.{OsLaws}
use iosock.Stdio.{ChildStdio}
use iosock.Stdio.Pipes.{is_fd}
use iosock.Manager.{IosockChannelManager, primary_output}
use iosock.Manager.Handlers.{iosock_manager}
use iosock.Manager.Served.{StreamLaws}
use iosock.Pollster.{round}
use iosock.Pollster.Rounds.{Quiet, here, next}
use iosock.Pollster.Settled.{IsSettled}
use iosock.Pollster.Events.{IsExposed}
use iosock.Pollster.Invariant.{round-After}
use mathlib.Core.Path.{subst}

module _ {os : Os} {S : Type 0} {system : OsLaws os} {io : ChildStdio os S}
    (laws : StreamLaws system io) where
  abbrev Settled : Context os (IosockChannelManager S) → Type 0
  Settled c = IsSettled laws (iosock_manager io) c

  quiet_round :
      (c d : Context os (IosockChannelManager S))
      → Settled c
      → round (iosock_manager io) system.poll_fd system.close_fd c ≡ (done false, d)
      → Settled d
  quiet_round c d h e =
      subst (After (IsExposed laws) (λ b d. b ≡ false → Settled d)) e (round-After laws c h) refl

  -- Any number of rounds that do not end the loop keep the invariant that holds before each wait.
  pub rounds-IsSettled :
      (n : ℕ) {c d : Context os (IosockChannelManager S)}
      → Quiet (iosock_manager io) system.close_fd system.poll_fd n c d
      → Settled c
      → Settled d
  rounds-IsSettled n here h = h
  rounds-IsSettled n (next {n = k} {c = c} {d = d} q r) h =
      rounds-IsSettled k r (quiet_round c d h q)

  asked :
      (s : PolledFdSet os.flags) (g : ℕ)
      → s.new ≡ []
      → wants_out g s ≡ true
      → asks os.flags.epollout g s.existing ≡ true
  asked s g n h =
      let e : asks_new os.flags os.flags.epollout g s.new ≡ false =
        ap (asks_new os.flags os.flags.epollout g) n in
      ground (arith, h, e)

  -- epoll watches the descriptor for writes.
  abbrev pub WatchedOut : os.World → ℕ → Type 0
  WatchedOut w g =
      (e : Event) × (system.watched w g ≡ some e)
      × (os.flags.contains (os.flags.from_bits_truncate e.events) os.flags.epollout ≡ true)

  watched_out :
      (c : Context os (IosockChannelManager S)) (g : ℕ)
      → Settled c
      → wants_out g c.fd_set ≡ true
      → WatchedOut c.world g
  watched_out c g h e =
      let (x, y, z) =
        stored-settled system.flags g c.fd_set.existing h.settled (asked c.fd_set g h.no_new e) in
      (x, h.watches g ∙ y, z)

  -- From a settled state, after any number of rounds that do not end the loop, epoll watches for
  -- writes the stream that waiting bytes are for: the client, or the console if there is no client,
  -- if the output buffer holds bytes, and the child's stdin if the input buffer does.
  pub waiting_is_watched :
      (n : ℕ) (c d : Context os (IosockChannelManager S)) (g : ℕ)
      → Settled c
      → Quiet (iosock_manager io) system.close_fd system.poll_fd n c d
      → (is_fd (primary_output d.mgr.client_socket d.mgr.console) g ≡ true)
          × (has_bytes d.mgr.out_buffer ≡ true)
        ⊎ (is_fd (io.stdin_fd d.mgr.child) g ≡ true) × (has_bytes d.mgr.in_buffer ≡ true)
      → WatchedOut d.world g
  waiting_is_watched n c d g h q (inl (o, b)) =
      let s = rounds-IsSettled n q h in watched_out d g s (s.sound.out_wants g o b)
  waiting_is_watched n c d g h q (inr (o, b)) =
      let s = rounds-IsSettled n q h in watched_out d g s (s.sound.in_wants g o b)
