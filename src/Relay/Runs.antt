-- ===== src/Relay/Runs.antt =====
-- src/pollster.rs, `run`, with the manager of src/io.rs: the bytes that a whole run moves.
use mathlib.Core.Path.{subst}
use iosock.Prelude.{ℕ, zero, suc, ◌≡◌, Bool, true, false, Option, none, some}
use iosock.Outcome.{Outcome, done, fail, panic}
use iosock.Channel.{Context}
use iosock.Os.{Os}
use iosock.Os.Laws.{OsLaws}
use iosock.Stdio.{ChildStdio}
use iosock.Manager.{IosockChannelManager}
use iosock.Manager.Handlers.{iosock_manager}
use iosock.Manager.Served.{StreamLaws}
use iosock.Manager.Attends.{IsSound}
use iosock.Pollster.{round, run_for, after_round}
use iosock.Pollster.Rounds.{Quiet, here, next}
use iosock.Pollster.Settled.{IsSettled}
use iosock.Relay.{LogLaws}
use iosock.Relay.Streams.{RelayLaws}
use iosock.Relay.Steps.{Relayed, Relayed-refl, Relayed-trans}
use iosock.Relay.Rounds.{Running, onward, round-Running}

module _ {os : Os} {S : Type 0} {system : OsLaws os} {logs : LogLaws os} {io : ChildStdio os S}
    (streams : StreamLaws system io) (laws : RelayLaws logs io) where
  abbrev Ctx : Type 0
  Ctx = Context os (IosockChannelManager S)

  abbrev rounds_of : ℕ → Ctx → Option (Outcome (Unit {0}) × Ctx)
  rounds_of n c = run_for (iosock_manager io) n system.poll_fd system.close_fd c

  a_round :
      (b : Bool) (c d : Ctx)
      → IsSound streams c
      → round (iosock_manager io) system.poll_fd system.close_fd c ≡ (done b, d)
      → IsSound streams d × Relayed system logs io c d
  a_round b c d s e = subst (Running streams laws c) e (round-Running streams laws c s)

  rounds :
      (n : ℕ) {c d : Ctx}
      → Quiet (iosock_manager io) system.close_fd system.poll_fd n c d
      → IsSound streams c
      → Relayed system logs io c d
  rounds n (here {c = c}) s = Relayed-refl system logs io c
  rounds n (next {n = k} {c = c} {d = d} q r) s =
      let (t, m) = a_round false c d s q in Relayed-trans system logs io m (rounds k r t)

  -- From a settled state, after any number of rounds that do not end the loop, every transfer in the
  -- log is one of a handler call, and: the bytes that the child's stdin took and those that still
  -- wait for it are those that waited before and those that were read from the client with room in
  -- the buffer, in order, with no byte more or less; the bytes that the client and the console took
  -- and those that still wait for them are, in order, some of those that waited before and of those
  -- that were read from the child with room in the buffer, and all of them if the console and the
  -- child's stdin are still open.
  pub rounds-Relayed :
      (n : ℕ) (c d : Ctx)
      → IsSettled streams (iosock_manager io) c
      → Quiet (iosock_manager io) system.close_fd system.poll_fd n c d
      → Relayed system logs io c d
  rounds-Relayed n c d h q = rounds n q h.sound

  -- The loop, if it has returned.
  abbrev Returned : Ctx → Option (Outcome (Unit {0}) × Ctx) → Type 0
  Returned c none = Unit
  Returned c (some r) = Running streams laws c r

  after_round-Returned :
      (c : Ctx) (r : Outcome Bool × Ctx) (rest : Option (Outcome (Unit {0}) × Ctx))
      → Running streams laws c r
      → (IsSound streams r.1 → Returned r.1 rest)
      → Returned c (after_round (iosock_manager io) r rest)
  after_round-Returned c (done true, d) rest h k = h
  after_round-Returned c (done false, d) none h k = tt
  after_round-Returned c (done false, d) (some r) h k = onward streams laws c d r h.1 (k h.0)
  after_round-Returned c (fail x, d) rest h k = tt
  after_round-Returned c (panic, d) rest h k = tt

  run_for-Returned : (n : ℕ) (c : Ctx) → IsSound streams c → Returned c (rounds_of n c)
  unfolding run_for
  run_for-Returned zero c s = tt
  run_for-Returned (suc n) c s =
      let r = round (iosock_manager io) system.poll_fd system.close_fd c in
      after_round-Returned c r (rounds_of n r.1) (round-Running streams laws c s)
        (λ t. run_for-Returned n r.1 t)

  -- If the loop returns `Ok` from a settled state, then over the whole run, its last round
  -- included, what was read from the client with room in the buffer has reached the child's stdin or
  -- still waits for it, in order and whole; what was read from the child with room in the buffer has
  -- reached the client and the console or still waits, in order, and whole if the console and the
  -- child's stdin are still open.
  pub run_for-Relayed :
      (n : ℕ) (c d : Ctx)
      → IsSettled streams (iosock_manager io) c
      → run_for (iosock_manager io) n system.poll_fd system.close_fd c ≡ some (done tt, d)
      → Relayed system logs io c d
  run_for-Relayed n c d h e = (subst (Returned c) e (run_for-Returned n c h.sound)).1
