-- ===== src/Relay/Rounds.antt =====
-- src/pollster.rs, `run`, with the manager of src/io.rs: the bytes that its rounds move.
use mathlib.Core.List.{append-nil}
use iosock.Prelude.{
  ℕ, ltb, length, ◌≡◌, refl, sym, ap, ◌∙◌, Bool, true, false, ◌||◌, List, [], ◌∷◌, ◌++◌, ◌==◌,
  if◌then◌else◌, inl,
}
use iosock.Outcome.{Outcome, done, fail, panic}
use iosock.Epoll.{Event}
use iosock.Channel.{Context, M, ◌>>=◌, ◌>>◌, pure}
use iosock.Channel.After.{After, After-bind, After-if, After-weaken}
use iosock.Polled.{apply_updates}
use iosock.Polled.Keeps.{Keeps, apply_updates_keeps}
use iosock.Os.{Os}
use iosock.Os.Laws.{OsLaws}
use iosock.Stdio.{ChildStdio}
use iosock.Manager.{IosockChannelManager}
use iosock.Manager.Handlers.{iosock_manager}
use iosock.Manager.Served.{StreamLaws}
use iosock.Manager.Attends.{IsSound, Attends-buffers}
use iosock.Manager.GivenUp.{on_hangup-After}
use iosock.Pollster.{
  raw_fd, when, dispatch, dispatch_all, apply_poll_updates, poll_callbacks, wait, waited, round,
  pollster_max_fds,
}
use iosock.Pollster.Settled.{apply_poll_updates_lem}
use iosock.Pollster.Events.{IsExposed, read_event, write_event}
use iosock.Relay.{Entry, LogLaws, moves}
use iosock.Relay.Streams.{RelayLaws}
use iosock.Relay.Settling.{Anywhere}
use iosock.Relay.Conserving.{Conserves, Conserving}
use iosock.Relay.Calls.{on_readable-Conserving, on_writable-Conserving, on_hangup-Conserving}
use iosock.Relay.Steps.{
  Call, reads, writes, hangs_up, calls, stop, call, update, waits, Relayed, Relayed-refl,
  Relayed-trans, silent,
}

module _ {os : Os} {S : Type 0} {system : OsLaws os} {logs : LogLaws os} {io : ChildStdio os S}
    (streams : StreamLaws system io) (laws : RelayLaws logs io) where
  abbrev Ctx : Type 0
  Ctx = Context os (IosockChannelManager S)

  -- A part of a run that starts in `c`: if it returns, the manager is sound and the bytes are
  -- conserved.
  abbrev pub Running : {A : Type 0} → Ctx → Outcome A × Ctx → Type 0
  Running c r = After Anywhere (λ a d. IsSound streams d × Relayed system logs io c d) r

  pub onward :
      {A : Type 0} (c d : Ctx) (r : Outcome A × Ctx)
      → Relayed system logs io c d
      → Running d r
      → Running c r
  onward c d (done a, e) h k = (k.0, Relayed-trans system logs io h k.1)
  onward c d (fail x, e) h k = tt
  onward c d (panic, e) h k = tt

  Running-bind :
      {A B : Type 0} (m : M os (IosockChannelManager S) A) (f : A → M os (IosockChannelManager S) B)
      (c : Ctx)
      → Running c (m c)
      → ((a : A) (d : Ctx) → IsSound streams d → Running d (f a d))
      → Running c ((m >>= f) c)
  Running-bind m f c h k =
      After-bind Anywhere (λ a d. IsSound streams d × Relayed system logs io c d)
        (λ b d. IsSound streams d × Relayed system logs io c d) m f c h
        (λ a d s. onward c d (f a d) s.1 (k a d s.0))

  idle : (c : Ctx) → IsSound streams c → Running c (done tt, c)
  idle c h = (h, Relayed-refl system logs io c)

  call-After :
      (h : Call) (fd : ℕ) (c : Ctx)
      → IsSound streams c
      → After (IsExposed streams) (λ u d. IsSound streams d) (calls system logs io h fd c)
  call-After reads fd c s = read_event streams fd c s
  call-After writes fd c s = write_event streams fd c s
  call-After hangs_up fd c s =
      After-weaken _ (IsExposed streams) (λ u d. IsSound streams d) (λ u d. IsSound streams d) _
        (λ d p. inl p) (λ u d k. k) (on_hangup-After streams fd c s)

  call-Conserving :
      (h : Call) (fd : ℕ) (c : Ctx)
      → IsSound streams c
      → Conserving streams laws c (calls system logs io h fd c)
  call-Conserving reads = on_readable-Conserving streams laws
  call-Conserving writes = on_writable-Conserving streams laws
  call-Conserving hangs_up = on_hangup-Conserving streams laws

  called :
      (h : Call) (fd : ℕ) (c d : Ctx) (es : List Entry)
      → calls system logs io h fd c ≡ (done tt, d)
      → Conserves streams laws c d es
      → Relayed system logs io c d
  called h fd c d es e k = record {
    transfers = es ++ [];
    made = moves io c es ++ [];
    steps = call h fd es e k.logged stop;
    logged = k.logged ∙ ap (λ t. logs.log c.world ++ t) (sym (append-nil es));
    input = rw (append-nil (moves io c es)) k.input;
    output = rw (append-nil (moves io c es)) k.output;
    whole = λ a. rw (append-nil (moves io c es)) (k.whole a);
    kept = k.kept;
  }

  call-Running :
      (h : Call) (fd : ℕ) (c : Ctx) → IsSound streams c → Running c (calls system logs io h fd c)
  call-Running h fd c s =
      go (calls system logs io h fd c) refl (call-After h fd c s) (call-Conserving h fd c s)
    where
      go :
          (r : Outcome (Unit {0}) × Ctx)
          → calls system logs io h fd c ≡ r
          → After (IsExposed streams) (λ u d. IsSound streams d) r
          → Conserving streams laws c r
          → Running c r
      go (done tt, d) e a k = (a, called h fd c d k.0 e k.1)
      go (fail x, d) e a k = tt
      go (panic, d) e a k = tt

  when-Running :
      (h : Call) (b : Bool) (fd : ℕ) (c : Ctx)
      → IsSound streams c
      → Running c (when (iosock_manager io) b (calls system logs io h fd) c)
  when-Running h b fd c s =
      After-if Anywhere (λ a d. IsSound streams d × Relayed system logs io c d) b _ _
        (λ e. call-Running h fd c s) (λ e. idle c s)

  dispatch-Running :
      (event : Event) (c : Ctx)
      → IsSound streams c
      → Running c (dispatch (iosock_manager io) event c)
  unfolding dispatch
  dispatch-Running event c s =
      let fd = raw_fd event in
      let actions = os.flags.from_bits_truncate event.events in
      let readable = os.flags.contains actions os.flags.epollin in
      let writable = os.flags.contains actions os.flags.epollout in
      let hung =
        os.flags.contains actions os.flags.epollerr
        || os.flags.contains actions os.flags.epollhup in
      Running-bind (when (iosock_manager io) readable (calls system logs io reads fd)) _ c
        (when-Running reads readable fd c s)
        (λ u d k.
          Running-bind (when (iosock_manager io) writable (calls system logs io writes fd)) _ d
            (when-Running writes writable fd d k) (λ u e l. when-Running hangs_up hung fd e l))

  dispatch_all-Running :
      (close_fd : ℕ) (events : List Event) (b : Bool) (c : Ctx)
      → IsSound streams c
      → Running c (dispatch_all (iosock_manager io) close_fd events b c)
  unfolding dispatch_all
  dispatch_all-Running close_fd [] b c s = (s, Relayed-refl system logs io c)
  dispatch_all-Running close_fd (e ∷ es) b c s =
      After-if Anywhere (λ b d. IsSound streams d × Relayed system logs io c d)
        (raw_fd e == close_fd) _ _ (λ k. dispatch_all-Running close_fd es true c s)
        (λ k.
          Running-bind (dispatch (iosock_manager io) e)
            (λ u. dispatch_all (iosock_manager io) close_fd es b) c (dispatch-Running e c s)
            (λ u d l. dispatch_all-Running close_fd es b d l))

  poll_callbacks-Keeps : Keeps (poll_callbacks os system.poll_fd) logs.log
  unfolding poll_callbacks
  poll_callbacks-Keeps = record {
    new_keeps = λ fd events w. logs.log-epoll_ctl system.poll_fd _ fd _ w;
    update_keeps = λ fd e w. logs.log-epoll_ctl system.poll_fd _ fd e w;
    delete_keeps = λ fd w. logs.log-epoll_ctl system.poll_fd _ fd _ w;
  }

  apply_poll_updates-Running :
      (c : Ctx)
      → IsSound streams c
      → Running c (apply_poll_updates (iosock_manager io) system.poll_fd c)
  unfolding apply_poll_updates
  apply_poll_updates-Running c s =
      let (fine, settled) = apply_poll_updates_lem streams (iosock_manager io) c s in
      let (r, fds, w) = apply_updates (poll_callbacks os system.poll_fd) c.fd_set c.world in
      let l =
        apply_updates_keeps (poll_callbacks os system.poll_fd) logs.log poll_callbacks-Keeps
          c.fd_set c.world in
      let d : Ctx = record c { fd_set = fds; world = w } in
      rw fine (settled.sound, silent system logs io c d (update (λ i. (fine i, d)) l stop) l refl)

  -- The end of a round.
  update-Running :
      (any b : Bool) (c : Ctx)
      → IsSound streams c
      → Running c (
          if b
          then (done true, c)
          else (when (iosock_manager io) any (apply_poll_updates (iosock_manager io) system.poll_fd)
                >> pure false)
              c)
  update-Running any true c s = (s, Relayed-refl system logs io c)
  update-Running false false c s = (s, Relayed-refl system logs io c)
  update-Running true false c s =
      Running-bind (apply_poll_updates (iosock_manager io) system.poll_fd) (λ u. pure false) c
        (apply_poll_updates-Running c s) (λ u d k. (k, Relayed-refl system logs io d))

  wait-Running :
      (c : Ctx) → IsSound streams c → Running c (wait (iosock_manager io) system.poll_fd c)
  unfolding wait
  wait-Running c s =
      go (waited (iosock_manager io) (os.epoll_wait system.poll_fd pollster_max_fds c.world).0) refl
    where
      d : Ctx
      d = record c { world = (os.epoll_wait system.poll_fd pollster_max_fds c.world).1 }

      l : logs.log d.world ≡ logs.log c.world
      l = logs.log-epoll_wait system.poll_fd pollster_max_fds c.world

      k : IsSound streams d
      k =
          Attends-buffers streams c.mgr.in_buffer c.mgr.out_buffer d.world s s.in_valid s.out_valid
            (λ g. system.watched-wait pollster_max_fds c.world g)

      go :
          (r : Outcome (List Event))
          → waited (iosock_manager io) (os.epoll_wait system.poll_fd pollster_max_fds c.world).0 ≡ r
          → Running c (r, d)
      go (done events) e =
          (k, silent system logs io c d (waits events (λ i. (e i, d)) l stop) l refl)
      go (fail x) e = tt
      go panic e = tt

  -- One round, whether it ends the loop or not.
  pub round-Running :
      (c : Ctx)
      → IsSound streams c
      → Running c (round (iosock_manager io) system.poll_fd system.close_fd c)
  unfolding round
  round-Running c s =
      Running-bind (wait (iosock_manager io) system.poll_fd) _ c (wait-Running c s) (λ events d k.
        Running-bind (dispatch_all (iosock_manager io) system.close_fd events false) _ d
          (dispatch_all-Running system.close_fd events false d k)
          (λ b e l. update-Running (ltb 0 (length events)) b e l))
