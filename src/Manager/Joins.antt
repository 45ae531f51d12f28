-- ===== src/Manager/Joins.antt =====
-- src/io.rs, `on_readable` as a whole, against the invariant of the manager.
use iosock.Prelude.{
  ℕ, ◌≡◌, refl, sym, ◌∙◌, ap, Bool, true, false, Option, none, some, List, ◌==◌, ltb, if◌then◌else◌,
  Bool-cases, inl, inr, ==_iff, arith,
}
use iosock.Io.{Result, ok, err}
use iosock.Outcome.{done}
use iosock.Buffer.{writable_size}
use iosock.Channel.{Context}
use iosock.Channel.After.{After, After-if}
use iosock.Epoll.{Flags}
use iosock.Polled.{PolledFd, PolledFdSet, has_fd, has_new, poll_for_write}
use iosock.Polled.Lookup.{IsDistinct, IsDistinct-modify, has_fd-modify_first, fd-poll_for_write}
use iosock.Polled.Asks.{
  wants_out, wants_out-new, wants_out-new_ne, tuned-IsTuned, event-poll_for_write,
}
use iosock.Os.Laws.{OsLaws, is_own}
use iosock.Os.{Os}
use iosock.Stdio.{ChildStdio}
use iosock.Stdio.Pipes.{is_fd}
use iosock.Polled.Apply.{IsPending, stored-some}
use iosock.Polled.Interest.{Interest}
use iosock.Polled.Pending.{has_new-append, IsPending-same, IsPending-tuned, IsPending-new}
use iosock.Manager
use iosock.Manager.{
  IosockChannelManager, UnixClient, is_client, is_child, client_readable, read_stdout, read_stderr,
}
use iosock.Manager.Handlers.{accept, promote, accept_client, on_readable}
use iosock.Manager.Served.{StreamLaws}
use iosock.Manager.Attends.{Attends, Attends-buffers, IsSound, IsNewcomer}
use iosock.Manager.Removal.{polled, holds_of_owned}
use iosock.Manager.Gone.{pending-has_bytes}
use iosock.Manager.Accept.{taken, promote_lem}
use iosock.Manager.Reads.{
  Kept, client_on_readable-After, stdout_on_readable-After, stderr_on_readable-After,
}

has_fd-polled :
    {fl : Flags} (b : Bool) (g : ℕ) (o : Option ℕ) (l : List (PolledFd fl))
    → has_fd g (polled b o l) ≡ has_fd g l
has_fd-polled b g none l = refl
has_fd-polled {fl} b g (some k) l =
    has_fd-modify_first k g (poll_for_write fl b) l (fd-poll_for_write b)

IsDistinct-polled :
    {fl : Flags} (b : Bool) (o : Option ℕ) (l : List (PolledFd fl))
    → IsDistinct l
    → IsDistinct (polled b o l)
IsDistinct-polled b none l d = d
IsDistinct-polled {fl} b (some k) l d =
    IsDistinct-modify k (poll_for_write fl b) l (fd-poll_for_write b) d

wants_out-polled :
    {fl : Flags} (b : Bool) (g : ℕ) (o : Option ℕ) (s : PolledFdSet fl)
    → is_fd o g ≡ false
    → wants_out g (record s { existing = polled b o s.existing }) ≡ wants_out g s
wants_out-polled b g none s n = refl
wants_out-polled {fl} b g (some k) s n =
    (tuned-IsTuned k (poll_for_write fl b) s (fd-poll_for_write b)
        (event-poll_for_write b)).same_wants
      g (ground arith)

IsPending-polled :
    {fl : Flags} (b : Bool) (o : Option ℕ) {s : PolledFdSet fl} {k : Interest}
    → IsPending s k
    → IsPending (record s { existing = polled b o s.existing }) k
IsPending-polled b none p = p
IsPending-polled {fl} b (some k) {s} p =
    IsPending-tuned p (IsDistinct-polled b (some k) s.existing p.distinct)
      (tuned-IsTuned k (poll_for_write fl b) s (fd-poll_for_write b) (event-poll_for_write b))

module _ {os : Os} {S : Type 0} {system : OsLaws os} {io : ChildStdio os S}
    (laws : StreamLaws system io) where
  -- No one is waiting in the set while there is no client.
  no_newcomer :
      {po pi : Bool} (c : Context os (IosockChannelManager S)) (g : ℕ)
      → Attends laws po pi c
      → c.mgr.client_socket ≡ none
      → has_new g c.fd_set.new ≡ false
  no_newcomer c g h e = elim (Bool-cases (has_new g c.fd_set.new)) [
    | inl k ↦ let f : false ≡ true = ap (λ o. is_client o g) (sym e) ∙ (h.newcomer g k).0 in cc
    | inr k ↦ k
  ]

  not_known :
      {po pi : Bool} (c : Context os (IosockChannelManager S)) (fd : ℕ)
      → Attends laws po pi c
      → system.watched c.world fd ≡ none
      → has_fd fd c.fd_set.existing ≡ false
  not_known c fd h u = ground (arith, h.pending.known fd, stored-some fd c.fd_set.existing)

  taken-IsSound :
      (fd : ℕ) (w : os.World) (c : Context os (IosockChannelManager S))
      → IsSound laws c
      → c.mgr.client_socket ≡ none
      → is_own system fd ≡ true
      → system.watched c.world fd ≡ none
      → ((g : ℕ) → system.watched w g ≡ system.watched c.world g)
      → IsSound laws (taken io fd w c)
  taken-IsSound fd w c h e ne u same = record {
    wired = record {
      distinct = IsDistinct-polled false c.mgr.console c.fd_set.existing h.wired.distinct;
      registered =
          λ g o. has_fd-polled false g c.mgr.console c.fd_set.existing ∙ h.wired.registered g o;
      client_apart = λ g o. cc;
      child_apart = h.wired.child_apart;
      inner = h.wired.inner;
    };
    client_in = λ g o. ground (arith, has_new-append g fd events c.fd_set.new);
    client_off = λ g o. ground (arith, h.wired.registered g, unknown g);
    newcomer = λ g k. ground (
      arith,
      has_new-append g fd events c.fd_set.new,
      no_newcomer c g h e,
      has_fd-polled false g c.mgr.console c.fd_set.existing,
      unknown g,
    );
    pending =
        IsPending-new fd events
          (IsPending-polled false c.mgr.console (IsPending-same h.pending same))
          (no_newcomer c fd h e) (same fd ∙ u);
    others = λ g k. elim (Bool-cases (g == fd)) [
      | inl t ↦ rw ((==_iff g fd).0 t) ne
      | inr t ↦ h.others g (ground (arith, has_new-append g fd events c.fd_set.new, k, t))
    ];
    in_valid = h.in_valid;
    out_valid = h.out_valid;
    out_wants = λ g o p. rw ((==_iff g fd).0 (ground arith)) (
        wants_out-new fd events
          (record c.fd_set { existing = polled false c.mgr.console c.fd_set.existing })
          (has_fd-polled false fd c.mgr.console c.fd_set.existing ∙ n) (no_newcomer c fd h e)
        ∙ system.flags.contains_out-set_out os.flags.epollin
            (ltb 0 (writable_size c.mgr.out_buffer))
        ∙ pending-has_bytes c.mgr.out_buffer h.out_valid
        ∙ p);
    in_wants = λ g o p.
        wants_out-new_ne fd g events
          (record c.fd_set { existing = polled false c.mgr.console c.fd_set.existing })
          (ground (arith, h.wired.registered g, unknown g))
        ∙ wants_out-polled false g c.mgr.console c.fd_set (h.wired.child_apart g (ground arith))
        ∙ h.in_wants g o p;
  }
    where
      n : has_fd fd c.fd_set.existing ≡ false
      n = not_known c fd h u

      events : os.flags.Events
      events =
          os.flags.set os.flags.epollin os.flags.epollout (ltb 0 (writable_size c.mgr.out_buffer))

      unknown : (g : ℕ) → (fd == g) ≡ true → has_fd g c.fd_set.existing ≡ false
      unknown g t = ap (λ x. has_fd x c.fd_set.existing) (sym ((==_iff fd g).0 t)) ∙ n

  pub accept_client-After :
      (c : Context os (IosockChannelManager S))
      → IsSound laws c
      → After (IsNewcomer laws) (Kept laws) (accept_client io c)
  unfolding accept_client accept
  accept_client-After c h = go (os.accept c.mgr.server_socket c.world) refl
    where
      decide :
          (fd : ℕ) (w : os.World) (o : Option UnixClient)
          → c.mgr.client_socket ≡ o
          → is_own system fd ≡ true
          → system.watched c.world fd ≡ none
          → ((g : ℕ) → system.watched w g ≡ system.watched c.world g)
          → After (IsNewcomer laws) (Kept laws) (
              if Manager.is_some o
              then (done tt, record c { world = os.close fd w })
              else promote io fd (record c { world = w }))
      decide fd w (some x) e ne u same =
          Attends-buffers laws c.mgr.in_buffer c.mgr.out_buffer (os.close fd w) h h.in_valid
            h.out_valid
            (λ g. ground (
              arith,
              system.watched-close fd w g,
              same g,
              u,
              ap (system.watched c.world) ((==_iff g fd).0 _),
            ))
      decide fd w none e ne u same =
          let d : Context os (IosockChannelManager S) = record c { world = w } in
          let sound : IsSound laws d =
            Attends-buffers laws c.mgr.in_buffer c.mgr.out_buffer w h h.in_valid h.out_valid same in
          rw
            (promote_lem io c.mgr.console d fd refl (not_known c fd h u) (no_newcomer c fd h e) (
              holds_of_owned c.mgr.console c.fd_set.existing
                (λ g t. h.wired.registered g (ground arith))))
            (taken-IsSound fd w d sound e ne (same fd ∙ u) (λ g. refl))

      go :
          (a : Result ℕ × os.World)
          → os.accept c.mgr.server_socket c.world ≡ a
          → After (IsNewcomer laws) (Kept laws) (accept_client io c)
      go (ok fd, w) e =
          let (n, u, p) = system.accepts_new c.mgr.server_socket fd c.world w e in
          let ne : is_own system fd ≡ true = ground (arith, n, p) in
          rw e (
            decide fd w c.mgr.client_socket refl ne u (λ g.
              ap (λ a. system.watched a.1 g) (sym e)
              ∙ system.watched-accept c.mgr.server_socket c.world g))
      go (err x, w) e = rw e tt

  -- Unless it fails with an `io::Error`, `on_readable` keeps the invariant of the manager:
  -- afterwards every stream is in the set again, and the stream that is to take the bytes that wait
  -- is polled for writes. It panics only if the client was taken since the set was last given to
  -- epoll. A client that is read must still be `ReadOnly` or `ReadWrite`.
  pub on_readable-After :
      (fd : ℕ) (c : Context os (IosockChannelManager S))
      → IsSound laws c
      → (is_client c.mgr.client_socket fd ≡ true → client_readable c.mgr.client_socket ≡ true)
      → After (IsNewcomer laws) (λ u d. IsSound laws d) (on_readable io fd c)
  unfolding on_readable
  on_readable-After fd c h readable =
      After-if (IsNewcomer laws) (Kept laws) (fd == c.mgr.server_socket) _ _
        (λ e. accept_client-After c h)
        (λ e.
          After-if (IsNewcomer laws) (Kept laws) (is_client c.mgr.client_socket fd) _ _
            (λ k. client_on_readable-After laws fd c h k (readable k))
            (λ k.
              After-if (IsNewcomer laws) (Kept laws) (is_fd (io.stdout_fd c.mgr.child) fd) _ _
                (λ n. stdout_on_readable-After laws fd c h)
                (λ n.
                  After-if (IsNewcomer laws) (Kept laws) (is_fd (io.stderr_fd c.mgr.child) fd) _ _
                    (λ x. stderr_on_readable-After laws fd c h x) (λ x. h))))
