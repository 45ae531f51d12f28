-- ===== src/Pollster/Events.antt =====
-- src/pollster.rs, the loop over the events of one wait, with the manager of src/io.rs.
use iosock.Prelude.{
  ℕ, ◌≡◌, ◌⊎◌, refl, sym, ◌∙◌, Bool, true, false, ◌||◌, Option, none, some, List, [], ◌∷◌, ◌==◌,
  Bool-cases, inl, inr, arith,
}
use iosock.Outcome.{Outcome, done, panic}
use iosock.Epoll.{Event}
use iosock.Channel.{Context, M, ◌>>◌}
use iosock.Channel.After.{After, After-then, After-if, After-weaken}
use iosock.Os.{Os}
use iosock.Os.Laws.{OsLaws}
use iosock.Stdio.{ChildStdio}
use iosock.Manager.{
  IosockChannelManager, UnixClient, SocketAvailability, read_only, write_only, read_write,
  is_client, client_readable, client_writable, on_hangup,
}
use iosock.Manager.Handlers.{
  client_on_readable, client_on_writable, on_readable, on_writable, iosock_manager,
}
use iosock.Manager.Served.{StreamLaws}
use iosock.Manager.Attends.{IsSound, IsNewcomer}
use iosock.Manager.Reads.{Kept}
use iosock.Manager.Joins.{accept_client-After, on_readable-After}
use iosock.Manager.Writes.{on_writable-After}
use iosock.Manager.GivenUp.{on_hangup-After}
use iosock.Pollster.{raw_fd, when, dispatch, dispatch_all}

-- One direction of the client is shut down.
abbrev pub is_half_open : Option UnixClient → Bool
is_half_open none = false
is_half_open (some x) = elim x.availability [
  | read_only ↦ true
  | write_only ↦ true
  | read_write ↦ false
]

not_readable :
    (o : Option UnixClient) (fd : ℕ)
    → is_client o fd ≡ true
    → client_readable o ≡ false
    → is_half_open o ≡ true
not_readable none fd e n = cc
not_readable (some x) fd e n = go x.availability n
  where
    go :
        (a : SocketAvailability)
        → client_readable (some (record x { availability = a })) ≡ false
        → is_half_open (some (record x { availability = a })) ≡ true
    go read_only k = refl
    go write_only k = refl
    go read_write k = cc

not_writable :
    (o : Option UnixClient) (fd : ℕ)
    → is_client o fd ≡ true
    → client_writable o ≡ false
    → is_half_open o ≡ true
not_writable none fd e n = cc
not_writable (some x) fd e n = go x.availability n
  where
    go :
        (a : SocketAvailability)
        → client_writable (some (record x { availability = a })) ≡ false
        → is_half_open (some (record x { availability = a })) ≡ true
    go read_only k = refl
    go write_only k = refl
    go read_write k = cc

module _ {os : Os} {S : Type 0} {system : OsLaws os} {io : ChildStdio os S}
    (laws : StreamLaws system io) where
  -- Where a handler may panic: the client was taken in this round, or one direction of it is shut
  -- down.
  abbrev pub IsExposed : Context os (IosockChannelManager S) → Type 0
  IsExposed c = IsNewcomer laws c ⊎ (is_half_open c.mgr.client_socket ≡ true)

  exposed :
      (r : Outcome (Unit {0}) × Context os (IosockChannelManager S))
      → After (IsNewcomer laws) (λ u d. IsSound laws d) r
      → After IsExposed (Kept laws) r
  exposed r h =
      After-weaken (IsNewcomer laws) IsExposed (λ u d. IsSound laws d) (Kept laws) r (λ c p. inl p)
        (λ a c k. k) h

  unreadable :
      (fd : ℕ) (c : Context os (IosockChannelManager S))
      → (fd == c.mgr.server_socket) ≡ false
      → is_client c.mgr.client_socket fd ≡ true
      → client_readable c.mgr.client_socket ≡ false
      → on_readable io fd c ≡ (panic, c)
  unfolding on_readable client_on_readable
  unreadable fd c n e r = ground arith

  unwritable :
      (fd : ℕ) (c : Context os (IosockChannelManager S))
      → is_client c.mgr.client_socket fd ≡ true
      → client_writable c.mgr.client_socket ≡ false
      → on_writable io fd c ≡ (panic, c)
  unfolding on_writable client_on_writable
  unwritable fd c e r = ground arith

  accepts :
      (fd : ℕ) (c : Context os (IosockChannelManager S))
      → IsSound laws c
      → (fd == c.mgr.server_socket) ≡ true
      → After (IsNewcomer laws) (λ u d. IsSound laws d) (on_readable io fd c)
  unfolding on_readable
  accepts fd c h e = rw e (accept_client-After laws c h)

  pub read_event :
      (fd : ℕ) (c : Context os (IosockChannelManager S))
      → IsSound laws c
      → After IsExposed (Kept laws) (on_readable io fd c)
  read_event fd c h = elim (Bool-cases (fd == c.mgr.server_socket)) [
    | inl s ↦ exposed (on_readable io fd c) (accepts fd c h s)
    | inr s ↦ elim (Bool-cases (is_client c.mgr.client_socket fd)) [
      | inr n ↦
          exposed (on_readable io fd c)
            (on_readable-After laws fd c h (λ e. let f : false ≡ true = sym n ∙ e in cc))
      | inl e ↦ elim (Bool-cases (client_readable c.mgr.client_socket)) [
        | inl r ↦ exposed (on_readable io fd c) (on_readable-After laws fd c h (λ k. r))
        | inr r ↦ rw (unreadable fd c s e r) (inr (not_readable c.mgr.client_socket fd e r))
      ]
    ]
  ]

  pub write_event :
      (fd : ℕ) (c : Context os (IosockChannelManager S))
      → IsSound laws c
      → After IsExposed (Kept laws) (on_writable io fd c)
  write_event fd c h = elim (Bool-cases (is_client c.mgr.client_socket fd)) [
    | inr n ↦
        exposed (on_writable io fd c)
          (on_writable-After laws fd c h (λ e. let f : false ≡ true = sym n ∙ e in cc))
    | inl e ↦ elim (Bool-cases (client_writable c.mgr.client_socket)) [
      | inl r ↦ exposed (on_writable io fd c) (on_writable-After laws fd c h (λ k. r))
      | inr r ↦ rw (unwritable fd c e r) (inr (not_writable c.mgr.client_socket fd e r))
    ]
  ]

  when-After :
      (b : Bool) (m : M os (IosockChannelManager S) (Unit {0}))
      (c : Context os (IosockChannelManager S))
      → IsSound laws c
      → After IsExposed (Kept laws) (m c)
      → After IsExposed (Kept laws) (when (iosock_manager io) b m c)
  when-After b m c h k = After-if IsExposed (Kept laws) b (m c) (done tt, c) (λ e. k) (λ e. h)

  -- Any event at all, of any descriptor, leaves the manager sound.
  pub dispatch-After :
      (event : Event) (c : Context os (IosockChannelManager S))
      → IsSound laws c
      → After IsExposed (Kept laws) (dispatch (iosock_manager io) event c)
  unfolding dispatch
  dispatch-After event c h =
      let fd = raw_fd event in
      let actions = os.flags.from_bits_truncate event.events in
      let readable = os.flags.contains actions os.flags.epollin in
      let writable = os.flags.contains actions os.flags.epollout in
      let hung =
        os.flags.contains actions os.flags.epollerr
        || os.flags.contains actions os.flags.epollhup in
      let cm = iosock_manager io in
      After-then IsExposed (λ d. IsSound laws d) (Kept laws) (when cm readable (on_readable io fd))
        (when cm writable (on_writable io fd) >> when cm hung (on_hangup io fd)) c
        (when-After readable (on_readable io fd) c h (read_event fd c h))
        (λ d k.
          After-then IsExposed (λ d. IsSound laws d) (Kept laws)
            (when cm writable (on_writable io fd)) (when cm hung (on_hangup io fd)) d
            (when-After writable (on_writable io fd) d k (write_event fd d k))
            (λ e s.
              when-After hung (on_hangup io fd) e s
                (exposed (on_hangup io fd e) (on_hangup-After laws fd e s))))

  pub dispatch_all-After :
      (close_fd : ℕ) (events : List Event) (b : Bool) (c : Context os (IosockChannelManager S))
      → IsSound laws c
      → After IsExposed
          (λ b d. IsSound laws d)
          (dispatch_all (iosock_manager io) close_fd events b c)
  unfolding dispatch_all
  dispatch_all-After close_fd [] b c h = h
  dispatch_all-After close_fd (e ∷ es) b c h =
      After-if IsExposed (λ b d. IsSound laws d) (raw_fd e == close_fd) _ _
        (λ k. dispatch_all-After close_fd es true c h)
        (λ k.
          After-then IsExposed (λ d. IsSound laws d) (λ b d. IsSound laws d)
            (dispatch (iosock_manager io) e) (dispatch_all (iosock_manager io) close_fd es b) c
            (dispatch-After e c h) (λ d s. dispatch_all-After close_fd es b d s))
