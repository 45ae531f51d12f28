-- ===== src/Manager/GivenUp.antt =====
-- src/io.rs, `on_hangup`, against the invariant of the manager.
use iosock.Prelude.{ℕ, ◌≡◌, refl, true, false, ◌==◌, if◌then◌else◌, Bool-cases, inl, inr, arith}
use iosock.Outcome.{Outcome, done, fail, panic, Returns}
use iosock.Channel.{Context}
use iosock.Channel.After.{After, After-if}
use iosock.Polled.{PolledFdSet, has_fd, remove_first, unregister_closed}
use iosock.Polled.Pending.{IsPending-closed, IsPending-removed}
use iosock.Os.Laws.{OsLaws}
use iosock.Os.{Os}
use iosock.Stdio.{ChildStdio}
use iosock.Stdio.Pipes.{is_fd}
use iosock.Manager.{
  IosockChannelManager, is_client, is_child, on_hangup, hangup_client, hangup_child, hangup_console,
}
use iosock.Manager.Served.{StreamLaws}
use iosock.Manager.Attends.{IsSound, IsNewcomer}
use iosock.Manager.Requests.{client-IsPolled}
use iosock.Manager.Removal.{
  hangup_client_lem, hangup_child_lem, hangup_console_lem, holds, holds-remove, holds_of_owned,
  struck,
}
use iosock.Manager.Gone.{removed-IsRemoved, console-IsSound, child-IsSound, without_client-IsSound}

module _ {os : Os} {S : Type 0} {system : OsLaws os} {io : ChildStdio os S}
    (laws : StreamLaws system io) where
  hangup_client_panics :
      (fd : ℕ) (c : Context os (IosockChannelManager S))
      → has_fd fd c.fd_set.existing ≡ false
      → hangup_client io fd c ≡ (panic, c)
  unfolding hangup_client unregister_closed
  hangup_client_panics fd c k = ground arith

  hangup_client-After :
      (fd : ℕ) (c : Context os (IosockChannelManager S))
      → IsSound laws c
      → is_client c.mgr.client_socket fd ≡ true
      → After (IsNewcomer laws) (λ u d. IsSound laws d) (hangup_client io fd c)
  hangup_client-After fd c h e = elim (Bool-cases (has_fd fd c.fd_set.existing)) [
    | inl k ↦
        let kept = console_held fd c h e in
        rw (hangup_client_lem io fd c.mgr.console c refl k kept)
          (without_client-IsSound laws fd c h e k kept)
    | inr k ↦ rw (hangup_client_panics fd c k) (client-IsPolled laws fd c h e k)
  ]
    where
      console_held :
          (fd : ℕ) (c : Context os (IosockChannelManager S))
          → IsSound laws c
          → is_client c.mgr.client_socket fd ≡ true
          → holds c.mgr.console (remove_first fd c.fd_set.existing) ≡ true
      console_held fd c h e =
          holds-remove fd c.mgr.console c.fd_set.existing h.wired.distinct
            (ground (arith, h.client_off fd e))
            (holds_of_owned c.mgr.console c.fd_set.existing
              (λ g t. h.wired.registered g (ground arith)))

  hangup_child-After :
      (fd : ℕ) (c : Context os (IosockChannelManager S))
      → IsSound laws c
      → is_child io c.mgr.child fd ≡ true
      → After (IsNewcomer laws) (λ u d. IsSound laws d) (hangup_child io fd c)
  hangup_child-After fd c h e = go (io.hangup fd c.mgr.child c.fd_set c.world) refl (
      laws.stdio.hangup_lem fd c.mgr.child c.fd_set c.world h.wired.inner e
        (h.wired.registered fd (ground arith)))
    where
      go :
          (r : Outcome (S × PolledFdSet os.flags × os.World))
          → io.hangup fd c.mgr.child c.fd_set c.world ≡ r
          → Returns
              (λ t.
                (t.1 ≡ record c.fd_set { existing = remove_first fd c.fd_set.existing })
                × ((g : ℕ)
                    → is_child io t.0 g ≡ (if g == fd then false else is_child io c.mgr.child g))
                × laws.stdio.IsApart t.0)
              r
          → After (IsNewcomer laws) (λ u d. IsSound laws d) (hangup_child io fd c)
      go (done (s, fds, w)) q t =
          let closes = laws.hangup_closes fd c.mgr.child s c.fd_set fds c.world w e q in
          rw (hangup_child_lem io fd c q, t.0)
            (child-IsSound laws fd c s
              (record c.fd_set { existing = remove_first fd c.fd_set.existing }) w h e t.1 t.2
              closes.0 (removed-IsRemoved fd c.fd_set c.fd_set.removed h.wired.distinct)
              (IsPending-closed fd h.pending (h.wired.registered fd (ground arith)) closes.1))
      go (fail x) q t = absurd t
      go panic q t = absurd t

  hangup_console-After :
      (fd : ℕ) (c : Context os (IosockChannelManager S))
      → IsSound laws c
      → is_fd c.mgr.console fd ≡ true
      → After (IsNewcomer laws) (λ u d. IsSound laws d) (hangup_console io fd c)
  hangup_console-After fd c h e =
      rw (hangup_console_lem io fd c (h.wired.registered fd (ground arith))) (
        console-IsSound laws fd c (struck fd c.fd_set) h e
          (removed-IsRemoved fd c.fd_set (struck fd c.fd_set).removed h.wired.distinct)
          (IsPending-removed fd h.pending (h.wired.registered fd (ground arith))))

  -- Unless it fails with an `io::Error`, `on_hangup` keeps the invariant of the manager; it panics
  -- only if the client was taken since the set was last given to epoll.
  pub on_hangup-After :
      (fd : ℕ) (c : Context os (IosockChannelManager S))
      → IsSound laws c
      → After (IsNewcomer laws) (λ u d. IsSound laws d) (on_hangup io fd c)
  unfolding on_hangup
  on_hangup-After fd c h =
      After-if (IsNewcomer laws) (λ u d. IsSound laws d) (is_client c.mgr.client_socket fd) _ _
        (λ e. hangup_client-After fd c h e)
        (λ e.
          After-if (IsNewcomer laws) (λ u d. IsSound laws d) (is_child io c.mgr.child fd) _ _
            (λ k. hangup_child-After fd c h k)
            (λ k.
              After-if (IsNewcomer laws) (λ u d. IsSound laws d) (is_fd c.mgr.console fd) _ _
                (λ n. hangup_console-After fd c h n) (λ n. h)))
