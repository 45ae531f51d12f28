-- ===== src/Manager/Hangup.antt =====
-- src/io.rs, `on_hangup`, for any stream of the manager.
use iosock.Prelude.{
  ℕ, ◌≡◌, refl, true, false, ◌==◌, ltb, if◌then◌else◌, Bool-cases, inl, inr, ==_iff, arith,
}
use iosock.Outcome.{Outcome, done, fail, panic, Returns}
use iosock.Buffer.{writable_size}
use iosock.Polled.{PolledFdSet, remove_first}
use iosock.Channel.{Context}
use iosock.Os.{Os}
use iosock.Stdio.{ChildStdio}
use iosock.Stdio.Pipes.{is_fd}
use iosock.Manager.{
  IosockChannelManager, is_client, is_child, on_hangup, hangup_client, hangup_child, hangup_console,
}
use iosock.Manager.Wired.{StdioLaws, owns, IsWired}
use iosock.Manager.Removal.{
  woken, struck, hangup_client_lem, hangup_child_lem, hangup_console_lem, remove-IsWithout,
  woken-IsWithout, if-IsWithout, holds-remove, holds_of_owned, GivesUp, client_gone, child_gone,
  console_gone,
}

module _ {os : Os} {S : Type 0} {io : ChildStdio os S} (laws : StdioLaws io) where
  none_gone :
      (fd : ℕ) (m : IosockChannelManager S) (g : ℕ)
      → owns io m fd ≡ false
      → owns io m g ≡ (if g == fd then false else owns io m g)
  none_gone fd m g e = elim (Bool-cases (g == fd)) [
    | inl t ↦ rw (t, (==_iff g fd).0 t) e
    | inr t ↦ rw t refl
  ]

  -- An action that returns with the stream given up.
  abbrev pub HangsUp :
      ℕ
      → Context os (IosockChannelManager S)
      → Outcome (Unit {0}) × Context os (IosockChannelManager S)
      → Type 0
  HangsUp fd c (r, c') = (r ≡ done tt) × GivesUp laws fd c c'

  HangsUp-client :
      (fd : ℕ) (c : Context os (IosockChannelManager S))
      → IsWired laws c.mgr c.fd_set.existing
      → is_client c.mgr.client_socket fd ≡ true
      → HangsUp fd c (hangup_client io fd c)
  HangsUp-client fd c h e =
      let l = c.fd_set.existing in
      let o = c.mgr.console in
      let gone = remove-IsWithout fd l h.distinct in
      let pending = ltb 0 (writable_size c.mgr.out_buffer) in
      let kept =
        holds-remove fd o l h.distinct (ground (arith, h.client_apart fd))
          (holds_of_owned o l (λ g t. h.registered g (ground arith))) in
      rw (hangup_client_lem io fd o c refl (ground (arith, h.registered fd)) kept) (
        refl,
        client_gone laws fd c (if pending then woken o (remove_first fd l) else remove_first fd l)
            (os.close fd c.world) h e
            (if-IsWithout fd l pending (woken o (remove_first fd l)) (remove_first fd l)
              (woken-IsWithout fd o l (remove_first fd l) gone) gone),
      )

  HangsUp-child :
      (fd : ℕ) (c : Context os (IosockChannelManager S))
      → IsWired laws c.mgr c.fd_set.existing
      → is_child io c.mgr.child fd ≡ true
      → HangsUp fd c (hangup_child io fd c)
  HangsUp-child fd c h e =
      go (io.hangup fd c.mgr.child c.fd_set c.world) refl
        (laws.hangup_lem fd c.mgr.child c.fd_set c.world h.inner e (h.registered fd (ground arith)))
    where
      go :
          (r : Outcome (S × PolledFdSet os.flags × os.World))
          → io.hangup fd c.mgr.child c.fd_set c.world ≡ r
          → Returns
              (λ t.
                (t.1 ≡ record c.fd_set { existing = remove_first fd c.fd_set.existing })
                × ((g : ℕ)
                    → is_child io t.0 g ≡ (if g == fd then false else is_child io c.mgr.child g))
                × laws.IsApart t.0)
              r
          → HangsUp fd c (hangup_child io fd c)
      go (done (s, fds, w)) q t =
          rw (hangup_child_lem io fd c q, t.0)
            (
              refl,
              child_gone laws fd c s (remove_first fd c.fd_set.existing) w h e t.1 t.2
                  (remove-IsWithout fd c.fd_set.existing h.distinct),
            )
      go (fail x) q t = absurd t
      go panic q t = absurd t

  HangsUp-console :
      (fd : ℕ) (c : Context os (IosockChannelManager S))
      → IsWired laws c.mgr c.fd_set.existing
      → is_fd c.mgr.console fd ≡ true
      → HangsUp fd c (hangup_console io fd c)
  HangsUp-console fd c h e = rw (hangup_console_lem io fd c (h.registered fd (ground arith))) (
    refl,
    console_gone laws fd c (struck fd c.fd_set) h e
        (remove-IsWithout fd c.fd_set.existing h.distinct),
  )

  -- While every stream is in the set and no two share a descriptor, `on_hangup` returns, neither
  -- failing nor panicking: the stream with the descriptor is the manager's no more, every other
  -- stream still is, and the same holds of the streams and the set afterwards.
  pub on_hangup_lem :
      (fd : ℕ) (c : Context os (IosockChannelManager S))
      → IsWired laws c.mgr c.fd_set.existing
      → HangsUp fd c (on_hangup io fd c)
  unfolding on_hangup
  on_hangup_lem fd c h = elim (Bool-cases (is_client c.mgr.client_socket fd)) [
    | inl e ↦ rw e (HangsUp-client fd c h e)
    | inr e ↦ elim (Bool-cases (is_child io c.mgr.child fd)) [
      | inl k ↦ rw (e, k) (HangsUp-child fd c h k)
      | inr k ↦ elim (Bool-cases (is_fd c.mgr.console fd)) [
        | inl n ↦ rw (e, k, n) (HangsUp-console fd c h n)
        | inr n ↦ rw (e, k, n) (refl, (h, λ g. none_gone fd c.mgr g (ground arith)))
      ]
    ]
  ]
