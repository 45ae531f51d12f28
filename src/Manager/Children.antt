-- ===== src/Manager/Children.antt =====
-- src/io.rs, `hangup` of `ChildPipes` and of `ChildPty`, against what the manager relies on.
use iosock.Prelude.{
  ℕ, ◌≡◌, refl, true, false, ◌&&◌, ◌||◌, Option, none, some, ◌==◌, if◌then◌else◌, Bool-cases, inl,
  inr, arith,
}
use iosock.Outcome.{done, panic, Returns}
use iosock.Polled.{PolledFdSet, has_fd, remove_first, unregister_closed}
use iosock.Os.{Os}
use iosock.Stdio.Pipes
use iosock.Stdio.Pipes.{ChildPipes, is_fd, drop_stream, pipes_stdio}
use iosock.Stdio.Pty
use iosock.Stdio.Pty.{ChildPty, pty_stdio}
use iosock.Manager.{is_child}
use iosock.Manager.Wired.{StdioLaws}

-- The three pipes have three descriptors.
abbrev pub IsApart : ChildPipes → Type 0
IsApart p =
    (fd : ℕ)
    → (is_fd p.stdin fd && (is_fd p.stdout fd || is_fd p.stderr fd)
        || is_fd p.stdout fd && is_fd p.stderr fd)
      ≡ false

is_fd-only : (o : Option ℕ) (fd g : ℕ) → is_fd o fd ≡ true → is_fd o g ≡ (g == fd)
is_fd-only none fd g h = cc
is_fd-only (some x) fd g h = ground arith

module _ (os : Os) where
  -- What is asked of a hangup of the pipes.
  abbrev PipesGiveUp :
      ℕ → ChildPipes → PolledFdSet os.flags → ChildPipes × PolledFdSet os.flags × os.World → Type 0
  PipesGiveUp fd p fds t =
      (t.1 ≡ record fds { existing = remove_first fd fds.existing })
      × ((g : ℕ)
          → is_child (pipes_stdio os) t.0 g
            ≡ (if g == fd then false else is_child (pipes_stdio os) p g))
      × IsApart t.0

  unregister_closed_lem :
      (fd : ℕ) (fds : PolledFdSet os.flags)
      → has_fd fd fds.existing ≡ true
      → unregister_closed os.flags fd fds
        ≡ done (record fds { existing = remove_first fd fds.existing })
  unfolding unregister_closed
  unregister_closed_lem fd fds h = ground arith

  pub drop_stream_lem :
      (fd : ℕ) (p : ChildPipes) (fds : PolledFdSet os.flags) (w : os.World)
      → has_fd fd fds.existing ≡ true
      → drop_stream os fd p fds w
        ≡ done (p, record fds { existing = remove_first fd fds.existing }, os.close fd w)
  unfolding drop_stream unregister_closed
  drop_stream_lem fd p fds w h = ground arith

  pub drop_stream-panic :
      (fd : ℕ) (p : ChildPipes) (fds : PolledFdSet os.flags) (w : os.World)
      → has_fd fd fds.existing ≡ false
      → drop_stream os fd p fds w ≡ panic
  unfolding drop_stream unregister_closed
  drop_stream-panic fd p fds w h = ground arith

  pub pipes-hangup :
      (fd : ℕ) (p : ChildPipes) (fds : PolledFdSet os.flags) (w : os.World)
      → IsApart p
      → is_child (pipes_stdio os) p fd ≡ true
      → has_fd fd fds.existing ≡ true
      → Returns (PipesGiveUp fd p fds) (Pipes.hangup os fd p fds w)
  unfolding Pipes.hangup
  pipes-hangup fd p fds w a c h = elim (Bool-cases (is_fd p.stdin fd)) [
    | inl e ↦
        rw (e, drop_stream_lem fd (record p { stdin = none }) fds w h)
          (refl, λ g. ground (arith, a g, is_fd-only p.stdin fd g e), λ g. ground (arith, a g))
    | inr e ↦ elim (Bool-cases (is_fd p.stdout fd)) [
      | inl k ↦
          rw (e, k, drop_stream_lem fd (record p { stdout = none }) fds w h)
            (refl, λ g. ground (arith, a g, is_fd-only p.stdout fd g k), λ g. ground (arith, a g))
      | inr k ↦
          let n : is_fd p.stderr fd ≡ true = ground arith in
          rw (e, k, n, drop_stream_lem fd (record p { stderr = none }) fds w h)
            (refl, λ g. ground (arith, a g, is_fd-only p.stderr fd g n), λ g. ground (arith, a g))
    ]
  ]

  abbrev pub pipes_laws : StdioLaws (pipes_stdio os)
  pipes_laws = record { IsApart = IsApart; hangup_lem = pipes-hangup }

  pub pty-hangup :
      (fd : ℕ) (p : ChildPty) (fds : PolledFdSet os.flags) (w : os.World)
      → is_child (pty_stdio os) p fd ≡ true
      → has_fd fd fds.existing ≡ true
      → Returns
          (λ t.
            (t.1 ≡ record fds { existing = remove_first fd fds.existing })
            × ((g : ℕ)
                → is_child (pty_stdio os) t.0 g
                  ≡ (if g == fd then false else is_child (pty_stdio os) p g))
            × Unit {0})
          (Pty.hangup os fd p fds w)
  unfolding Pty.hangup
  pty-hangup fd p fds w c h =
      let n : is_fd p.pty fd ≡ true = ground arith in
      let gone = unregister_closed_lem fd fds h in
      rw (n, gone) (refl, λ g. ground (arith, is_fd-only p.pty fd g n), tt)

  abbrev pub pty_laws : StdioLaws (pty_stdio os)
  pty_laws = record { IsApart = λ p. Unit {0}; hangup_lem = λ fd p fds w a. pty-hangup fd p fds w }
