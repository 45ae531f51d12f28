-- ===== src/Signals/Laws.antt =====
-- src/signals.rs, `kill_child_on_signal`, against the handlers that the process has.
use iosock.Prelude.{
  ℕ, ◌≡◌, ◌⊎◌, refl, ◌∙◌, Bool, true, false, ◌||◌, Option, some, ◌==◌, if◌then◌else◌, Bool-cases,
  inl, inr, arith,
}
use iosock.Io.{Result, ok, err}
use iosock.Pty.Libc.{ℤ}
use iosock.Signals.{
  on_terminate_signal, Action, SignalCalls, is_zero, and_then, Process, run_handler, safe_sigaddset,
  safe_sigaction, terminate_mask, install_all, kill_child_on_signal,
}

-- What sigaddset(3) and sigaction(2) say: a call that returns 0 has done what it is for, and one
-- that fails has changed no handler.
pub record SignalLaws (calls : SignalCalls) : Type 0 where
  pub handler : calls.World → ℕ → Option (Action calls.Sigset)
  pub member : calls.Sigset → ℕ → Bool
  pub member-sigaddset :
      (m : calls.Sigset) (s : ℕ) (w : calls.World)
      → let r = calls.sigaddset m s w in
        is_zero r.0 ≡ true → (g : ℕ) → member r.1 g ≡ (g == s || member m g)
  pub handler-sigaddset :
      (m : calls.Sigset) (s : ℕ) (w : calls.World) (g : ℕ)
      → handler (calls.sigaddset m s w).2 g ≡ handler w g
  pub handler-sigaction :
      (s : ℕ) (a : Action calls.Sigset) (w : calls.World) (g : ℕ)
      → let r = calls.sigaction s a w in
        handler r.1 g
        ≡ (if is_zero r.0 then (if g == s then some a else handler w g) else handler w g)

-- What is asked of a call's answer and of the state it leaves, by how it ended.
abbrev pub Post : {A W : Type 0} → (A → W → Type 0) → (W → Type 0) → Result A × W → Type 0
Post P E (ok a, w) = P a w
Post P E (err e, w) = E w

and_then-Post :
    {A B W : Type 0} (P : A → W → Type 0) (Q : B → W → Type 0) (E : W → Type 0) (r : Result A × W)
    (f : A → W → Result B × W)
    → Post P E r
    → ((a : A) (w : W) → P a w → Post Q E (f a w))
    → Post Q E (and_then r f)
and_then-Post P Q E (ok a, w) f h k = k a w h
and_then-Post P Q E (err e, w) f h k = h

Post-weaken :
    {A W : Type 0} (P P' : A → W → Type 0) (E E' : W → Type 0) (r : Result A × W)
    → ((a : A) (w : W) → P a w → P' a w)
    → ((w : W) → E w → E' w)
    → Post P E r
    → Post P' E' r
Post-weaken P P' E E' (ok a, w) f k h = f a w h
Post-weaken P P' E E' (err e, w) f k h = k w h

module _ {calls : SignalCalls} (laws : SignalLaws calls) where
  abbrev Same : calls.World → calls.World → Type 0
  Same w w' = (g : ℕ) → laws.handler w' g ≡ laws.handler w g

  -- SIGHUP, SIGTERM and SIGINT
  abbrev pub is_termination : ℕ → Bool
  is_termination g = g == calls.sighup || (g == calls.sigterm || g == calls.sigint)

  -- The action kills the child, and holds back all three signals while it runs.
  abbrev pub Terminates : Action calls.Sigset → Type 0
  Terminates a =
      (a.sa_sigaction ≡ on_terminate_signal)
      × ((g : ℕ) → is_termination g ≡ true → laws.member a.sa_mask g ≡ true)

  -- The signals of `some_of` have the action, the others what they had.
  abbrev Installed : (ℕ → Bool) → Action calls.Sigset → calls.World → calls.World → Type 0
  Installed some_of a w w' =
      (g : ℕ) → laws.handler w' g ≡ (if some_of g then some a else laws.handler w g)

  -- After a failure each signal has what it had, or is one of the three and has the action.
  abbrev pub PartlyInstalled : calls.World → calls.World → Type 0
  PartlyInstalled w w' =
      (g : ℕ)
      → (laws.handler w' g ≡ laws.handler w g)
        ⊎ (a : Action calls.Sigset) × (laws.handler w' g ≡ some a)
          × Terminates a
          × (is_termination g ≡ true)

  safe_sigaddset-Post :
      (m : calls.Sigset) (s : ℕ) (w : calls.World)
      → Post
          (λ m' w'. ((g : ℕ) → laws.member m' g ≡ (g == s || laws.member m g)) × Same w w')
          (λ w'. Same w w')
          (safe_sigaddset calls m s w)
  unfolding safe_sigaddset
  safe_sigaddset-Post m s w = elim (Bool-cases (is_zero (calls.sigaddset m s w).0)) [
    | inl e ↦ rw e (laws.member-sigaddset m s w e, laws.handler-sigaddset m s w)
    | inr e ↦ rw e (laws.handler-sigaddset m s w)
  ]

  safe_sigaction-Post :
      (s : ℕ) (a : Action calls.Sigset) (w : calls.World)
      → Post (λ u w'. Installed (λ g. g == s) a w w') (λ w'. Same w w') (safe_sigaction calls s a w)
  unfolding safe_sigaction
  safe_sigaction-Post s a w = elim (Bool-cases (is_zero (calls.sigaction s a w).0)) [
    | inl e ↦ rw e (λ g. laws.handler-sigaction s a w g ∙ rw e refl)
    | inr e ↦ rw e (λ g. laws.handler-sigaction s a w g ∙ rw e refl)
  ]

  -- The set `m` has the signals of `some_of`, and no handler has changed.
  abbrev Masked : (ℕ → Bool) → calls.World → calls.Sigset → calls.World → Type 0
  Masked some_of w m w' = ((g : ℕ) → some_of g ≡ true → laws.member m g ≡ true) × Same w w'

  add_signal :
      (some_of : ℕ → Bool) (s : ℕ) (w : calls.World) (m : calls.Sigset) (w' : calls.World)
      → Masked some_of w m w'
      → Post (Masked (λ g. some_of g || g == s) w) (Same w) (safe_sigaddset calls m s w')
  add_signal some_of s w m w' (h, k) =
      Post-weaken _ (Masked (λ g. some_of g || g == s) w) (Same w') (Same w) _
        (λ m'' w'' (x, y). (λ g e. x g ∙ ground (arith, h g, e), λ g. y g ∙ k g))
        (λ w'' y g. y g ∙ k g) (safe_sigaddset-Post m s w')

  terminate_mask-Post :
      (w : calls.World) → Post (Masked is_termination w) (Same w) (terminate_mask calls w)
  unfolding terminate_mask
  terminate_mask-Post w =
      and_then-Post (Masked (λ g. g == calls.sighup) w) (Masked is_termination w) (Same w) _ _
        (Post-weaken _ (Masked (λ g. g == calls.sighup) w) (Same w) (Same w) _ (λ m w' h. h)
          (λ w' h. h)
          (add_signal (λ g. false) calls.sighup w calls.zeroed w (λ g e. cc, λ g. refl)))
        (λ m w' h.
          and_then-Post (Masked (λ g. g == calls.sighup || g == calls.sigterm) w)
            (Masked is_termination w) (Same w) _ _
            (add_signal (λ g. g == calls.sighup) calls.sigterm w m w' h)
            (λ m'' w'' h'.
              Post-weaken _ (Masked is_termination w) (Same w) (Same w) _
                (λ m3 w3 (x, y). (λ g e. x g (ground arith), y)) (λ w3 y. y)
                (add_signal (λ g. g == calls.sighup || g == calls.sigterm) calls.sigint w m'' w''
                  h')))

  part :
      (some_of : ℕ → Bool) (a : Action calls.Sigset) (w w' : calls.World)
      → Terminates a
      → ((g : ℕ) → some_of g ≡ true → is_termination g ≡ true)
      → Installed some_of a w w'
      → PartlyInstalled w w'
  part some_of a w w' t h i g = elim (Bool-cases (some_of g)) [
    | inl e ↦ inr (a, i g ∙ rw e refl, t, h g e)
    | inr e ↦ inl (i g ∙ rw e refl)
  ]

  install_one :
      (some_of : ℕ → Bool) (s : ℕ) (a : Action calls.Sigset) (w w' : calls.World)
      → Terminates a
      → ((g : ℕ) → some_of g ≡ true → is_termination g ≡ true)
      → Installed some_of a w w'
      → Post
          (λ u. Installed (λ g. some_of g || g == s) a w)
          (PartlyInstalled w)
          (safe_sigaction calls s a w')
  install_one some_of s a w w' t h i =
      Post-weaken _ (λ u. Installed (λ g. some_of g || g == s) a w) (Same w') (PartlyInstalled w) _
        (λ u w'' x g. x g ∙ ground (arith, i g))
        (λ w'' x. part some_of a w w'' t h (λ g. x g ∙ i g)) (safe_sigaction-Post s a w')

  install_all-Post :
      (a : Action calls.Sigset) (w w' : calls.World)
      → Terminates a
      → Same w w'
      → Post (λ u. Installed is_termination a w) (PartlyInstalled w) (install_all calls a w')
  unfolding install_all
  install_all-Post a w w' t h =
      and_then-Post (λ u. Installed (λ g. g == calls.sighup) a w)
        (λ u. Installed is_termination a w) (PartlyInstalled w) _ _
        (install_one (λ g. false) calls.sighup a w w' t (λ g e. cc) h)
        (λ u w1 h1.
          and_then-Post (λ u. Installed (λ g. g == calls.sighup || g == calls.sigterm) a w)
            (λ u. Installed is_termination a w) (PartlyInstalled w) _ _
            (install_one (λ g. g == calls.sighup) calls.sigterm a w w1 t (λ g e. ground arith) h1)
            (λ u w2 h2.
              Post-weaken _ (λ u. Installed is_termination a w) (PartlyInstalled w)
                (PartlyInstalled w) _ (λ u w3 x g. x g ∙ ground arith) (λ w3 x. x)
                (install_one (λ g. g == calls.sighup || g == calls.sigterm) calls.sigint a w w2 t
                  (λ g e. ground arith) h2)))

  -- The action that each of the three signals has sends SIGTERM to the child when it is run.
  abbrev pub KillsChild : ℤ → Process calls → ℕ → Type 0
  KillsChild child_pid s g =
      (a : Action calls.Sigset) × (laws.handler s.world g ≡ some a)
      × Terminates a
      × (run_handler calls a.sa_sigaction s
          ≡ record s { world = calls.kill child_pid calls.sigterm s.world })

  abbrev pub Registered : ℤ → calls.World → Result (Unit {0}) × Process calls → Type 0
  Registered child_pid w (ok u, s) =
      ((g : ℕ) → is_termination g ≡ true → KillsChild child_pid s g)
      × ((g : ℕ) → is_termination g ≡ false → laws.handler s.world g ≡ laws.handler w g)
  Registered child_pid w (err e, s) = PartlyInstalled w s.world

  kills :
      (child_pid : ℤ) (a : Action calls.Sigset) (w : calls.World)
      → Terminates a
      → run_handler calls a.sa_sigaction (record { child_pid = child_pid; world = w })
        ≡ record { child_pid = child_pid; world = calls.kill child_pid calls.sigterm w }
  unfolding run_handler
  kills child_pid a w t = rw t.0 refl

  installed :
      (child_pid : ℤ) (w : calls.World) (m : calls.Sigset) (w' : calls.World)
      → Masked is_termination w m w'
      → let a : Action calls.Sigset = record { sa_sigaction = on_terminate_signal; sa_mask = m } in
        Post
          (λ u w''. Registered child_pid w (ok u, record { child_pid = child_pid; world = w'' }))
          (PartlyInstalled w)
          (install_all calls a w')
  installed child_pid w m w' h =
      let a : Action calls.Sigset = record { sa_sigaction = on_terminate_signal; sa_mask = m } in
      Post-weaken (λ u. Installed is_termination a w) _ (PartlyInstalled w) (PartlyInstalled w)
        (install_all calls a w')
        (λ u w'' i. (
          λ g e. (a, i g ∙ rw e refl, (refl, h.0), kills child_pid a w'' (refl, h.0)),
          λ g e. i g ∙ rw e refl,
        ))
        (λ w'' x. x) (install_all-Post a w w' (refl, h.0) h.1)

  Registered-Post :
      (child_pid : ℤ) (w : calls.World) (r : Result (Unit {0}) × calls.World)
      → Post
          (λ u w''. Registered child_pid w (ok u, record { child_pid = child_pid; world = w'' }))
          (PartlyInstalled w)
          r
      → Registered child_pid w (r.0, record { child_pid = child_pid; world = r.1 })
  Registered-Post child_pid w (ok u, w') h = h
  Registered-Post child_pid w (err e, w') h = h

  -- If `kill_child_on_signal` returns, SIGHUP, SIGTERM and SIGINT have a handler that sends SIGTERM
  -- to the child and holds back all three signals while it runs, and no other signal has changed.
  -- If it fails, each of the three has such a handler or what it had before, and the others what
  -- they had.
  pub kill_child_on_signal_lem :
      (child_pid : ℤ) (s : Process calls)
      → Registered child_pid s.world (kill_child_on_signal calls child_pid s)
  unfolding kill_child_on_signal
  kill_child_on_signal_lem child_pid s =
      let then_install : calls.Sigset → calls.World → Result (Unit {0}) × calls.World =
        λ m w'. install_all calls (record { sa_sigaction = on_terminate_signal; sa_mask = m }) w' in
      Registered-Post child_pid s.world (and_then (terminate_mask calls s.world) then_install) (
        and_then-Post (Masked is_termination s.world) _ (PartlyInstalled s.world)
          (terminate_mask calls s.world) then_install
          (Post-weaken (Masked is_termination s.world) (Masked is_termination s.world)
            (Same s.world) (PartlyInstalled s.world) (terminate_mask calls s.world) (λ m w' h. h)
            (λ w' h g. inl (h g)) (terminate_mask-Post s.world))
          (λ m w' h. installed child_pid s.world m w' h))
