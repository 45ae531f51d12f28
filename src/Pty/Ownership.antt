-- ===== src/Pty/Ownership.antt =====
-- src/pty.rs: who drops the master of the pseudo-terminal.
use iosock.Prelude.{
  ℕ, ◌≡◌, refl, ◌∙◌, ap, false, Option, none, some, List, ◌∷◌, if◌then◌else◌, Bool-cases, inl, inr,
  arith,
}
use iosock.Io.{Result, ok, err}
use iosock.Pty.Libc.{ℤ, is_minus_one, Libc, DropLaws}
use iosock.Pty.Open.{
  Call, PtyPair, checked, owning, opened, safe_openpt, safe_grantpt, safe_unlockpt, open_pty,
  safe_set_tty_size, safe_tcgetattr, safe_tcsetattr, safe_ptsname, named,
}
use iosock.Pty.Spawn.{changed, stop_translation, with_master, spawned, spawn}

module _ {libc : Libc} (laws : DropLaws libc) where
  -- The call drops `fd` if it fails, and drops nothing otherwise.
  abbrev pub DropsOnError : {A : Type 0} → ℤ → libc.World → Result A × libc.World → Type 0
  DropsOnError fd w (ok a, w') = laws.closed w' ≡ laws.closed w
  DropsOnError fd w (err e, w') = laws.closed w' ≡ fd ∷ laws.closed w

  owning-DropsOnError :
      {A : Type 0} (fd : ℤ) (w : libc.World) (r : Result (Unit {0}) × libc.World)
      (rest : Call libc A)
      → laws.closed r.1 ≡ laws.closed w
      → ((w' : libc.World) → laws.closed w' ≡ laws.closed w → DropsOnError fd w (rest w'))
      → DropsOnError fd w (owning libc fd r rest)
  owning-DropsOnError fd w (ok u, w') rest e h = h w' e
  owning-DropsOnError fd w (err x, w') rest e h = laws.closed-close fd w' ∙ ap (λ l. fd ∷ l) e

  checked_keeps :
      {A : Type 0} (a : A) (r : ℤ × libc.World) → laws.closed (checked libc a r).1 ≡ laws.closed r.1
  unfolding checked
  checked_keeps a (n, w) = ground arith

  changed_keeps :
      (fd : ℤ) (r : Result libc.Termios × libc.World)
      → laws.closed (changed libc fd r).1 ≡ laws.closed r.1
  unfolding safe_tcsetattr
  changed_keeps fd (err e, w) = refl
  changed_keeps fd (ok t, w) =
      checked_keeps tt (libc.tcsetattr fd (libc.without_onlcr t) w)
      ∙ laws.closed-tcsetattr fd (libc.without_onlcr t) w

  stop_translation_keeps :
      (fd : ℤ) (w : libc.World) → laws.closed (stop_translation libc fd w).1 ≡ laws.closed w
  unfolding stop_translation safe_tcgetattr
  stop_translation_keeps fd w =
      changed_keeps fd (safe_tcgetattr libc fd w)
      ∙ checked_keeps (libc.tcgetattr fd w).1 ((libc.tcgetattr fd w).0, (libc.tcgetattr fd w).2)
      ∙ laws.closed-tcgetattr fd w

  named_keeps : (r : Option (List ℕ) × libc.World) → laws.closed (named libc r).1 ≡ laws.closed r.1
  named_keeps (none, w) = refl
  named_keeps (some n, w) = refl

  with_master-DropsOnError :
      (fd : ℤ) (w : libc.World) (r : Result libc.Child × libc.World)
      → laws.closed r.1 ≡ laws.closed w
      → DropsOnError fd w (with_master libc fd r)
  with_master-DropsOnError fd w (ok child, w') e = e
  with_master-DropsOnError fd w (err x, w') e = laws.closed-close fd w' ∙ ap (λ l. fd ∷ l) e

  spawned-DropsOnError :
      (fd : ℤ) (w : libc.World) (r : Result (List ℕ) × libc.World)
      → laws.closed r.1 ≡ laws.closed w
      → DropsOnError fd w (spawned libc fd r)
  spawned-DropsOnError fd w (err x, w') e = laws.closed-close fd w' ∙ ap (λ l. fd ∷ l) e
  spawned-DropsOnError fd w (ok n, w') e =
      with_master-DropsOnError fd w (libc.spawn n w') (laws.closed-spawn n w' ∙ e)

  -- `spawn` drops the master exactly once if any of its calls fails, and not at all if it returns
  -- the child.
  pub spawn-DropsOnError : (p : PtyPair) (w : libc.World) → DropsOnError p.master w (spawn libc p w)
  unfolding spawn safe_set_tty_size safe_ptsname
  spawn-DropsOnError p w =
      owning-DropsOnError p.master w (safe_set_tty_size libc p.master p.winsize w) _
        (checked_keeps tt (libc.set_winsize p.master p.winsize w)
          ∙ laws.closed-set_winsize p.master p.winsize w)
        (λ w' e.
          owning-DropsOnError p.master w (stop_translation libc p.master w') _
            (stop_translation_keeps p.master w' ∙ e)
            (λ w'' e'.
              spawned-DropsOnError p.master w (safe_ptsname libc p.master w'')
                (named_keeps (libc.ptsname p.master w'') ∙ laws.closed-ptsname p.master w'' ∙ e')))

  -- What is asked of `open_pty` once `posix_openpt` returned `fd`: a pair with that master and
  -- nothing dropped, or an error and the master dropped, if there is one.
  abbrev pub OpensOrDrops : ℤ → libc.World → Result PtyPair × libc.World → Type 0
  OpensOrDrops fd w (ok p, w') =
      (is_minus_one fd ≡ false) × (p.master ≡ fd) × (laws.closed w' ≡ laws.closed w)
  OpensOrDrops fd w (err e, w') =
      laws.closed w' ≡ (if is_minus_one fd then laws.closed w else fd ∷ laws.closed w)

  owning-OpensOrDrops :
      (fd : ℤ) (w : libc.World) (r : Result (Unit {0}) × libc.World) (rest : Call libc PtyPair)
      → is_minus_one fd ≡ false
      → laws.closed r.1 ≡ laws.closed w
      → ((w' : libc.World) → laws.closed w' ≡ laws.closed w → OpensOrDrops fd w (rest w'))
      → OpensOrDrops fd w (owning libc fd r rest)
  owning-OpensOrDrops fd w (ok u, w') rest n e h = h w' e
  owning-OpensOrDrops fd w (err x, w') rest n e h =
      rw n (laws.closed-close fd w' ∙ ap (λ l. fd ∷ l) e)

  opened-OpensOrDrops :
      (w : libc.World) (fd : ℤ) (w' : libc.World)
      → laws.closed w' ≡ laws.closed w
      → OpensOrDrops fd w (opened libc (checked libc fd (fd, w')))
  unfolding checked safe_grantpt safe_unlockpt
  opened-OpensOrDrops w fd w' e = elim (Bool-cases (is_minus_one fd)) [
    | inl t ↦ rw t (rw t e)
    | inr t ↦ rw t (
        owning-OpensOrDrops fd w (safe_grantpt libc fd w') _ t
          (checked_keeps tt (libc.grantpt fd w') ∙ laws.closed-grantpt fd w' ∙ e)
          (λ v k.
            owning-OpensOrDrops fd w (safe_unlockpt libc fd v) _ t
              (checked_keeps tt (libc.unlockpt fd v) ∙ laws.closed-unlockpt fd v ∙ k)
              (λ v' k'. (t, refl, k'))))
  ]

  -- `open_pty` returns the descriptor that `posix_openpt` opened and drops nothing, or it fails,
  -- and then it has dropped that descriptor exactly once, if one was opened, and nothing else.
  pub open_pty-OpensOrDrops :
      (w : libc.World) → OpensOrDrops (libc.posix_openpt w).0 w (open_pty libc w)
  unfolding open_pty safe_openpt
  open_pty-OpensOrDrops w =
      opened-OpensOrDrops w (libc.posix_openpt w).0 (libc.posix_openpt w).1 (laws.closed-openpt w)
