-- ===== src/Manager/Polling.antt =====
-- src/io.rs: the manager's requests to the set, against its invariant.
use iosock.Prelude.{
  ℕ, ◌≡◌, ◌≢◌, sym, ◌∙◌, ap, Bool, true, false, ◌==◌, if◌then◌else◌, Bool-cases, inl, inr, ==_iff,
  arith,
}
use iosock.Outcome.{done, panic}
use iosock.Channel.{Context}
use iosock.Polled.{PolledFdSet, has_fd, modify, poll_for_read, poll_for_write}
use iosock.Polled.Lookup.{IsDistinct-modify, fd-poll_for_read, fd-poll_for_write}
use iosock.Polled.Asks.{
  wants_out, asks_out-set, asks_out-stop, IsTuned, tuned, tuned-IsTuned, event-poll_for_read,
  event-poll_for_write,
}
use iosock.Polled.Lookup.{has_fd-modify_first}
use iosock.Os.Laws.{OsLaws}
use iosock.Os.{Os}
use iosock.Stdio.{ChildStdio}
use iosock.Stdio.Pipes.{is_fd}
use iosock.Manager.{IosockChannelManager, primary_output, poll_read, poll_write}
use iosock.Manager.Served.{StreamLaws}
use iosock.Manager.Attends.{Attends, Attends-masks}

module _ {os : Os} {S : Type 0} {system : OsLaws os} {io : ChildStdio os S}
    (laws : StreamLaws system io) where
  pub wants_out-write :
      (b : Bool) (fd : ℕ) (s : PolledFdSet os.flags)
      → has_fd fd s.existing ≡ true
      → wants_out fd (tuned fd (poll_for_write os.flags b) s) ≡ b
  wants_out-write b fd s h = ground (
    arith,
    has_fd-modify_first fd fd (poll_for_write os.flags b) s.existing (fd-poll_for_write b),
    asks_out-set system.flags b fd s.existing h,
  )

  wants_out-read_stop :
      (fd : ℕ) (s : PolledFdSet os.flags)
      → wants_out fd (tuned fd (poll_for_read os.flags false) s) ≡ wants_out fd s
  wants_out-read_stop fd s = ground (
    arith,
    has_fd-modify_first fd fd (poll_for_read os.flags false) s.existing (fd-poll_for_read false),
    asks_out-stop system.flags fd s.existing,
  )

  pub poll_write_lem :
      (fd : ℕ) (b : Bool) (c : Context os (IosockChannelManager S))
      → has_fd fd c.fd_set.existing ≡ true
      → poll_write io fd b c
        ≡ (done tt, record c { fd_set = tuned fd (poll_for_write os.flags b) c.fd_set })
  unfolding modify
  poll_write_lem fd b c h = ground arith

  -- A stream that is in the set is polled for writes, or is not, as asked. It must not be stopped
  -- while bytes wait for it.
  pub poll_write-Attends :
      (fd : ℕ) (b : Bool) {po pi po' pi' : Bool} (c : Context os (IosockChannelManager S))
      → Attends laws po pi c
      → has_fd fd c.fd_set.existing ≡ true
      → (is_fd (primary_output c.mgr.client_socket c.mgr.console) fd ≡ true → po' ≡ true → b ≡ true)
      → (is_fd (io.stdin_fd c.mgr.child) fd ≡ true → pi' ≡ true → b ≡ true)
      → ((g : ℕ)
          → g ≢ fd
          → is_fd (primary_output c.mgr.client_socket c.mgr.console) g ≡ true
          → po' ≡ true
          → po ≡ true)
      → ((g : ℕ) → g ≢ fd → is_fd (io.stdin_fd c.mgr.child) g ≡ true → pi' ≡ true → pi ≡ true)
      → Attends laws po' pi' (record c { fd_set = tuned fd (poll_for_write os.flags b) c.fd_set })
  poll_write-Attends fd b {po} {pi} {po'} {pi'} c h k f g f' g' =
      Attends-masks laws fd s h
        (IsDistinct-modify fd (poll_for_write os.flags b) c.fd_set.existing (fd-poll_for_write b)
          h.wired.distinct)
        t
        (λ x e p.
          at_both x
            (λ q.
              wants_out-write b fd c.fd_set k
              ∙ f (ap (λ y. is_fd (primary_output c.mgr.client_socket c.mgr.console) y) (sym q) ∙ e)
                  p)
            (λ n. h.out_wants x e (f' x n e p)))
        (λ x e p.
          at_both x
            (λ q.
              wants_out-write b fd c.fd_set k
              ∙ g (ap (λ y. is_fd (io.stdin_fd c.mgr.child) y) (sym q) ∙ e) p)
            (λ n. h.in_wants x e (g' x n e p)))
    where
      s : PolledFdSet os.flags
      s = tuned fd (poll_for_write os.flags b) c.fd_set

      t : IsTuned fd c.fd_set s
      t =
          tuned-IsTuned fd (poll_for_write os.flags b) c.fd_set (fd-poll_for_write b)
            (event-poll_for_write b)

      at_both :
          (x : ℕ)
          → (x ≡ fd → wants_out fd s ≡ true)
          → (x ≢ fd → wants_out x c.fd_set ≡ true)
          → wants_out x s ≡ true
      at_both x l r = elim (Bool-cases (x == fd)) [
        | inl e ↦ let q = (==_iff x fd).0 e in ap (λ y. wants_out y s) q ∙ l q
        | inr e ↦ let n : x ≢ fd = ground arith in t.same_wants x n ∙ r n
      ]

  -- A request of a stream that is not in the set panics.
  pub poll_write_panics :
      (fd : ℕ) (b : Bool) (c : Context os (IosockChannelManager S))
      → has_fd fd c.fd_set.existing ≡ false
      → poll_write io fd b c ≡ (panic, c)
  unfolding modify
  poll_write_panics fd b c h = ground arith

  pub poll_read_lem :
      (fd : ℕ) (b : Bool) (c : Context os (IosockChannelManager S))
      → poll_read io fd b c ≡ (
          if has_fd fd c.fd_set.existing
          then (done tt, record c { fd_set = tuned fd (poll_for_read os.flags b) c.fd_set })
          else (panic, c))
  unfolding modify
  poll_read_lem fd b c = ground arith

  pub poll_read-Attends :
      (fd : ℕ) {po pi : Bool} (c : Context os (IosockChannelManager S))
      → Attends laws po pi c
      → Attends laws po pi (record c { fd_set = tuned fd (poll_for_read os.flags false) c.fd_set })
  poll_read-Attends fd c h =
      Attends-masks laws fd s h
        (IsDistinct-modify fd (poll_for_read os.flags false) c.fd_set.existing
          (fd-poll_for_read false) h.wired.distinct)
        t (λ x e p. same x ∙ h.out_wants x e p) (λ x e p. same x ∙ h.in_wants x e p)
    where
      s : PolledFdSet os.flags
      s = tuned fd (poll_for_read os.flags false) c.fd_set

      t : IsTuned fd c.fd_set s
      t =
          tuned-IsTuned fd (poll_for_read os.flags false) c.fd_set (fd-poll_for_read false)
            (event-poll_for_read false)

      same : (x : ℕ) → wants_out x s ≡ wants_out x c.fd_set
      same x = elim (Bool-cases (x == fd)) [
        | inl e ↦ rw ((==_iff x fd).0 e) (wants_out-read_stop fd c.fd_set)
        | inr e ↦ t.same_wants x (ground arith)
      ]
