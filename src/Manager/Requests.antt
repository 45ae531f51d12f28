-- ===== src/Manager/Requests.antt =====
-- src/io.rs: the manager's requests for the streams that it owns.
use iosock.Prelude.{
  ℕ, ◌≡◌, refl, sym, ◌∙◌, ap, Bool, true, false, ◌||◌, Option, none, some, Bool-cases, inl, inr,
  ==_refl, arith,
}
use iosock.Buffer.{discard}
use iosock.Buffer.Drain.{discard_lem}
use iosock.Channel.{Context, pure}
use iosock.Channel.After.{After, After-then}
use iosock.Channel.Pending.{has_bytes, has_bytes-discard}
use iosock.Polled.{has_fd, poll_for_write}
use iosock.Polled.Asks.{tuned}
use iosock.Os.Laws.{OsLaws}
use iosock.Os.{Os}
use iosock.Stdio.{ChildStdio}
use iosock.Stdio.Pipes.{is_fd}
use iosock.Manager.{
  IosockChannelManager, UnixClient, is_client, is_child, primary_output, poll_read, poll_write,
  request_output_some, request_primary_output_writable, discard_out,
}
use iosock.Manager.Served.{StreamLaws}
use iosock.Manager.Attends.{
  Attends, Attends-weaken, Attends-no_output, Attends-buffers, IsSound, IsNewcomer,
}
use iosock.Manager.Polling.{
  poll_write-Attends, poll_write_lem, poll_write_panics, poll_read-Attends, poll_read_lem,
}

pub is_fd-same : (o : Option ℕ) (g fd : ℕ) → is_fd o fd ≡ true → is_fd o g ≡ true → g ≡ fd
is_fd-same none g fd h k = cc
is_fd-same (some x) g fd h k = ground arith

pub primary-cases :
    (o : Option UnixClient) (console : Option ℕ) (fd : ℕ)
    → is_fd (primary_output o console) fd ≡ true
    → (is_client o fd || is_fd console fd) ≡ true
primary-cases none console fd h = h
primary-cases (some x) console fd h = ground arith

module _ {os : Os} {S : Type 0} {system : OsLaws os} {io : ChildStdio os S}
    (laws : StreamLaws system io) where
  -- The descriptor is in the set, or it is that of a client that has just been taken.
  abbrev pub IsPolled : ℕ → Context os (IosockChannelManager S) → Type 0
  IsPolled fd c = has_fd fd c.fd_set.existing ≡ false → IsNewcomer laws c

  pub client-IsPolled :
      {po pi : Bool} (fd : ℕ) (c : Context os (IosockChannelManager S))
      → Attends laws po pi c
      → is_client c.mgr.client_socket fd ≡ true
      → IsPolled fd c
  client-IsPolled fd c h e n = (fd, e, ground (arith, h.client_in fd e))

  output-IsPolled :
      {po pi : Bool} (fd : ℕ) (c : Context os (IosockChannelManager S))
      → Attends laws po pi c
      → is_fd (primary_output c.mgr.client_socket c.mgr.console) fd ≡ true
      → IsPolled fd c
  output-IsPolled fd c h e = elim (Bool-cases (is_client c.mgr.client_socket fd)) [
    | inl k ↦ client-IsPolled fd c h k
    | inr k ↦ λ n.
        ground (arith, primary-cases c.mgr.client_socket c.mgr.console fd e, h.wired.registered fd)
  ]

  -- No stream is at once the child's and the primary output.
  pub output_apart :
      {po pi : Bool} (fd : ℕ) (c : Context os (IosockChannelManager S))
      → Attends laws po pi c
      → is_fd (primary_output c.mgr.client_socket c.mgr.console) fd ≡ true
      → is_child io c.mgr.child fd ≡ false
  output_apart fd c h e = ground (
    arith,
    primary-cases c.mgr.client_socket c.mgr.console fd e,
    h.client_off fd,
    h.wired.child_apart fd,
  )

  request-After :
      (fd : ℕ) (b : Bool) (c : Context os (IosockChannelManager S))
      → IsPolled fd c
      → (has_fd fd c.fd_set.existing ≡ true
          → IsSound laws (record c { fd_set = tuned fd (poll_for_write os.flags b) c.fd_set }))
      → After (IsNewcomer laws) (λ u d. IsSound laws d) (poll_write io fd b c)
  request-After fd b c n h = elim (Bool-cases (has_fd fd c.fd_set.existing)) [
    | inl k ↦ rw (poll_write_lem laws fd b c k) (h k)
    | inr k ↦ rw (poll_write_panics laws fd b c k) (n k)
  ]

  -- The primary output is woken.
  pub wake_output :
      (fd : ℕ) {po : Bool} (c : Context os (IosockChannelManager S))
      → Attends laws po (has_bytes c.mgr.in_buffer) c
      → is_fd (primary_output c.mgr.client_socket c.mgr.console) fd ≡ true
      → After (IsNewcomer laws) (λ u d. IsSound laws d) (poll_write io fd true c)
  wake_output fd c h e = request-After fd true c (output-IsPolled fd c h e) (λ k.
      poll_write-Attends laws fd true c h k (λ x y. refl) (λ x y. refl)
        (λ g n x y.
          absurd (n (is_fd-same (primary_output c.mgr.client_socket c.mgr.console) g fd e x)))
        (λ g n x y. y))

  -- The child's stdin is woken.
  pub wake_input :
      (fd : ℕ) {pi : Bool} (c : Context os (IosockChannelManager S))
      → Attends laws (has_bytes c.mgr.out_buffer) pi c
      → is_fd (io.stdin_fd c.mgr.child) fd ≡ true
      → After (IsNewcomer laws) (λ u d. IsSound laws d) (poll_write io fd true c)
  wake_input fd c h e =
      request-After fd true c (λ n. ground (arith, h.wired.registered fd))
        (λ k.
          poll_write-Attends laws fd true c h k (λ x y. refl) (λ x y. refl) (λ g n x y. y)
            (λ g n x y. absurd (n (is_fd-same (io.stdin_fd c.mgr.child) g fd e x))))

  -- A stream for which no bytes wait is polled for writes no more.
  pub rest_stream :
      (fd : ℕ) (c : Context os (IosockChannelManager S))
      → IsSound laws c
      → IsPolled fd c
      → (is_fd (primary_output c.mgr.client_socket c.mgr.console) fd ≡ true
          → has_bytes c.mgr.out_buffer ≡ false)
      → (is_fd (io.stdin_fd c.mgr.child) fd ≡ true → has_bytes c.mgr.in_buffer ≡ false)
      → After (IsNewcomer laws) (λ u d. IsSound laws d) (poll_write io fd false c)
  rest_stream fd c h n f g = request-After fd false c n (λ k.
      poll_write-Attends laws fd false c h k (λ x y. sym (f x) ∙ y) (λ x y. sym (g x) ∙ y)
        (λ k n x y. y) (λ k n x y. y))

  pub stop_reads :
      (fd : ℕ) (c : Context os (IosockChannelManager S))
      → IsSound laws c
      → IsPolled fd c
      → After (IsNewcomer laws) (λ u d. IsSound laws d) (poll_read io fd false c)
  stop_reads fd c h n = elim (Bool-cases (has_fd fd c.fd_set.existing)) [
    | inl k ↦ rw (poll_read_lem laws fd false c, k) (poll_read-Attends laws fd c h)
    | inr k ↦ rw (poll_read_lem laws fd false c, k) (n k)
  ]

  -- The primary output, if there is one, is asked for.
  pub request_output-After :
      {po : Bool} (c : Context os (IosockChannelManager S))
      → Attends laws po (has_bytes c.mgr.in_buffer) c
      → After (IsNewcomer laws) (λ b d. IsSound laws d) (request_primary_output_writable io c)
  unfolding request_primary_output_writable
  request_output-After c h = asked (primary_output c.mgr.client_socket c.mgr.console) refl
    where
      asked :
          (o : Option ℕ)
          → primary_output c.mgr.client_socket c.mgr.console ≡ o
          → After (IsNewcomer laws) (λ b d. IsSound laws d) (request_output_some io o c)
      asked none e = Attends-no_output laws h e
      asked (some fd) e =
          After-then (IsNewcomer laws) (λ d. IsSound laws d) (λ b d. IsSound laws d)
            (poll_write io fd true) (pure true) c
            (wake_output fd c h (ap (λ x. is_fd x fd) e ∙ ==_refl fd)) (λ d k. k)

  -- What waits of the output may be discarded at any time.
  pub discard_out-IsSound :
      (b : Bool) (c : Context os (IosockChannelManager S))
      → IsSound laws c
      → After (IsNewcomer laws) (λ u d. IsSound laws d) (discard_out io b c)
  discard_out-IsSound false c h = h
  discard_out-IsSound true c h =
      Attends-weaken laws
        (Attends-buffers laws c.mgr.in_buffer (discard c.mgr.out_buffer).1 c.world h h.in_valid
          (discard_lem c.mgr.out_buffer h.out_valid).0 (λ g. refl))
        (has_bytes-discard c.mgr.out_buffer h.out_valid) (λ e. e)
