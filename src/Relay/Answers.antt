-- ===== src/Relay/Answers.antt =====
-- src/io.rs: what the handlers of the manager do once the bytes of a transfer have moved.
use mathlib.Core.Path.{subst}
use mathlib.Core.List.{Sublistᴰ, append-nil}
use mathlib.Core.List.Sublistᴰ as Sublist
use iosock.Prelude.{
  ℕ, ◌≡◌, refl, sym, ap, ◌∙◌, Bool, true, false, not, Option, none, some, ltb, arith, slice, take,
}
use iosock.Io.{Result, ok, err}
use iosock.Outcome.{of_result}
use iosock.Buffer.{
  FlipBuffer, BufferStateChange, became_empty, became_non_empty, writable_size, discard,
}
use iosock.Buffer.Contents.{IsValid, contents}
use iosock.Buffer.Drain.{discard_lem}
use iosock.Channel.{Context, M, ◌>>=◌, pure}
use iosock.Channel.After.{After, After-bind, After-if}
use iosock.Polled.{register, modify, poll_for_read, poll_for_write}
use iosock.Os.{Os}
use iosock.Stdio.{ChildStdio}
use iosock.Manager.{
  IosockChannelManager, UnixClient, read_only, write_only, is_some, set_availability,
  primary_output, poll_read, poll_write, set_client, discard_out, request_output_some,
  request_primary_output_writable, on_hangup,
}
use iosock.Manager.Handlers.{
  client_as, is_read_only_client, is_write_only_client, accept, promote, accept_client,
  end_client_reads, wake_stdin, client_read_done, output_read_done, end_client_writes,
  client_write_done, console_write_done, stdin_write_done,
}
use iosock.Relay.{LogLaws, IsAttached}
use iosock.Relay.Streams.{RelayLaws}
use iosock.Relay.Settling.{
  Anywhere, Settles, Settles-trans, alike, Settles-refl, Settling, Settling-bind, Settling-pure,
  Settling-on_set, Settling-poll_write_some, Settling-set_client, Settling-close_fd,
  Settling-on_hangup,
}

no_output :
    (o : Option UnixClient) (console : Option ℕ)
    → primary_output o console ≡ none
    → is_some console ≡ true
    → ⊥
no_output none none e k = cc
no_output none (some fd) e k = cc
no_output (some x) console e k = cc

module _ {os : Os} {S : Type 0} {logs : LogLaws os} {io : ChildStdio os S}
    (laws : RelayLaws logs io) where
  discard-Sublist :
      (b : FlipBuffer)
      → IsValid b
      → IsValid (discard b).1 × Sublistᴰ (contents (discard b).1) (contents b)
  discard-Sublist b v =
      let kept = slice b.read_page b.read_cursor b.read_max in
      let (v', e, _) = discard_lem b v in
      (
        v',
        subst (λ q. Sublistᴰ q (contents b)) (append-nil kept ∙ sym e)
            (Sublist.append (Sublist.refl kept)
              (Sublist.nil-sublist (take b.write_cursor b.write_page))),
      )

  Settling-end_client_reads : (fd : ℕ) → Settling laws (end_client_reads io fd)
  unfolding end_client_reads
  Settling-end_client_reads fd c =
      After-if Anywhere (λ u d. Settles laws c d) (is_read_only_client c.mgr.client_socket) _ _
        (λ e. Settling-on_hangup laws fd c)
        (λ e.
          Settling-bind laws (poll_read io fd false) _
            (Settling-on_set laws (modify os.flags fd (poll_for_read os.flags false)))
            (λ u c. Settling-set_client laws (set_availability write_only c.mgr.client_socket) c) c)

  Settling-end_client_writes : (fd : ℕ) → Settling laws (end_client_writes io fd)
  unfolding end_client_writes
  Settling-end_client_writes fd c =
      After-if Anywhere (λ u d. Settles laws c d) (is_write_only_client c.mgr.client_socket) _ _
        (λ e. Settling-on_hangup laws fd c)
        (λ e.
          Settling-bind laws (poll_read io fd false) _
            (Settling-on_set laws (modify os.flags fd (poll_for_read os.flags false)))
            (λ u c. Settling-set_client laws (set_availability read_only c.mgr.client_socket) c) c)

  Settling-poll_write : (fd : ℕ) (b : Bool) → Settling laws (poll_write io fd b)
  Settling-poll_write fd b = Settling-on_set laws (modify os.flags fd (poll_for_write os.flags b))

  -- An action that answers whether to discard the output buffer: never while the console and the
  -- child's stdin are open.
  abbrev pub Choosing : M os (IosockChannelManager S) Bool → Type 0
  Choosing m =
      (c : Context os (IosockChannelManager S))
      → After Anywhere (λ b d. Settles laws c d × (b ≡ true → IsAttached io d → ⊥)) (m c)

  Choosing-not :
      (m : M os (IosockChannelManager S) (Unit {0}))
      → Settling laws m
      → Choosing (m >>= λ u. pure false)
  Choosing-not m h c =
      After-bind Anywhere (λ u d. Settles laws c d)
        (λ b d. Settles laws c d × (b ≡ true → IsAttached io d → ⊥)) m (λ u. pure false) c (h c)
        (λ u d s. (s, λ e. cc))

  pub Settling-discard :
      (m : M os (IosockChannelManager S) Bool) → Choosing m → Settling laws (m >>= discard_out io)
  Settling-discard m h c =
      After-bind Anywhere (λ b d. Settles laws c d × (b ≡ true → IsAttached io d → ⊥))
        (λ u d. Settles laws c d) m (discard_out io) c (h c) after
    where
      after :
          (b : Bool) (d : Context os (IosockChannelManager S))
          → Settles laws c d × (b ≡ true → IsAttached io d → ⊥)
          → After Anywhere (λ u e. Settles laws c e) (discard_out io b d)
      after false d (s, n) = s
      after true d (s, n) = Settles-trans laws s (record {
        same_log = refl;
        same_in = refl;
        less_out = discard-Sublist d.mgr.out_buffer;
        kept = λ a. a;
        whole = λ a. elim (n refl a) [ ];
      })

  Choosing-wake_stdin :
      (o : Option ℕ) (c : Context os (IosockChannelManager S))
      → io.stdin_fd c.mgr.child ≡ o
      → After Anywhere
          (λ b d. Settles laws c d × (b ≡ true → IsAttached io d → ⊥))
          (wake_stdin io o c)
  Choosing-wake_stdin none c e =
      (Settles-refl laws c, λ t a. let k : false ≡ true = sym (ap is_some e) ∙ a.1 in cc)
  Choosing-wake_stdin (some fd) c e =
      Choosing-not (poll_write io fd true) (Settling-poll_write fd true) c

  Choosing-request :
      (o : Option ℕ) (c : Context os (IosockChannelManager S))
      → primary_output c.mgr.client_socket c.mgr.console ≡ o
      → After Anywhere
          (λ b d. Settles laws c d × (b ≡ true → IsAttached io d → ⊥))
          ((request_output_some io o >>= λ b. pure (not b)) c)
  Choosing-request none c e =
      (Settles-refl laws c, λ t a. no_output c.mgr.client_socket c.mgr.console e a.0)
  Choosing-request (some fd) c e =
      After-bind Anywhere (λ b d. Settles laws c d × (b ≡ true))
        (λ b d. Settles laws c d × (b ≡ true → IsAttached io d → ⊥))
        (request_output_some io (some fd)) (λ b. pure (not b)) c
        (After-bind Anywhere (λ u d. Settles laws c d) (λ b d. Settles laws c d × (b ≡ true))
          (poll_write io fd true) (λ u. pure true) c (Settling-poll_write fd true c)
          (λ u d s. (s, refl)))
        (λ b d s. (s.0, λ t a. ground (arith, s.1, t)))

  -- What follows each transfer.
  pub Choosing-client_read_done :
      (fd : ℕ) (a : Bool × BufferStateChange) → Choosing (client_read_done io fd a)
  unfolding client_read_done
  Choosing-client_read_done fd (true, state) c =
      Choosing-not (end_client_reads io fd) (Settling-end_client_reads fd) c
  Choosing-client_read_done fd (false, became_non_empty) c =
      Choosing-wake_stdin (io.stdin_fd c.mgr.child) c refl
  Choosing-client_read_done fd (false, became_empty) c =
      (Settles-refl laws c, λ e a. ground (arith, e, a.1))
  Choosing-client_read_done fd (false, BufferStateChange.none) c =
      (Settles-refl laws c, λ e a. ground (arith, e, a.1))

  pub Choosing-output_read_done :
      (fd : ℕ) (a : Bool × BufferStateChange) → Choosing (output_read_done io fd a)
  unfolding output_read_done request_primary_output_writable
  Choosing-output_read_done fd (true, state) c =
      Choosing-not (on_hangup io fd) (Settling-on_hangup laws fd) c
  Choosing-output_read_done fd (false, became_non_empty) c =
      Choosing-request (primary_output c.mgr.client_socket c.mgr.console) c refl
  Choosing-output_read_done fd (false, became_empty) c =
      (Settles-refl laws c, λ e a. ground (arith, e, a.0))
  Choosing-output_read_done fd (false, BufferStateChange.none) c =
      (Settles-refl laws c, λ e a. ground (arith, e, a.0))

  pub Settling-client_write_done :
      (fd : ℕ) (a : Bool × BufferStateChange) → Settling laws (client_write_done io fd a)
  unfolding client_write_done
  Settling-client_write_done fd (true, state) = Settling-end_client_writes fd
  Settling-client_write_done fd (false, became_empty) = Settling-poll_write fd false
  Settling-client_write_done fd (false, became_non_empty) = Settling-pure laws tt
  Settling-client_write_done fd (false, BufferStateChange.none) = Settling-pure laws tt

  pub Settling-console_write_done :
      (fd : ℕ) (a : Bool × BufferStateChange) → Settling laws (console_write_done io fd a)
  unfolding console_write_done
  Settling-console_write_done fd (true, state) = Settling-on_hangup laws fd
  Settling-console_write_done fd (false, became_empty) = Settling-poll_write fd false
  Settling-console_write_done fd (false, became_non_empty) = Settling-pure laws tt
  Settling-console_write_done fd (false, BufferStateChange.none) = Settling-pure laws tt

  pub Settling-stdin_write_done :
      (readable : Bool) (fd : ℕ) (a : Bool × BufferStateChange)
      → Settling laws (stdin_write_done io readable fd a)
  unfolding stdin_write_done
  Settling-stdin_write_done readable fd (true, state) = Settling-on_hangup laws fd
  Settling-stdin_write_done true fd (false, became_empty) = Settling-poll_write fd false
  Settling-stdin_write_done false fd (false, became_empty) = Settling-pure laws tt
  Settling-stdin_write_done readable fd (false, became_non_empty) = Settling-pure laws tt
  Settling-stdin_write_done readable fd (false, BufferStateChange.none) = Settling-pure laws tt

  Settling-accept : Settling laws (accept io)
  unfolding accept
  Settling-accept c = go (os.accept c.mgr.server_socket c.world).0
    where
      d : Context os (IosockChannelManager S)
      d = record c { world = (os.accept c.mgr.server_socket c.world).1 }

      go : (r : Result ℕ) → After Anywhere (λ fd d. Settles laws c d) (of_result r, d)
      go (ok fd) = alike laws c d (logs.log-accept c.mgr.server_socket c.world) refl refl (λ a. a)
      go (err e) = tt

  Settling-promote : (fd : ℕ) → Settling laws (promote io fd)
  unfolding promote
  Settling-promote fd =
      Settling-bind laws _ _
        (λ c.
          Settling-on_set laws
            (register os.flags fd (
              os.flags.set os.flags.epollin os.flags.epollout
                (ltb 0 (writable_size c.mgr.out_buffer))))
            c)
        (λ u.
          Settling-bind laws (set_client io (some (client_as io fd))) _
            (Settling-set_client laws (some (client_as io fd)))
            (λ u c. Settling-poll_write_some laws c.mgr.console false c))

  pub Settling-accept_client : Settling laws (accept_client io)
  unfolding accept_client
  Settling-accept_client = Settling-bind laws (accept io) _ Settling-accept (λ fd c.
      After-if Anywhere (λ u d. Settles laws c d) (is_some c.mgr.client_socket) _ _
        (λ e. Settling-close_fd laws fd c) (λ e. Settling-promote fd c))
