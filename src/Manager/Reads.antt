-- ===== src/Manager/Reads.antt =====
-- src/io.rs, `on_readable`, against the invariant of the manager.
use iosock.Prelude.{
  ℕ, ◌≡◌, refl, ◌∙◌, ap, Bool, true, false, not, ◌||◌, Option, none, some, List, ==_refl,
}
use iosock.Outcome.{Outcome, done, of_result}
use iosock.Buffer.{FlipBuffer, BufferStateChange, became_empty, became_non_empty}
use iosock.Buffer.Contents.{IsValid, contents}
use iosock.Channel.{Context, ◌>>=◌, pure, channel_to_buffer}
use iosock.Channel.After.{After, After-bind, After-then, After-if}
use iosock.Channel.Pending.{
  holds_bytes, has_bytes, TellsRead, channel_to_buffer-TellsRead, channel_to_buffer-keeps,
  bind-TellsRead,
}
use iosock.Os.Laws.{OsLaws}
use iosock.Os.{Os, reader}
use iosock.Stdio.{ChildStdio}
use iosock.Stdio.Pipes.{is_fd}
use iosock.Manager.{
  IosockChannelManager, write_only, is_client, poll_read, poll_write, set_client, set_availability,
  client_readable, discard_out, on_hangup, request_primary_output_writable, read_client,
  read_stdout, read_stderr,
}
use iosock.Manager.Handlers.{
  is_read_only_client, wake_stdin, end_client_reads, client_read_done, client_on_readable,
  output_read_done, output_on_readable,
}
use iosock.Manager.Served.{StreamLaws}
use iosock.Manager.Attends.{
  Attends, Attends-weaken, Attends-no_input, Attends-buffers, Attends-availability, IsSound,
  IsNewcomer,
}
use iosock.Manager.Requests.{
  client-IsPolled, wake_input, stop_reads, request_output-After, discard_out-IsSound,
}
use iosock.Manager.GivenUp.{on_hangup-After}

or-false : (b : Bool) → (b || false) ≡ true → b ≡ true
or-false true e = refl
or-false false e = e

module _ {os : Os} {S : Type 0} {system : OsLaws os} {io : ChildStdio os S}
    (laws : StreamLaws system io) where
  abbrev pub Kept : {A : Type 0} → A → Context os (IosockChannelManager S) → Type 0
  Kept a d = IsSound laws d

  end_client_reads-After :
      (fd : ℕ) (c : Context os (IosockChannelManager S))
      → IsSound laws c
      → is_client c.mgr.client_socket fd ≡ true
      → After (IsNewcomer laws) Kept (end_client_reads io fd c)
  unfolding end_client_reads
  end_client_reads-After fd c h e =
      After-if (IsNewcomer laws) Kept (is_read_only_client c.mgr.client_socket) _ _
        (λ k. on_hangup-After laws fd c h)
        (λ k.
          After-then (IsNewcomer laws) (λ d. IsSound laws d) Kept (poll_read io fd false)
            (λ d. set_client io (set_availability write_only d.mgr.client_socket) d) c
            (stop_reads laws fd c h (client-IsPolled laws fd c h e))
            (λ d k'. Attends-availability laws write_only k'))

  wake_stdin-After :
      {pi : Bool} (c : Context os (IosockChannelManager S))
      → Attends laws (has_bytes c.mgr.out_buffer) pi c
      → After (IsNewcomer laws) Kept (wake_stdin io (io.stdin_fd c.mgr.child) c)
  wake_stdin-After c h = asked (io.stdin_fd c.mgr.child) refl
    where
      asked :
          (o : Option ℕ)
          → io.stdin_fd c.mgr.child ≡ o
          → After (IsNewcomer laws) Kept (wake_stdin io o c)
      asked none e = Attends-no_input laws h e
      asked (some fd) e =
          After-then (IsNewcomer laws) (λ d. IsSound laws d) Kept (poll_write io fd true)
            (pure false) c (wake_input laws fd c h (ap (λ x. is_fd x fd) e ∙ ==_refl fd)) (λ d k. k)

  client_read_done-After :
      (fd : ℕ) (a : Bool × BufferStateChange) (q : List ℕ) (c : Context os (IosockChannelManager S))
      → Attends laws (has_bytes c.mgr.out_buffer) (holds_bytes q) c
      → is_client c.mgr.client_socket fd ≡ true
      → TellsRead q (contents c.mgr.in_buffer) (done a)
      → After (IsNewcomer laws) Kept (client_read_done io fd a c)
  unfolding client_read_done
  client_read_done-After fd (true, state) q c h e t =
      After-then (IsNewcomer laws) (λ d. IsSound laws d) Kept (end_client_reads io fd) (pure false)
        c
        (end_client_reads-After fd c
          (Attends-weaken laws h (λ p. p) (λ p. or-false (holds_bytes q) (t p))) e)
        (λ d k. k)
  client_read_done-After fd (false, became_non_empty) q c h e t = wake_stdin-After c h
  client_read_done-After fd (false, became_empty) q c h e t =
      Attends-weaken laws h (λ p. p) (λ p. or-false (holds_bytes q) (t p))
  client_read_done-After fd (false, BufferStateChange.none) q c h e t =
      Attends-weaken laws h (λ p. p) (λ p. or-false (holds_bytes q) (t p))

  pub client_on_readable-After :
      (fd : ℕ) (c : Context os (IosockChannelManager S))
      → IsSound laws c
      → is_client c.mgr.client_socket fd ≡ true
      → client_readable c.mgr.client_socket ≡ true
      → After (IsNewcomer laws) Kept (client_on_readable io fd c)
  unfolding client_on_readable read_client
  client_on_readable-After fd c h e readable =
      let (r, b, w) = channel_to_buffer (reader os fd) c.mgr.in_buffer c.world in
      let told =
        channel_to_buffer-TellsRead (reader os fd) (system.reads fd) c.mgr.in_buffer c.world
          h.in_valid in
      let d : Context os (IosockChannelManager S) = record c {
        mgr = record c.mgr { in_buffer = b };
        world = w;
      } in
      rw readable (
        bind-TellsRead (IsNewcomer laws) Kept (λ a. client_read_done io fd a >>= discard_out io) d
          (contents c.mgr.in_buffer) (contents b) (of_result r) told.1
          (λ a t.
            After-bind (IsNewcomer laws) Kept Kept (client_read_done io fd a) (discard_out io) d
              (client_read_done-After fd a (contents c.mgr.in_buffer) d
                (Attends-buffers laws b c.mgr.out_buffer w h told.0 h.out_valid (λ g.
                  channel_to_buffer-keeps (reader os fd) (system.reads fd) (λ v. system.watched v g)
                    (λ v n. system.watched-read fd v n g) c.mgr.in_buffer c.world h.in_valid))
                e t)
              (λ b d k. discard_out-IsSound laws b d k)))

  output_read_done-After :
      (fd : ℕ) (a : Bool × BufferStateChange) (q : List ℕ) (c : Context os (IosockChannelManager S))
      → Attends laws (holds_bytes q) (has_bytes c.mgr.in_buffer) c
      → TellsRead q (contents c.mgr.out_buffer) (done a)
      → After (IsNewcomer laws) Kept (output_read_done io fd a c)
  unfolding output_read_done
  output_read_done-After fd (true, state) q c h t =
      After-then (IsNewcomer laws) (λ d. IsSound laws d) Kept (on_hangup io fd) (pure false) c
        (on_hangup-After laws fd c
          (Attends-weaken laws h (λ p. or-false (holds_bytes q) (t p)) (λ p. p)))
        (λ d k. k)
  output_read_done-After fd (false, became_non_empty) q c h t =
      After-bind (IsNewcomer laws) Kept Kept (request_primary_output_writable io)
        (λ b. pure (not b)) c (request_output-After laws c h) (λ b d k. k)
  output_read_done-After fd (false, became_empty) q c h t =
      Attends-weaken laws h (λ p. or-false (holds_bytes q) (t p)) (λ p. p)
  output_read_done-After fd (false, BufferStateChange.none) q c h t =
      Attends-weaken laws h (λ p. or-false (holds_bytes q) (t p)) (λ p. p)

  -- The handler of an output stream, for a read that tells of what it does.
  output-After :
      (fd : ℕ) (c : Context os (IosockChannelManager S)) (r : Outcome (Bool × BufferStateChange))
      (b : FlipBuffer) (w : os.World)
      → IsSound laws c
      → IsValid b
      → TellsRead (contents c.mgr.out_buffer) (contents b) r
      → ((g : ℕ) → system.watched w g ≡ system.watched c.world g)
      → After (IsNewcomer laws) Kept (
          output_on_readable io fd
            (λ c. (r, record c { mgr = record c.mgr { out_buffer = b }; world = w }))
            c)
  unfolding output_on_readable
  output-After fd c r b w h v t e =
      let d : Context os (IosockChannelManager S) = record c {
        mgr = record c.mgr { out_buffer = b };
        world = w;
      } in
      bind-TellsRead (IsNewcomer laws) Kept (λ a. output_read_done io fd a >>= discard_out io) d
        (contents c.mgr.out_buffer) (contents b) r t
        (λ a k.
          After-bind (IsNewcomer laws) Kept Kept (output_read_done io fd a) (discard_out io) d
            (output_read_done-After fd a (contents c.mgr.out_buffer) d
              (Attends-buffers laws c.mgr.in_buffer b w h h.in_valid v e) k)
            (λ b d k. discard_out-IsSound laws b d k))

  pub stdout_on_readable-After :
      (fd : ℕ) (c : Context os (IosockChannelManager S))
      → IsSound laws c
      → After (IsNewcomer laws) Kept (output_on_readable io fd (read_stdout io) c)
  unfolding output_on_readable read_stdout
  stdout_on_readable-After fd c h =
      let (r, b, w) = io.read_stdout c.mgr.child c.mgr.out_buffer c.world in
      let told = laws.read_stdout-Tells c.mgr.child c.mgr.out_buffer c.world h.out_valid in
      output-After fd c r b w h told.0 told.1 told.2

  pub stderr_on_readable-After :
      (fd : ℕ) (c : Context os (IosockChannelManager S))
      → IsSound laws c
      → is_fd (io.stderr_fd c.mgr.child) fd ≡ true
      → After (IsNewcomer laws) Kept (output_on_readable io fd (read_stderr io) c)
  unfolding output_on_readable read_stderr
  stderr_on_readable-After fd c h e =
      let (r, b, w) = io.read_stderr c.mgr.child c.mgr.out_buffer c.world in
      let told = laws.read_stderr-Tells fd c.mgr.child c.mgr.out_buffer c.world e h.out_valid in
      output-After fd c r b w h told.0 told.1 told.2
