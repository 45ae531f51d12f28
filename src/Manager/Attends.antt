-- ===== src/Manager/Attends.antt =====
-- src/io.rs: the manager between its handlers, with its set and the bytes that wait.
use iosock.Prelude.{ℕ, ◌≡◌, refl, sym, ◌∙◌, ap, Bool, true, false, ◌||◌, Option, none, some}
use iosock.Buffer.{FlipBuffer}
use iosock.Buffer.Contents.{IsValid}
use iosock.Channel.{Context}
use iosock.Channel.Pending.{has_bytes}
use iosock.Polled.{PolledFdSet, has_fd, has_new}
use iosock.Polled.Lookup.{IsDistinct}
use iosock.Polled.Asks.{wants_out, IsTuned}
use iosock.Os.{Os}
use iosock.Os.Laws.{OsLaws, is_own}
use iosock.Polled.Apply.{IsPending}
use iosock.Polled.Pending.{IsPending-same, IsPending-tuned}
use iosock.Stdio.{ChildStdio}
use iosock.Stdio.Pipes.{is_fd}
use iosock.Manager.{
  IosockChannelManager, UnixClient, SocketAvailability, is_client, is_child, primary_output,
  set_availability,
}
use iosock.Manager.Wired.{IsWired}
use iosock.Manager.Served.{StreamLaws}

module _ {os : Os} {S : Type 0} {system : OsLaws os} {io : ChildStdio os S}
    (laws : StreamLaws system io) where
  -- The invariant, with bytes waiting in the output if `po`, and in the input if `pi`. A client
  -- that was taken since the set was last given to epoll is in `new`, and is all that is there.
  pub record Attends (po pi : Bool) (c : Context os (IosockChannelManager S)) : Type 0 where
    pub wired : IsWired laws.stdio (record c.mgr { client_socket = none }) c.fd_set.existing
    pub client_in :
        (g : ℕ)
        → is_client c.mgr.client_socket g ≡ true
        → (has_fd g c.fd_set.existing || has_new g c.fd_set.new) ≡ true
    pub client_off :
        (g : ℕ)
        → is_client c.mgr.client_socket g ≡ true
        → (is_child io c.mgr.child g || is_fd c.mgr.console g) ≡ false
    pub newcomer :
        (g : ℕ)
        → has_new g c.fd_set.new ≡ true
        → (is_client c.mgr.client_socket g ≡ true) × (has_fd g c.fd_set.existing ≡ false)
    pub pending : IsPending c.fd_set (system.watched c.world)
    pub others : (g : ℕ) → has_new g c.fd_set.new ≡ true → is_own system g ≡ true
    pub in_valid : IsValid c.mgr.in_buffer
    pub out_valid : IsValid c.mgr.out_buffer
    pub out_wants :
        (g : ℕ)
        → is_fd (primary_output c.mgr.client_socket c.mgr.console) g ≡ true
        → po ≡ true
        → wants_out g c.fd_set ≡ true
    pub in_wants :
        (g : ℕ) → is_fd (io.stdin_fd c.mgr.child) g ≡ true → pi ≡ true → wants_out g c.fd_set ≡ true

  abbrev pub IsSound : Context os (IosockChannelManager S) → Type 0
  IsSound c = Attends (has_bytes c.mgr.out_buffer) (has_bytes c.mgr.in_buffer) c

  -- The client was taken since the set was last given to epoll.
  abbrev pub IsNewcomer : Context os (IosockChannelManager S) → Type 0
  IsNewcomer c =
      (g : ℕ) × (is_client c.mgr.client_socket g ≡ true) × (has_new g c.fd_set.new ≡ true)

  pub Attends-weaken :
      {po pi po' pi' : Bool} {c : Context os (IosockChannelManager S)}
      → Attends po pi c
      → (po' ≡ true → po ≡ true)
      → (pi' ≡ true → pi ≡ true)
      → Attends po' pi' c
  Attends-weaken h f k = record {
    wired = h.wired;
    client_in = h.client_in;
    client_off = h.client_off;
    newcomer = h.newcomer;
    pending = h.pending;
    others = h.others;
    in_valid = h.in_valid;
    out_valid = h.out_valid;
    out_wants = λ g e p. h.out_wants g e (f p);
    in_wants = λ g e p. h.in_wants g e (k p);
  }

  -- There is no output at all.
  pub Attends-no_output :
      {po pi po' : Bool} {c : Context os (IosockChannelManager S)}
      → Attends po pi c
      → primary_output c.mgr.client_socket c.mgr.console ≡ none
      → Attends po' pi c
  Attends-no_output h e = record {
    wired = h.wired;
    client_in = h.client_in;
    client_off = h.client_off;
    newcomer = h.newcomer;
    pending = h.pending;
    others = h.others;
    in_valid = h.in_valid;
    out_valid = h.out_valid;
    out_wants = λ g k p. let f : false ≡ true = ap (λ x. is_fd x g) (sym e) ∙ k in cc;
    in_wants = h.in_wants;
  }

  -- The child has no stdin.
  pub Attends-no_input :
      {po pi pi' : Bool} {c : Context os (IosockChannelManager S)}
      → Attends po pi c
      → io.stdin_fd c.mgr.child ≡ none
      → Attends po pi' c
  Attends-no_input h e = record {
    wired = h.wired;
    client_in = h.client_in;
    client_off = h.client_off;
    newcomer = h.newcomer;
    pending = h.pending;
    others = h.others;
    in_valid = h.in_valid;
    out_valid = h.out_valid;
    out_wants = h.out_wants;
    in_wants = λ g k p. let f : false ≡ true = ap (λ x. is_fd x g) (sym e) ∙ k in cc;
  }

  -- Other buffers, and another state of the system.
  pub Attends-buffers :
      {po pi : Bool} {c : Context os (IosockChannelManager S)} (i o : FlipBuffer) (w : os.World)
      → Attends po pi c
      → IsValid i
      → IsValid o
      → ((g : ℕ) → system.watched w g ≡ system.watched c.world g)
      → Attends po pi (record c { mgr = record c.mgr { in_buffer = i; out_buffer = o }; world = w })
  Attends-buffers i o w h v v' e = record {
    wired = record {
      distinct = h.wired.distinct;
      registered = h.wired.registered;
      client_apart = h.wired.client_apart;
      child_apart = h.wired.child_apart;
      inner = h.wired.inner;
    };
    client_in = h.client_in;
    client_off = h.client_off;
    newcomer = h.newcomer;
    pending = IsPending-same h.pending e;
    others = h.others;
    in_valid = v;
    out_valid = v';
    out_wants = h.out_wants;
    in_wants = h.in_wants;
  }

  is_client-set_availability :
      (a : SocketAvailability) (o : Option UnixClient) (g : ℕ)
      → is_client (set_availability a o) g ≡ is_client o g
  is_client-set_availability a none g = refl
  is_client-set_availability a (some x) g = refl

  primary-set_availability :
      (a : SocketAvailability) (o : Option UnixClient) (console : Option ℕ)
      → primary_output (set_availability a o) console ≡ primary_output o console
  primary-set_availability a none console = refl
  primary-set_availability a (some x) console = refl

  -- The client is left with one direction.
  pub Attends-availability :
      {po pi : Bool} {c : Context os (IosockChannelManager S)} (a : SocketAvailability)
      → Attends po pi c
      → Attends po pi (record c {
        mgr = record c.mgr { client_socket = set_availability a c.mgr.client_socket };
      })
  Attends-availability {c = c} a h = record {
    wired = h.wired;
    client_in = λ g e. h.client_in g (sym (is_client-set_availability a c.mgr.client_socket g) ∙ e);
    client_off =
        λ g e. h.client_off g (sym (is_client-set_availability a c.mgr.client_socket g) ∙ e);
    newcomer = λ g e. rw (is_client-set_availability a c.mgr.client_socket g) (h.newcomer g e);
    pending = h.pending;
    others = h.others;
    in_valid = h.in_valid;
    out_valid = h.out_valid;
    out_wants = λ g e. h.out_wants g (
        ap (λ o. is_fd o g) (sym (primary-set_availability a c.mgr.client_socket c.mgr.console))
        ∙ e);
    in_wants = h.in_wants;
  }

  -- Masks of the set change, and the streams that are to take bytes are polled for writes.
  pub Attends-masks :
      {po pi po' pi' : Bool} {c : Context os (IosockChannelManager S)} (fd : ℕ)
      (s : PolledFdSet os.flags)
      → Attends po pi c
      → IsDistinct s.existing
      → IsTuned fd c.fd_set s
      → ((g : ℕ)
          → is_fd (primary_output c.mgr.client_socket c.mgr.console) g ≡ true
          → po' ≡ true
          → wants_out g s ≡ true)
      → ((g : ℕ) → is_fd (io.stdin_fd c.mgr.child) g ≡ true → pi' ≡ true → wants_out g s ≡ true)
      → Attends po' pi' (record c { fd_set = s })
  Attends-masks fd s h d t out in' = record {
    wired = record {
      distinct = d;
      registered = λ g e. t.same_fds g ∙ h.wired.registered g e;
      client_apart = h.wired.client_apart;
      child_apart = h.wired.child_apart;
      inner = h.wired.inner;
    };
    client_in = λ g e. rw (t.same_fds g, t.same_new) (h.client_in g e);
    client_off = h.client_off;
    newcomer = λ g e.
        let (x, y) = h.newcomer g (ap (λ l. has_new g l) (sym t.same_new) ∙ e) in
        (x, t.same_fds g ∙ y);
    pending = IsPending-tuned h.pending d t;
    others = λ g e. h.others g (ap (has_new g) (sym t.same_new) ∙ e);
    in_valid = h.in_valid;
    out_valid = h.out_valid;
    out_wants = out;
    in_wants = in';
  }
