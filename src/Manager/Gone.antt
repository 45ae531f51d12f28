-- ===== src/Manager/Gone.antt =====
-- src/io.rs: the manager and its set without the stream that hung up.
use iosock.Prelude.{
  ℕ, ◌≡◌, ◌≢◌, refl, sym, ◌∙◌, ap, true, false, Option, none, some, List, ◌==◌, ltb, if◌then◌else◌,
  Bool-cases, inl, inr, ==_iff, ==_refl, arith,
}
use iosock.Buffer.{FlipBuffer, writable_size}
use iosock.Buffer.Contents.{IsValid, contents, writable_size-length}
use iosock.Channel.{Context}
use iosock.Channel.Pending.{has_bytes, holds_bytes-length}
use iosock.Epoll.{Flags}
use iosock.Polled.{PolledFdSet, has_fd, has_new, remove_first}
use iosock.Polled.Lookup.{IsDistinct, has_fd-remove, has_fd-remove_ne, IsDistinct-remove}
use iosock.Polled.Apply.{IsPending}
use iosock.Polled.Pending.{IsPending-closed}
use iosock.Polled.Asks.{wants_out, asks-remove_ne}
use iosock.Os.Laws.{OsLaws}
use iosock.Os.{Os}
use iosock.Stdio.{ChildStdio}
use iosock.Stdio.Pipes.{is_fd}
use iosock.Manager.{IosockChannelManager, UnixClient, is_client, is_child, primary_output}
use iosock.Manager.Served.{StreamLaws}
use iosock.Manager.Attends.{Attends, Attends-weaken, Attends-no_output, IsSound}
use iosock.Manager.Polling.{poll_write-Attends}
use iosock.Manager.Requests.{is_fd-same, output_apart}
use iosock.Manager.Removal.{without_client, holds, woken}

-- What remains of the set when the descriptor leaves it.
pub record IsRemoved {fl : Flags} (fd : ℕ) (s s' : PolledFdSet fl) : Type 0 where
  pub distinct : IsDistinct s'.existing
  pub fds : (g : ℕ) → has_fd g s'.existing ≡ (if g == fd then false else has_fd g s.existing)
  pub same_new : s'.new ≡ s.new
  pub same_wants : (g : ℕ) → g ≢ fd → wants_out g s' ≡ wants_out g s

pub removed-IsRemoved :
    {fl : Flags} (fd : ℕ) (s : PolledFdSet fl) (r : List ℕ)
    → IsDistinct s.existing
    → IsRemoved fd s (record s { existing = remove_first fd s.existing; removed = r })
removed-IsRemoved {fl} fd s r d = record {
  distinct = IsDistinct-remove fd s.existing d;
  fds = λ g. has_fd-remove fd g s.existing d;
  same_new = refl;
  same_wants = λ g n.
      ground
        (arith, has_fd-remove_ne fd g s.existing n, asks-remove_ne fl.epollout fd g s.existing n);
}

pub pending-has_bytes : (b : FlipBuffer) → IsValid b → ltb 0 (writable_size b) ≡ has_bytes b
pending-has_bytes b v =
    ap (λ n. ltb 0 n) (writable_size-length b v).0 ∙ holds_bytes-length (contents b)

module _ {os : Os} {S : Type 0} {system : OsLaws os} {io : ChildStdio os S}
    (laws : StreamLaws system io) where
  -- The console hangs up.
  pub console-IsSound :
      (fd : ℕ) (c : Context os (IosockChannelManager S)) (s : PolledFdSet os.flags)
      → IsSound laws c
      → is_fd c.mgr.console fd ≡ true
      → IsRemoved fd c.fd_set s
      → IsPending s (system.watched c.world)
      → IsSound laws (record c { mgr = record c.mgr { console = none }; fd_set = s })
  console-IsSound fd c s h e r pending = record {
    wired = record {
      distinct = r.distinct;
      registered =
          λ g o. ground (arith, r.fds g, h.wired.registered g, h.wired.child_apart g, same g);
      client_apart = λ g o. cc;
      child_apart = λ g o. refl;
      inner = h.wired.inner;
    };
    client_in =
        λ g o. rw (r.fds g, r.same_new) (ground (arith, h.client_in g, h.client_off g, same g));
    client_off = λ g o. ground (arith, h.client_off g);
    newcomer = λ g n.
        let (x, y) = h.newcomer g (ap (λ l. has_new g l) (sym r.same_new) ∙ n) in
        (x, ground (arith, r.fds g));
    pending = pending;
    others = λ g n. h.others g (ap (λ l. has_new g l) (sym r.same_new) ∙ n);
    in_valid = h.in_valid;
    out_valid = h.out_valid;
    out_wants = λ g o p.
        r.same_wants g (apart g (clients g c.mgr.client_socket refl o))
        ∙ h.out_wants g (output g c.mgr.client_socket refl o) p;
    in_wants =
        λ g o p. r.same_wants g (ground (arith, h.wired.child_apart g, same g)) ∙ h.in_wants g o p;
  }
    where
      same : (g : ℕ) → (g == fd) ≡ true → is_fd c.mgr.console g ≡ true
      same g t = rw ((==_iff g fd).0 t) e

      clients :
          (g : ℕ) (o : Option UnixClient)
          → c.mgr.client_socket ≡ o
          → is_fd (primary_output o none) g ≡ true
          → is_client o g ≡ true
      clients g none q k = cc
      clients g (some x) q k = k

      output :
          (g : ℕ) (o : Option UnixClient)
          → c.mgr.client_socket ≡ o
          → is_fd (primary_output o none) g ≡ true
          → is_fd (primary_output o c.mgr.console) g ≡ true
      output g none q k = cc
      output g (some x) q k = k

      apart : (g : ℕ) → is_client c.mgr.client_socket g ≡ true → g ≢ fd
      apart g k = ground (arith, h.client_off g, same g)

  -- The client hangs up, and the console has not been asked for yet.
  pub client-Attends :
      (fd : ℕ) (c : Context os (IosockChannelManager S)) (s : PolledFdSet os.flags) (w : os.World)
      → IsSound laws c
      → is_client c.mgr.client_socket fd ≡ true
      → has_fd fd c.fd_set.existing ≡ true
      → IsRemoved fd c.fd_set s
      → IsPending s (system.watched w)
      → Attends laws false
          (has_bytes c.mgr.in_buffer)
          (record { mgr = record c.mgr { client_socket = none }; fd_set = s; world = w })
  client-Attends fd c s w h e k r pending = record {
    wired = record {
      distinct = r.distinct;
      registered = λ g o. ground (arith, r.fds g, h.wired.registered g, h.client_off g, same g);
      client_apart = λ g o. cc;
      child_apart = h.wired.child_apart;
      inner = h.wired.inner;
    };
    client_in = λ g o. cc;
    client_off = λ g o. cc;
    newcomer = λ g n.
        let (x, y) = h.newcomer g (ap (λ l. has_new g l) (sym r.same_new) ∙ n) in
        let q : has_fd g c.fd_set.existing ≡ true =
          ap (λ x. has_fd x c.fd_set.existing) (only g c.mgr.client_socket e x) ∙ k in
        cc;
    pending = pending;
    others = λ g n. h.others g (ap (λ l. has_new g l) (sym r.same_new) ∙ n);
    in_valid = h.in_valid;
    out_valid = h.out_valid;
    out_wants = λ g o p. cc;
    in_wants = λ g o p. r.same_wants g (ground (arith, h.client_off g, same g)) ∙ h.in_wants g o p;
  }
    where
      same : (g : ℕ) → (g == fd) ≡ true → is_client c.mgr.client_socket g ≡ true
      same g t = rw ((==_iff g fd).0 t) e

      only : (g : ℕ) (o : Option UnixClient) → is_client o fd ≡ true → is_client o g ≡ true → g ≡ fd
      only g none x y = cc
      only g (some z) x y = ground arith

  -- A stream of the child hangs up.
  pub child-IsSound :
      (fd : ℕ) (c : Context os (IosockChannelManager S)) (t : S) (s : PolledFdSet os.flags)
      (w : os.World)
      → IsSound laws c
      → is_child io c.mgr.child fd ≡ true
      → ((g : ℕ) → is_child io t g ≡ (if g == fd then false else is_child io c.mgr.child g))
      → laws.stdio.IsApart t
      → ((g : ℕ) → is_fd (io.stdin_fd t) g ≡ true → is_fd (io.stdin_fd c.mgr.child) g ≡ true)
      → IsRemoved fd c.fd_set s
      → IsPending s (system.watched w)
      → IsSound laws (record { mgr = record c.mgr { child = t }; fd_set = s; world = w })
  child-IsSound fd c t s w h e q a i r pending = record {
    wired = record {
      distinct = r.distinct;
      registered =
          λ g o. ground (arith, q g, r.fds g, h.wired.registered g, h.wired.child_apart g, same g);
      client_apart = λ g o. cc;
      child_apart = λ g o. ground (arith, q g, h.wired.child_apart g);
      inner = a;
    };
    client_in =
        λ g o. rw (r.fds g, r.same_new) (ground (arith, h.client_in g, h.client_off g, same g));
    client_off = λ g o. ground (arith, q g, h.client_off g);
    newcomer = λ g n.
        let (x, y) = h.newcomer g (ap (λ l. has_new g l) (sym r.same_new) ∙ n) in
        (x, ground (arith, r.fds g));
    pending = pending;
    others = λ g n. h.others g (ap (λ l. has_new g l) (sym r.same_new) ∙ n);
    in_valid = h.in_valid;
    out_valid = h.out_valid;
    out_wants = λ g o p.
        let off = output_apart laws g c h o in
        r.same_wants g (ground (arith, same g)) ∙ h.out_wants g o p;
    in_wants = λ g o p. r.same_wants g (ground (arith, q g)) ∙ h.in_wants g (i g o) p;
  }
    where
      same : (g : ℕ) → (g == fd) ≡ true → is_child io c.mgr.child g ≡ true
      same g k = rw ((==_iff g fd).0 k) e

  pub without_client-IsSound :
      (fd : ℕ) (c : Context os (IosockChannelManager S))
      → IsSound laws c
      → is_client c.mgr.client_socket fd ≡ true
      → has_fd fd c.fd_set.existing ≡ true
      → holds c.mgr.console (remove_first fd c.fd_set.existing) ≡ true
      → IsSound laws (without_client fd c)
  without_client-IsSound fd c h e k kept = elim (Bool-cases (has_bytes c.mgr.out_buffer)) [
    | inr n ↦
        rw (pending-has_bytes c.mgr.out_buffer h.out_valid ∙ n)
          (Attends-weaken laws left (λ p. sym n ∙ p) (λ p. p))
    | inl y ↦
        rw (pending-has_bytes c.mgr.out_buffer h.out_valid ∙ y)
          (woken_console c.mgr.console refl kept)
  ]
    where
      gone : Context os (IosockChannelManager S)
      gone = record {
        mgr = record c.mgr { client_socket = none };
        fd_set = record c.fd_set { existing = remove_first fd c.fd_set.existing };
        world = os.close fd c.world;
      }

      left : Attends laws false (has_bytes c.mgr.in_buffer) gone
      left =
          client-Attends fd c gone.fd_set gone.world h e k
            (removed-IsRemoved fd c.fd_set c.fd_set.removed h.wired.distinct)
            (IsPending-closed fd h.pending k (system.watched-close fd c.world))

      woken_console :
          (o : Option ℕ)
          → c.mgr.console ≡ o
          → holds o (remove_first fd c.fd_set.existing) ≡ true
          → IsSound laws (record gone {
            fd_set = record gone.fd_set { existing = woken o gone.fd_set.existing };
          })
      woken_console none x y = Attends-no_output laws left x
      woken_console (some k) x y =
          Attends-weaken laws {po = true}
            (poll_write-Attends laws k true gone left y (λ a b. refl) (λ a b. refl)
              (λ g n a b.
                absurd (n (is_fd-same (some k) g k (==_refl k) (ap (λ z. is_fd z g) (sym x) ∙ a))))
              (λ g n a b. b))
            (λ p. refl) (λ p. p)
