-- ===== src/Manager/Connections.antt =====
-- src/io.rs, `on_readable` of the server socket: connections one after the other.
use iosock.Prelude.{
  ℕ, ◌≡◌, refl, ap, ◌∙◌, true, false, Option, none, some, List, [], ◌∷◌, ◌++◌, ltb, arith,
}
use iosock.Io.{ok}
use iosock.Outcome.{done}
use iosock.Epoll.{Flags, FlagLaws}
use iosock.Buffer.{writable_size}
use iosock.Buffer.Contents.{IsValid}
use iosock.Channel.{Context}
use iosock.Channel.Pending.{has_bytes}
use iosock.Polled.{PolledFd, has_fd, has_new}
use iosock.Polled.Asks.{asks, asks_new, asks_out-set}
use iosock.Os.{Os}
use iosock.Stdio.{ChildStdio}
use iosock.Stdio.Pipes.{is_fd}
use iosock.Manager.{IosockChannelManager, read_write}
use iosock.Manager.Handlers.{client_as, on_readable}
use iosock.Manager.Removal.{holds, polled}
use iosock.Manager.Accept.{taken, first_client_lem, second_client_lem}
use iosock.Manager.Gone.{pending-has_bytes}

asks_new-append :
    (fl : Flags) (flag events : fl.Events) (fd : ℕ) (l : List (ℕ × fl.Events))
    → has_new fd l ≡ false
    → asks_new fl flag fd (l ++ (fd, events) ∷ []) ≡ fl.contains events flag
asks_new-append fl flag events fd [] h = ground arith
asks_new-append fl flag events fd ((g, x) ∷ l) h =
    ground (arith, asks_new-append fl flag events fd l)

asks-polled :
    {fl : Flags} (laws : FlagLaws fl) (o : Option ℕ) (l : List (PolledFd fl)) (g : ℕ)
    → holds o l ≡ true
    → is_fd o g ≡ true
    → asks fl.epollout g (polled false o l) ≡ false
asks-polled laws none l g h e = cc
asks-polled laws (some k) l g h e = ground (arith, asks_out-set laws false k l h, e)

module _ {os : Os} {S : Type 0} (io : ChildStdio os S) where
  client_of :
      (d : Context os (IosockChannelManager S)) (fd : ℕ)
      → d.mgr.client_socket ≡ some (client_as io fd)
      → d.mgr.client_socket ≡ some (record { stream = fd; availability = read_write })
  client_of d fd e = e

  -- Two connections are accepted one after the other while there is no client. The first becomes
  -- the client, with both directions open, and is registered for reads, and for writes exactly if
  -- the output buffer, which is valid, holds bytes; the console asks for writes no more, if there is
  -- one, and no buffered byte is lost. The second is closed, and leaves the manager and the set of
  -- descriptors as the first left them. The first descriptor must be new to the set, and the
  -- console's must be in it.
  pub one_client_at_a_time :
      (laws : FlagLaws os.flags) (c : Context os (IosockChannelManager S)) (fd fd' : ℕ)
      (w w' : os.World)
      → c.mgr.client_socket ≡ none
      → os.accept c.mgr.server_socket c.world ≡ (ok fd, w)
      → has_fd fd c.fd_set.existing ≡ false
      → has_new fd c.fd_set.new ≡ false
      → holds c.mgr.console c.fd_set.existing ≡ true
      → IsValid c.mgr.out_buffer
      → os.accept c.mgr.server_socket w ≡ (ok fd', w')
      → let (r, d) = on_readable io c.mgr.server_socket c in
        let (r', d') = on_readable io c.mgr.server_socket d in
        (r ≡ done tt)
        × (d.mgr.client_socket ≡ some (record { stream = fd; availability = read_write }))
        × (asks_new os.flags os.flags.epollin fd d.fd_set.new ≡ true)
        × (asks_new os.flags os.flags.epollout fd d.fd_set.new ≡ has_bytes c.mgr.out_buffer)
        × ((g : ℕ)
            → is_fd c.mgr.console g ≡ true
            → asks os.flags.epollout g d.fd_set.existing ≡ false)
        × (d.mgr.in_buffer ≡ c.mgr.in_buffer)
        × (d.mgr.out_buffer ≡ c.mgr.out_buffer)
        × (r' ≡ done tt)
        × (d' ≡ record d { world = os.close fd' w' })
  one_client_at_a_time laws c fd fd' w w' e a h n k v b =
      let d = taken io fd w c in
      let pending = ltb 0 (writable_size c.mgr.out_buffer) in
      let events = os.flags.set os.flags.epollin os.flags.epollout pending in
      let second = second_client_lem io d (client_as io fd) fd' w' refl b in
      rw (first_client_lem io c fd w e a h n k) (
        refl,
        client_of d fd refl,
        asks_new-append os.flags os.flags.epollin events fd c.fd_set.new n
            ∙ laws.contains_in-set_out os.flags.epollin pending
            ∙ laws.contains_in-epollin,
        asks_new-append os.flags os.flags.epollout events fd c.fd_set.new n
            ∙ laws.contains_out-set_out os.flags.epollin pending
            ∙ pending-has_bytes c.mgr.out_buffer v,
        λ g t. asks-polled laws c.mgr.console c.fd_set.existing g k t,
        refl,
        refl,
        ap (λ t. t.0) second,
        ap (λ t. t.1) second,
      )
