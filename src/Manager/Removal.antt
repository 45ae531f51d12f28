-- ===== src/Manager/Removal.antt =====
-- src/io.rs, the arms of `on_hangup`.
use iosock.Prelude.{
  ℕ, ◌≡◌, refl, ◌∙◌, Bool, true, false, Option, none, some, List, ◌==◌, ltb, if◌then◌else◌, [], ◌∷◌,
  ◌++◌, ==_iff, ==_refl, arith,
}
use iosock.Outcome.{done}
use iosock.Buffer.{writable_size}
use iosock.Polled.{
  PolledFd, PolledFdSet, has_fd, remove_first, modify_first, modify, unregister, unregister_closed,
  poll_for_write,
}
use iosock.Polled.Lookup.{
  IsDistinct, has_fd-remove, IsDistinct-remove, has_fd-modify_first, IsDistinct-modify,
  fd-poll_for_write,
}
use iosock.Channel.{Context}
use iosock.Epoll.{Flags}
use iosock.Os.{Os}
use iosock.Stdio.{ChildStdio}
use iosock.Stdio.Pipes.{is_fd}
use iosock.Manager.{
  IosockChannelManager, UnixClient, is_client, is_child, hangup_client, hangup_child,
  hangup_console,
}
use iosock.Manager.Wired.{StdioLaws, owns, IsWired}

-- The set after the request that a stream, if there is one, be polled for writes, or be not.
abbrev pub polled : {fl : Flags} → Bool → Option ℕ → List (PolledFd fl) → List (PolledFd fl)
polled b none l = l
polled {fl} b (some k) l = modify_first k (poll_for_write fl b) l

abbrev pub woken : {fl : Flags} → Option ℕ → List (PolledFd fl) → List (PolledFd fl)
woken = polled true

abbrev pub holds : {fl : Flags} → Option ℕ → List (PolledFd fl) → Bool
holds none l = true
holds (some k) l = has_fd k l

-- The set after `unregister`.
abbrev pub struck : {fl : Flags} → ℕ → PolledFdSet fl → PolledFdSet fl
struck fd s = record s { existing = remove_first fd s.existing; removed = s.removed ++ fd ∷ [] }

-- The context that the hangup of the client leaves: with data to send, the console is asked for.
abbrev pub without_client :
    {os : Os} {S : Type 0}
    → ℕ
    → Context os (IosockChannelManager S)
    → Context os (IosockChannelManager S)
without_client {os} fd c =
    let rest = remove_first fd c.fd_set.existing in
    let l = if ltb 0 (writable_size c.mgr.out_buffer) then woken c.mgr.console rest else rest in
    record {
      mgr = record c.mgr { client_socket = none };
      fd_set = record c.fd_set { existing = l };
      world = os.close fd c.world;
    }

module _ {os : Os} {S : Type 0} (io : ChildStdio os S) where
  pub hangup_client_lem :
      (fd : ℕ) (console : Option ℕ) (c : Context os (IosockChannelManager S))
      → console ≡ c.mgr.console
      → has_fd fd c.fd_set.existing ≡ true
      → holds console (remove_first fd c.fd_set.existing) ≡ true
      → hangup_client io fd c ≡ (done tt, without_client fd c)
  unfolding hangup_client unregister_closed modify
  hangup_client_lem fd none c e h k = ground arith
  hangup_client_lem fd (some g) c e h k = ground arith

  pub hangup_child_lem :
      (fd : ℕ) (c : Context os (IosockChannelManager S)) {s : S} {fds : PolledFdSet os.flags}
      {w : os.World}
      → io.hangup fd c.mgr.child c.fd_set c.world ≡ done (s, fds, w)
      → hangup_child io fd c
        ≡ (done tt, record { mgr = record c.mgr { child = s }; fd_set = fds; world = w })
  unfolding hangup_child
  hangup_child_lem fd c e = ground arith

  pub hangup_console_lem :
      (fd : ℕ) (c : Context os (IosockChannelManager S))
      → has_fd fd c.fd_set.existing ≡ true
      → hangup_console io fd c
        ≡ (done tt, record c { mgr = record c.mgr { console = none }; fd_set = struck fd c.fd_set })
  unfolding hangup_console unregister
  hangup_console_lem fd c h = ground arith

-- The set `l'` is `l` without the descriptor.
abbrev pub IsWithout : {fl : Flags} → ℕ → List (PolledFd fl) → List (PolledFd fl) → Type 0
IsWithout fd l l' =
    IsDistinct l' × ((g : ℕ) → has_fd g l' ≡ (if g == fd then false else has_fd g l))

pub remove-IsWithout :
    {fl : Flags} (fd : ℕ) (l : List (PolledFd fl))
    → IsDistinct l
    → IsWithout fd l (remove_first fd l)
remove-IsWithout fd l d = (IsDistinct-remove fd l d, λ g. has_fd-remove fd g l d)

pub woken-IsWithout :
    {fl : Flags} (fd : ℕ) (o : Option ℕ) (l l' : List (PolledFd fl))
    → IsWithout fd l l'
    → IsWithout fd l (woken o l')
woken-IsWithout fd none l l' h = h
woken-IsWithout {fl} fd (some k) l l' h = (
  IsDistinct-modify k (poll_for_write fl true) l' (fd-poll_for_write true) h.0,
  λ g. has_fd-modify_first k g (poll_for_write fl true) l' (fd-poll_for_write true) ∙ h.1 g,
)

pub if-IsWithout :
    {fl : Flags} (fd : ℕ) (l : List (PolledFd fl)) (b : Bool) (x y : List (PolledFd fl))
    → IsWithout fd l x
    → IsWithout fd l y
    → IsWithout fd l (if b then x else y)
if-IsWithout fd l true x y hx hy = hx
if-IsWithout fd l false x y hx hy = hy

pub holds-remove :
    {fl : Flags} (fd : ℕ) (o : Option ℕ) (l : List (PolledFd fl))
    → IsDistinct l
    → is_fd o fd ≡ false
    → holds o l ≡ true
    → holds o (remove_first fd l) ≡ true
holds-remove fd none l d ne h = refl
holds-remove fd (some k) l d ne h = ground (arith, has_fd-remove fd k l d)

pub holds_of_owned :
    {fl : Flags} (o : Option ℕ) (l : List (PolledFd fl))
    → ((g : ℕ) → is_fd o g ≡ true → has_fd g l ≡ true)
    → holds o l ≡ true
holds_of_owned none l h = refl
holds_of_owned (some k) l h = h k (==_refl k)

is_client-only :
    (o : Option UnixClient) (fd g : ℕ) → is_client o fd ≡ true → is_client o g ≡ (g == fd)
is_client-only none fd g h = cc
is_client-only (some x) fd g h = ground arith

is_fd-only : (o : Option ℕ) (fd g : ℕ) → is_fd o fd ≡ true → is_fd o g ≡ (g == fd)
is_fd-only none fd g h = cc
is_fd-only (some x) fd g h = ground arith

module _ {os : Os} {S : Type 0} {io : ChildStdio os S} (laws : StdioLaws io) where
  -- What the streams and the set are after the stream `fd` is given up.
  abbrev pub GivesUp :
      ℕ → Context os (IosockChannelManager S) → Context os (IosockChannelManager S) → Type 0
  GivesUp fd c c' =
      IsWired laws c'.mgr c'.fd_set.existing
      × ((g : ℕ) → owns io c'.mgr g ≡ (if g == fd then false else owns io c.mgr g))

  pub client_gone :
      (fd : ℕ) (c : Context os (IosockChannelManager S)) (l : List (PolledFd os.flags))
      (w : os.World)
      → IsWired laws c.mgr c.fd_set.existing
      → is_client c.mgr.client_socket fd ≡ true
      → IsWithout fd c.fd_set.existing l
      → GivesUp fd c (record {
        mgr = record c.mgr { client_socket = none };
        fd_set = record c.fd_set { existing = l };
        world = w;
      })
  client_gone fd c l w h e k = (
    record {
      distinct = k.0;
      registered = λ g o.
          ground (arith, k.1 g, h.registered g, h.client_apart g, is_client-only client fd g e);
      client_apart = λ g o. cc;
      child_apart = h.child_apart;
      inner = h.inner;
    },
    λ g. ground (arith, h.client_apart g, is_client-only client fd g e),
  )
    where
      client : Option UnixClient
      client = c.mgr.client_socket

  pub child_gone :
      (fd : ℕ) (c : Context os (IosockChannelManager S)) (s : S) (l : List (PolledFd os.flags))
      (w : os.World)
      → IsWired laws c.mgr c.fd_set.existing
      → is_child io c.mgr.child fd ≡ true
      → ((g : ℕ) → is_child io s g ≡ (if g == fd then false else is_child io c.mgr.child g))
      → laws.IsApart s
      → IsWithout fd c.fd_set.existing l
      → GivesUp fd c (record {
        mgr = record c.mgr { child = s };
        fd_set = record c.fd_set { existing = l };
        world = w;
      })
  child_gone fd c s l w h e q a k = (
    record {
      distinct = k.0;
      registered = λ g o.
          ground (arith, k.1 g, q g, h.registered g, h.client_apart g, h.child_apart g, same g);
      client_apart = λ g o. ground (arith, q g, h.client_apart g);
      child_apart = λ g o. ground (arith, q g, h.child_apart g);
      inner = a;
    },
    λ g. ground (arith, q g, h.client_apart g, h.child_apart g, same g),
  )
    where
      same : (g : ℕ) → (g == fd) ≡ true → is_child io c.mgr.child g ≡ true
      same g t = rw ((==_iff g fd).0 t) e

  pub console_gone :
      (fd : ℕ) (c : Context os (IosockChannelManager S)) (s : PolledFdSet os.flags)
      → IsWired laws c.mgr c.fd_set.existing
      → is_fd c.mgr.console fd ≡ true
      → IsWithout fd c.fd_set.existing s.existing
      → GivesUp fd c (record c { mgr = record c.mgr { console = none }; fd_set = s })
  console_gone fd c s h e k = (
    record {
      distinct = k.0;
      registered = λ g o. ground (
        arith,
        k.1 g,
        h.registered g,
        h.client_apart g,
        h.child_apart g,
        is_fd-only console fd g e,
      );
      client_apart = λ g o. ground (arith, h.client_apart g);
      child_apart = λ g o. refl;
      inner = h.inner;
    },
    λ g. ground (arith, h.client_apart g, h.child_apart g, is_fd-only console fd g e),
  )
    where
      console : Option ℕ
      console = c.mgr.console
