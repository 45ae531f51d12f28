-- ===== src/Os/Laws.antt =====
-- What the documentation of the system's calls says, as far as the program relies on it.
use iosock.Prelude.{ℕ, ◌≡◌, ◌≢◌, Bool, true, false, not, ◌&&◌, ◌==◌, none, List}
use iosock.Io.{IoError, ok, err, ReadsWithin, WritesWithin}
use iosock.Epoll.{Event, FlagLaws, ctl_add, ctl_mod, ctl_del}
use iosock.Polled.Interest.{Interest, put, cut, is_some}
use iosock.Os.{Os, reader, writer}

-- `watched` is the interest list of the epoll instance `poll_fd`, but for the entry of `close_fd`,
-- which the set of descriptors does not know of. `pollable` are the descriptors that are open to
-- something that epoll supports whenever the program gives them to epoll: epoll_ctl(2) refuses to
-- add another, with EPERM for a file or a directory and with EBADF for one that is not open. But for
-- that it succeeds where its preconditions hold; that it runs out of memory or of watches is left
-- out. A descriptor leaves the list when it is closed, epoll(7); accept(2) returns a socket, and a
-- descriptor that was not open, so that it is in no list.
pub record OsLaws (os : Os) : Type 0 where
  pub flags : FlagLaws os.flags
  pub reads : (fd : ℕ) → ReadsWithin (reader os fd)
  pub writes : (fd : ℕ) → WritesWithin (writer os fd)
  pub poll_fd : ℕ
  pub close_fd : ℕ
  pub pollable : ℕ → Bool
  pub watched : os.World → Interest
  pub watched-read :
      (fd : ℕ) (w : os.World) (n : ℕ) (g : ℕ) → watched (os.read fd w n).1 g ≡ watched w g
  pub watched-write :
      (fd : ℕ) (w : os.World) (bs : List ℕ) (g : ℕ) → watched (os.write fd w bs).1 g ≡ watched w g
  pub watched-flush : (fd : ℕ) (w : os.World) (g : ℕ) → watched (os.flush fd w).1 g ≡ watched w g
  pub watched-accept : (fd : ℕ) (w : os.World) (g : ℕ) → watched (os.accept fd w).1 g ≡ watched w g
  pub watched-close :
      (fd : ℕ) (w : os.World) (g : ℕ) → watched (os.close fd w) g ≡ cut fd (watched w) g
  pub watched-wait :
      (n : ℕ) (w : os.World) (g : ℕ) → watched (os.epoll_wait poll_fd n w).1 g ≡ watched w g
  pub accepts_new :
      (server fd : ℕ) (w w' : os.World)
      → os.accept server w ≡ (ok fd, w')
      → (fd ≢ close_fd) × (watched w fd ≡ none) × (pollable fd ≡ true)
  pub add_ok :
      (fd : ℕ) (e : Event) (w : os.World)
      → fd ≢ close_fd
      → pollable fd ≡ true
      → watched w fd ≡ none
      → let r = os.epoll_ctl poll_fd ctl_add fd e w in
        (r.0 ≡ ok tt) × ((g : ℕ) → watched r.1 g ≡ put fd e (watched w) g)
  pub mod_ok :
      (fd : ℕ) (e : Event) (w : os.World)
      → is_some (watched w fd) ≡ true
      → let r = os.epoll_ctl poll_fd ctl_mod fd e w in
        (r.0 ≡ ok tt) × ((g : ℕ) → watched r.1 g ≡ put fd e (watched w) g)
  pub del_ok :
      (fd : ℕ) (e : Event) (w : os.World)
      → is_some (watched w fd) ≡ true
      → let r = os.epoll_ctl poll_fd ctl_del fd e w in
        (r.0 ≡ ok tt) × ((g : ℕ) → watched r.1 g ≡ cut fd (watched w) g)

-- The descriptors that the set may give to epoll.
abbrev pub is_own : {os : Os} → OsLaws os → ℕ → Bool
is_own system fd = not (fd == system.close_fd) && system.pollable fd

-- epoll_ctl(2) refuses to add a descriptor that epoll does not support.
pub record RefuseLaws {os : Os} (system : OsLaws os) : Type 0 where
  pub add_refused :
      (fd : ℕ) (e : Event) (w : os.World)
      → system.pollable fd ≡ false
      → (x : IoError) × ((os.epoll_ctl system.poll_fd ctl_add fd e w).0 ≡ err x)
