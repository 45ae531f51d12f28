-- ===== src/Manager/Wired.antt =====
-- src/io.rs: the streams that the manager owns, against the descriptors that epoll knows of.
use iosock.Prelude.{ℕ, ◌≡◌, Bool, true, false, ◌||◌, List, ◌==◌, if◌then◌else◌}
use iosock.Outcome.{Returns}
use iosock.Polled.{PolledFd, PolledFdSet, has_fd, remove_first}
use iosock.Polled.Lookup.{IsDistinct}
use iosock.Os.{Os}
use iosock.Stdio.{ChildStdio}
use iosock.Stdio.Pipes.{is_fd}
use iosock.Manager.{IosockChannelManager, is_client, is_child}

-- What the manager relies on in `ChildStdio::hangup`: a descriptor of the child that is in the set
-- leaves the set and the child's streams, and nothing else does.
pub record StdioLaws {os : Os} {S : Type 0} (io : ChildStdio os S) : Type 1 where
  pub IsApart : S → Type 0
  pub hangup_lem :
      (fd : ℕ) (s : S) (fds : PolledFdSet os.flags) (w : os.World)
      → IsApart s
      → is_child io s fd ≡ true
      → has_fd fd fds.existing ≡ true
      → Returns
          (λ t.
            (t.1 ≡ record fds { existing = remove_first fd fds.existing })
            × ((g : ℕ) → is_child io t.0 g ≡ (if g == fd then false else is_child io s g))
            × IsApart t.0)
          (io.hangup fd s fds w)

-- The descriptors of the client, the child and the console.
abbrev pub owns : {os : Os} {S : Type 0} → ChildStdio os S → IosockChannelManager S → ℕ → Bool
owns io m fd = is_client m.client_socket fd || is_child io m.child fd || is_fd m.console fd

-- Every stream is in the set, and no two of them share a descriptor.
pub record IsWired {os : Os} {S : Type 0} {io : ChildStdio os S} (laws : StdioLaws io)
    (m : IosockChannelManager S) (l : List (PolledFd os.flags)) : Type 0 where
  pub distinct : IsDistinct l
  pub registered : (g : ℕ) → owns io m g ≡ true → has_fd g l ≡ true
  pub client_apart :
      (g : ℕ)
      → is_client m.client_socket g ≡ true
      → (is_child io m.child g || is_fd m.console g) ≡ false
  pub child_apart : (g : ℕ) → is_child io m.child g ≡ true → is_fd m.console g ≡ false
  pub inner : laws.IsApart m.child
