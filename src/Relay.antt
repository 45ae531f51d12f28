-- ===== src/Relay.antt =====
-- src/io.rs and src/pollster.rs: the bytes that the program moves, from the client to the child and
-- from the child to the client and the console.
pub mod Transfer
pub mod Streams
pub mod Settling
pub mod Answers
pub mod Conserving
pub mod Calls
pub mod Steps
pub mod Rounds
pub mod Runs
use mathlib.Core.List.{append_assoc}
use iosock.Prelude.{
  ℕ, ◌≡◌, refl, sym, ap, ◌∙◌, Bool, true, false, List, [], ◌∷◌, ◌++◌, ◌==◌, if◌then◌else◌, take,
}
use iosock.Io.{Result, ok, err}
use iosock.Epoll.{Event, ControlOptions}
use iosock.Buffer.Contents.{room}
use iosock.Channel.{Context}
use iosock.Os.{Os}
use iosock.Stdio.{ChildStdio}
use iosock.Stdio.Pipes.{is_fd}
use iosock.Manager.{IosockChannelManager, is_client, is_some}

-- A transfer of bytes by the system: a read of a descriptor that returned them, or a write that took
-- them.
pub data Entry : Type 0 where
  got put : ℕ → List ℕ → Entry

abbrev pub note_read : ℕ → Result (List ℕ) → List Entry
note_read fd (ok bs) = got fd bs ∷ []
note_read fd (err e) = []

abbrev pub note_write : ℕ → List ℕ → Result ℕ → List Entry
note_write fd bs (ok n) = put fd (take n bs) ∷ []
note_write fd bs (err e) = []

-- The transfers so far, in order: read(2) that succeeds has returned its bytes, write(2) that returns
-- `n` has taken the first `n` bytes, and nothing else transfers any.
pub record LogLaws (os : Os) : Type 0 where
  pub log : os.World → List Entry
  pub log-read :
      (fd : ℕ) (w : os.World) (n : ℕ)
      → let (r, w') = os.read fd w n in log w' ≡ log w ++ note_read fd r
  pub log-write :
      (fd : ℕ) (w : os.World) (bs : List ℕ)
      → let (r, w') = os.write fd w bs in log w' ≡ log w ++ note_write fd bs r
  pub log-flush : (fd : ℕ) (w : os.World) → log (os.flush fd w).1 ≡ log w
  pub log-accept : (fd : ℕ) (w : os.World) → log (os.accept fd w).1 ≡ log w
  pub log-close : (fd : ℕ) (w : os.World) → log (os.close fd w) ≡ log w
  pub log-epoll_ctl :
      (p : ℕ) (op : ControlOptions) (fd : ℕ) (e : Event) (w : os.World)
      → log (os.epoll_ctl p op fd e w).1 ≡ log w
  pub log-epoll_wait : (p n : ℕ) (w : os.World) → log (os.epoll_wait p n w).1 ≡ log w

-- What a transfer is to the program. A read with no room in its buffer loses the bytes.
pub data Move : Type 0 where
  from_client lost_input to_stdin from_child lost_output to_output : List ℕ → Move

module _ {os : Os} {S : Type 0} (io : ChildStdio os S) where
  -- By the streams that the manager has before the handler that makes the transfer.
  abbrev pub move : Context os (IosockChannelManager S) → Entry → Move
  move c (got fd bs) =
      if is_client c.mgr.client_socket fd
      then if room c.mgr.in_buffer == 0 then lost_input bs else from_client bs
      else if room c.mgr.out_buffer == 0
      then lost_output bs
      else from_child bs
  move c (put fd bs) = if is_fd (io.stdin_fd c.mgr.child) fd then to_stdin bs else to_output bs

  -- The console and the child's stdin are open.
  abbrev pub IsAttached : Context os (IosockChannelManager S) → Type 0
  IsAttached c = (is_some c.mgr.console ≡ true) × (is_some (io.stdin_fd c.mgr.child) ≡ true)

  abbrev pub moves : Context os (IosockChannelManager S) → List Entry → List Move
  moves c [] = []
  moves c (e ∷ es) = move c e ∷ moves c es

abbrev pub gather : (Move → List ℕ) → List Move → List ℕ
gather f [] = []
gather f (m ∷ ms) = f m ++ gather f ms

abbrev pub of_client : Move → List ℕ
of_client (from_client bs) = bs
of_client _ = []

abbrev pub of_stdin : Move → List ℕ
of_stdin (to_stdin bs) = bs
of_stdin _ = []

abbrev pub of_child : Move → List ℕ
of_child (from_child bs) = bs
of_child _ = []

abbrev pub of_output : Move → List ℕ
of_output (to_output bs) = bs
of_output _ = []

-- The bytes of each kind of move, in order: what was read from the client with room in the buffer,
-- what the child's stdin took, what was read from the child with room in the buffer, and what the
-- client and the console took.
abbrev pub client_bytes : List Move → List ℕ
client_bytes = gather of_client

abbrev pub stdin_bytes : List Move → List ℕ
stdin_bytes = gather of_stdin

abbrev pub child_bytes : List Move → List ℕ
child_bytes = gather of_child

abbrev pub output_bytes : List Move → List ℕ
output_bytes = gather of_output

pub gather-append :
    (f : Move → List ℕ) (ms ns : List Move) → gather f (ms ++ ns) ≡ gather f ms ++ gather f ns
gather-append f [] ns = refl
gather-append f (m ∷ ms) ns =
    ap (λ l. f m ++ l) (gather-append f ms ns)
    ∙ sym (append_assoc (f m) (gather f ms) (gather f ns))
