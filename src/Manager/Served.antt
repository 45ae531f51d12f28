-- ===== src/Manager/Served.antt =====
-- src/io.rs: what the manager relies on in `ChildStdio`, in all its operations.
use iosock.Prelude.{ℕ, ◌≡◌, true}
use iosock.Outcome.{done}
use iosock.Buffer.{FlipBuffer}
use iosock.Buffer.Contents.{IsValid, contents}
use iosock.Channel.Pending.{TellsRead, TellsWrite}
use iosock.Polled.{PolledFdSet}
use iosock.Os.{Os}
use iosock.Os.Laws.{OsLaws}
use iosock.Polled.Interest.{cut}
use iosock.Stdio.{ChildStdio}
use iosock.Stdio.Pipes.{is_fd}
use iosock.Manager.{is_child}
use iosock.Manager.Wired.{StdioLaws}

-- What the manager relies on in all operations of `ChildStdio`.
pub record StreamLaws {os : Os} {S : Type 0} (system : OsLaws os) (io : ChildStdio os S)
    : Type 1 where
  pub stdio : StdioLaws io
  pub write_stdin-Tells :
      (s : S) (b : FlipBuffer) (w : os.World)
      → IsValid b
      → let (r, b', w') = io.write_stdin s b w in
        IsValid b'
        × TellsWrite (contents b) (contents b') r
        × ((g : ℕ) → system.watched w' g ≡ system.watched w g)
  pub read_stdout-Tells :
      (s : S) (b : FlipBuffer) (w : os.World)
      → IsValid b
      → let (r, b', w') = io.read_stdout s b w in
        IsValid b'
        × TellsRead (contents b) (contents b') r
        × ((g : ℕ) → system.watched w' g ≡ system.watched w g)
  pub read_stderr-Tells :
      (fd : ℕ) (s : S) (b : FlipBuffer) (w : os.World)
      → is_fd (io.stderr_fd s) fd ≡ true
      → IsValid b
      → let (r, b', w') = io.read_stderr s b w in
        IsValid b'
        × TellsRead (contents b) (contents b') r
        × ((g : ℕ) → system.watched w' g ≡ system.watched w g)
  -- A hangup of a stream opens no stdin, and closes the stream's descriptor alone.
  pub hangup_closes :
      (fd : ℕ) (s s' : S) (fds fds' : PolledFdSet os.flags) (w w' : os.World)
      → is_child io s fd ≡ true
      → io.hangup fd s fds w ≡ done (s', fds', w')
      → ((g : ℕ) → is_fd (io.stdin_fd s') g ≡ true → is_fd (io.stdin_fd s) g ≡ true)
        × ((g : ℕ) → system.watched w' g ≡ cut fd (system.watched w) g)
