-- ===== src/Relay/Streams.antt =====
-- src/io.rs: the bytes that `ChildPipes` and `ChildPty` move, and src/pty.rs below them.
use mathlib.Core.Path.{subst}
use mathlib.Core.List.{append-nil}
use iosock.Prelude.{
  ℕ, zero, ◌≡◌, refl, sym, true, Option, none, some, List, [], ◌++◌, ◌==◌, Bool-cases, inl, inr,
}
use iosock.Io.{Result, ok, err}
use iosock.Outcome.{Outcome, done, fail, panic}
use iosock.Buffer.{FlipBuffer}
use iosock.Buffer.Contents.{IsValid, contents, room}
use iosock.Polled.{PolledFdSet, has_fd, unregister_closed}
use iosock.Os.{Os, reader, writer}
use iosock.Os.Laws.{OsLaws}
use iosock.Pty.{is_errno, ignore_eio, pty_reader, pty_writer}
use iosock.Pty.Eof.{pty_reader-ReadsWithin, pty_writer-WritesWithin}
use iosock.Stdio.{ChildStdio, Moved}
use iosock.Stdio.Pipes
use iosock.Stdio.Pipes.{ChildPipes, is_fd, read_some, write_some, drop_stream, pipes_stdio}
use iosock.Stdio.Pty as Terminal
use iosock.Stdio.Pty.{ChildPty, read_pty, write_pty, pty_stdio}
use iosock.Manager.Children.{drop_stream_lem, drop_stream-panic}
use iosock.Manager.{is_some}
use iosock.Relay.{Entry, note_read, note_write, LogLaws}
use iosock.Relay.Transfer.{
  ReadBy, WrittenBy, nothing, NotesRead, NotesWrite, channel_to_buffer-ReadBy,
  buffer_to_channel-WrittenBy,
}

module _ {os : Os} (logs : LogLaws os) where
  abbrev pub Reads : Option ℕ → FlipBuffer → os.World → Moved os → Type 0
  Reads o b w (r, b', w') =
      (es : List Entry) × (logs.log w' ≡ logs.log w ++ es)
      × ReadBy o (room b == 0) (contents b) es (contents b')

  abbrev pub Writes : Option ℕ → FlipBuffer → os.World → Moved os → Type 0
  Writes o b w (r, b', w') =
      (es : List Entry) × (logs.log w' ≡ logs.log w ++ es)
      × WrittenBy o (contents b) es (contents b')

  -- What the manager's transfers rely on in `ChildStdio`. Both outputs are read by the descriptor of
  -- stdout.
  pub record RelayLaws {S : Type 0} (io : ChildStdio os S) : Type 0 where
    pub write_stdin-Writes :
        (s : S) (b : FlipBuffer) (w : os.World)
        → IsValid b
        → Writes (io.stdin_fd s) b w (io.write_stdin s b w)
    pub read_stdout-Reads :
        (s : S) (b : FlipBuffer) (w : os.World)
        → IsValid b
        → Reads (io.stdout_fd s) b w (io.read_stdout s b w)
    pub read_stderr-Reads :
        (s : S) (b : FlipBuffer) (w : os.World)
        → IsValid b
        → Reads (io.stdout_fd s) b w (io.read_stderr s b w)
    pub hangup_moves_none :
        (fd : ℕ) (s s' : S) (fds fds' : PolledFdSet os.flags) (w w' : os.World)
        → io.hangup fd s fds w ≡ done (s', fds', w')
        → (logs.log w' ≡ logs.log w)
          × (is_some (io.stdin_fd s') ≡ true → is_some (io.stdin_fd s) ≡ true)

  pub reader-Notes :
      (fd : ℕ) (w : os.World) (n : ℕ)
      → (es : List Entry) × (logs.log (os.read fd w n).1 ≡ logs.log w ++ es)
        × NotesRead fd (os.read fd w n).0 es
  reader-Notes fd w n =
      (note_read fd (os.read fd w n).0, logs.log-read fd w n, noted (os.read fd w n).0)
    where
      noted : (a : Result (List ℕ)) → NotesRead fd a (note_read fd a)
      noted (ok bs) = inl refl
      noted (err e) = refl

  pub writer-Notes :
      (fd : ℕ) (w : os.World) (bs : List ℕ)
      → (es : List Entry) × (logs.log (os.write fd w bs).1 ≡ logs.log w ++ es)
        × NotesWrite fd bs (os.write fd w bs).0 es
  writer-Notes fd w bs =
      (note_write fd bs (os.write fd w bs).0, logs.log-write fd w bs, noted (os.write fd w bs).0)
    where
      noted : (a : Result ℕ) → NotesWrite fd bs a (note_write fd bs a)
      noted (ok n) = inl refl
      noted (err e) = refl

  ignored-NotesRead :
      (fd : ℕ) (a : Result (List ℕ)) (es : List Entry)
      → NotesRead fd a es
      → NotesRead fd (ignore_eio os [] a) es
  unfolding ignore_eio
  ignored-NotesRead fd (ok bs) es h = h
  ignored-NotesRead fd (err e) es h = elim (Bool-cases (is_errno e.raw_os_error os.eio)) [
    | inl k ↦ rw k (inr (h, refl))
    | inr k ↦ rw k h
  ]

  ignored-NotesWrite :
      (fd : ℕ) (bs : List ℕ) (a : Result ℕ) (es : List Entry)
      → NotesWrite fd bs a es
      → NotesWrite fd bs (ignore_eio os zero a) es
  unfolding ignore_eio
  ignored-NotesWrite fd bs (ok n) es h = h
  ignored-NotesWrite fd bs (err e) es h = elim (Bool-cases (is_errno e.raw_os_error os.eio)) [
    | inl k ↦ rw k (inr (h, refl))
    | inr k ↦ rw k h
  ]

  pty_reader-Notes :
      (fd : ℕ) (w : os.World) (n : ℕ)
      → (es : List Entry) × (logs.log ((pty_reader os fd).read w n).1 ≡ logs.log w ++ es)
        × NotesRead fd ((pty_reader os fd).read w n).0 es
  unfolding iosock.Pty.read
  pty_reader-Notes fd w n =
      let (es, l, h) = reader-Notes fd w n in (es, l, ignored-NotesRead fd (os.read fd w n).0 es h)

  pty_writer-Notes :
      (fd : ℕ) (w : os.World) (bs : List ℕ)
      → (es : List Entry) × (logs.log ((pty_writer os fd).write w bs).1 ≡ logs.log w ++ es)
        × NotesWrite fd bs ((pty_writer os fd).write w bs).0 es
  unfolding iosock.Pty.write
  pty_writer-Notes fd w bs =
      let (es, l, h) = writer-Notes fd w bs in
      (es, l, ignored-NotesWrite fd bs (os.write fd w bs).0 es h)

  pty_flush : (fd : ℕ) (w : os.World) → logs.log ((pty_writer os fd).flush w).1 ≡ logs.log w
  unfolding iosock.Pty.flush
  pty_flush fd w = logs.log-flush fd w

  still : (w : os.World) → logs.log w ≡ logs.log w ++ []
  still w = sym (append-nil (logs.log w))

module _ {os : Os} (system : OsLaws os) (logs : LogLaws os) where
  read_some-Reads :
      (o : Option ℕ) (b : FlipBuffer) (w : os.World)
      → IsValid b
      → Reads logs o b w (read_some os o b w)
  unfolding read_some
  read_some-Reads none b w v = ([], still logs w, nothing refl refl)
  read_some-Reads (some fd) b w v =
      channel_to_buffer-ReadBy (reader os fd) logs.log fd (system.reads fd) (reader-Notes logs fd) b
        w v

  write_some-Writes :
      (o : Option ℕ) (b : FlipBuffer) (w : os.World)
      → IsValid b
      → Writes logs o b w (write_some os o b w)
  unfolding write_some
  write_some-Writes none b w v = ([], still logs w, nothing refl refl)
  write_some-Writes (some fd) b w v =
      buffer_to_channel-WrittenBy (writer os fd) logs.log fd (system.writes fd) (logs.log-flush fd)
        (writer-Notes logs fd) b w v

  pty_read-Reads :
      (o : Option ℕ) (b : FlipBuffer) (w : os.World)
      → IsValid b
      → Reads logs o b w (read_pty os o b w)
  pty_read-Reads none b w v = ([], still logs w, nothing refl refl)
  pty_read-Reads (some fd) b w v =
      channel_to_buffer-ReadBy (pty_reader os fd) logs.log fd
        (pty_reader-ReadsWithin os fd (system.reads fd)) (pty_reader-Notes logs fd) b w v

  pty_write-Writes :
      (o : Option ℕ) (b : FlipBuffer) (w : os.World)
      → IsValid b
      → Writes logs o b w (write_pty os o b w)
  pty_write-Writes none b w v = ([], still logs w, nothing refl refl)
  pty_write-Writes (some fd) b w v =
      buffer_to_channel-WrittenBy (pty_writer os fd) logs.log fd
        (pty_writer-WritesWithin os fd (system.writes fd)) (pty_flush logs fd)
        (pty_writer-Notes logs fd) b w v

  -- A hangup that returns moves nothing, and opens no stdin; `o` was the stdin before.
  abbrev MovesNone :
      {S : Type 0}
      → ChildStdio os S
      → Option ℕ
      → os.World
      → Outcome (S × PolledFdSet os.flags × os.World)
      → Type 0
  MovesNone io o w (done (s, fds, w')) =
      (logs.log w' ≡ logs.log w) × (is_some (io.stdin_fd s) ≡ true → is_some o ≡ true)
  MovesNone io o w (fail e) = Unit
  MovesNone io o w panic = Unit

  drop_stream-MovesNone :
      (fd : ℕ) (o : Option ℕ) (p : ChildPipes) (fds : PolledFdSet os.flags) (w : os.World)
      → (is_some p.stdin ≡ true → is_some o ≡ true)
      → MovesNone (pipes_stdio os) o w (drop_stream os fd p fds w)
  drop_stream-MovesNone fd o p fds w h = elim (Bool-cases (has_fd fd fds.existing)) [
    | inl k ↦
        subst (MovesNone (pipes_stdio os) o w) (sym (drop_stream_lem os fd p fds w k))
          (logs.log-close fd w, h)
    | inr k ↦ subst (MovesNone (pipes_stdio os) o w) (sym (drop_stream-panic os fd p fds w k)) tt
  ]

  pipes-MovesNone :
      (fd : ℕ) (s : ChildPipes) (fds : PolledFdSet os.flags) (w : os.World)
      → MovesNone (pipes_stdio os) s.stdin w (Pipes.hangup os fd s fds w)
  unfolding Pipes.hangup
  pipes-MovesNone fd s fds w = elim (Bool-cases (is_fd s.stdin fd)) [
    | inl e ↦ rw e (drop_stream-MovesNone fd s.stdin (record s { stdin = none }) fds w (λ k. cc))
    | inr e ↦ elim (Bool-cases (is_fd s.stdout fd)) [
      | inl k ↦
          rw (e, k) (drop_stream-MovesNone fd s.stdin (record s { stdout = none }) fds w (λ a. a))
      | inr k ↦ elim (Bool-cases (is_fd s.stderr fd)) [
        | inl n ↦
            rw (e, k, n)
              (drop_stream-MovesNone fd s.stdin (record s { stderr = none }) fds w (λ a. a))
        | inr n ↦ rw (e, k, n) (refl, λ a. a)
      ]
    ]
  ]

  pty-MovesNone :
      (fd : ℕ) (s : ChildPty) (fds : PolledFdSet os.flags) (w : os.World)
      → MovesNone (pty_stdio os) s.pty w (Terminal.hangup os fd s fds w)
  unfolding Terminal.hangup unregister_closed
  pty-MovesNone fd s fds w = elim (Bool-cases (is_fd s.pty fd)) [
    | inl n ↦ elim (Bool-cases (has_fd fd fds.existing)) [
      | inl k ↦ rw (n, k) (logs.log-close fd w, λ a. cc)
      | inr k ↦ rw (n, k) tt
    ]
    | inr n ↦ rw n (refl, λ a. a)
  ]

  pub pipes_relay : RelayLaws logs (pipes_stdio os)
  unfolding Pipes.write_stdin Pipes.read_stdout Pipes.read_stderr
  pipes_relay = record {
    write_stdin-Writes = λ s b w v. write_some-Writes s.stdin b w v;
    read_stdout-Reads = λ s b w v. read_some-Reads s.stdout b w v;
    read_stderr-Reads = λ s b w v. read_some-Reads s.stdout b w v;
    hangup_moves_none = λ fd s s' fds fds' w w' e.
        subst (MovesNone (pipes_stdio os) s.stdin w) e (pipes-MovesNone fd s fds w);
  }

  pub pty_relay : RelayLaws logs (pty_stdio os)
  unfolding Terminal.write_stdin Terminal.read_stdout Terminal.read_stderr
  pty_relay = record {
    write_stdin-Writes = λ s b w v. pty_write-Writes s.pty b w v;
    read_stdout-Reads = λ s b w v. pty_read-Reads s.pty b w v;
    read_stderr-Reads = λ s b w v. ([], still logs w, nothing refl refl);
    hangup_moves_none = λ fd s s' fds fds' w w' e.
        subst (MovesNone (pty_stdio os) s.pty w) e (pty-MovesNone fd s fds w);
  }
