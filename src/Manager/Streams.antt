-- ===== src/Manager/Streams.antt =====
-- src/io.rs: `ChildPipes` and `ChildPty`, against what the manager relies on in all their
-- operations.
use mathlib.Core.Path.{subst}
use iosock.Prelude.{
  ℕ, ◌≡◌, refl, sym, Bool, true, false, Option, none, some, List, Bool-cases, inl, inr, arith,
}
use iosock.Outcome.{Outcome, done, fail, panic}
use iosock.Buffer.{FlipBuffer, BufferStateChange}
use iosock.Buffer.Contents.{IsValid, contents}
use iosock.Channel.Pending.{
  TellsRead, TellsWrite, channel_to_buffer-TellsRead, channel_to_buffer-keeps,
  buffer_to_channel-TellsWrite, buffer_to_channel-keeps,
}
use iosock.Polled.{PolledFdSet, has_fd, unregister_closed}
use iosock.Polled.Interest.{cut}
use iosock.Os.{Os, reader, writer}
use iosock.Os.Laws.{OsLaws}
use iosock.Pty.{ignore_eio, pty_reader, pty_writer}
use iosock.Pty.Eof.{pty_reader-ReadsWithin, pty_writer-WritesWithin}
use iosock.Stdio.{Moved}
use iosock.Stdio.Pipes
use iosock.Stdio.Pipes.{ChildPipes, is_fd, read_some, write_some, drop_stream, pipes_stdio}
use iosock.Stdio.Pty as Terminal
use iosock.Stdio.Pty.{ChildPty, read_pty, write_pty, pty_stdio}
use iosock.Manager.{is_child}
use iosock.Manager.Children.{drop_stream_lem, drop_stream-panic, pipes_laws, pty_laws}
use iosock.Manager.Served.{StreamLaws}

module _ {os : Os} (system : OsLaws os) where
  abbrev Same : os.World → os.World → Type 0
  Same w w' = (g : ℕ) → system.watched w' g ≡ system.watched w g

  pub read_some-Tells :
      (o : Option ℕ) (b : FlipBuffer) (w : os.World)
      → IsValid b
      → let (r, b', w') = read_some os o b w in
        IsValid b' × TellsRead (contents b) (contents b') r × Same w w'
  unfolding read_some
  read_some-Tells none b w v = (v, λ h. ground (arith, h), λ g. refl)
  read_some-Tells (some fd) b w v =
      let (v', t) = channel_to_buffer-TellsRead (reader os fd) (system.reads fd) b w v in
      (
        v',
        t,
        λ g.
            channel_to_buffer-keeps (reader os fd) (system.reads fd) (λ u. system.watched u g)
              (λ u n. system.watched-read fd u n g) b w v,
      )

  pub write_some-Tells :
      (o : Option ℕ) (b : FlipBuffer) (w : os.World)
      → IsValid b
      → let (r, b', w') = write_some os o b w in
        IsValid b' × TellsWrite (contents b) (contents b') r × Same w w'
  unfolding write_some
  write_some-Tells none b w v = (v, (λ h. h, λ h. cc), λ g. refl)
  write_some-Tells (some fd) b w v =
      let (v', t) = buffer_to_channel-TellsWrite (writer os fd) (system.writes fd) b w v in
      (
        v',
        t,
        λ g.
            buffer_to_channel-keeps (writer os fd) (system.writes fd) (λ u. system.watched u g)
              (λ u bs. system.watched-write fd u bs g) (λ u. system.watched-flush fd u g) b w v,
      )

  -- What is asked of a hangup that returned.
  abbrev Closes :
      {S : Type 0}
      → (S → Option ℕ)
      → ℕ
      → S
      → os.World
      → Outcome (S × PolledFdSet os.flags × os.World)
      → Type 0
  Closes stdin_fd fd s w (done (s', fds, w')) =
      ((g : ℕ) → is_fd (stdin_fd s') g ≡ true → is_fd (stdin_fd s) g ≡ true)
      × ((g : ℕ) → system.watched w' g ≡ cut fd (system.watched w) g)
  Closes stdin_fd fd s w (fail e) = Unit
  Closes stdin_fd fd s w panic = Unit

  drop_stream-Closes :
      (fd : ℕ) (p s : ChildPipes) (fds : PolledFdSet os.flags) (w : os.World)
      → ((g : ℕ) → is_fd p.stdin g ≡ true → is_fd s.stdin g ≡ true)
      → Closes (λ s. s.stdin) fd s w (drop_stream os fd p fds w)
  drop_stream-Closes fd p s fds w h =
      let motive : Outcome (ChildPipes × PolledFdSet os.flags × os.World) → Type 0 =
        λ x. Closes (λ s. s.stdin) fd s w x in
      elim (Bool-cases (has_fd fd fds.existing)) [
        | inl k ↦
            subst motive (sym (drop_stream_lem os fd p fds w k)) (h, system.watched-close fd w)
        | inr k ↦ subst motive (sym (drop_stream-panic os fd p fds w k)) tt
      ]

  pub pipes-Closes :
      (fd : ℕ) (s : ChildPipes) (fds : PolledFdSet os.flags) (w : os.World)
      → is_child (pipes_stdio os) s fd ≡ true
      → Closes (λ s. s.stdin) fd s w (Pipes.hangup os fd s fds w)
  unfolding Pipes.hangup
  pipes-Closes fd s fds w c = elim (Bool-cases (is_fd s.stdin fd)) [
    | inl e ↦ rw e (drop_stream-Closes fd (record s { stdin = none }) s fds w (λ g k. cc))
    | inr e ↦ elim (Bool-cases (is_fd s.stdout fd)) [
      | inl k ↦ rw (e, k) (drop_stream-Closes fd (record s { stdout = none }) s fds w (λ g k. k))
      | inr k ↦
          let n : is_fd s.stderr fd ≡ true = ground arith in
          rw (e, k, n) (drop_stream-Closes fd (record s { stderr = none }) s fds w (λ g k. k))
    ]
  ]

  pub pty-Closes :
      (fd : ℕ) (s : ChildPty) (fds : PolledFdSet os.flags) (w : os.World)
      → is_child (pty_stdio os) s fd ≡ true
      → Closes (λ s. s.pty) fd s w (Terminal.hangup os fd s fds w)
  unfolding Terminal.hangup unregister_closed
  pty-Closes fd s fds w c =
      let n : is_fd s.pty fd ≡ true = ground arith in
      elim (Bool-cases (has_fd fd fds.existing)) [
        | inl k ↦ rw (n, k) (λ g x. cc, system.watched-close fd w)
        | inr k ↦ rw (n, k) tt
      ]

  -- The transfers of a child's streams, one after the other.
  abbrev Moves :
      {S : Type 0}
      → (S → FlipBuffer → os.World → Moved os)
      → (List ℕ → List ℕ → Outcome (Bool × BufferStateChange) → Type 0)
      → Type 0
  Moves {S} move Tells =
      (s : S) (b : FlipBuffer) (w : os.World)
      → IsValid b
      → let (r, b', w') = move s b w in IsValid b' × Tells (contents b) (contents b') r × Same w w'

  pub pipes-Moves :
      Moves (Pipes.write_stdin os) TellsWrite
      × Moves (Pipes.read_stdout os) TellsRead
      × Moves (Pipes.read_stderr os) TellsRead
  unfolding Pipes.write_stdin Pipes.read_stdout Pipes.read_stderr
  pipes-Moves = (
    λ s b w v. write_some-Tells s.stdin b w v,
    λ s b w v. read_some-Tells s.stdout b w v,
    λ s b w v. read_some-Tells s.stdout b w v,
  )

  abbrev pub pipes_streams : StreamLaws system (pipes_stdio os)
  pipes_streams = record {
    stdio = pipes_laws os;
    write_stdin-Tells = pipes-Moves.0;
    read_stdout-Tells = pipes-Moves.1;
    read_stderr-Tells = λ fd s b w e v. pipes-Moves.2 s b w v;
    hangup_closes = λ fd s s' fds fds' w w' c e.
        subst (λ x. Closes (λ s. s.stdin) fd s w x) e (pipes-Closes fd s fds w c);
  }

  pty_read :
      (fd : ℕ) (w : os.World) (n : ℕ) (g : ℕ)
      → system.watched ((pty_reader os fd).read w n).1 g ≡ system.watched w g
  unfolding iosock.Pty.read
  pty_read fd w n g = system.watched-read fd w n g

  pty_write :
      (fd : ℕ) (w : os.World) (bs : List ℕ) (g : ℕ)
      → system.watched ((pty_writer os fd).write w bs).1 g ≡ system.watched w g
  unfolding iosock.Pty.write
  pty_write fd w bs g = system.watched-write fd w bs g

  pty_flush :
      (fd : ℕ) (w : os.World) (g : ℕ)
      → system.watched ((pty_writer os fd).flush w).1 g ≡ system.watched w g
  unfolding iosock.Pty.flush
  pty_flush fd w g = system.watched-flush fd w g

  pub pty_read-Tells :
      (o : Option ℕ) (b : FlipBuffer) (w : os.World)
      → IsValid b
      → let (r, b', w') = read_pty os o b w in
        IsValid b' × TellsRead (contents b) (contents b') r × Same w w'
  pty_read-Tells none b w v = (v, λ h. ground (arith, h), λ g. refl)
  pty_read-Tells (some fd) b w v =
      let within = pty_reader-ReadsWithin os fd (system.reads fd) in
      let (v', t) = channel_to_buffer-TellsRead (pty_reader os fd) within b w v in
      (
        v',
        t,
        λ g.
            channel_to_buffer-keeps (pty_reader os fd) within (λ u. system.watched u g)
              (λ u n. pty_read fd u n g) b w v,
      )

  pub pty_write-Tells :
      (o : Option ℕ) (b : FlipBuffer) (w : os.World)
      → IsValid b
      → let (r, b', w') = write_pty os o b w in
        IsValid b' × TellsWrite (contents b) (contents b') r × Same w w'
  pty_write-Tells none b w v = (v, (λ h. h, λ h. cc), λ g. refl)
  pty_write-Tells (some fd) b w v =
      let within = pty_writer-WritesWithin os fd (system.writes fd) in
      let (v', t) = buffer_to_channel-TellsWrite (pty_writer os fd) within b w v in
      (
        v',
        t,
        λ g.
            buffer_to_channel-keeps (pty_writer os fd) within (λ u. system.watched u g)
              (λ u bs. pty_write fd u bs g) (λ u. pty_flush fd u g) b w v,
      )

  pub no_stderr : (fd : ℕ) → ¬ (is_fd none fd ≡ true)
  no_stderr fd e = let f : false ≡ true = e in cc

  pub pty-Moves :
      Moves (Terminal.write_stdin os) TellsWrite × Moves (Terminal.read_stdout os) TellsRead
  unfolding Terminal.write_stdin Terminal.read_stdout
  pty-Moves = (λ s b w v. pty_write-Tells s.pty b w v, λ s b w v. pty_read-Tells s.pty b w v)

  abbrev pub pty_streams : StreamLaws system (pty_stdio os)
  pty_streams = record {
    stdio = pty_laws os;
    write_stdin-Tells = pty-Moves.0;
    read_stdout-Tells = pty-Moves.1;
    read_stderr-Tells = λ fd s b w e v. elim (no_stderr fd e) [ ];
    hangup_closes = λ fd s s' fds fds' w w' c e.
        subst (λ x. Closes (λ s. s.pty) fd s w x) e (pty-Closes fd s fds w c);
  }
