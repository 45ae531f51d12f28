-- ===== src/Pty/Eof.antt =====
-- src/pty.rs, `PtyFile`, read by `channel_to_buffer` of src/channel_manager.rs.
use iosock.Prelude.{
  ℕ, ◌≤◌, ◌≡◌, refl, ◌∙◌, ap, Bool, true, false, not, List, [], ◌==◌, length, arith,
}
use iosock.Io.{IoError, Result, ok, err, ReadsWithin, WritesWithin}
use iosock.Os.{Os, reader, writer}
use iosock.Buffer.{FlipBuffer, BufferStateChange}
use iosock.Buffer.Contents.{IsValid, contents, room}
use iosock.Channel.{channel_to_buffer}
use iosock.Channel.Relay.{asked, relayed, channel_to_buffer_lem}
use iosock.Pty.{is_errno, ignore_eio, read, write, pty_reader, pty_writer}

module _ (os : Os) (fd : ℕ) where
  ignored-ReadsWithin :
      (n : ℕ) (r : Result (List ℕ)) (bs : List ℕ)
      → ((cs : List ℕ) → r ≡ ok cs → length cs ≤ n)
      → ignore_eio os [] r ≡ ok bs
      → length bs ≤ n
  unfolding ignore_eio
  ignored-ReadsWithin n (ok cs) bs h e = ground (arith, h cs refl)
  ignored-ReadsWithin n (err x) bs h e = ground arith

  -- The contract of `Read::read` passes from the file to the pseudo-terminal.
  pub pty_reader-ReadsWithin : ReadsWithin (reader os fd) → ReadsWithin (pty_reader os fd)
  unfolding read
  pty_reader-ReadsWithin h w n bs e = ignored-ReadsWithin n (os.read fd w n).0 bs (h w n) e

  pty_answer :
      (w w' : os.World) (n : ℕ) (e : IoError)
      → os.read fd w n ≡ (err e, w')
      → is_errno e.raw_os_error os.eio ≡ true
      → (pty_reader os fd).read w n ≡ (ok [], w')
  unfolding read ignore_eio
  pty_answer w w' n e r h = rw (r, h) refl

  -- When the other end of the pseudo-terminal is gone, so that a read fails with EIO, a valid
  -- buffer with room has the channel closed with no error, as on an end of file; one with no room
  -- keeps it open. The buffer stays valid, and its contents are what they were.
  pub eio_closes :
      (b : FlipBuffer) (w w' : os.World) (e : IoError)
      → ReadsWithin (reader os fd)
      → IsValid b
      → os.read fd w (asked b) ≡ (err e, w')
      → is_errno e.raw_os_error os.eio ≡ true
      → let (r, b', w'') = channel_to_buffer (pty_reader os fd) b w in
        IsValid b'
        × (◌≡◌ {A = Result (Bool × BufferStateChange) × List ℕ × os.World}
            (r, contents b', w'')
            (ok (not (room b == 0), BufferStateChange.none), contents b, w'))
  eio_closes b w w' e within v r h =
      let t = channel_to_buffer_lem (pty_reader os fd) (pty_reader-ReadsWithin within) b w v in
      (
        t.0,
        t.1
            ∙ ap (λ a. let q = relayed (room b == 0) (contents b) a.0 in (q.0, q.1, a.1))
                (pty_answer w w' (asked b) e r h)
            ∙ at_end (room b == 0),
      )
    where
      at_end :
          (f : Bool)
          → ◌≡◌ {A = Result (Bool × BufferStateChange) × List ℕ × os.World}
              ((relayed f (contents b) (ok [])).0, (relayed f (contents b) (ok [])).1, w')
              (ok (not f, BufferStateChange.none), contents b, w')
      at_end true = refl
      at_end false = refl

  written-WritesWithin :
      (n : ℕ) (r : Result ℕ) (k : ℕ)
      → ((j : ℕ) → r ≡ ok j → j ≤ n)
      → ignore_eio os 0 r ≡ ok k
      → k ≤ n
  unfolding ignore_eio
  written-WritesWithin n (ok j) k h e = ground (arith, h j refl)
  written-WritesWithin n (err x) k h e = ground arith

  -- The contract of `Write::write` passes too.
  pub pty_writer-WritesWithin : WritesWithin (writer os fd) → WritesWithin (pty_writer os fd)
  unfolding write
  pty_writer-WritesWithin h w bs n e =
      written-WritesWithin (length bs) (os.write fd w bs).0 n (h w bs) e
