-- ===== src/Channel/Relay.antt =====
-- src/channel_manager.rs: `channel_to_buffer` and `buffer_to_channel` against the queue of bytes.
use mathlib.Core.List.{append-nil}
use iosock.Prelude.{
  ℕ, zero, suc, ◌≡◌, ◌⊎◌, refl, ap, ◌∙◌, Bool, true, false, List, [], ◌∷◌, ◌++◌, ◌==◌,
  if◌then◌else◌, Bool-cases, inl, inr, arith, length, drop,
}
use iosock.Io.{
  ErrorKind, connection_reset, broken_pipe, interrupted, invalid_data, other, from_kind, Result, ok,
  err, Read, Write, ReadsWithin, WritesWithin,
}
use iosock.Buffer.{FlipBuffer, CopyResult, io_error, BufferStateChange}
use iosock.Buffer.Contents.{IsValid, contents, room}
use iosock.Buffer.Queue.{receive, send, change_of, lost, emitted}
use iosock.Buffer.Drain.{read_or_drain-Refines}
use iosock.Buffer.Send.{front, write_to-Refines}
use iosock.Channel.{is_nonfatal_io_error, close_on, channel_to_buffer, buffer_to_channel}

-- On an error, with the change of the queue: ECONNRESET and EPIPE, a peer that is gone, close the
-- channel, and anything else is an error of the caller's.
abbrev pub on_error : BufferStateChange → ErrorKind → Result (Bool × BufferStateChange)
on_error change connection_reset = ok (true, change)
on_error change broken_pipe = ok (true, change)
on_error change interrupted = err (from_kind interrupted)
on_error change invalid_data = err (from_kind invalid_data)
on_error change (other n) = err (from_kind (other n))

pub on_error-cases :
    (change : BufferStateChange) (k : ErrorKind)
    → (on_error change k ≡ ok (true, change)) ⊎ (on_error change k ≡ err (from_kind k))
on_error-cases change connection_reset = inl refl
on_error-cases change broken_pipe = inl refl
on_error-cases change interrupted = inr refl
on_error-cases change invalid_data = inr refl
on_error-cases change (other n) = inr refl

close_on-error :
    (k : ErrorKind) (change : BufferStateChange) → close_on (io_error k) change ≡ on_error change k
unfolding close_on is_nonfatal_io_error
close_on-error connection_reset change = refl
close_on-error broken_pipe change = refl
close_on-error interrupted change = refl
close_on-error invalid_data change = refl
close_on-error (other n) change = refl

-- What becomes of the queue `q` and of the channel, by the reader's answer. The first argument
-- says that the buffer had no room.
abbrev pub relayed : Bool → List ℕ → Result (List ℕ) → Result (Bool × BufferStateChange) × List ℕ
relayed full q (err e) = (on_error BufferStateChange.none e.kind, q)
relayed true q (ok bs) = (ok (false, BufferStateChange.none), q)
relayed false q (ok []) = (ok (true, BufferStateChange.none), q)
relayed false q (ok (x ∷ bs)) = (ok (false, change_of q (q ++ x ∷ bs)), q ++ x ∷ bs)

-- How many bytes the reader is asked for.
abbrev pub asked : FlipBuffer → ℕ
asked b = if room b == 0 then 8192 else room b

change_of_self : (q : List ℕ) → change_of q q ≡ BufferStateChange.none
change_of_self [] = refl
change_of_self (x ∷ q) = refl

module _ {R : Type 0} (rd : Read R) where
  -- The caller's view of what the queue's call returns.
  abbrev view :
      CopyResult × BufferStateChange × List ℕ × R → Result (Bool × BufferStateChange) × List ℕ × R
  view (result, state, q, reader) = (close_on result state, q, reader)

  view-lost :
      (q : List ℕ) (a : Result (List ℕ) × R)
      → let t = view (lost q a) in let r = relayed true q a.0 in t ≡ (r.0, r.1, a.1)
  view-lost q (ok bs, reader) = unfold close_on in refl
  view-lost q (err e, reader) = rw (close_on-error e.kind) refl

  view-received :
      (q : List ℕ) (a : Result (List ℕ) × R)
      → let t = receive q a.0 in
        let r = relayed false q a.0 in view (t.0, t.1, t.2, a.1) ≡ (r.0, r.1, a.1)
  view-received q (err e, reader) = rw (close_on-error e.kind) refl
  view-received q (ok (x ∷ bs), reader) = unfold close_on in refl
  view-received q (ok [], reader) = unfold close_on in rw (append-nil, change_of_self q)

  -- `channel_to_buffer` on a valid buffer leaves a valid one. With room in the buffer, an end of
  -- file closes the channel, bytes are appended and the change of the queue is told; with no room,
  -- at most 8192 bytes are read and lost, and an end of file goes unnoticed. In both cases a lost
  -- peer closes the channel, any other error is the caller's, and neither changes the contents.
  pub channel_to_buffer_lem :
      ReadsWithin rd
      → (b : FlipBuffer) (reader : R) → IsValid b
      → let (r, b', reader') = channel_to_buffer rd b reader in
        let (answer, reader'') = rd.read reader (asked b) in
        let (r', q) = relayed (room b == 0) (contents b) answer in
        IsValid b'
        × (◌≡◌ {A = Result (Bool × BufferStateChange) × List ℕ × R}
            (r, contents b', reader')
            (r', q, reader''))
  unfolding channel_to_buffer
  channel_to_buffer_lem within b reader v =
      let h = read_or_drain-Refines rd within b reader v in
      (
        h.0,
        ap view h.1 ∙ elim (Bool-cases (room b == 0)) [
          | inl z ↦ rw z (view-lost (contents b) (rd.read reader 8192))
          | inr z ↦ rw z (view-received (contents b) (rd.read reader (room b)))
        ],
      )

-- The caller's result, by the number of bytes that were taken, the change and the flush's answer.
abbrev pub flush_result :
    ℕ → BufferStateChange → Result (Unit {0}) → Result (Bool × BufferStateChange)
flush_result n change (ok u) = ok (n == 0, change)
flush_result n change (err e) = on_error change e.kind

module _ {W : Type 0} (wr : Write W) where
  -- What becomes of the queue and of the channel, by the writer's answer and its flush's.
  abbrev pub sent : List ℕ → Result ℕ × W → Result (Bool × BufferStateChange) × List ℕ × W
  sent q (err e, writer) = (on_error BufferStateChange.none e.kind, q, writer)
  sent q (ok n, writer) =
      let (flush, writer') = wr.flush writer in
      (flush_result n (change_of q (drop n q)) flush, drop n q, writer')

  abbrev sent_view :
      CopyResult × BufferStateChange × List ℕ × W → Result (Bool × BufferStateChange) × List ℕ × W
  sent_view (result, state, q, writer) = (close_on result state, q, writer)

  view-emitted : (q : List ℕ) (a : Result ℕ × W) → sent_view (emitted wr q a) ≡ sent q a
  view-emitted q (err e, writer) = rw (close_on-error e.kind) refl
  view-emitted q (ok n, writer) = flushed n (wr.flush writer)
    where
      flushed :
          (n : ℕ) (f : Result (Unit {0}) × W)
          → let t = send q (ok n) f.0 in
            sent_view (t.0, t.1, t.2, f.1)
            ≡ (flush_result n (change_of q (drop n q)) f.0, drop n q, f.1)
      flushed zero (ok u, s) = unfold close_on in refl
      flushed (suc n) (ok u, s) = unfold close_on in ground arith
      flushed n (err e, s) = rw (close_on-error e.kind) refl

  -- `buffer_to_channel` on a valid buffer leaves a valid one. An empty buffer does not touch the
  -- writer. Otherwise the bytes that the writer takes of the front leave the buffer, also if the
  -- flush then fails, the channel is closed if it takes none or the peer is lost, and any other
  -- error is the caller's.
  pub buffer_to_channel_lem :
      WritesWithin wr
      → (b : FlipBuffer) (writer : W) → IsValid b
      → let (r, b', writer') = buffer_to_channel wr b writer in
        IsValid b'
        × (◌≡◌ {A = Result (Bool × BufferStateChange) × List ℕ × W}
            (r, contents b', writer')
            (if length (front b) == 0
              then (ok (false, BufferStateChange.none), contents b, writer)
              else sent (contents b) (wr.write writer (front b))))
  unfolding buffer_to_channel
  buffer_to_channel_lem within b writer v =
      let h = write_to-Refines wr within b writer v in
      (
        h.0,
        ap sent_view h.1 ∙ elim (Bool-cases (length (front b) == 0)) [
          | inl z ↦ rw z (unfold close_on in refl)
          | inr z ↦ rw z (view-emitted (contents b) (wr.write writer (front b)))
        ],
      )
