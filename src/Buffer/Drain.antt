-- ===== src/Buffer/Drain.antt =====
-- src/buffer.rs, `read_or_drain` and `discard`.
use iosock.Prelude.{
  ℕ, ◌≡◌, refl, ◌≢◌, ◌≤◌, ◌&&◌, not, List, [], ◌∷◌, ◌==◌, if◌then◌else◌, Bool-cases, inl, inr,
  arith, ap, sym, length, slice,
}
use mathlib.Core.List.{append-nil}
use iosock.Io.{Result, ok, err, Read, ReadsWithin}
use iosock.Buffer.{
  FlipBuffer, CopyResult, buffer_not_ready, io_completed, io_error, BufferStateChange, read_from,
  drained, drain_if_full, read_or_drain, discard, became_empty,
}
use iosock.Buffer.Contents.{IsValid, contents, room, Refines, length-contents}
use iosock.Buffer.Queue.{receive, lost, fill_or_drain, change_of}
use iosock.Buffer.Receive.{read_from-Refines}

drained-Refines :
    {R : Type 0} (rd : Read R) {b : FlipBuffer} {q : List ℕ} (p : Result (List ℕ) × R)
    → IsValid b
    → contents b ≡ q
    → Refines (drained rd BufferStateChange.none b p) (lost q p)
unfolding drained
drained-Refines rd (ok bs, r) v e = (v, λ i. (buffer_not_ready, BufferStateChange.none, e i, r))
drained-Refines rd (err x, r) v e = (v, λ i. (io_error x.kind, BufferStateChange.none, e i, r))

drain_full :
    {R : Type 0} (rd : Read R) (x : CopyResult × BufferStateChange × FlipBuffer × R) {q : List ℕ}
    {reader : R}
    → Refines x (buffer_not_ready, BufferStateChange.none, q, reader)
    → Refines (drain_if_full rd x) (lost q (rd.read reader 8192))
unfolding drain_if_full
drain_full rd (buffer_not_ready, change, b, r) (v, e) =
    rw (ap (λ t. t.1) e, ap (λ t. t.3) e) (drained-Refines rd (rd.read _ 8192) v (ap (λ t. t.2) e))
drain_full rd (io_completed n, change, b, r) (v, e) = cc (ap (λ t. t.0) e)
drain_full rd (io_error k, change, b, r) (v, e) = cc (ap (λ t. t.0) e)

drain_ready :
    {R : Type 0} (rd : Read R) (x : CopyResult × BufferStateChange × FlipBuffer × R)
    {y : CopyResult × BufferStateChange × List ℕ × R}
    → y.0 ≢ buffer_not_ready
    → Refines x y
    → Refines (drain_if_full rd x) y
unfolding drain_if_full
drain_ready rd (buffer_not_ready, change, b, r) ne (v, e) = absurd (ne (sym (ap (λ t. t.0) e)))
drain_ready rd (io_completed n, change, b, r) ne h = h
drain_ready rd (io_error k, change, b, r) ne h = h

receive-ready : (q : List ℕ) (a : Result (List ℕ)) → (receive q a).0 ≢ buffer_not_ready
receive-ready q (ok bs) = λ e. cc
receive-ready q (err x) = λ e. cc

-- `read_or_drain` on a valid buffer leaves a valid one, and is `read_from` where there is room;
-- with no room it leaves the contents alone, reads at most 8192 bytes and drops them, and reports
-- `BufferNotReady`, or the reader's error.
pub read_or_drain-Refines :
    {R : Type 0} (rd : Read R)
    → ReadsWithin rd
    → (b : FlipBuffer) (reader : R) → IsValid b
    → Refines (read_or_drain rd b reader) (fill_or_drain rd (room b) (contents b) reader)
unfolding read_or_drain
read_or_drain-Refines rd within b reader v = elim (Bool-cases (room b == 0)) [
  | inl z ↦
      rw z
        (drain_full rd (read_from rd b reader) (rw z at (read_from-Refines rd within b reader v)))
  | inr z ↦ rw z (
      drain_ready rd (read_from rd b reader)
        (receive-ready (contents b) (rd.read reader (room b)).0)
        (rw z at (read_from-Refines rd within b reader v)))
]

change_of-shrink :
    (q q' : List ℕ)
    → length q' ≤ length q
    → change_of q q'
      ≡ (if length q' == 0 && not (length q == 0) then became_empty else BufferStateChange.none)
change_of-shrink [] [] h = refl
change_of-shrink [] (x ∷ q') h = absurd (omega arith)
change_of-shrink (x ∷ q) [] h = ground arith
change_of-shrink (x ∷ q) (y ∷ q') h = ground arith

-- `discard` on a valid buffer leaves a valid one, which holds the rest of the read page alone, and
-- reports the change of the queue.
pub discard_lem :
    (b : FlipBuffer)
    → IsValid b
    → let (change, b') = discard b in
      IsValid b'
      × (contents b' ≡ slice b.read_page b.read_cursor b.read_max)
      × (change ≡ change_of (contents b) (contents b'))
unfolding discard
discard_lem b v =
    let b' = record b { write_cursor = 0 } in
    let v' : IsValid b' = omega arith in
    (
      v',
      append-nil (slice b.read_page b.read_cursor b.read_max),
      ground (
        arith,
        change_of-shrink (contents b) (contents b'),
        length-contents b v,
        length-contents b' v',
      ),
    )
