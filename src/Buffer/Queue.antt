-- ===== src/Buffer/Queue.antt =====
-- What a `FlipBuffer` (src/buffer.rs) promises: a queue of bytes, filled by a reader and emptied by
-- a writer, that tells when it becomes empty and when it stops being so.
use iosock.Prelude.{ℕ, List, [], ◌∷◌, ◌++◌, ◌==◌, if◌then◌else◌, length, drop}
use iosock.Io.{Result, ok, err, Read, Write}
use iosock.Buffer.{
  CopyResult, buffer_not_ready, io_completed, io_error, BufferStateChange, became_empty,
  became_non_empty,
}

-- How the queue's state changed, from the queue before and the queue after.
abbrev pub change_of : List ℕ → List ℕ → BufferStateChange
change_of [] [] = BufferStateChange.none
change_of [] (x ∷ q') = became_non_empty
change_of (x ∷ q) [] = became_empty
change_of (x ∷ q) (y ∷ q') = BufferStateChange.none

-- The reader answered: its bytes go to the end.
abbrev pub receive : List ℕ → Result (List ℕ) → CopyResult × BufferStateChange × List ℕ
receive q (ok bs) = (io_completed (length bs), change_of q (q ++ bs), q ++ bs)
receive q (err e) = (io_error e.kind, BufferStateChange.none, q)

-- The writer answered, and then its flush: the bytes that it took leave the front, also if the
-- flush fails.
abbrev pub send : List ℕ → Result ℕ → Result (Unit {0}) → CopyResult × BufferStateChange × List ℕ
send q (ok n) (ok u) = (io_completed n, change_of q (drop n q), drop n q)
send q (ok n) (err e) = (io_error e.kind, change_of q (drop n q), drop n q)
send q (err e) f = (io_error e.kind, BufferStateChange.none, q)

-- A call with room for `n` bytes: the reader is not asked if there is none.
abbrev pub fill :
    {R : Type 0} → Read R → ℕ → List ℕ → R → CopyResult × BufferStateChange × List ℕ × R
fill rd n q reader =
    let (answer, reader') = rd.read reader n in
    let (result, change, q') = receive q answer in
    if n == 0
    then (buffer_not_ready, BufferStateChange.none, q, reader)
    else (result, change, q', reader')

-- A call that offers the bytes `front`: the writer is not asked if there are none.
abbrev pub emitted :
    {W : Type 0} → Write W → List ℕ → Result ℕ × W → CopyResult × BufferStateChange × List ℕ × W
emitted wr q (ok n, writer) =
    let (flush, writer') = wr.flush writer in
    let (result, change, q') = send q (ok n) flush in (result, change, q', writer')
emitted wr q (err e, writer) = (io_error e.kind, BufferStateChange.none, q, writer)

abbrev pub emit :
    {W : Type 0} → Write W → List ℕ → List ℕ → W → CopyResult × BufferStateChange × List ℕ × W
emit wr front q writer =
    if length front == 0
    then (buffer_not_ready, BufferStateChange.none, q, writer)
    else emitted wr q (wr.write writer front)

-- With no room at most 8192 bytes are read all the same, and lost.
abbrev pub lost :
    {R : Type 0} → List ℕ → Result (List ℕ) × R → CopyResult × BufferStateChange × List ℕ × R
lost q (ok bs, reader) = (buffer_not_ready, BufferStateChange.none, q, reader)
lost q (err e, reader) = (io_error e.kind, BufferStateChange.none, q, reader)

abbrev pub fill_or_drain :
    {R : Type 0} → Read R → ℕ → List ℕ → R → CopyResult × BufferStateChange × List ℕ × R
fill_or_drain rd n q reader = if n == 0 then lost q (rd.read reader 8192) else fill rd n q reader
