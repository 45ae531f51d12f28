-- ===== src/Buffer.antt =====
-- src/buffer.rs: `FlipBuffer`, two pages of which one is written and one is read.
pub mod Contents
pub mod Queue
pub mod Receive
pub mod Drain
pub mod Trace
pub mod Send
use iosock.Prelude.{
  ℕ, ◌+◌, ◌*◌, ◌-◌, Bool, true, false, ◌&&◌, not, List, ◌==◌, ltb, if◌then◌else◌, add_usize,
  sub_usize, length, slice, splice, replicate,
}
use iosock.Io.{ErrorKind, Result, ok, err, Read, Write}

abbrev pub buffer_capacity : ℕ
buffer_capacity = 32 * 1024

-- A byte is only moved, never computed with, so it is any number.
pub record FlipBuffer : Type 0 where
  pub read_page : List ℕ
  pub write_page : List ℕ
  pub read_cursor : ℕ
  pub read_max : ℕ
  pub write_cursor : ℕ

pub data CopyResult : Type 0 where
  buffer_not_ready : CopyResult
  io_completed : ℕ → CopyResult
  io_error : ErrorKind → CopyResult

pub data BufferStateChange : Type 0 where
  became_empty became_non_empty none : BufferStateChange

-- `CopyResult::from`
unfoldable pub copy_result : Result ℕ → CopyResult
copy_result (ok size) = io_completed size
copy_result (err e) = io_error e.kind

unfoldable pub heap_buffer : ℕ → List ℕ
heap_buffer size = replicate size 0

unfoldable pub new : FlipBuffer
new = record {
  read_page = heap_buffer buffer_capacity;
  write_page = heap_buffer buffer_capacity;
  read_cursor = 0;
  read_max = 0;
  write_cursor = 0;
}

unfoldable pub flip_buffers : FlipBuffer → FlipBuffer
flip_buffers b = record {
  read_page = b.write_page;
  write_page = b.read_page;
  read_cursor = 0;
  read_max = b.write_cursor;
  write_cursor = 0;
}

abbrev pub is_read_empty : FlipBuffer → Bool
is_read_empty b = b.read_cursor == b.read_max

abbrev pub is_write_empty : FlipBuffer → Bool
is_write_empty b = b.write_cursor == 0

unfoldable pub writable_size : FlipBuffer → ℕ
writable_size b = add_usize (sub_usize b.read_max b.read_cursor) b.write_cursor

-- Both pages are out of data.
abbrev pub is_drained : FlipBuffer → Bool
is_drained b = is_read_empty b && is_write_empty b

-- The first `if` of `read_from`: the read page is stolen if nothing in it is lost.
unfoldable pub steal_read : FlipBuffer → FlipBuffer
unfolding flip_buffers
steal_read b =
    if b.write_cursor == buffer_capacity && b.read_cursor == b.read_max then flip_buffers b else b

-- The closure of `read_from`, on what `reader.read` returned.
unfoldable pub filled :
    Bool → FlipBuffer → Result (List ℕ) → CopyResult × BufferStateChange × FlipBuffer
unfolding copy_result
filled was_empty b (ok bs) =
    let size = length bs in
    (
      copy_result (ok size),
      if ltb 0 size && was_empty then became_non_empty else none,
      record b {
        write_page = splice b.write_page b.write_cursor bs;
        write_cursor = add_usize b.write_cursor size;
      },
    )
filled was_empty b (err e) = (copy_result (err e), none, b)

-- The first `if` of `write_to`: the write page is stolen if the read page is used up.
unfoldable pub steal_write : FlipBuffer → FlipBuffer
unfolding flip_buffers
steal_write b = if b.read_cursor == b.read_max && ltb 0 b.write_cursor then flip_buffers b else b

module _ {R : Type 0} (rd : Read R) where
  unfoldable pub read_from : FlipBuffer → R → CopyResult × BufferStateChange × FlipBuffer × R
  read_from b reader =
      let was_empty = is_drained b in
      let b' = steal_read b in
      let writable = sub_usize buffer_capacity b'.write_cursor in
      let (answer, reader') = rd.read reader writable in
      let (result, change, b'') = filled was_empty b' answer in
      if writable == 0 then (buffer_not_ready, none, b', reader) else (result, change, b'', reader')

  -- The arm of `read_or_drain` for a full buffer: what is read goes to a buffer of its own.
  unfoldable pub drained :
      BufferStateChange
      → FlipBuffer
      → Result (List ℕ) × R
      → CopyResult × BufferStateChange × FlipBuffer × R
  drained change b (err e, reader) = (io_error e.kind, change, b, reader)
  drained change b (ok bs, reader) = (buffer_not_ready, change, b, reader)

  unfoldable pub drain_if_full :
      CopyResult × BufferStateChange × FlipBuffer × R
      → CopyResult × BufferStateChange × FlipBuffer × R
  drain_if_full (buffer_not_ready, change, b, reader) = drained change b (rd.read reader 8192)
  drain_if_full (io_completed n, change, b, reader) = (io_completed n, change, b, reader)
  drain_if_full (io_error k, change, b, reader) = (io_error k, change, b, reader)

  unfoldable pub read_or_drain : FlipBuffer → R → CopyResult × BufferStateChange × FlipBuffer × R
  read_or_drain b reader = drain_if_full (read_from b reader)

module _ {W : Type 0} (wr : Write W) where
  -- `.and_then(|size| writer.flush().map(|_| size))`
  unfoldable pub flushed : ℕ → Result (Unit {0}) × W → CopyResult × W
  unfolding copy_result
  flushed size (ok u, writer) = (copy_result (ok size), writer)
  flushed size (err e, writer) = (copy_result (err e), writer)

  -- The closures of `write_to`, on what `writer.write` returned.
  unfoldable pub taken : FlipBuffer → Result ℕ × W → CopyResult × BufferStateChange × FlipBuffer × W
  taken b (ok size, writer) =
      let b' = record b { read_cursor = add_usize b.read_cursor size } in
      let change = if is_drained b' then became_empty else none in
      let (result, writer') = flushed size (wr.flush writer) in (result, change, b', writer')
  taken b (err e, writer) = (copy_result (err e), none, b, writer)

  unfoldable pub write_to : FlipBuffer → W → CopyResult × BufferStateChange × FlipBuffer × W
  write_to b writer =
      let b' = steal_write b in
      let readable = sub_usize b'.read_max b'.read_cursor in
      let done = taken b' (wr.write writer (slice b'.read_page b'.read_cursor b'.read_max)) in
      if readable == 0 then (buffer_not_ready, none, b', writer) else done

unfoldable pub discard : FlipBuffer → BufferStateChange × FlipBuffer
discard b =
    let direct_readable = is_read_empty b in
    let flip_readable = is_write_empty b in
    let b' = record b { write_cursor = 0 } in
    (if direct_readable && not flip_readable then became_empty else none, b')
