-- ===== src/Tests/Buffers.antt =====
-- src/buffer.rs at concrete inputs; the last tests are those of the source.
use iosock.Prelude.{
  arith, ◌-◌, ◌+◌, ◌≤◌, ◌<◌, ◌≡◌, ◌⊎◌, refl, [], ◌∷◌, length, slice, splice, replicate,
}
use iosock.Io.{broken_pipe, from_kind, ok, err}
use iosock.Buffer.{
  FlipBuffer, io_completed, became_empty, became_non_empty, buffer_capacity, new, heap_buffer,
  discard, steal_read, steal_write, flip_buffers, filled, copy_result, read_from, read_or_drain,
  write_to, taken, flushed,
}
use iosock.Buffer.Receive.{steal_read_lem}
use iosock.Buffer.Contents.{IsValid, contents, room, Refines, new-IsValid}
use iosock.Buffer.Queue.{fill, fill_or_drain, emit, change_of}
use iosock.Buffer.Receive.{read_from-Refines}
use iosock.Buffer.Send.{front, write_to-Refines}
use iosock.Buffer.Drain.{read_or_drain-Refines, discard_lem}
use iosock.Buffer.Trace.{
  Relay, source, sink, pump_in, pump_out, run, all_bytes, source-ReadsWithin, sink-WritesWithin,
  run_keeps,
}

-- The buffer after three bytes were received.
abbrev three : FlipBuffer
three = (read_from (source 3) new (1 ∷ 2 ∷ 3 ∷ 4 ∷ [])).2

three-IsValid : IsValid three
three-IsValid =
    (read_from-Refines (source 3) (source-ReadsWithin 3) new (1 ∷ 2 ∷ 3 ∷ 4 ∷ []) new-IsValid).0

read_from-Refines_example :
    Refines
      (read_from (source 3) new (1 ∷ 2 ∷ 3 ∷ 4 ∷ []))
      (fill (source 3) (room new) (contents new) (1 ∷ 2 ∷ 3 ∷ 4 ∷ []))
read_from-Refines_example =
    read_from-Refines (source 3) (source-ReadsWithin 3) new (1 ∷ 2 ∷ 3 ∷ 4 ∷ []) new-IsValid

write_to-Refines_example :
    Refines
      (write_to (sink 2 (ok tt)) three [])
      (emit (sink 2 (ok tt)) (front three) (contents three) [])
write_to-Refines_example =
    write_to-Refines (sink 2 (ok tt)) (sink-WritesWithin 2 (ok tt)) three [] three-IsValid

read_or_drain-Refines_example :
    Refines
      (read_or_drain (source 3) three (4 ∷ []))
      (fill_or_drain (source 3) (room three) (contents three) (4 ∷ []))
read_or_drain-Refines_example =
    read_or_drain-Refines (source 3) (source-ReadsWithin 3) three (4 ∷ []) three-IsValid

discard_lem_example :
    IsValid (discard three).1
    × (contents (discard three).1 ≡ slice three.read_page three.read_cursor three.read_max)
    × ((discard three).0 ≡ change_of (contents three) (contents (discard three).1))
discard_lem_example = discard_lem three three-IsValid

-- A write page that is full, behind a read page that is read.
abbrev full : FlipBuffer
full = record new { write_cursor = buffer_capacity }

full-IsValid : IsValid full
full-IsValid = record {
  read_size = new-IsValid.read_size;
  write_size = new-IsValid.write_size;
  cursor_in = new-IsValid.cursor_in;
  max_in = new-IsValid.max_in;
  write_in = omega arith;
}

steal_read_lem_example :
    let s = steal_read full in
    IsValid s
    × (contents s ≡ contents full)
    × ((s.write_cursor < buffer_capacity) ⊎ (buffer_capacity < length (contents full)))
    × (buffer_capacity - s.write_cursor + length (contents full)
        ≤ buffer_capacity + buffer_capacity)
steal_read_lem_example = steal_read_lem full full-IsValid

abbrev relay : Relay
relay = record { input = 1 ∷ 2 ∷ 3 ∷ 4 ∷ 5 ∷ []; buffer = new; output = [] }

run_keeps_example :
    let s = run relay (
      pump_in 3 ∷ pump_out 2 (err (from_kind broken_pipe)) ∷ pump_in 1 ∷ pump_out 9 (ok tt) ∷ []) in
    IsValid s.buffer × (all_bytes s ≡ all_bytes relay)
run_keeps_example =
    run_keeps
      (pump_in 3 ∷ pump_out 2 (err (from_kind broken_pipe)) ∷ pump_in 1 ∷ pump_out 9 (ok tt) ∷ [])
      relay new-IsValid

-- `output_partial_write_page` of the source
output_partial_write_page :
    let (r, c, b, i) = read_from (source 99) new (0 ∷ 1 ∷ 2 ∷ []) in
    let (r', c', b', o) = write_to (sink 99 (ok tt)) b [] in
    (r ≡ io_completed 3)
    × (c ≡ became_non_empty)
    × (r' ≡ io_completed 3)
    × (c' ≡ became_empty)
    × (o ≡ 0 ∷ 1 ∷ 2 ∷ [])
unfolding read_from write_to steal_read steal_write flip_buffers filled taken flushed copy_result
    new heap_buffer replicate splice
output_partial_write_page = (refl, refl, refl, refl, refl)
