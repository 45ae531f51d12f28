-- ===== src/Buffer/Receive.antt =====
-- src/buffer.rs, `read_from`, against the queue of bytes.
use iosock.Prelude.{
  ℕ, ◌+◌, ◌-◌, ◌≤◌, ◌<◌, ◌⊎◌, ◌≡◌, refl, ◌↔◌, ap, sym, ◌∙◌, Bool, true, List, [], ◌∷◌, ◌++◌, ◌==◌,
  if◌then◌else◌, ◌&&◌, ltb, false, sub_usize, arith, length, take, slice, length-zero, length-slice,
  splice, length-splice, take-splice, add_usize,
}
use mathlib.Core.List.{append-nil, append_assoc}
use iosock.Io.{Result, ok, err, Read, ReadsWithin}
use iosock.Buffer.{
  FlipBuffer, BufferStateChange, io_completed, buffer_capacity, steal_read, filled, read_from,
  is_drained, became_non_empty, copy_result,
}
use iosock.Buffer.Contents.{IsValid, contents, room, length-contents, Refines, Refines-if}
use iosock.Buffer.Queue.{receive, fill, change_of}

steal_read-IsValid : (b : FlipBuffer) → IsValid b → IsValid (steal_read b)
unfolding steal_read
steal_read-IsValid b v = ground arith

contents-steal_read : (b : FlipBuffer) → IsValid b → contents (steal_read b) ≡ contents b
unfolding steal_read
contents-steal_read b v = ground (
  arith,
  length-zero (slice b.read_page b.read_cursor b.read_max),
  length-slice b.read_page b.read_cursor b.read_max,
  append-nil (take b.write_cursor b.write_page),
)

steal_read_room :
    (b : FlipBuffer)
    → IsValid b
    → ((steal_read b).write_cursor < buffer_capacity) ⊎ (buffer_capacity < length (contents b))
unfolding steal_read
steal_read_room b v = ground (arith, length-contents b v)

steal_read_bound :
    (b : FlipBuffer)
    → IsValid b
    → buffer_capacity - (steal_read b).write_cursor + length (contents b)
      ≤ buffer_capacity + buffer_capacity
unfolding steal_read
steal_read_bound b v = ground (arith, length-contents b v)

-- `steal_read` before a read of a valid buffer leaves a valid one with the same contents. Either the
-- write page then has room, or the buffer holds more than one page; and the room that is left and
-- the contents are two pages at most.
pub steal_read_lem :
    (b : FlipBuffer)
    → IsValid b
    → let s = steal_read b in
      IsValid s
      × (contents s ≡ contents b)
      × ((s.write_cursor < buffer_capacity) ⊎ (buffer_capacity < length (contents b)))
      × (buffer_capacity - s.write_cursor + length (contents b) ≤ buffer_capacity + buffer_capacity)
steal_read_lem b v =
    (steal_read-IsValid b v, contents-steal_read b v, steal_read_room b v, steal_read_bound b v)

room-steal_read : (b : FlipBuffer) → buffer_capacity - (steal_read b).write_cursor ≡ room b
unfolding steal_read
room-steal_read b = ground arith

pub is_drained-contents : (b : FlipBuffer) → IsValid b → (is_drained b ≡ true) ↔ (contents b ≡ [])
is_drained-contents b v = (
  λ h. length-zero (contents b) (ground (arith, length-contents b v)),
  λ h. ground (arith, length-contents b v, ap length h),
)

-- What the closure leaves, if the reader kept to its slice.
filled-IsValid :
    (was : Bool) (b : FlipBuffer) (answer : Result (List ℕ))
    → IsValid b
    → ((bs : List ℕ) → answer ≡ ok bs → b.write_cursor + length bs ≤ buffer_capacity)
    → IsValid (filled was b answer).2
unfolding filled
filled-IsValid was b (err e) v h = v
filled-IsValid was b (ok bs) v h =
    omega (arith, h bs refl, length-splice b.write_page b.write_cursor bs)

contents-filled :
    (was : Bool) (b : FlipBuffer) (bs : List ℕ)
    → IsValid b
    → b.write_cursor + length bs ≤ buffer_capacity
    → contents (filled was b (ok bs)).2 ≡ contents b ++ bs
unfolding filled
contents-filled was b bs v h =
    ap
      (λ n.
        slice b.read_page b.read_cursor b.read_max
        ++ take n (splice b.write_page b.write_cursor bs))
      {x = add_usize b.write_cursor (length bs)} {y = b.write_cursor + length bs} (omega arith)
    ∙ ap (λ l. slice b.read_page b.read_cursor b.read_max ++ l)
        (take-splice b.write_page b.write_cursor bs (omega arith))
    ∙ sym (
        append_assoc (slice b.read_page b.read_cursor b.read_max) (take b.write_cursor b.write_page)
          bs)

-- The closure's test, against the queues before and after.
change_of-append :
    (q bs : List ℕ) (d : Bool)
    → (d ≡ true) ↔ (q ≡ [])
    → (if ltb 0 (length bs) && d then became_non_empty else BufferStateChange.none)
      ≡ change_of q (q ++ bs)
change_of-append [] [] true h = refl
change_of-append [] (x ∷ bs) true h = ground arith
change_of-append [] bs false h = absurd (ground (arith, h.1 refl))
change_of-append (x ∷ q) bs true h = absurd (ground (arith, h.0 refl))
change_of-append (x ∷ q) bs false h = ground arith

filled_refines :
    (b : FlipBuffer) (answer : Result (List ℕ))
    → IsValid b
    → ((bs : List ℕ) → answer ≡ ok bs → (steal_read b).write_cursor + length bs ≤ buffer_capacity)
    → let (result, change, b') = filled (is_drained b) (steal_read b) answer in
      IsValid b' × ((result, change, contents b') ≡ receive (contents b) answer)
filled_refines b (err e) v h = (
  filled-IsValid (is_drained b) (steal_read b) (err e) (steal_read-IsValid b v) h,
  unfold filled copy_result in rw (contents-steal_read b v),
)
filled_refines b (ok bs) v h =
    let v' = steal_read-IsValid b v in
    let same = contents-filled (is_drained b) (steal_read b) bs v' (h bs refl) in
    let change = change_of-append (contents b) bs (is_drained b) (is_drained-contents b v) in
    (
      filled-IsValid (is_drained b) (steal_read b) (ok bs) v' h,
      unfold filled copy_result in
          λ i. (
            io_completed (length bs),
            change i,
            (same ∙ ap (λ q. q ++ bs) (contents-steal_read b v)) i,
          ),
    )

-- `read_from` on a valid buffer leaves a valid one, and does what the queue of its contents does:
-- with no room it reports `BufferNotReady` and does not touch the reader, and otherwise what the
-- reader puts into the slice goes to the end, and the change reported is the change of the queue.
pub read_from-Refines :
    {R : Type 0} (rd : Read R)
    → ReadsWithin rd
    → (b : FlipBuffer) (reader : R) → IsValid b
    → Refines (read_from rd b reader) (fill rd (room b) (contents b) reader)
unfolding read_from
read_from-Refines rd within b reader v =
    let v' = steal_read-IsValid b v in
    let w : sub_usize buffer_capacity (steal_read b).write_cursor ≡ room b =
      omega (arith, room-steal_read b, v') in
    let full =
      filled_refines b (rd.read reader (room b)).0 v
        (λ bs e. omega (arith, room-steal_read b, within reader (room b) bs e, v')) in
    rw w (
      Refines-if (room b == 0) (λ z. (v', rw (contents-steal_read b v)))
        (λ z.
          (full.0, λ i. ((full.1 i).0, (full.1 i).1, (full.1 i).2, (rd.read reader (room b)).1))))
