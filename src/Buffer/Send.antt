-- ===== src/Buffer/Send.antt =====
-- src/buffer.rs, `write_to`, against the queue of bytes.
use mathlib.Core.List.{append-nil}
use iosock.Prelude.{
  ℕ, ◌+◌, ◌-◌, ◌≤◌, ◌≡◌, ◌≢◌, refl, ◌↔◌, ap, sym, ◌∙◌, Bool, true, false, List, [], ◌∷◌, ◌++◌, ◌==◌,
  if◌then◌else◌, arith, length, take, slice, drop, length-zero, length-slice, length-take,
  drop-append, drop-slice, add_usize, sub_usize,
}
use iosock.Io.{Result, ok, err, Write, WritesWithin}
use iosock.Buffer.{
  FlipBuffer, CopyResult, io_completed, io_error, BufferStateChange, became_empty, steal_write,
  taken, flushed, copy_result, write_to, is_drained,
}
use iosock.Buffer.Contents.{IsValid, contents, length-contents, Refines, Refines-if}
use iosock.Buffer.Queue.{send, emit, emitted, change_of}
use iosock.Buffer.Receive.{is_drained-contents}

-- What a writer is offered: the rest of the read page, or else all of the write page.
abbrev pub front : FlipBuffer → List ℕ
front b =
    if b.read_cursor == b.read_max
    then take b.write_cursor b.write_page
    else slice b.read_page b.read_cursor b.read_max

steal_write-IsValid : (b : FlipBuffer) → IsValid b → IsValid (steal_write b)
unfolding steal_write
steal_write-IsValid b v = ground arith

contents-steal_write : (b : FlipBuffer) → IsValid b → contents (steal_write b) ≡ contents b
unfolding steal_write
contents-steal_write b v = ground (
  arith,
  length-zero (slice b.read_page b.read_cursor b.read_max),
  length-slice b.read_page b.read_cursor b.read_max,
  append-nil (take b.write_cursor b.write_page),
)

front-steal_write :
    (b : FlipBuffer)
    → IsValid b
    → let c = steal_write b in slice c.read_page c.read_cursor c.read_max ≡ front b
unfolding steal_write
front-steal_write b v = ground (
  arith,
  length-zero (slice b.read_page b.read_cursor b.read_max),
  length-slice b.read_page b.read_cursor b.read_max,
  length-zero (take b.write_cursor b.write_page),
  length-take b.write_cursor b.write_page,
)

length-front :
    (b : FlipBuffer)
    → IsValid b
    → let c = steal_write b in length (front b) ≡ c.read_max - c.read_cursor
length-front b v =
    let c = steal_write b in
    rw (← front-steal_write b v)
      (length-slice c.read_page c.read_cursor c.read_max (omega (arith, steal_write-IsValid b v)))

front_bounds :
    (b : FlipBuffer)
    → IsValid b
    → length (front b)
      ≡ (if b.read_cursor == b.read_max then b.write_cursor else b.read_max - b.read_cursor)
front_bounds b v = ground (
  arith,
  length-slice b.read_page b.read_cursor b.read_max,
  length-take b.write_cursor b.write_page,
)

-- What a valid buffer offers to a writer is a prefix of its contents, and is empty only if they
-- are.
pub front-IsPrefix :
    (b : FlipBuffer)
    → IsValid b
    → ((rest : List ℕ) × (contents b ≡ front b ++ rest)) × ((front b ≡ []) ↔ (contents b ≡ []))
front-IsPrefix b v = (
  (
    (if b.read_cursor == b.read_max then [] else take b.write_cursor b.write_page),
    ground (
      arith,
      length-zero (slice b.read_page b.read_cursor b.read_max),
      length-slice b.read_page b.read_cursor b.read_max,
      append-nil (take b.write_cursor b.write_page),
    ),
  ),
  (
    λ h.
        length-zero (contents b)
          (ground (arith, length-contents b v, front_bounds b v, ap length h)),
    λ h. length-zero (front b) (ground (arith, length-contents b v, front_bounds b v, ap length h)),
  ),
)

contents-advance :
    (b : FlipBuffer) (n : ℕ)
    → IsValid b
    → n ≤ b.read_max - b.read_cursor
    → contents (record b { read_cursor = add_usize b.read_cursor n }) ≡ drop n (contents b)
contents-advance b n v h =
    ap (λ k. slice b.read_page k b.read_max ++ written) {x = add_usize b.read_cursor n}
      {y = b.read_cursor + n} (omega arith)
    ∙ sym (ap (λ l. l ++ written) (drop-slice n b.read_page b.read_cursor b.read_max))
    ∙ sym (
        drop-append n (slice b.read_page b.read_cursor b.read_max) written
          (omega (arith, length-slice b.read_page b.read_cursor b.read_max)))
  where
    written : List ℕ
    written = take b.write_cursor b.write_page

advance-IsValid :
    (b : FlipBuffer) (n : ℕ)
    → IsValid b
    → n ≤ b.read_max - b.read_cursor
    → IsValid (record b { read_cursor = add_usize b.read_cursor n })
advance-IsValid b n v h = omega arith

-- The closure's test, against the queues before and after.
change_of-drop :
    (q q' : List ℕ) (d : Bool)
    → q ≢ []
    → (d ≡ true) ↔ (q' ≡ [])
    → (if d then became_empty else BufferStateChange.none) ≡ change_of q q'
change_of-drop [] q' d h i = absurd (h refl)
change_of-drop (x ∷ q) [] true h i = refl
change_of-drop (x ∷ q) (y ∷ q') false h i = refl
change_of-drop (x ∷ q) [] false h i = ground (arith, i.1 refl)
change_of-drop (x ∷ q) (y ∷ q') true h i = ground (arith, i.0 refl)

flushed_refines :
    {W : Type 0} (wr : Write W) (q : List ℕ) (n : ℕ) (f : Result (Unit {0}) × W) {q' : List ℕ}
    {c : BufferStateChange}
    → q' ≡ drop n q
    → c ≡ change_of q (drop n q)
    → ◌≡◌ {A = CopyResult × BufferStateChange × List ℕ × W}
        ((flushed wr n f).0, c, q', (flushed wr n f).1)
        ((send q (ok n) f.0).0, (send q (ok n) f.0).1, (send q (ok n) f.0).2, f.1)
unfolding flushed copy_result
flushed_refines wr q n (ok u, writer) e c = λ i. (io_completed n, c i, e i, writer)
flushed_refines wr q n (err x, writer) e c = λ i. (io_error x.kind, c i, e i, writer)

taken-Refines :
    {W : Type 0} (wr : Write W) (b : FlipBuffer) (answer : Result ℕ × W)
    → IsValid b
    → contents b ≢ []
    → ((n : ℕ) → answer.0 ≡ ok n → n ≤ b.read_max - b.read_cursor)
    → Refines (taken wr b answer) (emitted wr (contents b) answer)
unfolding taken copy_result
taken-Refines wr b (err e, writer) v ne h = (v, refl)
taken-Refines wr b (ok n, writer) v ne h =
    let b' = record b { read_cursor = add_usize b.read_cursor n } in
    let v' = advance-IsValid b n v (h n refl) in
    let same = contents-advance b n v (h n refl) in
    let change =
      change_of-drop (contents b) (contents b') (is_drained b') ne (is_drained-contents b' v') in
    (
      v',
      flushed_refines wr (contents b) n (wr.flush writer) same
          (change ∙ ap (change_of (contents b)) same),
    )

-- `write_to` on a valid buffer leaves a valid one, and does what the queue of its contents does: an
-- empty one reports `BufferNotReady` and does not touch the writer, and otherwise the bytes that
-- the writer takes of the front leave the queue, also if the flush fails, and the change reported
-- is the change of the queue.
pub write_to-Refines :
    {W : Type 0} (wr : Write W)
    → WritesWithin wr
    → (b : FlipBuffer) (writer : W) → IsValid b
    → Refines (write_to wr b writer) (emit wr (front b) (contents b) writer)
unfolding write_to
write_to-Refines wr within b writer v =
    let c = steal_write b in
    let v' = steal_write-IsValid b v in
    let e : sub_usize c.read_max c.read_cursor ≡ length (front b) =
      omega (arith, length-front b v, v') in
    let same = contents-steal_write b v in
    rw (e, front-steal_write b v)
      (Refines-if (length (front b) == 0) (λ z. (v', rw same))
        (λ z. rw same at (
          taken-Refines wr c (wr.write writer (front b)) v'
            (λ k. ground (arith, z, ap length ((front-IsPrefix b v).1.1 (sym same ∙ k))))
            (λ n h. omega (arith, within writer (front b) n h, length-front b v)))))
