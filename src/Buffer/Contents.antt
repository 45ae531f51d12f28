-- ===== src/Buffer/Contents.antt =====
-- The queue of bytes that a `FlipBuffer` (src/buffer.rs) holds, and its invariant.
use iosock.Prelude.{
  ℕ, ◌+◌, ◌-◌, ◌≤◌, ◌≡◌, refl, Bool, true, false, List, ◌++◌, ◌==◌, if◌then◌else◌, ◌&&◌, arith,
  length, take, slice, length-slice, length-append, length-take, length-replicate,
}
use iosock.Buffer.{
  CopyResult, BufferStateChange, FlipBuffer, buffer_capacity, new, heap_buffer, writable_size,
}

-- The rest of the read page, then what was written since.
abbrev pub contents : FlipBuffer → List ℕ
contents b = slice b.read_page b.read_cursor b.read_max ++ take b.write_cursor b.write_page

pub record IsValid (b : FlipBuffer) : Type 0 where
  pub read_size : length b.read_page ≡ buffer_capacity
  pub write_size : length b.write_page ≡ buffer_capacity
  pub cursor_in : b.read_cursor ≤ b.read_max
  pub max_in : b.read_max ≤ buffer_capacity
  pub write_in : b.write_cursor ≤ buffer_capacity

-- How many bytes a reader is asked for.
abbrev pub room : FlipBuffer → ℕ
room b =
    if b.write_cursor == buffer_capacity && b.read_cursor == b.read_max
    then buffer_capacity
    else buffer_capacity - b.write_cursor

pub new-IsValid : IsValid new
unfolding new heap_buffer
new-IsValid = omega (arith, length-replicate {A = ℕ} buffer_capacity 0)

pub length-contents :
    (b : FlipBuffer) → IsValid b → length (contents b) ≡ b.read_max - b.read_cursor + b.write_cursor
length-contents b v = omega (
  arith,
  length-append (slice b.read_page b.read_cursor b.read_max) (take b.write_cursor b.write_page),
  length-slice b.read_page b.read_cursor b.read_max (omega arith),
  length-take b.write_cursor b.write_page,
)

-- The size that a valid buffer reports is the number of bytes that it holds, at most two pages;
-- no `usize` operation of `writable_size` wraps.
pub writable_size-length :
    (b : FlipBuffer)
    → IsValid b
    → (writable_size b ≡ length (contents b))
      × (length (contents b) ≤ buffer_capacity + buffer_capacity)
unfolding writable_size
writable_size-length b v = omega (arith, length-contents b v)

-- What a call returned, against what the same call on a queue returns: the buffer is valid, it
-- holds the queue, and all else is the same.
abbrev pub Refines :
    {S : Type 0}
    → CopyResult × BufferStateChange × FlipBuffer × S
    → CopyResult × BufferStateChange × List ℕ × S
    → Type 0
Refines (result, change, b, s) spec = IsValid b × ((result, change, contents b, s) ≡ spec)

pub Refines-if :
    {S : Type 0} (t : Bool) {x y : CopyResult × BufferStateChange × FlipBuffer × S}
    {x' y' : CopyResult × BufferStateChange × List ℕ × S}
    → (t ≡ true → Refines x x')
    → (t ≡ false → Refines y y')
    → Refines (if t then x else y) (if t then x' else y')
Refines-if true hx hy = hx refl
Refines-if false hx hy = hy refl
