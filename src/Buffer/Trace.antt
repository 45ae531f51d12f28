-- ===== src/Buffer/Trace.antt =====
-- Bytes relayed through a `FlipBuffer` (src/buffer.rs) by any sequence of `read_from` and
-- `write_to`, as the two directions of src/io.rs relay them: short reads, short writes and failed
-- flushes included.
use mathlib.Core.List.{append_assoc}
use iosock.Prelude.{
  ℕ, zero, suc, ◌≡◌, refl, ap, sym, ◌∙◌, List, [], ◌∷◌, ◌++◌, ◌==◌, Bool-cases, inl, inr, arith,
  min, take, drop, length, take-append-drop, length-take,
}
use iosock.Io.{Result, ok, err, Read, Write, ReadsWithin, WritesWithin}
use iosock.Buffer.{FlipBuffer, read_from, write_to}
use iosock.Buffer.Contents.{IsValid, contents, room}
use iosock.Buffer.Queue.{fill, emit, send}
use iosock.Buffer.Receive.{read_from-Refines}
use iosock.Buffer.Send.{write_to-Refines, front, front-IsPrefix}

-- A source that gives at most `k` of the bytes that are left in it.
abbrev pub source : ℕ → Read (List ℕ)
source k = record { read = λ input n. (ok (take (min n k) input), drop (min n k) input) }

-- A sink that takes at most `k` bytes, and whose flush returns `flush`.
abbrev pub sink : ℕ → Result (Unit {0}) → Write (List ℕ)
sink k flush = record {
  write = λ output bs. (ok (length (take k bs)), output ++ take k bs);
  flush = λ output. (flush, output);
}

pub record Relay : Type 0 where
  pub input : List ℕ
  pub buffer : FlipBuffer
  pub output : List ℕ

pub data Move : Type 0 where
  pump_in : ℕ → Move
  pump_out : ℕ → Result (Unit {0}) → Move

unfoldable pub step : Relay → Move → Relay
step s (pump_in k) =
    let (result, change, b, input) = read_from (source k) s.buffer s.input in
    record s { input = input; buffer = b }
step s (pump_out k flush) =
    let (result, change, b, output) = write_to (sink k flush) s.buffer s.output in
    record s { buffer = b; output = output }

unfoldable pub run : Relay → List Move → Relay
run s [] = s
run s (m ∷ ms) = run (step s m) ms

-- All the bytes, those that went out first.
abbrev pub all_bytes : Relay → List ℕ
all_bytes s = s.output ++ (contents s.buffer ++ s.input)

pub source-ReadsWithin : (k : ℕ) → ReadsWithin (source k)
source-ReadsWithin k r n bs e = ground (arith, length-take (min n k) r)

pub sink-WritesWithin : (k : ℕ) (f : Result (Unit {0})) → WritesWithin (sink k f)
sink-WritesWithin k f w bs n e = ground (arith, length-take k bs)

fill_keeps :
    (k n : ℕ) (q input : List ℕ) → let r = fill (source k) n q input in r.2 ++ r.3 ≡ q ++ input
fill_keeps k n q input = elim (Bool-cases (n == 0)) [
  | inl z ↦ rw z refl
  | inr z ↦ rw z (
      append_assoc q (take (min n k) input) (drop (min n k) input)
      ∙ ap (λ l. q ++ l) (take-append-drop (min n k) input))
]

taken_and_rest :
    (k : ℕ) (bs rest : List ℕ) → take k bs ++ drop (length (take k bs)) (bs ++ rest) ≡ bs ++ rest
taken_and_rest zero bs rest = refl
taken_and_rest (suc k) [] rest = refl
taken_and_rest (suc k) (x ∷ bs) rest = ap (λ l. x ∷ l) (taken_and_rest k bs rest)

emit_keeps :
    (k : ℕ) (f : Result (Unit {0})) (bs q rest output : List ℕ)
    → q ≡ bs ++ rest
    → let r = emit (sink k f) bs q output in r.3 ++ r.2 ≡ output ++ q
emit_keeps k f bs q rest output e = elim (Bool-cases (length bs == 0)) [
  | inl z ↦ rw z refl
  | inr z ↦ rw (z, e) (sent f)
]
  where
    sent :
        (f : Result (Unit {0}))
        → (output ++ take k bs) ++ (send (bs ++ rest) (ok (length (take k bs))) f).2
          ≡ output ++ (bs ++ rest)
    sent (ok u) =
        append_assoc output (take k bs) _ ∙ ap (λ l. output ++ l) (taken_and_rest k bs rest)
    sent (err x) =
        append_assoc output (take k bs) _ ∙ ap (λ l. output ++ l) (taken_and_rest k bs rest)

step_keeps :
    (s : Relay) (m : Move)
    → IsValid s.buffer
    → IsValid (step s m).buffer × (all_bytes (step s m) ≡ all_bytes s)
unfolding step
step_keeps s (pump_in k) v =
    let h = read_from-Refines (source k) (source-ReadsWithin k) s.buffer s.input v in
    (
      h.0,
      ap (λ l. s.output ++ l)
          (ap (λ t. t.2 ++ t.3) h.1 ∙ fill_keeps k (room s.buffer) (contents s.buffer) s.input),
    )
step_keeps s (pump_out k f) v =
    let h = write_to-Refines (sink k f) (sink-WritesWithin k f) s.buffer s.output v in
    let (rest, e) = (front-IsPrefix s.buffer v).0 in
    let t = step s (pump_out k f) in
    (
      h.0,
      sym (append_assoc t.output (contents t.buffer) s.input)
          ∙ ap (λ l. l ++ s.input)
              (ap (λ r. r.3 ++ r.2) h.1
                ∙ emit_keeps k f (front s.buffer) (contents s.buffer) rest s.output e)
          ∙ append_assoc s.output (contents s.buffer) s.input,
    )

-- No byte is lost, repeated or reordered: after any moves from a valid buffer, the bytes that went
-- out, those in the buffer and those still to come are, in this order, what they were together
-- before; and the buffer is valid.
pub run_keeps :
    (ms : List Move) (s : Relay)
    → IsValid s.buffer
    → IsValid (run s ms).buffer × (all_bytes (run s ms) ≡ all_bytes s)
unfolding run
run_keeps [] s v = (v, refl)
run_keeps (m ∷ ms) s v =
    let (v', e) = step_keeps s m v in let (w, e') = run_keeps ms (step s m) v' in (w, e' ∙ e)
