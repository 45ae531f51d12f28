-- ===== src/Channel/Pending.antt =====
-- src/channel_manager.rs: whether bytes are waiting in a buffer after a transfer, and what the
-- caller is told of it.
use iosock.Prelude.{
  ℕ, zero, suc, ◌≡◌, refl, ap, sym, ◌∙◌, Bool, true, false, not, ◌&&◌, ◌||◌, List, [], ◌∷◌, ◌++◌,
  ◌==◌, ltb, Bool-cases, inl, inr, arith, length, drop, slice,
}
use iosock.Io.{ErrorKind, Result, ok, err, Read, Write, ReadsWithin, WritesWithin}
use iosock.Outcome.{Outcome, done, fail, panic, of_result}
use iosock.Buffer.{FlipBuffer, BufferStateChange, became_empty, became_non_empty, discard}
use iosock.Buffer.Contents.{IsValid, contents, room}
use iosock.Buffer.Queue.{change_of}
use iosock.Buffer.Send.{front}
use iosock.Buffer.Drain.{discard_lem}
use iosock.Os.{Os}
use iosock.Channel.After.{After}
use iosock.Channel.{Context, M, bind, channel_to_buffer, buffer_to_channel}
use iosock.Channel.Relay.{
  relayed, asked, on_error, on_error-cases, flush_result, sent, channel_to_buffer_lem,
  buffer_to_channel_lem,
}

abbrev pub holds_bytes : List ℕ → Bool
holds_bytes [] = false
holds_bytes (x ∷ q) = true

abbrev pub has_bytes : FlipBuffer → Bool
has_bytes b = holds_bytes (contents b)

abbrev pub is_non_empty : BufferStateChange → Bool
is_non_empty became_non_empty = true
is_non_empty _ = false

-- A read of a buffer with the contents `q`: it does not panic, and if bytes wait in the contents
-- `q'` afterwards, they did before, or the channel stays open and the change says so.
abbrev pub TellsRead : List ℕ → List ℕ → Outcome (Bool × BufferStateChange) → Type 0
TellsRead q q' (done (close, change)) =
    holds_bytes q' ≡ true → (holds_bytes q || not close && is_non_empty change) ≡ true
TellsRead q q' (fail e) = Unit
TellsRead q q' panic = ⊥

-- A write of a buffer with the contents `q`: it does not panic, no bytes wait in `q'` that did not
-- before, and none do if the change says so.
abbrev pub TellsWrite : List ℕ → List ℕ → Outcome (Bool × BufferStateChange) → Type 0
TellsWrite q q' (done (close, change)) =
    (holds_bytes q' ≡ true → holds_bytes q ≡ true)
    × (change ≡ became_empty → holds_bytes q' ≡ false)
TellsWrite q q' (fail e) = Unit
TellsWrite q q' panic = ⊥

error-TellsRead :
    (q : List ℕ) (k : ErrorKind) → TellsRead q q (of_result (on_error BufferStateChange.none k))
error-TellsRead q k = elim (on_error-cases BufferStateChange.none k) [
  | inl e ↦ rw e (λ h. ground arith)
  | inr e ↦ rw e tt
]

relayed-TellsRead :
    (full : Bool) (q : List ℕ) (a : Result (List ℕ))
    → TellsRead q (relayed full q a).1 (of_result (relayed full q a).0)
relayed-TellsRead full q (err e) = error-TellsRead q e.kind
relayed-TellsRead true q (ok bs) = λ h. ground arith
relayed-TellsRead false q (ok []) = λ h. ground arith
relayed-TellsRead false [] (ok (x ∷ bs)) = λ h. refl
relayed-TellsRead false (y ∷ q) (ok (x ∷ bs)) = λ h. refl

pub channel_to_buffer-TellsRead :
    {R : Type 0} (rd : Read R)
    → ReadsWithin rd
    → (b : FlipBuffer) (reader : R) → IsValid b
    → let (r, b', reader') = channel_to_buffer rd b reader in
      IsValid b' × TellsRead (contents b) (contents b') (of_result r)
channel_to_buffer-TellsRead rd within b reader v =
    let (v', e) = channel_to_buffer_lem rd within b reader v in
    (
      v',
      rw (ap (λ t. t.0) e, ap (λ t. t.1) e)
          (relayed-TellsRead (room b == 0) (contents b) (rd.read reader (asked b)).0),
    )

-- What every read leaves alone, a transfer does.
pub channel_to_buffer-keeps :
    {R X : Type 0} (rd : Read R)
    → ReadsWithin rd
    → (f : R → X) → ((r : R) (n : ℕ) → f (rd.read r n).1 ≡ f r)
    → (b : FlipBuffer) (reader : R) → IsValid b
    → f (channel_to_buffer rd b reader).2 ≡ f reader
channel_to_buffer-keeps rd within f h b reader v =
    ap (λ t. f t.2) (channel_to_buffer_lem rd within b reader v).1 ∙ h reader (asked b)

pub holds_bytes-length : (q : List ℕ) → ltb 0 (length q) ≡ holds_bytes q
holds_bytes-length [] = refl
holds_bytes-length (x ∷ q) = ground arith

holds_bytes-drop : (n : ℕ) (q : List ℕ) → holds_bytes (drop n q) ≡ true → holds_bytes q ≡ true
holds_bytes-drop zero q h = h
holds_bytes-drop (suc n) [] h = h
holds_bytes-drop (suc n) (x ∷ q) h = refl

change_of-empty : (q q' : List ℕ) → change_of q q' ≡ became_empty → holds_bytes q' ≡ false
change_of-empty [] [] e = refl
change_of-empty [] (x ∷ q') e = cc
change_of-empty (x ∷ q) [] e = refl
change_of-empty (x ∷ q) (y ∷ q') e = cc

flushed-TellsWrite :
    (n : ℕ) (q : List ℕ) (f : Result (Unit {0}))
    → TellsWrite q (drop n q) (of_result (flush_result n (change_of q (drop n q)) f))
flushed-TellsWrite n q (ok u) = (holds_bytes-drop n q, change_of-empty q (drop n q))
flushed-TellsWrite n q (err e) = elim (on_error-cases (change_of q (drop n q)) e.kind) [
  | inl t ↦ rw t (holds_bytes-drop n q, change_of-empty q (drop n q))
  | inr t ↦ rw t tt
]

error-TellsWrite :
    (q : List ℕ) (k : ErrorKind) → TellsWrite q q (of_result (on_error BufferStateChange.none k))
error-TellsWrite q k = elim (on_error-cases BufferStateChange.none k) [
  | inl e ↦ rw e (λ h. h, λ h. cc)
  | inr e ↦ rw e tt
]

sent-TellsWrite :
    {W : Type 0} (wr : Write W) (q : List ℕ) (a : Result ℕ × W)
    → TellsWrite q (sent wr q a).1 (of_result (sent wr q a).0)
sent-TellsWrite wr q (err e, w) = error-TellsWrite q e.kind
sent-TellsWrite wr q (ok n, w) = flushed-TellsWrite n q (wr.flush w).0

pub buffer_to_channel-TellsWrite :
    {W : Type 0} (wr : Write W)
    → WritesWithin wr
    → (b : FlipBuffer) (writer : W) → IsValid b
    → let (r, b', writer') = buffer_to_channel wr b writer in
      IsValid b' × TellsWrite (contents b) (contents b') (of_result r)
buffer_to_channel-TellsWrite wr within b writer v =
    let (v', e) = buffer_to_channel_lem wr within b writer v in
    (
      v',
      rw (ap (λ t. t.0) e, ap (λ t. t.1) e)
          (elim (Bool-cases (length (front b) == 0)) [
            | inl z ↦ rw z (λ h. h, λ h. cc)
            | inr z ↦ rw z (sent-TellsWrite wr (contents b) (wr.write writer (front b)))
          ]),
    )

sent-keeps :
    {W X : Type 0} (wr : Write W) (f : W → X) (w0 : W)
    → ((w : W) → f (wr.flush w).1 ≡ f w)
    → (q : List ℕ) (a : Result ℕ × W) → f a.1 ≡ f w0
    → f (sent wr q a).2 ≡ f w0
sent-keeps wr f w0 h q (err e, w) k = k
sent-keeps wr f w0 h q (ok n, w) k = h w ∙ k

pub buffer_to_channel-keeps :
    {W X : Type 0} (wr : Write W)
    → WritesWithin wr
    → (f : W → X) → ((w : W) (bs : List ℕ) → f (wr.write w bs).1 ≡ f w)
    → ((w : W) → f (wr.flush w).1 ≡ f w)
    → (b : FlipBuffer) (writer : W) → IsValid b
    → f (buffer_to_channel wr b writer).2 ≡ f writer
buffer_to_channel-keeps wr within f h k b writer v =
    ap (λ t. f t.2) (buffer_to_channel_lem wr within b writer v).1
    ∙ elim (Bool-cases (length (front b) == 0)) [
      | inl z ↦ rw z refl
      | inr z ↦
          rw z
            (sent-keeps wr f writer k (contents b) (wr.write writer (front b)) (h writer (front b)))
    ]

pub has_bytes-discard :
    (b : FlipBuffer) → IsValid b → has_bytes (discard b).1 ≡ true → has_bytes b ≡ true
has_bytes-discard b v h =
    rest (slice b.read_page b.read_cursor b.read_max) _
      (ap holds_bytes (sym (discard_lem b v).1) ∙ h)
  where
    rest : (p q : List ℕ) → holds_bytes p ≡ true → holds_bytes (p ++ q) ≡ true
    rest [] q e = cc
    rest (x ∷ p) q e = refl

module _ {os : Os} {Manager B : Type 0} (P : Context os Manager → Type 0)
    (R : B → Context os Manager → Type 0) (f : Bool × BufferStateChange → M os Manager B)
    (c : Context os Manager) (q q' : List ℕ) where
  -- What follows a read that has been told of, and a write.
  pub bind-TellsRead :
      (r : Outcome (Bool × BufferStateChange))
      → TellsRead q q' r
      → ((a : Bool × BufferStateChange) → TellsRead q q' (done a) → After P R (f a c))
      → After P R (bind (r, c) f)
  bind-TellsRead (done a) t k = k a t
  bind-TellsRead (fail e) t k = tt
  bind-TellsRead panic t k = absurd t

  pub bind-TellsWrite :
      (r : Outcome (Bool × BufferStateChange))
      → TellsWrite q q' r
      → ((a : Bool × BufferStateChange) → TellsWrite q q' (done a) → After P R (f a c))
      → After P R (bind (r, c) f)
  bind-TellsWrite (done a) t k = k a t
  bind-TellsWrite (fail e) t k = tt
  bind-TellsWrite panic t k = absurd t
