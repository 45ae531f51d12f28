-- ===== src/Relay/Transfer.antt =====
-- src/channel_manager.rs: the bytes that one call of `channel_to_buffer` or `buffer_to_channel` moves.
use mathlib.Core.List.{append-nil}
use iosock.Prelude.{
  ℕ, ◌≡◌, ◌≤◌, ◌⊎◌, refl, sym, ap, ◌∙◌, Bool, true, false, Option, some, List, [], ◌∷◌, ◌++◌, ◌==◌,
  Bool-cases, inl, inr, ==_refl, take, drop, length, take-append, take-append-drop,
}
use iosock.Io.{Result, ok, err, Read, Write, ReadsWithin, WritesWithin}
use iosock.Buffer.{FlipBuffer}
use iosock.Buffer.Contents.{IsValid, contents, room}
use iosock.Buffer.Send.{front, front-IsPrefix}
use iosock.Channel.{channel_to_buffer, buffer_to_channel}
use iosock.Channel.Relay.{relayed, asked, sent, channel_to_buffer_lem, buffer_to_channel_lem}
use iosock.Stdio.Pipes.{is_fd}
use iosock.Relay.{Entry, got, put}

-- What a call that may read into the queue `q` has transferred, with what it leaves of the queue.
pub data ReadBy (o : Option ℕ) (full : Bool) (q : List ℕ) (es : List Entry) (q' : List ℕ)
    : Type 0 where
  nothing : es ≡ [] → q' ≡ q → ReadBy o full q es q'
  took :
      (fd : ℕ) (bs : List ℕ)
      → is_fd o fd ≡ true
      → full ≡ false
      → es ≡ got fd bs ∷ []
      → q' ≡ q ++ bs
      → ReadBy o full q es q'
  spilt :
      (fd : ℕ) (bs : List ℕ)
      → is_fd o fd ≡ true
      → full ≡ true
      → es ≡ got fd bs ∷ []
      → q' ≡ q
      → ReadBy o full q es q'

pub data WrittenBy (o : Option ℕ) (q : List ℕ) (es : List Entry) (q' : List ℕ) : Type 0 where
  nothing : es ≡ [] → q' ≡ q → WrittenBy o q es q'
  gave :
      (fd : ℕ) (bs : List ℕ)
      → is_fd o fd ≡ true
      → es ≡ put fd bs ∷ []
      → q ≡ bs ++ q'
      → WrittenBy o q es q'

-- What the answer of a read says of the transfers that the reader made, and the answer of a write.
abbrev pub NotesRead : ℕ → Result (List ℕ) → List Entry → Type 0
NotesRead fd (ok bs) es = (es ≡ got fd bs ∷ []) ⊎ (es ≡ []) × (bs ≡ [])
NotesRead fd (err e) es = es ≡ []

abbrev pub NotesWrite : ℕ → List ℕ → Result ℕ → List Entry → Type 0
NotesWrite fd bs (ok n) es = (es ≡ put fd (take n bs) ∷ []) ⊎ (es ≡ []) × (n ≡ 0)
NotesWrite fd bs (err e) es = es ≡ []

relayed-ReadBy :
    (fd : ℕ) (full : Bool) (q : List ℕ) (a : Result (List ℕ)) (es : List Entry)
    → NotesRead fd a es
    → ReadBy (some fd) full q es (relayed full q a).1
relayed-ReadBy fd full q (err x) es h = nothing h refl
relayed-ReadBy fd true q (ok bs) es (inl h) = spilt fd bs (==_refl fd) refl h refl
relayed-ReadBy fd true q (ok bs) es (inr h) = nothing h.0 refl
relayed-ReadBy fd false q (ok []) es (inl h) = took fd [] (==_refl fd) refl h (sym (append-nil q))
relayed-ReadBy fd false q (ok []) es (inr h) = nothing h.0 refl
relayed-ReadBy fd false q (ok (x ∷ bs)) es (inl h) = took fd (x ∷ bs) (==_refl fd) refl h refl
relayed-ReadBy fd false q (ok (x ∷ bs)) es (inr h) = cc

-- Of a reader whose reads add to a log.
pub channel_to_buffer-ReadBy :
    {R : Type 0} (rd : Read R) (log : R → List Entry) (fd : ℕ)
    → ReadsWithin rd
    → ((r : R) (n : ℕ)
        → (es : List Entry) × (log (rd.read r n).1 ≡ log r ++ es) × NotesRead fd (rd.read r n).0 es)
    → (b : FlipBuffer) (reader : R) → IsValid b
    → let (r, b', reader') = channel_to_buffer rd b reader in
      (es : List Entry) × (log reader' ≡ log reader ++ es)
      × ReadBy (some fd) (room b == 0) (contents b) es (contents b')
channel_to_buffer-ReadBy rd log fd within notes b reader v =
    let (es, l, n) = notes reader (asked b) in
    let (v', e) = channel_to_buffer_lem rd within b reader v in
    (
      es,
      ap (λ t. log t.2) e ∙ l,
      rw (ap (λ t. t.1) e)
          (relayed-ReadBy fd (room b == 0) (contents b) (rd.read reader (asked b)).0 es n),
    )

front-rest :
    (b : FlipBuffer) (n : ℕ)
    → IsValid b
    → n ≤ length (front b)
    → contents b ≡ take n (front b) ++ drop n (contents b)
front-rest b n v h =
    let (rest, e) = (front-IsPrefix b v).0 in
    sym (take-append-drop n (contents b))
    ∙ ap (λ t. t ++ drop n (contents b)) (ap (take n) e ∙ take-append n (front b) rest h)

sent-WrittenBy :
    {W : Type 0} (wr : Write W) (log : W → List Entry) (fd : ℕ)
    → ((w : W) → log (wr.flush w).1 ≡ log w)
    → (b : FlipBuffer) (w0 : W) (a : Result ℕ × W) (es : List Entry)
    → ((n : ℕ) → a.0 ≡ ok n → n ≤ length (front b))
    → IsValid b
    → log a.1 ≡ log w0 ++ es
    → NotesWrite fd (front b) a.0 es
    → (log (sent wr (contents b) a).2 ≡ log w0 ++ es)
      × WrittenBy (some fd) (contents b) es (sent wr (contents b) a).1
sent-WrittenBy wr log fd k b w0 (err x, w) es h v l n = (l, nothing n refl)
sent-WrittenBy wr log fd k b w0 (ok n, w) es h v l (inl e) =
    (k w ∙ l, gave fd (take n (front b)) (==_refl fd) e (front-rest b n v (h n refl)))
sent-WrittenBy wr log fd k b w0 (ok n, w) es h v l (inr e) =
    (k w ∙ l, nothing e.0 (ap (λ m. drop m (contents b)) e.1))

pub buffer_to_channel-WrittenBy :
    {W : Type 0} (wr : Write W) (log : W → List Entry) (fd : ℕ)
    → WritesWithin wr
    → ((w : W) → log (wr.flush w).1 ≡ log w)
    → ((w : W) (bs : List ℕ)
        → (es : List Entry) × (log (wr.write w bs).1 ≡ log w ++ es)
          × NotesWrite fd bs (wr.write w bs).0 es)
    → (b : FlipBuffer) (writer : W) → IsValid b
    → let (r, b', writer') = buffer_to_channel wr b writer in
      (es : List Entry) × (log writer' ≡ log writer ++ es)
      × WrittenBy (some fd) (contents b) es (contents b')
buffer_to_channel-WrittenBy wr log fd within k notes b writer v =
    let (v', e) = buffer_to_channel_lem wr within b writer v in
    elim (Bool-cases (length (front b) == 0)) [
      | inl z ↦ (
        [],
        ap (λ t. log t.2) e ∙ rw z (sym (append-nil (log writer))),
        nothing refl (ap (λ t. t.1) e ∙ rw z refl),
      )
      | inr z ↦
          let (es, l, n) = notes writer (front b) in
          let s =
            sent-WrittenBy wr log fd k b writer (wr.write writer (front b)) es
              (within writer (front b)) v l n in
          (es, ap (λ t. log t.2) e ∙ rw z s.0, rw (ap (λ t. t.1) e, z) s.1)
    ]
