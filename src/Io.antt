-- ===== src/Io.antt =====
-- What the program uses of std::io: errors, results, and the traits Read and Write.
use iosock.Prelude.{ℕ, ◌≤◌, ◌≡◌, List, length, Option, none}

-- `io::ErrorKind`: the kinds that the program tells apart, and all others by a number.
pub data ErrorKind : Type 0 where
  connection_reset broken_pipe interrupted invalid_data : ErrorKind
  other : ℕ → ErrorKind

-- `io::Error`: its kind, and the errno that it was made from, if any.
pub record IoError : Type 0 where
  pub kind : ErrorKind
  pub raw_os_error : Option ℕ

-- `io::Error::from(kind)`
abbrev pub from_kind : ErrorKind → IoError
from_kind k = record { kind = k; raw_os_error = none }

-- `io::Result<A>`
pub data Result {ℓ} (A : Type ℓ) : Type ℓ where
  ok : A → Result A
  err : IoError → Result A

-- The trait `Read`, for a reader whose state is an `R`. A call is given the length of the slice,
-- and returns the bytes that it put at the slice's start.
pub record Read (R : Type 0) : Type 0 where
  pub read : R → ℕ → Result (List ℕ) × R

-- The trait `Write`, for a writer whose state is a `W`.
pub record Write (W : Type 0) : Type 0 where
  pub write : W → List ℕ → Result ℕ × W
  pub flush : W → Result (Unit {0}) × W

-- The documented contract of `Read::read`: it fills no more than the slice that it is given.
abbrev pub ReadsWithin : {R : Type 0} → Read R → Type 0
ReadsWithin {R} rd = (r : R) (n : ℕ) (bs : List ℕ) → (rd.read r n).0 ≡ Result.ok bs → length bs ≤ n

-- The documented contract of `Write::write`: it takes no more than the slice that it is given.
abbrev pub WritesWithin : {W : Type 0} → Write W → Type 0
WritesWithin {W} wr =
    (w : W) (bs : List ℕ) (n : ℕ) → (wr.write w bs).0 ≡ Result.ok n → n ≤ length bs
