-- ===== src/Os.antt =====
-- What the program calls of the operating system, by the standard library and the crate epoll, over
-- the state of the system. None of it is part of the program.
pub mod Laws
use iosock.Prelude.{ℕ, List}
use iosock.Io.{Result, Read, Write}
use iosock.Epoll.{Flags, Event, ControlOptions}

pub record Os : Type 1 where
  pub flags : Flags
  pub World : Type 0
  -- `libc::EIO`
  pub eio : ℕ
  -- `Read::read`, `Write::write` and `Write::flush` of the stream with the descriptor
  pub read : ℕ → World → ℕ → Result (List ℕ) × World
  pub write : ℕ → World → List ℕ → Result ℕ × World
  pub flush : ℕ → World → Result (Unit {0}) × World
  -- `UnixListener::accept`
  pub accept : ℕ → World → Result ℕ × World
  -- the drop of a stream, which closes its descriptor
  pub close : ℕ → World → World
  -- `epoll::create(true)`, `epoll::ctl` and `epoll::wait` for at most so many events, with no
  -- timeout
  pub epoll_create : World → Result ℕ × World
  pub epoll_ctl : ℕ → ControlOptions → ℕ → Event → World → Result (Unit {0}) × World
  pub epoll_wait : ℕ → ℕ → World → Result (List Event) × World

-- The stream with the descriptor `fd`.
abbrev pub reader : (os : Os) → ℕ → Read os.World
reader os fd = record { read = os.read fd }

abbrev pub writer : (os : Os) → ℕ → Write os.World
writer os fd = record { write = os.write fd; flush = os.flush fd }
