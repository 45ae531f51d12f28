-- ===== src/Channel.antt =====
-- src/channel_manager.rs: moving bytes between a stream and a buffer, and the trait
-- `ChannelManager`, whose methods are actions on the manager, the set of descriptors and the
-- system.
pub mod Relay
pub mod After
pub mod Pending
use iosock.Prelude.{ℕ, zero, suc, Bool, true, false, if◌then◌else◌}
use iosock.Io.{
  ErrorKind, connection_reset, broken_pipe, interrupted, invalid_data, other, from_kind, IoError,
  Result, ok, err, Read, Write,
}
use iosock.Outcome.{Outcome, done, fail, panic}
use iosock.Buffer.{
  FlipBuffer, CopyResult, buffer_not_ready, io_completed, io_error, BufferStateChange,
  read_or_drain, write_to,
}
use iosock.Polled.{PolledFdSet}
use iosock.Os.{Os}

unfoldable pub is_nonfatal_io_error : ErrorKind → Bool
is_nonfatal_io_error connection_reset = true
is_nonfatal_io_error broken_pipe = true
is_nonfatal_io_error _ = false

-- The `match` of both functions below: whether to close the channel, and the buffer's change.
unfoldable pub close_on : CopyResult → BufferStateChange → Result (Bool × BufferStateChange)
unfolding is_nonfatal_io_error
close_on (io_completed zero) state = ok (true, state)
close_on (io_completed (suc n)) state = ok (false, state)
close_on (io_error e) state = if is_nonfatal_io_error e then ok (true, state) else err (from_kind e)
close_on buffer_not_ready state = ok (false, state)

unfoldable pub channel_to_buffer :
    {R : Type 0} → Read R → FlipBuffer → R → Result (Bool × BufferStateChange) × FlipBuffer × R
channel_to_buffer rd buffer reader =
    let (result, state, buffer', reader') = read_or_drain rd buffer reader in
    (close_on result state, buffer', reader')

unfoldable pub buffer_to_channel :
    {W : Type 0} → Write W → FlipBuffer → W → Result (Bool × BufferStateChange) × FlipBuffer × W
buffer_to_channel wr buffer writer =
    let (result, state, buffer', writer') = write_to wr buffer writer in
    (close_on result state, buffer', writer')

-- What a handler can reach: `&mut self`, `&mut PolledFdSet`, and the system.
pub record Context (os : Os) (Manager : Type 0) : Type 0 where
  pub mgr : Manager
  pub fd_set : PolledFdSet os.flags
  pub world : os.World

-- An action returns how it ended, and what it left.
abbrev pub M : (os : Os) → Type 0 → Type 0 → Type 0
M os Manager A = Context os Manager → Outcome A × Context os Manager

abbrev pub bind :
    {os : Os} {Manager A B : Type 0}
    → Outcome A × Context os Manager
    → (A → M os Manager B)
    → Outcome B × Context os Manager
bind (done a, c) f = f a c
bind (fail e, c) f = (fail e, c)
bind (panic, c) f = (panic, c)

infixl 5 ◌>>=◌ ◌>>◌
abbrev pub ◌>>=◌ :
    {os : Os} {Manager A B : Type 0} → M os Manager A → (A → M os Manager B) → M os Manager B
◌>>=◌ m f c = bind (m c) f

abbrev pub ◌>>◌ :
    {os : Os} {Manager B : Type 0} → M os Manager (Unit {0}) → M os Manager B → M os Manager B
m >> k = m >>= λ _. k

abbrev pub pure : {os : Os} {Manager A : Type 0} → A → M os Manager A
pure a c = (done a, c)

-- `assert!(b)`
abbrev pub assert : {os : Os} {Manager : Type 0} → Bool → M os Manager (Unit {0})
assert b c = (if b then done tt else panic, c)

-- A call of a method of the set, which panics or returns the new set.
abbrev pub on_set :
    {os : Os} {Manager : Type 0}
    → (PolledFdSet os.flags → Outcome (PolledFdSet os.flags))
    → M os Manager (Unit {0})
on_set f c = elim (f c.fd_set) [
  | done s ↦ (done tt, record c { fd_set = s })
  | fail e ↦ (fail e, c)
  | panic ↦ (panic, c)
]

-- The trait `ChannelManager`.
pub record ChannelManager (os : Os) (Manager : Type 0) : Type 0 where
  pub initialize : M os Manager (Unit {0})
  pub on_readable : ℕ → M os Manager (Unit {0})
  pub on_writable : ℕ → M os Manager (Unit {0})
  pub on_hangup : ℕ → M os Manager (Unit {0})
