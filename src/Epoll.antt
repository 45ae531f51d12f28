-- ===== src/Epoll.antt =====
-- The crate epoll 4.4.0, which the program calls and which is not part of it: the bit flags
-- `epoll::Events`, the struct `epoll::Event`, and what their documentation says of them.
use iosock.Prelude.{ℕ, ◌≡◌, Bool, true, false}

-- `epoll::Event`: the two public fields, an event mask and the caller's data.
pub record Event : Type 0 where
  pub events : ℕ
  pub data_field : ℕ

-- `epoll::ControlOptions`
pub data ControlOptions : Type 0 where
  ctl_add ctl_mod ctl_del : ControlOptions

-- `epoll::Events`, with the calls that the program makes, and `epoll::Event::new`.
pub record Flags : Type 1 where
  pub Events : Type 0
  pub empty : Events
  pub epollin : Events
  pub epollout : Events
  pub epollerr : Events
  pub epollhup : Events
  pub bits : Events → ℕ
  pub from_bits_truncate : ℕ → Events
  pub contains : Events → Events → Bool
  pub set : Events → Events → Bool → Events
  pub new_event : Events → ℕ → Event

-- What the documentation of the crate and of bitflags says.
pub record FlagLaws (fl : Flags) : Type 0 where
  pub from_bits_truncate-bits : (e : fl.Events) → fl.from_bits_truncate (fl.bits e) ≡ e
  pub contains_in-empty : fl.contains fl.empty fl.epollin ≡ false
  pub contains_out-empty : fl.contains fl.empty fl.epollout ≡ false
  pub contains_in-epollin : fl.contains fl.epollin fl.epollin ≡ true
  pub contains_out-epollin : fl.contains fl.epollin fl.epollout ≡ false
  pub contains_in-set_in :
      (e : fl.Events) (b : Bool) → fl.contains (fl.set e fl.epollin b) fl.epollin ≡ b
  pub contains_out-set_out :
      (e : fl.Events) (b : Bool) → fl.contains (fl.set e fl.epollout b) fl.epollout ≡ b
  pub contains_out-set_in :
      (e : fl.Events) (b : Bool)
      → fl.contains (fl.set e fl.epollin b) fl.epollout ≡ fl.contains e fl.epollout
  pub contains_in-set_out :
      (e : fl.Events) (b : Bool)
      → fl.contains (fl.set e fl.epollout b) fl.epollin ≡ fl.contains e fl.epollin
  pub events-new_event : (e : fl.Events) (d : ℕ) → (fl.new_event e d).events ≡ fl.bits e
  pub data-new_event : (e : fl.Events) (d : ℕ) → (fl.new_event e d).data_field ≡ d
