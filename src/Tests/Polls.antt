-- ===== src/Tests/Polls.antt =====
-- src/polled_fd.rs at concrete inputs.
use iosock.Prelude.{ℕ, ◌≡◌, refl, true, none, some, [], ◌∷◌, ◌==◌, if◌then◌else◌, arith}
use iosock.Io.{IoError, other, from_kind, ok, err}
use iosock.Polled.{PolledFdSet, apply_updates, register, unregister}
use iosock.Polled.Interest.{Interest, interest_callbacks, stored}
use iosock.Polled.Again.{register_again_fails}
use iosock.Outcome.{Returns}
use iosock.Polled.Apply.{IsPending, AllSettled, applied, apply_updates_lem}
use iosock.Tests.Platform.{toy_flags, toy_laws, nothing}

abbrev eexist : IoError
eexist = from_kind (other 17)

abbrev enoent : IoError
enoent = from_kind (other 2)

-- Descriptor 4 is asked to be polled for writes too, 5 is new, and 6 was unregistered.
abbrev waiting_set : PolledFdSet toy_flags
waiting_set = record {
  existing =
      record {
        fd = 4;
        event = record { events = 1; data_field = 4 };
        new_events = record nothing { readable = true; writable = true };
      }
      ∷ [];
  new = (5, record nothing { readable = true }) ∷ [];
  removed = 6 ∷ [];
}

abbrev watched : Interest
watched g =
    if g == 4
    then some (record { events = 1; data_field = 4 })
    else if g == 6
    then some (record { events = 0; data_field = 6 })
    else none

waiting_set-IsPending : IsPending waiting_set watched
waiting_set-IsPending = record {
  distinct = (refl, tt);
  distinct_new = (refl, tt);
  distinct_removed = (refl, tt);
  known = λ g h. ground arith;
  waiting = λ g h. ground arith;
  leaving = λ g h. ground arith;
  nothing_else = λ g h n. ground arith;
}

apply_updates_lem_example :
    (k' : Interest) × (apply_updates
        (interest_callbacks toy_flags eexist enoent)
        waiting_set
        watched
      ≡ (ok tt, applied waiting_set, k'))
    × AllSettled (applied waiting_set).existing
    × ((g : ℕ) → k' g ≡ stored g (applied waiting_set).existing)
apply_updates_lem_example =
    apply_updates_lem toy_laws eexist enoent waiting_set watched waiting_set-IsPending

-- Descriptor 4 alone, of which epoll knows.
abbrev known_set : PolledFdSet toy_flags
known_set = record waiting_set { new = []; removed = [] }

abbrev knows : Interest
knows g = if g == 4 then some (record { events = 1; data_field = 4 }) else none

register_again_fails_example :
    Returns
      (λ s'.
        Returns
          (λ s''.
            (apply_updates (interest_callbacks toy_flags eexist enoent) s'' knows).0 ≡ err eexist)
          (register toy_flags 4 nothing s'))
      (unregister toy_flags 4 known_set)
register_again_fails_example =
    register_again_fails eexist enoent 4 nothing known_set knows (refl, tt) (λ g h. ground arith)
      refl refl
