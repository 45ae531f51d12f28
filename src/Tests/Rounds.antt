-- ===== src/Tests/Rounds.antt =====
-- src/pollster.rs at concrete inputs: a manager that counts, and rounds of a small platform.
use iosock.Prelude.{ℕ, ◌+◌, ◌≡◌, refl, true, false, ◌||◌, Option, none, some, List, [], ◌∷◌}
use iosock.Outcome.{Outcome, done, fail, panic}
use iosock.Epoll.{Event}
use iosock.Polled.{
  new_set, apply_updates, after_update, update_existing, after_add, add_new, delete_removed,
}
use iosock.Channel.{Context, M, ◌>>=◌, pure, ChannelManager}
use iosock.Pollster.{
  new, new_created, set_up, run, run_for, round, wait, waited, dispatch, dispatch_all,
  apply_poll_updates, poll_callbacks,
}
use iosock.Pollster.Rounds.{handle_all, dispatch_all_lem, Quiet, here, next, run_returns}
use iosock.Tests.Platform.{toy_os, toy_flags, calm}

abbrev add : ℕ → M toy_os ℕ (Unit {0})
add n c = (done tt, record c { mgr = c.mgr + n })

-- It counts reads by ones, writes by tens, hangups by hundreds.
abbrev counter : ChannelManager toy_os ℕ
counter = record {
  initialize = pure tt;
  on_readable = λ fd. add 1;
  on_writable = λ fd. add 10;
  on_hangup = λ fd. add 100;
}

abbrev event : ℕ → ℕ → Event
event events fd = record { events = events; data_field = fd }

-- Descriptor 30 is the close notification.
abbrev rounds : List (List Event)
rounds = (event 1 4 ∷ event 16 5 ∷ []) ∷ [] ∷ (event 1 30 ∷ event 5 4 ∷ []) ∷ []

abbrev counting : ℕ → List (List Event) → Context toy_os ℕ
counting n waits = record {
  mgr = n;
  fd_set = new_set toy_flags;
  world = record calm { waits = waits };
}

dispatch_all_lem_example :
    dispatch_all counter 30 (event 1 30 ∷ event 5 4 ∷ []) false (counting 101 [])
    ≡ (handle_all counter 30 (event 1 30 ∷ event 5 4 ∷ []) >>= λ u. pure (false || true))
        (counting 101 [])
dispatch_all_lem_example =
    dispatch_all_lem counter 30 (event 1 30 ∷ event 5 4 ∷ []) false (counting 101 [])

first_round :
    round counter 3 30 (counting 0 rounds)
    ≡ (done false, counting 101 ([] ∷ (event 1 30 ∷ event 5 4 ∷ []) ∷ []))
unfolding round wait waited dispatch dispatch_all apply_poll_updates apply_updates poll_callbacks
    after_update update_existing new_set after_add add_new delete_removed
first_round = refl

second_round :
    round counter 3 30 (counting 101 ([] ∷ (event 1 30 ∷ event 5 4 ∷ []) ∷ []))
    ≡ (done false, counting 101 ((event 1 30 ∷ event 5 4 ∷ []) ∷ []))
unfolding round wait waited dispatch_all
second_round = refl

two_rounds :
    Quiet counter 30 3 2 (counting 0 rounds) (counting 101 ((event 1 30 ∷ event 5 4 ∷ []) ∷ []))
two_rounds = next first_round (next second_round here)

run_returns_example : run_for counter 4 3 30 (counting 0 rounds) ≡ some (done tt, counting 112 [])
unfolding handle_all dispatch
run_returns_example =
    run_returns counter 30 3 2 1 (counting 0 rounds)
      (counting 101 ((event 1 30 ∷ event 5 4 ∷ []) ∷ [])) (event 1 30 ∷ event 5 4 ∷ []) calm
      (counting 112 []) two_rounds refl refl refl

-- `Pollster::new`, and then `run`.
abbrev run_new : Option (Outcome (Unit {0}) × Context toy_os ℕ)
run_new = elim (new counter 0 30 (record calm { waits = rounds })).0 [
  | done p ↦ run counter 4 p
  | fail e ↦ none
  | panic ↦ none
]

run_toy : run_new ≡ some (done tt, counting 112 [])
unfolding new new_created set_up run run_for round wait waited dispatch dispatch_all
    apply_poll_updates apply_updates poll_callbacks after_update update_existing new_set after_add
    add_new delete_removed
run_toy = refl
