-- ===== src/Tests/Relayed.antt =====
-- src/pollster.rs and src/io.rs at concrete inputs: the bytes that a child over pipes has written.
use iosock.Prelude.{◌≡◌, refl, some, List, [], ◌∷◌}
use iosock.Outcome.{done}
use iosock.Epoll.{Event}
use iosock.Pollster.{run_for, dispatch}
use iosock.Pollster.LastRound.{last_output_unsent, read_in}
use iosock.Pollster.Rounds.{here, next, handle_all, run_returns}
use iosock.Relay.Streams.{RelayLaws, pipes_relay, pty_relay}
use iosock.Relay.Steps.{Relayed}
use iosock.Relay.Runs.{rounds-Relayed, run_for-Relayed}
use iosock.Stdio.Pipes.{pipes_stdio}
use iosock.Stdio.Pty.{pty_stdio}
use iosock.Tests.Kernel.{kernel_os, kernel_laws, kernel_logs}
use iosock.Tests.Steady.{
  child_laws, cm, start, told, waiting, left, start-IsSettled, read_answer, stdout_handled,
  first_round,
}

abbrev child_relay : RelayLaws kernel_logs (pipes_stdio kernel_os)
child_relay = pipes_relay kernel_laws kernel_logs

abbrev terminal_relay : RelayLaws kernel_logs (pty_stdio kernel_os)
terminal_relay = pty_relay kernel_laws kernel_logs

rounds-Relayed_example : Relayed kernel_laws kernel_logs (pipes_stdio kernel_os) (start told) left
rounds-Relayed_example =
    rounds-Relayed child_laws child_relay 1 (start told) left (start-IsSettled told)
      (next first_round here)

-- Epoll tells of the child's bytes, and of the close notification.
abbrev ending : List Event
ending = record { events = 1; data_field = 5 } ∷ record { events = 1; data_field = 30 } ∷ []

ending_handled : handle_all cm 30 ending (start []) ≡ (done tt, waiting)
unfolding handle_all dispatch
ending_handled = rw stdout_handled refl

run_ends : run_for cm 1 3 30 (start (ending ∷ [])) ≡ some (done tt, waiting)
run_ends =
    run_returns cm 30 3 0 0 (start (ending ∷ [])) (start (ending ∷ [])) ending (start []).world
      waiting here refl refl ending_handled

run_for-Relayed_example :
    Relayed kernel_laws kernel_logs (pipes_stdio kernel_os) (start (ending ∷ [])) waiting
run_for-Relayed_example =
    run_for-Relayed child_laws child_relay 1 (start (ending ∷ [])) waiting
      (start-IsSettled (ending ∷ [])) run_ends

-- The bytes of that round are read, and stay in the buffer.
last_output_unsent_example :
    run_for cm 2 3 30 (start (ending ∷ []))
    ≡ some
        (done tt, read_in (pipes_stdio kernel_os) 1 (start []) waiting.mgr.out_buffer waiting.world)
last_output_unsent_example =
    last_output_unsent (pipes_stdio kernel_os) 3 30 1 1 (start (ending ∷ []))
      (record { events = 1; data_field = 5 }) (record { events = 1; data_field = 30 })
      (start []).world waiting.world waiting.mgr.out_buffer refl (refl, refl, refl) refl refl
      (record {
        not_server = refl;
        not_client = refl;
        is_stdout = refl;
        answers = read_answer;
        output = refl;
        in_set = refl;
      })
