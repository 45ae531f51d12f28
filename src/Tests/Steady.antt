-- ===== src/Tests/Steady.antt =====
-- src/pollster.rs and src/io.rs on the platform with an epoll instance, from `Pollster::new` on.
use mathlib.Core.Path.{subst}
use iosock.Prelude.{
  ℕ, ◌≡◌, refl, true, false, some, none, List, [], ◌∷◌, inl, ◌∙◌, ap, splice, arith,
}
use iosock.Outcome.{done}
use iosock.Epoll.{Event}
use iosock.Buffer.{
  FlipBuffer, BufferStateChange, became_non_empty, read_or_drain, read_from, flip_buffers,
  steal_read, filled, copy_result, drain_if_full, drained, is_drained,
}
use iosock.Buffer
use iosock.Channel.{Context, ChannelManager, channel_to_buffer, close_on}
use iosock.Channel.After.{After}
use iosock.Channel.Pending.{has_bytes}
use iosock.Polled.{
  PolledFd, PolledFdSet, register, new_set, modify, poll_for_write, apply_updates, after_update,
  update_existing, after_add, add_new, delete_removed, new_fd,
}
use iosock.Polled.Asks.{tuned}
use iosock.Polled.Interest.{put}
use iosock.Stdio.{Moved}
use iosock.Stdio.Pipes
use iosock.Stdio.Pipes.{ChildPipes, pipes_stdio, is_fd, register_some, read_some}
use iosock.Manager
use iosock.Manager.{
  IosockChannelManager, on_hangup, primary_output, read_stdout, request_primary_output_writable,
}
use iosock.Manager.Handlers
use iosock.Manager.Handlers.{
  iosock_manager, on_readable, on_writable, output_on_readable, output_read_done,
}
use iosock.Manager.Served.{StreamLaws}
use iosock.Manager.Attends.{IsSound, IsNewcomer}
use iosock.Manager.Streams.{pipes_streams}
use iosock.Manager.Joins.{on_readable-After}
use iosock.Manager.Writes.{on_writable-After}
use iosock.Manager.GivenUp.{on_hangup-After}
use iosock.Pollster
use iosock.Pollster.{
  Pollster, round, wait, waited, dispatch, dispatch_all, new_created, set_up, apply_poll_updates,
  poll_callbacks,
}
use iosock.Pollster.Rounds.{here, next}
use iosock.Pollster.Settled.{IsSettled, apply_poll_updates_lem}
use iosock.Pollster.Events.{IsExposed}
use iosock.Pollster.Invariant.{round-After}
use iosock.Pollster.Runs.{rounds-IsSettled, waiting_is_watched, WatchedOut}
use iosock.Pollster.Start.{Starts, Creates, new_pipes-Starts}
use iosock.Tests.Platform.{ToyEvents, toy_flags, nothing}
use iosock.Tests.Kernel.{Kernel, idle, kernel_os, kernel_laws}

-- The child has written three bytes.
abbrev pub talking : List (List Event) → Kernel
talking waits = record idle { inbox = 1 ∷ 2 ∷ 3 ∷ []; waits = waits }

abbrev reads : ToyEvents
reads = record nothing { readable = true }

abbrev writes : ToyEvents
writes = record nothing { writable = true }

abbrev pub close_added : List (List Event) → Kernel
close_added waits = record (talking waits) {
  table = put 30 (toy_flags.new_event reads 30) (talking waits).table;
}

pub creates :
    (waits : List (List Event))
    → Creates kernel_laws (talking waits) (talking waits) (close_added waits)
creates waits = record { created = refl; close_added = refl; nothing_watched = λ g. ground arith }

abbrev pub child_laws : StreamLaws kernel_laws (pipes_stdio kernel_os)
child_laws = pipes_streams kernel_laws

abbrev pub cm : ChannelManager kernel_os (IosockChannelManager ChildPipes)
cm = iosock_manager (pipes_stdio kernel_os)

-- Descriptors: 1 the console, 4 to 6 the child, 7 the server socket, 30 the close notification.
new_pipes-Starts_example :
    Starts kernel_laws
      (pipes_streams kernel_laws)
      ((4, toy_flags.empty)
        ∷ (5, toy_flags.epollin)
        ∷ (6, toy_flags.epollin)
        ∷ (7, toy_flags.epollin)
        ∷ (1, toy_flags.empty)
        ∷ [])
      (Pollster.new
        (iosock_manager (pipes_stdio kernel_os))
        (Manager.new 1 (Pipes.new 4 5 6) 7)
        30
        (talking [])).0
new_pipes-Starts_example =
    new_pipes-Starts kernel_laws 4 5 6 7 1 (talking []) (talking []) (close_added []) (creates [])
      (refl, (refl, (refl, (refl, (refl, (refl, tt)))))) (λ g h. ground (arith, h))

-- What `Pollster::new` leaves.
abbrev entry : ℕ → ToyEvents → PolledFd toy_flags
entry fd events = record { fd = fd; event = toy_flags.new_event events fd; new_events = events }

abbrev watching : List (List Event) → Kernel
watching waits = record (close_added waits) {
  table = put 1 (toy_flags.new_event nothing 1) (
      put 7 (toy_flags.new_event reads 7) (
        put 6 (toy_flags.new_event reads 6) (
          put 5 (toy_flags.new_event reads 5)
            (put 4 (toy_flags.new_event nothing 4) (close_added waits).table))));
}

abbrev start_set : PolledFdSet toy_flags
start_set = record {
  existing = entry 4 nothing ∷ entry 5 reads ∷ entry 6 reads ∷ entry 7 reads ∷ entry 1 nothing ∷ [];
  new = [];
  removed = [];
}

abbrev pub start : List (List Event) → Context kernel_os (IosockChannelManager ChildPipes)
start waits = record {
  mgr = record {
    child = record { stdin = some 4; stdout = some 5; stderr = some 6 };
    console = some 1;
    server_socket = 7;
    client_socket = none;
    in_buffer = Buffer.new;
    out_buffer = Buffer.new;
  };
  fd_set = start_set;
  world = watching waits;
}

pub new_start :
    (waits : List (List Event))
    → (Pollster.new cm (Manager.new 1 (Pipes.new 4 5 6) 7) 30 (talking waits)).0
      ≡ done (record { poll_fd = 3; close_fd = 30; context = start waits })
unfolding Pollster.new new_created set_up Handlers.initialize Pipes.initialize register_some
    register new_set apply_poll_updates poll_callbacks apply_updates after_update update_existing
    after_add add_new delete_removed new_fd Manager.new Pipes.new
new_start waits = refl

pub start-IsSettled : (waits : List (List Event)) → IsSettled child_laws cm (start waits)
start-IsSettled waits =
    (subst
      (Starts kernel_laws child_laws (
        (4, toy_flags.empty)
        ∷ (5, toy_flags.epollin)
        ∷ (6, toy_flags.epollin)
        ∷ (7, toy_flags.epollin)
        ∷ (1, toy_flags.empty)
        ∷ []))
      (new_start waits)
      (new_pipes-Starts kernel_laws 4 5 6 7 1 (talking waits) (talking waits) (close_added waits)
        (creates waits) (refl, (refl, (refl, (refl, (refl, (refl, tt))))))
        (λ g h. ground (arith, h)))).2

apply_poll_updates_lem_example :
    let (r, d) = apply_poll_updates cm 3 (start []) in (r ≡ done tt) × IsSettled child_laws cm d
apply_poll_updates_lem_example =
    apply_poll_updates_lem child_laws cm (start []) (start-IsSettled []).sound

on_readable-After_example :
    After
      (IsNewcomer child_laws)
      (λ u d. IsSound child_laws d)
      (on_readable (pipes_stdio kernel_os) 5 (start []))
on_readable-After_example =
    on_readable-After child_laws 5 (start []) (start-IsSettled []).sound (λ e. cc)

on_hangup-After_example :
    After
      (IsNewcomer child_laws)
      (λ u d. IsSound child_laws d)
      (on_hangup (pipes_stdio kernel_os) 5 (start []))
on_hangup-After_example = on_hangup-After child_laws 5 (start []) (start-IsSettled []).sound

-- Epoll tells of the child's bytes.
abbrev pub told : List (List Event)
told = (record { events = 1; data_field = 5 } ∷ []) ∷ []

round-After_example :
    After
      (IsExposed child_laws)
      (λ b d. b ≡ false → IsSettled child_laws cm d)
      (round cm 3 30 (start told))
round-After_example = round-After child_laws (start told) (start-IsSettled told)

abbrev pub bytes_read : Moved kernel_os
bytes_read = Pipes.read_stdout kernel_os (start []).mgr.child Buffer.new (watching [])

pub read_answer : bytes_read ≡ (done (false, became_non_empty), bytes_read.1, bytes_read.2)
unfolding Pipes.read_stdout read_some channel_to_buffer close_on read_or_drain read_from
    flip_buffers steal_read filled copy_result drain_if_full drained Buffer.new
read_answer = refl

-- They wait for the console.
abbrev pub waiting : Context kernel_os (IosockChannelManager ChildPipes)
waiting = record (start []) {
  mgr = record (start []).mgr { out_buffer = bytes_read.1 };
  fd_set = tuned 1 (poll_for_write toy_flags true) start_set;
  world = bytes_read.2;
}

pub stdout_handled : on_readable (pipes_stdio kernel_os) 5 (start []) ≡ (done tt, waiting)
unfolding on_readable output_on_readable read_stdout output_read_done
    request_primary_output_writable modify
stdout_handled = rw read_answer refl

waiting-IsSound : IsSound child_laws waiting
waiting-IsSound =
    subst (After (IsNewcomer child_laws) (λ u d. IsSound child_laws d)) stdout_handled
      (on_readable-After child_laws 5 (start []) (start-IsSettled []).sound (λ e. cc))

on_writable-After_example :
    After
      (IsNewcomer child_laws)
      (λ u d. IsSound child_laws d)
      (on_writable (pipes_stdio kernel_os) 1 waiting)
on_writable-After_example = on_writable-After child_laws 1 waiting waiting-IsSound (λ e. cc)

-- What the round leaves.
abbrev pub left : Context kernel_os (IosockChannelManager ChildPipes)
left = (apply_poll_updates cm 3 waiting).1

pub first_round : round cm 3 30 (start told) ≡ (done false, left)
unfolding round wait waited dispatch dispatch_all
first_round =
    rw (stdout_handled, (apply_poll_updates_lem child_laws cm waiting waiting-IsSound).0) refl

left-IsSettled : IsSettled child_laws cm left
left-IsSettled = rounds-IsSettled child_laws 1 (next first_round here) (start-IsSettled told)

same_mgr :
    (c : Context kernel_os (IosockChannelManager ChildPipes))
    → (apply_poll_updates cm 3 c).1.mgr ≡ c.mgr
unfolding apply_poll_updates
same_mgr c = refl

bytes_wait : has_bytes bytes_read.1 ≡ true
unfolding Pipes.read_stdout read_some channel_to_buffer close_on read_or_drain read_from
    flip_buffers steal_read filled copy_result drain_if_full drained Buffer.new splice
bytes_wait = refl

waiting_is_watched_example : WatchedOut child_laws left.world 1
waiting_is_watched_example =
    waiting_is_watched child_laws 1 (start told) left 1 (start-IsSettled told)
      (next first_round here)
      (inl (
        ap (λ m. is_fd (primary_output m.client_socket m.console) 1) (same_mgr waiting),
        ap (λ m. has_bytes m.out_buffer) (same_mgr waiting) ∙ bytes_wait,
      ))
