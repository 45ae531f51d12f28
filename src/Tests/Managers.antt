-- ===== src/Tests/Managers.antt =====
-- src/io.rs at concrete inputs, with the child on three pipes.
use iosock.Prelude.{ℕ, ◌≡◌, refl, Bool, true, false, none, some, [], ◌∷◌, ◌++◌, length, take, arith}
use iosock.Buffer.Contents.{IsValid, contents, new-IsValid}
use iosock.Channel.Pending.{has_bytes}
use iosock.Stdio.Pipes.{is_fd}
use iosock.Io.{Result, ok}
use iosock.Outcome.{done, panic}
use iosock.Buffer.{
  FlipBuffer, BufferStateChange, became_non_empty, discard, read_or_drain, read_from, flip_buffers,
  steal_read, filled, copy_result, drain_if_full, drained, write_to, steal_write, flushed,
}
use iosock.Buffer
use iosock.Buffer.Receive.{read_from-Refines}
use iosock.Buffer.Trace.{source, source-ReadsWithin}
use iosock.Polled.{PolledFd, PolledFdSet}
use iosock.Channel.{
  Context, ◌>>◌, channel_to_buffer, buffer_to_channel, close_on, is_nonfatal_io_error,
}
use iosock.Os.{reader, writer}
use iosock.Stdio.{Moved}
use iosock.Stdio.Pipes.{ChildPipes, read_some, pipes_stdio}
use iosock.Stdio.Pipes
use iosock.Manager.{IosockChannelManager, UnixClient, read_only, write_only, read_write, on_hangup}
use iosock.Manager.Handlers.{on_readable, on_writable}
use iosock.Manager.Wired.{IsWired}
use iosock.Manager.Children.{pipes_laws}
use iosock.Manager.Hangup.{HangsUp, on_hangup_lem}
use iosock.Manager.Connections.{one_client_at_a_time}
use iosock.Manager.Races.{output_after_accept_panics}
use iosock.Polled.Asks.{asks, asks_new}
use iosock.Manager.Shutdown.{
  write_shutdown_panics, read_shutdown_keeps_client, input_discards_output,
}
use iosock.Manager.Stderr.{stderr_unread}
use iosock.Tests.Platform.{ToyEvents, World, toy_flags, toy_laws, toy_os, nothing, calm}

abbrev entry : ℕ → ToyEvents → PolledFd toy_flags
entry fd events = record { fd = fd; event = toy_flags.new_event events fd; new_events = events }

abbrev reads : ToyEvents
reads = record nothing { readable = true }

-- Descriptors: 1 the console, 7 the server socket, 10 to 12 the child, 20 the client.
abbrev start_set : PolledFdSet toy_flags
start_set = record {
  existing =
      entry 10 nothing ∷ entry 11 reads ∷ entry 12 reads ∷ entry 7 reads ∷ entry 1 nothing ∷ [];
  new = [];
  removed = [];
}

abbrev client_set : PolledFdSet toy_flags
client_set = record start_set {
  existing = entry 20 (record reads { writable = true }) ∷ start_set.existing;
}

abbrev pipes : ChildPipes
pipes = record { stdin = some 10; stdout = some 11; stderr = some 12 }

abbrev client : UnixClient
client = record { stream = 20; availability = read_write }

abbrev idle : IosockChannelManager ChildPipes
idle = record {
  child = pipes;
  console = some 1;
  server_socket = 7;
  client_socket = none;
  in_buffer = Buffer.new;
  out_buffer = Buffer.new;
}

abbrev start : Context toy_os (IosockChannelManager ChildPipes)
start = record { mgr = idle; fd_set = start_set; world = calm }

abbrev served : Context toy_os (IosockChannelManager ChildPipes)
served = record {
  mgr = record idle { client_socket = some client };
  fd_set = client_set;
  world = calm;
}

served-IsWired : IsWired (pipes_laws toy_os) served.mgr served.fd_set.existing
served-IsWired = record {
  distinct = (refl, (refl, (refl, (refl, (refl, (refl, tt))))));
  registered = λ g h. ground arith;
  client_apart = λ g h. ground arith;
  child_apart = λ g h. ground arith;
  inner = λ g. ground arith;
}

on_hangup_lem_example :
    HangsUp (pipes_laws toy_os) 20 served (on_hangup (pipes_stdio toy_os) 20 served)
on_hangup_lem_example = on_hangup_lem (pipes_laws toy_os) 20 served served-IsWired

one_client_at_a_time_example :
    let (r, d) = on_readable (pipes_stdio toy_os) 7 start in
    let (r', d') = on_readable (pipes_stdio toy_os) 7 d in
    (r ≡ done tt)
    × (d.mgr.client_socket ≡ some client)
    × (asks_new toy_flags toy_flags.epollin 20 d.fd_set.new ≡ true)
    × (asks_new toy_flags toy_flags.epollout 20 d.fd_set.new ≡ has_bytes Buffer.new)
    × ((g : ℕ) → is_fd (some 1) g ≡ true → asks toy_flags.epollout g d.fd_set.existing ≡ false)
    × (d.mgr.in_buffer ≡ Buffer.new)
    × (d.mgr.out_buffer ≡ Buffer.new)
    × (r' ≡ done tt)
    × (d' ≡ record d { world = record calm { next_fd = 22; closed = 21 ∷ [] } })
one_client_at_a_time_example =
    one_client_at_a_time (pipes_stdio toy_os) toy_laws start 20 21 (record calm { next_fd = 21 })
      (record calm { next_fd = 22 }) refl refl refl refl refl new-IsValid refl

-- The child has said two bytes.
abbrev talking : World
talking = record calm { inbox = 65 ∷ 66 ∷ []; next_fd = 21 }

abbrev start_talking : Context toy_os (IosockChannelManager ChildPipes)
start_talking = record start { world = record talking { next_fd = 20 } }

abbrev after_stdout : Moved toy_os
after_stdout = Pipes.read_stdout toy_os pipes Buffer.new talking

stdout_answer : after_stdout ≡ (done (false, became_non_empty), after_stdout.1, after_stdout.2)
unfolding Pipes.read_stdout read_some channel_to_buffer close_on read_or_drain read_from
    flip_buffers steal_read filled copy_result drain_if_full drained Buffer.new
stdout_answer = refl

output_after_accept_panics_example :
    ((on_readable (pipes_stdio toy_os) 7 >> on_readable (pipes_stdio toy_os) 11) start_talking).0
    ≡ panic
output_after_accept_panics_example =
    output_after_accept_panics (pipes_stdio toy_os) start_talking 20 11 talking after_stdout.2
      after_stdout.1 refl refl refl refl refl (ground arith) (ground arith) refl stdout_answer

-- Three bytes wait for the client.
abbrev three : FlipBuffer
three = (read_from (source 3) Buffer.new (1 ∷ 2 ∷ 3 ∷ [])).2

-- The client has left: its stream takes nothing and has nothing to read.
abbrev leaving : Context toy_os (IosockChannelManager ChildPipes)
leaving = record served {
  mgr = record served.mgr { out_buffer = three };
  world = record calm { broken = true };
}

abbrev after_write : Result (Bool × BufferStateChange) × FlipBuffer × World
after_write = buffer_to_channel (writer toy_os 20) three leaving.world

write_answer : after_write ≡ (ok (true, BufferStateChange.none), after_write.1, after_write.2)
unfolding buffer_to_channel close_on is_nonfatal_io_error write_to steal_write flip_buffers
    Buffer.taken flushed copy_result read_from steal_read filled Buffer.new
write_answer = refl

write_shutdown_panics_example :
    let (r, c') = on_writable (pipes_stdio toy_os) 20 leaving in
    (r ≡ done tt)
    × (c'.mgr.client_socket ≡ some (record client { availability = read_only }))
    × (asks toy_flags.epollout 20 c'.fd_set.existing
        ≡ asks toy_flags.epollout 20 leaving.fd_set.existing)
    × (asks toy_flags.epollin 20 c'.fd_set.existing ≡ false)
    × ((on_writable (pipes_stdio toy_os) 20 c').0 ≡ panic)
write_shutdown_panics_example =
    write_shutdown_panics (pipes_stdio toy_os) toy_laws leaving client after_write.1 after_write.2
      BufferStateChange.none refl refl refl write_answer

abbrev after_read : Result (Bool × BufferStateChange) × FlipBuffer × World
after_read = channel_to_buffer (reader toy_os 20) Buffer.new leaving.world

end_answer : after_read ≡ (ok (true, BufferStateChange.none), after_read.1, after_read.2)
unfolding channel_to_buffer close_on read_or_drain read_from flip_buffers steal_read filled
    copy_result drain_if_full drained Buffer.new
end_answer = refl

read_shutdown_keeps_client_example :
    let (r, c') = on_readable (pipes_stdio toy_os) 20 leaving in
    (r ≡ done tt)
    × (c'.mgr.client_socket ≡ some (record client { availability = write_only }))
    × (asks toy_flags.epollin 20 c'.fd_set.existing ≡ false)
    × (asks toy_flags.epollout 20 c'.fd_set.existing
        ≡ asks toy_flags.epollout 20 leaving.fd_set.existing)
    × (c'.mgr.out_buffer ≡ three)
read_shutdown_keeps_client_example =
    read_shutdown_keeps_client (pipes_stdio toy_os) toy_laws leaving client after_read.1
      after_read.2 BufferStateChange.none refl (ground arith) refl refl end_answer

-- The client talks, output waits for it, and the child has closed its stdin.
abbrev unheard : Context toy_os (IosockChannelManager ChildPipes)
unheard = record served {
  mgr = record served.mgr { child = record pipes { stdin = none }; out_buffer = three };
  world = talking;
}

abbrev after_client : Result (Bool × BufferStateChange) × FlipBuffer × World
after_client = channel_to_buffer (reader toy_os 20) Buffer.new talking

client_answer : after_client ≡ (ok (false, became_non_empty), after_client.1, after_client.2)
unfolding channel_to_buffer close_on read_or_drain read_from flip_buffers steal_read filled
    copy_result drain_if_full drained Buffer.new
client_answer = refl

three-IsValid : IsValid three
three-IsValid =
    (read_from-Refines (source 3) (source-ReadsWithin 3) Buffer.new (1 ∷ 2 ∷ 3 ∷ []) new-IsValid).0

input_discards_output_example :
    let (r, d) = on_readable (pipes_stdio toy_os) 20 unheard in
    let lost = take three.write_cursor three.write_page in
    (r ≡ done tt)
    × (d.mgr.in_buffer ≡ after_client.1)
    × IsValid d.mgr.out_buffer
    × (contents d.mgr.out_buffer ++ lost ≡ contents three)
    × (length lost ≡ three.write_cursor)
    × (d.mgr.client_socket ≡ some client)
input_discards_output_example =
    input_discards_output (pipes_stdio toy_os) unheard client after_client.1 after_client.2
      became_non_empty refl (ground arith) refl refl client_answer three-IsValid

-- Stdout is closed, and stderr has something to say.
abbrev stderr_only : Context toy_os (IosockChannelManager ChildPipes)
stderr_only = record served {
  mgr = record served.mgr { child = record pipes { stdout = none } };
  world = talking;
}

stderr_unread_example : on_readable (pipes_stdio toy_os) 12 stderr_only ≡ (done tt, stderr_only)
stderr_unread_example = stderr_unread stderr_only 12 (ground arith) refl refl refl refl
