-- ===== src/Tests/Channels.antt =====
-- src/channel_manager.rs at concrete inputs.
use iosock.Prelude.{ℕ, ◌≡◌, Bool, false, List, [], ◌∷◌, ◌==◌, if◌then◌else◌, length}
use iosock.Io.{Result, ok}
use iosock.Buffer.{FlipBuffer, BufferStateChange, new, read_from}
use iosock.Buffer.Contents.{IsValid, contents, room, new-IsValid}
use iosock.Buffer.Receive.{read_from-Refines}
use iosock.Buffer.Send.{front}
use iosock.Buffer.Trace.{source, sink, source-ReadsWithin, sink-WritesWithin}
use iosock.Channel.{channel_to_buffer, buffer_to_channel}
use iosock.Channel.Relay.{relayed, asked, sent, channel_to_buffer_lem, buffer_to_channel_lem}

abbrev two : FlipBuffer
two = (read_from (source 2) new (1 ∷ 2 ∷ [])).2

two-IsValid : IsValid two
two-IsValid = (read_from-Refines (source 2) (source-ReadsWithin 2) new (1 ∷ 2 ∷ []) new-IsValid).0

channel_to_buffer_lem_example :
    let (r, b', reader') = channel_to_buffer (source 9) two (3 ∷ []) in
    let (answer, reader'') = (source 9).read (3 ∷ []) (asked two) in
    let (r', q) = relayed (room two == 0) (contents two) answer in
    IsValid b'
    × (◌≡◌ {A = Result (Bool × BufferStateChange) × List ℕ × List ℕ}
        (r, contents b', reader')
        (r', q, reader''))
channel_to_buffer_lem_example =
    channel_to_buffer_lem (source 9) (source-ReadsWithin 9) two (3 ∷ []) two-IsValid

buffer_to_channel_lem_example :
    let wr = sink 1 (ok tt) in
    let (r, b', writer') = buffer_to_channel wr two [] in
    IsValid b'
    × (◌≡◌ {A = Result (Bool × BufferStateChange) × List ℕ × List ℕ}
        (r, contents b', writer')
        (if length (front two) == 0
          then (ok (false, BufferStateChange.none), contents two, [])
          else sent wr (contents two) (wr.write [] (front two))))
buffer_to_channel_lem_example =
    buffer_to_channel_lem (sink 1 (ok tt)) (sink-WritesWithin 1 (ok tt)) two [] two-IsValid
