-- ===== src/Lib.antt =====
-- iosock runs a program and lets one client at a time talk to it over a Unix socket, while its output
-- also goes to the console. One thread does all input and output: src/pollster.rs waits on epoll and
-- hands the events to a channel manager, src/io.rs, which moves bytes between the child's streams and
-- the client through two buffers, src/buffer.rs, by the functions of src/channel_manager.rs. The
-- manager changes the set of descriptors of src/polled_fd.rs, and after each round the pollster gives
-- the changes to epoll.
--
-- Files and the code they model:
-- - Buffer: src/buffer.rs. A `FlipBuffer` is a record of its two pages and three cursors; each method
--   returns the buffer that it leaves. The closures and branches of `read_from`, `read_or_drain` and
--   `write_to` are functions of their own. Buffer/Queue is the specification, a queue of bytes, and
--   Buffer/Contents the queue that a buffer stands for, with the invariant of a buffer.
-- - Channel: src/channel_manager.rs, and the monad `M` of an action on the manager, the set of
--   descriptors and the system. An `io::Error` and a panic end an action, and keep what was changed.
-- - Polled: src/polled_fd.rs. Polled/Interest is the specification of `apply_updates`: the interest
--   list of an epoll instance, which refuses to add a descriptor twice and to change or delete one
--   that it does not have.
-- - Stdio, Stdio/Pipes and Stdio/Pty: the trait `ChildStdio` of src/io.rs as a record of operations,
--   and its two implementations. Manager/Wired and Manager/Served state what the manager relies on,
--   and Manager/Children and Manager/Streams fill it for both.
-- - Manager and Manager/Handlers: `IOSockChannelManager` of src/io.rs, for any `ChildStdio`.
--   Manager/Attends is the invariant between its handlers, `IsSound`: every stream is in the set and
--   no two share a descriptor; the stream that waiting bytes are for asks for writes; and what epoll
--   has still to hear of the set is a client that was just taken, a console that left, or masks.
--   Channel/After says what is asked of an action by how it ended: an `io::Error` ends the program,
--   so that nothing is asked of what it leaves.
-- - Pollster: src/pollster.rs. `run` loops for ever; `run_for` does so for a number of rounds, and is
--   `none` if the loop has not ended by then. Pollster/Rounds is about any number of
--   rounds, so no bound is chosen. Pollster/Settled has the state before each wait, `IsSettled`:
--   the manager is sound, nothing is waiting in the set, and epoll watches exactly its entries.
-- - Relay: the bytes that src/pollster.rs and src/io.rs move in a run. `LogLaws` is what read(2) and
--   write(2) say of the bytes that a call transfers. Relay labels each transfer by the stream that it
--   is of, and Relay/Steps has the runs as a relation, handler call by handler call. Relay/Transfer is
--   about src/channel_manager.rs, Relay/Streams about `ChildPipes` and `ChildPty`, Relay/Settling and
--   Relay/Answers about the actions that transfer nothing, and the files after them about a handler
--   call, a round and a run.
-- - Os/Laws: what the documentation of the system's calls says of the interest list of epoll, for the
--   theorems that are about the list. Tests/Kernel is a platform of which it is proved.
-- - Pty: src/pty.rs. `PtyFile` is here, over the system that the manager uses. Pty/Open and Pty/Spawn
--   are the opening of the pseudo-terminal and the start of the child, over the functions of libc that
--   they call, which are the parameters of Pty/Libc; `Pty` is `PtyPair` there. Pty/Table is what
--   a process's descriptors are open to, for what the new process does to them. `retry_interrupted`
--   loops, and its model is given a number of tries, any above the number of interruptions.
-- - Signals: src/signals.rs, over the functions of libc that it calls, the parameter `SignalCalls`.
--   The static `CHILD_PID` is part of the state `Process`.
-- - Main: src/main.rs, the command line, and what `main` does from `child.wait()` on, with the calls
--   that it makes there as the parameter `Host`. Main/Start has the start of the child and of the
--   worker, with the calls of it as the parameter `Launcher`, and `work`, what the thread runs; its
--   loop is given a number of rounds, as `run_for` is.
-- - Io and Outcome: results, errors and the traits `Read` and `Write` of the standard library. Epoll
--   and Os: the crate epoll and the operating system, which are parameters; `FlagLaws` is what the
--   documentation of the crate and of bitflags says of the flags that the code uses.
-- - Prelude: shared names, Boolean tests, lists and slices. `usize` operations wrap at 2^64.
-- - Tests: a small platform, and the theorems at concrete inputs.
--
-- A stream is the descriptor that it owns, and its drop is a `close` in the system's state; a call to
-- the system returns its answer and the state after it, so any answer at any time is possible. A byte
-- is a number, since no byte is ever computed with.
--
-- Not modelled: what is printed, that the worker and the main thread run at the same time, and tests.
-- The two parts of src/main.rs and the worker keep their own states of the system.
pub mod Prelude
pub mod Io
pub mod Buffer
pub mod Outcome
pub mod Epoll
pub mod Polled
pub mod Os
pub mod Channel
pub mod Pty
pub mod Stdio
pub mod Manager
pub mod Pollster
pub mod Relay
pub mod Signals
pub mod Main
pub mod Tests
