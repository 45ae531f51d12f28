-- ===== src/Relay/Steps.antt =====
-- src/pollster.rs and src/io.rs: the bytes that a run of the program moves, call by call.
use mathlib.Core.Path.{subst}
use mathlib.Core.List.{Sublistᴰ, append_assoc, append-nil}
use mathlib.Core.List.Sublistᴰ as Sublist
use iosock.Prelude.{ℕ, ◌≡◌, refl, sym, ap, ◌∙◌, true, List, [], ◌++◌}
use iosock.Outcome.{done}
use iosock.Epoll.{Event}
use iosock.Buffer.Contents.{contents}
use iosock.Channel.{Context, M}
use iosock.Os.{Os}
use iosock.Os.Laws.{OsLaws}
use iosock.Stdio.{ChildStdio}
use iosock.Manager.{IosockChannelManager, on_hangup, is_some}
use iosock.Manager.Handlers.{on_readable, on_writable, iosock_manager}
use iosock.Pollster.{apply_poll_updates, wait}
use iosock.Relay.{
  Entry, IsAttached, LogLaws, Move, moves, client_bytes, stdin_bytes, child_bytes, output_bytes,
  of_client, of_stdin, of_child, of_output, gather-append,
}

-- The handlers that the pollster calls.
pub data Call : Type 0 where
  reads writes hangs_up : Call

-- Queues in line: what the first step leaves is what the second starts with.
in_line :
    {A : Type 0} (q0 q1 q2 x1 x2 y1 y2 : List A)
    → x1 ++ q1 ≡ q0 ++ y1
    → x2 ++ q2 ≡ q1 ++ y2
    → (x1 ++ x2) ++ q2 ≡ q0 ++ (y1 ++ y2)
in_line q0 q1 q2 x1 x2 y1 y2 h k =
    append_assoc x1 x2 q2
    ∙ ap (λ t. x1 ++ t) k
    ∙ sym (append_assoc x1 q1 y2)
    ∙ ap (λ t. t ++ y2) h
    ∙ append_assoc q0 y1 y2

lossy_in_line :
    {A : Type 0} (q0 q1 q2 x1 x2 y1 y2 : List A)
    → Sublistᴰ (x1 ++ q1) (q0 ++ y1)
    → Sublistᴰ (x2 ++ q2) (q1 ++ y2)
    → Sublistᴰ ((x1 ++ x2) ++ q2) (q0 ++ (y1 ++ y2))
lossy_in_line q0 q1 q2 x1 x2 y1 y2 h k =
    Sublist.trans
      (subst (λ t. Sublistᴰ t (x1 ++ (q1 ++ y2))) (sym (append_assoc x1 x2 q2))
        (Sublist.append (Sublist.refl x1) k))
      (subst (λ t. Sublistᴰ t (q0 ++ (y1 ++ y2))) (append_assoc x1 q1 y2)
        (subst (λ t. Sublistᴰ ((x1 ++ q1) ++ y2) t) (append_assoc q0 y1 y2)
          (Sublist.append h (Sublist.refl y2))))

module _ {os : Os} {S : Type 0} (system : OsLaws os) (logs : LogLaws os)
    (io : ChildStdio os S) where
  abbrev Ctx : Type 0
  Ctx = Context os (IosockChannelManager S)

  abbrev pub calls : Call → ℕ → M os (IosockChannelManager S) (Unit {0})
  calls reads = on_readable io
  calls writes = on_writable io
  calls hangs_up = on_hangup io

  -- The steps of a run of the loop of `Pollster::run`, with the transfers of each handler call and
  -- what they are to the program. A wait and the updates after the events transfer nothing.
  pub data Steps : Ctx → List Entry → List Move → Ctx → Type 0 where
    stop : {c : Ctx} → Steps c [] [] c
    call :
        {c d e : Ctx} {es' : List Entry} {ms' : List Move} (h : Call) (fd : ℕ) (es : List Entry)
        → calls h fd c ≡ (done tt, d)
        → logs.log d.world ≡ logs.log c.world ++ es
        → Steps d es' ms' e
        → Steps c (es ++ es') (moves io c es ++ ms') e
    update :
        {c d e : Ctx} {es : List Entry} {ms : List Move}
        → apply_poll_updates (iosock_manager io) system.poll_fd c ≡ (done tt, d)
        → logs.log d.world ≡ logs.log c.world
        → Steps d es ms e
        → Steps c es ms e
    waits :
        {c d e : Ctx} {es : List Entry} {ms : List Move} (events : List Event)
        → wait (iosock_manager io) system.poll_fd c ≡ (done events, d)
        → logs.log d.world ≡ logs.log c.world
        → Steps d es ms e
        → Steps c es ms e

  -- A run from `c` to `d`, with what it transferred: the log has grown by the transfers of its
  -- handler calls. The bytes that the child's stdin took and those that still wait for it are those
  -- that waited and those that were read from the client with room in the buffer, in this order, with
  -- no byte more or less. The bytes that the client and the console took and those that still wait
  -- for them are, in order, some of those that waited and of those that were read from the child with
  -- room in the buffer, and all of them if the console and the child's stdin are open at the end;
  -- neither is ever opened again.
  pub record Relayed (c d : Ctx) : Type 0 where
    pub transfers : List Entry
    pub made : List Move
    pub steps : Steps c transfers made d
    pub logged : logs.log d.world ≡ logs.log c.world ++ transfers
    pub input :
        stdin_bytes made ++ contents d.mgr.in_buffer ≡ contents c.mgr.in_buffer ++ client_bytes made
    pub output :
        Sublistᴰ
          (output_bytes made ++ contents d.mgr.out_buffer)
          (contents c.mgr.out_buffer ++ child_bytes made)
    pub whole :
        IsAttached io d
        → output_bytes made ++ contents d.mgr.out_buffer
          ≡ contents c.mgr.out_buffer ++ child_bytes made
    pub kept : IsAttached io d → IsAttached io c

  -- Steps that transfer nothing and change neither buffer.
  pub silent :
      (c d : Ctx)
      → Steps c [] [] d
      → logs.log d.world ≡ logs.log c.world
      → d.mgr ≡ c.mgr
      → Relayed c d
  silent c d s l e = record {
    transfers = [];
    made = [];
    steps = s;
    logged = l ∙ sym (append-nil (logs.log c.world));
    input = ap (λ m. contents m.in_buffer) e ∙ sym (append-nil (contents c.mgr.in_buffer));
    output =
        subst (λ q. Sublistᴰ (contents d.mgr.out_buffer) q) out_kept
          (Sublist.refl (contents d.mgr.out_buffer));
    whole = λ a. out_kept;
    kept =
        λ a. subst (λ m. (is_some m.console ≡ true) × (is_some (io.stdin_fd m.child) ≡ true)) e a;
  }
    where
      out_kept : contents d.mgr.out_buffer ≡ contents c.mgr.out_buffer ++ []
      out_kept = ap (λ m. contents m.out_buffer) e ∙ sym (append-nil (contents c.mgr.out_buffer))

  pub Relayed-refl : (c : Ctx) → Relayed c c
  Relayed-refl c = silent c c stop refl refl

  Steps-trans :
      {c d e : Ctx} {es es' : List Entry} {ms ms' : List Move}
      → Steps c es ms d
      → Steps d es' ms' e
      → Steps c (es ++ es') (ms ++ ms') e
  Steps-trans {e = z} {es' = es''} {ms' = ms''} stop k = k
  Steps-trans {c} {d = y} {e = z} {es' = es''} {ms' = ms''}
        (call {es' = es'} {ms' = ms'} h fd es e l s) k =
      subst (λ t. Steps c t ((moves io c es ++ ms') ++ ms'') z) (sym (append_assoc es es' es''))
        (subst (λ t. Steps c (es ++ (es' ++ es'')) t z)
          (sym (append_assoc (moves io c es) ms' ms'')) (call h fd es e l (Steps-trans s k)))
  Steps-trans (update e l s) k = update e l (Steps-trans s k)
  Steps-trans (waits events e l s) k = waits events e l (Steps-trans s k)

  pub Relayed-trans : {c d e : Ctx} → Relayed c d → Relayed d e → Relayed c e
  Relayed-trans {c} {d} {e} h k = record {
    transfers = h.transfers ++ k.transfers;
    made = h.made ++ k.made;
    steps = Steps-trans h.steps k.steps;
    logged =
        k.logged
        ∙ ap (λ t. t ++ k.transfers) h.logged
        ∙ append_assoc (logs.log c.world) h.transfers k.transfers;
    input =
        rw (gather-append of_stdin h.made k.made, gather-append of_client h.made k.made)
          (in_line (contents c.mgr.in_buffer) (contents d.mgr.in_buffer) (contents e.mgr.in_buffer)
            (stdin_bytes h.made) (stdin_bytes k.made) (client_bytes h.made) (client_bytes k.made)
            h.input k.input);
    output =
        rw (gather-append of_output h.made k.made, gather-append of_child h.made k.made)
          (lossy_in_line (contents c.mgr.out_buffer) (contents d.mgr.out_buffer)
            (contents e.mgr.out_buffer) (output_bytes h.made) (output_bytes k.made)
            (child_bytes h.made) (child_bytes k.made) h.output k.output);
    whole = λ a.
        rw (gather-append of_output h.made k.made, gather-append of_child h.made k.made)
          (in_line (contents c.mgr.out_buffer) (contents d.mgr.out_buffer)
            (contents e.mgr.out_buffer) (output_bytes h.made) (output_bytes k.made)
            (child_bytes h.made) (child_bytes k.made) (h.whole (k.kept a)) (k.whole a));
    kept = λ a. h.kept (k.kept a);
  }
