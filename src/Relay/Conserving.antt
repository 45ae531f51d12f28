-- ===== src/Relay/Conserving.antt =====
-- src/io.rs: the bytes that one call of a handler of the manager moves.
use mathlib.Core.Path.{subst}
use mathlib.Core.List.{Sublistᴰ, append-nil}
use mathlib.Core.List.Sublistᴰ as Sublist
use iosock.Prelude.{
  ℕ, ◌≡◌, refl, sym, ap, ◌∙◌, true, false, some, List, [], ◌∷◌, ◌++◌, ◌==◌, Bool-cases, inl, inr,
  ==_iff, arith,
}
use iosock.Outcome.{Outcome, done, fail, panic}
use iosock.Buffer.{FlipBuffer}
use iosock.Buffer.Contents.{IsValid, contents, room}
use iosock.Channel.{Context, M, bind}
use iosock.Channel.After.{After}
use iosock.Os.{Os}
use iosock.Os.Laws.{OsLaws}
use iosock.Stdio.{ChildStdio}
use iosock.Stdio.Pipes.{is_fd}
use iosock.Manager.{IosockChannelManager, is_client, is_child}
use iosock.Manager.Served.{StreamLaws}
use iosock.Manager.Attends.{IsSound}
use iosock.Relay.{
  Entry, LogLaws, Move, from_client, lost_input, to_stdin, from_child, lost_output, IsAttached,
  to_output, moves, client_bytes, stdin_bytes, child_bytes, output_bytes,
}
use iosock.Relay.Transfer.{ReadBy, WrittenBy, nothing, took, spilt, gave}
use iosock.Relay.Streams.{RelayLaws}
use iosock.Relay.Settling.{Anywhere, Settles, Settling}

module _ {os : Os} {S : Type 0} {system : OsLaws os} {logs : LogLaws os} {io : ChildStdio os S}
    (streams : StreamLaws system io) (laws : RelayLaws logs io) where
  -- What has been transferred, against the two buffers: what the child's stdin took and what still
  -- waits for it are what waited before and what was read from the client, in this order, with no
  -- byte more or less; what the outputs took and what still waits for them are, in order, some of
  -- what waited before and of what was read from the child, and all of it if the console and the
  -- child's stdin are still open. What was read with no room in the buffer is in neither.
  pub record Conserves (c d : Context os (IosockChannelManager S)) (es : List Entry) : Type 0 where
    pub logged : logs.log d.world ≡ logs.log c.world ++ es
    pub input :
        stdin_bytes (moves io c es) ++ contents d.mgr.in_buffer
        ≡ contents c.mgr.in_buffer ++ client_bytes (moves io c es)
    pub output :
        Sublistᴰ
          (output_bytes (moves io c es) ++ contents d.mgr.out_buffer)
          (contents c.mgr.out_buffer ++ child_bytes (moves io c es))
    pub whole :
        IsAttached io d
        → output_bytes (moves io c es) ++ contents d.mgr.out_buffer
          ≡ contents c.mgr.out_buffer ++ child_bytes (moves io c es)
    pub kept : IsAttached io d → IsAttached io c

  conserves :
      (c d : Context os (IosockChannelManager S)) (es : List Entry) (ms : List Move)
      → logs.log d.world ≡ logs.log c.world ++ es
      → (IsAttached io d → IsAttached io c)
      → moves io c es ≡ ms
      → stdin_bytes ms ++ contents d.mgr.in_buffer ≡ contents c.mgr.in_buffer ++ client_bytes ms
      → output_bytes ms ++ contents d.mgr.out_buffer ≡ contents c.mgr.out_buffer ++ child_bytes ms
      → Conserves c d es
  conserves c d es ms l k e i o = record {
    logged = l;
    input = rw e i;
    output = rw e (
        subst (λ t. Sublistᴰ (output_bytes ms ++ contents d.mgr.out_buffer) t) o
          (Sublist.refl (output_bytes ms ++ contents d.mgr.out_buffer)));
    whole = λ a. rw e o;
    kept = k;
  }

  same : (q : List ℕ) → q ≡ q ++ []
  same q = sym (append-nil q)

  child_not_client :
      (g : ℕ) (c : Context os (IosockChannelManager S))
      → IsSound streams c
      → is_child io c.mgr.child g ≡ true
      → is_client c.mgr.client_socket g ≡ false
  child_not_client g c h k = elim (Bool-cases (is_client c.mgr.client_socket g)) [
    | inl e ↦ let o = h.client_off g e in ground (arith, o, k)
    | inr e ↦ e
  ]

  pub Conserves-refl : (c : Context os (IosockChannelManager S)) → Conserves c c []
  Conserves-refl c =
      conserves c c [] [] (sym (append-nil (logs.log c.world))) (λ a. a) refl
        (same (contents c.mgr.in_buffer)) (same (contents c.mgr.out_buffer))

  Conserves-Settles :
      {c d e : Context os (IosockChannelManager S)} {es : List Entry}
      → Conserves c d es
      → IsValid d.mgr.out_buffer
      → Settles laws d e
      → Conserves c e es
  Conserves-Settles {c} {d} {e} {es} h v s = record {
    logged = s.same_log ∙ h.logged;
    input = ap (λ b. stdin_bytes (moves io c es) ++ contents b) s.same_in ∙ h.input;
    output =
        Sublist.trans
          (Sublist.append (Sublist.refl (output_bytes (moves io c es))) (s.less_out v).1) h.output;
    whole =
        λ a. ap (λ b. output_bytes (moves io c es) ++ contents b) (s.whole a) ∙ h.whole (s.kept a);
    kept = λ a. h.kept (s.kept a);
  }

  -- A call of a handler conserves the bytes, if it returns.
  abbrev pub Conserving :
      Context os (IosockChannelManager S)
      → Outcome (Unit {0}) × Context os (IosockChannelManager S)
      → Type 0
  Conserving c r = After Anywhere (λ u d. (es : List Entry) × Conserves c d es) r

  settled :
      {A : Type 0} (c d : Context os (IosockChannelManager S)) (es : List Entry)
      (r : Outcome A × Context os (IosockChannelManager S))
      → Conserves c d es
      → IsValid d.mgr.out_buffer
      → After Anywhere (λ a e. Settles laws d e) r
      → After Anywhere (λ a e. (es : List Entry) × Conserves c e es) r
  settled c d es (done a, e) h v s = (es, Conserves-Settles h v s)
  settled c d es (fail x, e) h v s = tt
  settled c d es (panic, e) h v s = tt

  -- What follows a transfer, whatever it answered.
  pub after_transfer :
      {A : Type 0} (c d : Context os (IosockChannelManager S)) (es : List Entry) (r : Outcome A)
      (f : A → M os (IosockChannelManager S) (Unit {0}))
      → Conserves c d es
      → IsValid d.mgr.out_buffer
      → ((a : A) → Settling laws (f a))
      → Conserving c (bind (r, d) f)
  after_transfer c d es (done a) f h v k = settled c d es (f a d) h v (k a d)
  after_transfer c d es (fail x) f h v k = tt
  after_transfer c d es panic f h v k = tt

  pub settling-Conserving :
      (c : Context os (IosockChannelManager S)) (m : M os (IosockChannelManager S) (Unit {0}))
      → IsSound streams c
      → Settling laws m
      → Conserving c (m c)
  settling-Conserving c m h k = settled c c [] (m c) (Conserves-refl c) h.out_valid (k c)

  -- The four transfers.
  pub client_read :
      (fd : ℕ) (c : Context os (IosockChannelManager S)) (b : FlipBuffer) (w : os.World)
      (es : List Entry)
      → is_client c.mgr.client_socket fd ≡ true
      → logs.log w ≡ logs.log c.world ++ es
      → ReadBy (some fd) (room c.mgr.in_buffer == 0) (contents c.mgr.in_buffer) es (contents b)
      → Conserves c (record c { mgr = record c.mgr { in_buffer = b }; world = w }) es
  client_read fd c b w es h l (nothing e q) =
      conserves c _ es [] l (λ a. a) (ap (moves io c) e) (q ∙ same (contents c.mgr.in_buffer))
        (same (contents c.mgr.out_buffer))
  client_read fd c b w es h l (took g bs k full e q) =
      let m : is_client c.mgr.client_socket g ≡ true =
        subst (λ x. is_client c.mgr.client_socket x ≡ true) ((==_iff fd g).0 k) h in
      conserves c _ es (from_client bs ∷ []) l (λ a. a) (ap (moves io c) e ∙ rw (m, full) refl)
        (q ∙ ap (λ t. contents c.mgr.in_buffer ++ t) (same bs)) (same (contents c.mgr.out_buffer))
  client_read fd c b w es h l (spilt g bs k full e q) =
      let m : is_client c.mgr.client_socket g ≡ true =
        subst (λ x. is_client c.mgr.client_socket x ≡ true) ((==_iff fd g).0 k) h in
      conserves c _ es (lost_input bs ∷ []) l (λ a. a) (ap (moves io c) e ∙ rw (m, full) refl)
        (q ∙ same (contents c.mgr.in_buffer)) (same (contents c.mgr.out_buffer))

  pub child_read :
      (c : Context os (IosockChannelManager S)) (b : FlipBuffer) (w : os.World) (es : List Entry)
      → IsSound streams c
      → logs.log w ≡ logs.log c.world ++ es
      → ReadBy
          (io.stdout_fd c.mgr.child)
          (room c.mgr.out_buffer == 0)
          (contents c.mgr.out_buffer)
          es
          (contents b)
      → Conserves c (record c { mgr = record c.mgr { out_buffer = b }; world = w }) es
  child_read c b w es h l (nothing e q) =
      conserves c _ es [] l (λ a. a) (ap (moves io c) e) (same (contents c.mgr.in_buffer))
        (q ∙ same (contents c.mgr.out_buffer))
  child_read c b w es h l (took g bs k full e q) =
      let n : is_client c.mgr.client_socket g ≡ false = child_not_client g c h (ground arith) in
      conserves c _ es (from_child bs ∷ []) l (λ a. a) (ap (moves io c) e ∙ rw (n, full) refl)
        (same (contents c.mgr.in_buffer)) (q ∙ ap (λ t. contents c.mgr.out_buffer ++ t) (same bs))
  child_read c b w es h l (spilt g bs k full e q) =
      let n : is_client c.mgr.client_socket g ≡ false = child_not_client g c h (ground arith) in
      conserves c _ es (lost_output bs ∷ []) l (λ a. a) (ap (moves io c) e ∙ rw (n, full) refl)
        (same (contents c.mgr.in_buffer)) (q ∙ same (contents c.mgr.out_buffer))

  pub stdin_write :
      (c : Context os (IosockChannelManager S)) (b : FlipBuffer) (w : os.World) (es : List Entry)
      → logs.log w ≡ logs.log c.world ++ es
      → WrittenBy (io.stdin_fd c.mgr.child) (contents c.mgr.in_buffer) es (contents b)
      → Conserves c (record c { mgr = record c.mgr { in_buffer = b }; world = w }) es
  stdin_write c b w es l (nothing e q) =
      conserves c _ es [] l (λ a. a) (ap (moves io c) e) (q ∙ same (contents c.mgr.in_buffer))
        (same (contents c.mgr.out_buffer))
  stdin_write c b w es l (gave g bs k e q) =
      conserves c _ es (to_stdin bs ∷ []) l (λ a. a) (ap (moves io c) e ∙ rw k refl)
        (ap (λ t. t ++ contents b) (append-nil bs) ∙ sym q ∙ same (contents c.mgr.in_buffer))
        (same (contents c.mgr.out_buffer))

  pub output_write :
      (fd : ℕ) (c : Context os (IosockChannelManager S)) (b : FlipBuffer) (w : os.World)
      (es : List Entry)
      → is_child io c.mgr.child fd ≡ false
      → logs.log w ≡ logs.log c.world ++ es
      → WrittenBy (some fd) (contents c.mgr.out_buffer) es (contents b)
      → Conserves c (record c { mgr = record c.mgr { out_buffer = b }; world = w }) es
  output_write fd c b w es n l (nothing e q) =
      conserves c _ es [] l (λ a. a) (ap (moves io c) e) (same (contents c.mgr.in_buffer))
        (q ∙ same (contents c.mgr.out_buffer))
  output_write fd c b w es n l (gave g bs k e q) =
      let m : is_child io c.mgr.child g ≡ false =
        subst (λ x. is_child io c.mgr.child x ≡ false) ((==_iff fd g).0 k) n in
      let o : is_fd (io.stdin_fd c.mgr.child) g ≡ false = ground (arith, m) in
      conserves c _ es (to_output bs ∷ []) l (λ a. a) (ap (moves io c) e ∙ rw o refl)
        (same (contents c.mgr.in_buffer))
        (ap (λ t. t ++ contents b) (append-nil bs) ∙ sym q ∙ same (contents c.mgr.out_buffer))
