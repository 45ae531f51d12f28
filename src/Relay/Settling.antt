-- ===== src/Relay/Settling.antt =====
-- src/io.rs: actions of the manager that transfer nothing, and what they leave of its buffers.
use mathlib.Core.List.{Sublistᴰ}
use mathlib.Core.List.Sublistᴰ as Sublist
use iosock.Prelude.{ℕ, ◌≡◌, refl, ◌∙◌, Bool, true, Option, none, some, ltb}
use iosock.Outcome.{Outcome, done, fail, panic}
use iosock.Buffer.{writable_size}
use iosock.Buffer.Contents.{IsValid, contents}
use iosock.Channel.{Context, M, ◌>>=◌, pure, on_set}
use iosock.Channel.After.{After, After-bind, After-if}
use iosock.Polled.{PolledFdSet, modify, unregister, unregister_closed, poll_for_write}
use iosock.Os.{Os}
use iosock.Stdio.{ChildStdio}
use iosock.Stdio.Pipes.{is_fd}
use iosock.Manager.{
  IosockChannelManager, UnixClient, is_client, is_child, poll_write_some, set_client, close_fd,
  hangup_client, hangup_child, hangup_console, on_hangup,
}
use iosock.Relay.{LogLaws, IsAttached}
use iosock.Relay.Streams.{RelayLaws}

abbrev pub Anywhere : {os : Os} {Manager : Type 0} → Context os Manager → Type 0
Anywhere c = Unit

module _ {os : Os} {S : Type 0} {logs : LogLaws os} {io : ChildStdio os S}
    (laws : RelayLaws logs io) where
  -- Nothing is transferred, the input buffer is what it was, and the output buffer has lost bytes at
  -- most, and none if the console and the child's stdin are open; neither has been opened.
  pub record Settles (c d : Context os (IosockChannelManager S)) : Type 0 where
    pub same_log : logs.log d.world ≡ logs.log c.world
    pub same_in : d.mgr.in_buffer ≡ c.mgr.in_buffer
    pub less_out :
        IsValid c.mgr.out_buffer
        → IsValid d.mgr.out_buffer
          × Sublistᴰ (contents d.mgr.out_buffer) (contents c.mgr.out_buffer)
    pub kept : IsAttached io d → IsAttached io c
    pub whole : IsAttached io d → d.mgr.out_buffer ≡ c.mgr.out_buffer

  pub Settles-trans :
      {c d e : Context os (IosockChannelManager S)} → Settles c d → Settles d e → Settles c e
  Settles-trans h k = record {
    same_log = k.same_log ∙ h.same_log;
    same_in = k.same_in ∙ h.same_in;
    less_out = λ v.
        (let (v', l) = h.less_out v in let (v'', l') = k.less_out v' in (v'', Sublist.trans l' l));
    kept = λ a. h.kept (k.kept a);
    whole = λ a. k.whole a ∙ h.whole (k.kept a);
  }

  -- What changes neither buffer.
  pub alike :
      (c : Context os (IosockChannelManager S)) (d : Context os (IosockChannelManager S))
      → logs.log d.world ≡ logs.log c.world
      → d.mgr.in_buffer ≡ c.mgr.in_buffer
      → d.mgr.out_buffer ≡ c.mgr.out_buffer
      → (IsAttached io d → IsAttached io c)
      → Settles c d
  alike c d l i o k = record {
    same_log = l;
    same_in = i;
    less_out = λ v. rw o (v, Sublist.refl (contents c.mgr.out_buffer));
    kept = k;
    whole = λ a. o;
  }

  pub Settles-refl : (c : Context os (IosockChannelManager S)) → Settles c c
  Settles-refl c = alike c c refl refl refl (λ a. a)

  -- An action after which the state has settled, if it returns.
  abbrev pub Settling : {A : Type 0} → M os (IosockChannelManager S) A → Type 0
  Settling m = (c : Context os (IosockChannelManager S)) → After Anywhere (λ a d. Settles c d) (m c)

  pub Settling-bind :
      {A B : Type 0} (m : M os (IosockChannelManager S) A) (f : A → M os (IosockChannelManager S) B)
      → Settling m
      → ((a : A) → Settling (f a))
      → Settling (m >>= f)
  Settling-bind m f h k c =
      After-bind Anywhere (λ a d. Settles c d) (λ b d. Settles c d) m f c (h c)
        (λ a d s. after (f a d) s (k a d))
    where
      after :
          {B : Type 0} {c d : Context os (IosockChannelManager S)}
          (r : Outcome B × Context os (IosockChannelManager S))
          → Settles c d
          → After Anywhere (λ b e. Settles d e) r
          → After Anywhere (λ b e. Settles c e) r
      after (done b, e) s t = Settles-trans s t
      after (fail x, e) s t = tt
      after (panic, e) s t = tt

  pub Settling-pure : {A : Type 0} (a : A) → Settling (pure a)
  Settling-pure a c = Settles-refl c

  pub Settling-on_set :
      (f : PolledFdSet os.flags → Outcome (PolledFdSet os.flags)) → Settling (on_set f)
  Settling-on_set f c = go (f c.fd_set)
    where
      go :
          (r : Outcome (PolledFdSet os.flags))
          → After {A = Unit {0}} Anywhere
              (λ u d. Settles c d)
              (elim r [
                | done s ↦ (done tt, record c { fd_set = s })
                | fail e ↦ (fail e, c)
                | panic ↦ (panic, c)
              ])
      go (done s) = alike c (record c { fd_set = s }) refl refl refl (λ a. a)
      go (fail e) = tt
      go panic = tt

  pub Settling-poll_write_some : (o : Option ℕ) (b : Bool) → Settling (poll_write_some io o b)
  Settling-poll_write_some none b c = Settles-refl c
  Settling-poll_write_some (some fd) b c =
      Settling-on_set (modify os.flags fd (poll_for_write os.flags b)) c

  pub Settling-set_client : (o : Option UnixClient) → Settling (set_client io o)
  Settling-set_client o c =
      alike c (record c { mgr = record c.mgr { client_socket = o } }) refl refl refl (λ a. a)

  pub Settling-close_fd : (fd : ℕ) → Settling (close_fd io fd)
  Settling-close_fd fd c =
      alike c (record c { world = os.close fd c.world }) (logs.log-close fd c.world) refl refl
        (λ a. a)

  Settling-hangup_client : (fd : ℕ) → Settling (hangup_client io fd)
  unfolding hangup_client
  Settling-hangup_client fd =
      Settling-bind (on_set (unregister_closed os.flags fd)) _
        (Settling-on_set (unregister_closed os.flags fd))
        (λ u. Settling-bind (set_client io none) _ (Settling-set_client none) (λ u.
          Settling-bind (close_fd io fd) _ (Settling-close_fd fd) (λ u c.
            After-if Anywhere (λ u d. Settles c d) (ltb 0 (writable_size c.mgr.out_buffer))
              (poll_write_some io c.mgr.console true c) (done tt, c)
              (λ e. Settling-poll_write_some c.mgr.console true c) (λ e. Settles-refl c))))

  Settling-hangup_child : (fd : ℕ) → Settling (hangup_child io fd)
  unfolding hangup_child
  Settling-hangup_child fd c = go (io.hangup fd c.mgr.child c.fd_set c.world) refl
    where
      go :
          (r : Outcome (S × PolledFdSet os.flags × os.World))
          → io.hangup fd c.mgr.child c.fd_set c.world ≡ r
          → After {A = Unit {0}} Anywhere
              (λ u d. Settles c d)
              (elim r [
                | done (child, fd_set, world) ↦ (
                  done tt,
                  record { mgr = record c.mgr { child = child }; fd_set = fd_set; world = world },
                )
                | fail e ↦ (fail e, c)
                | panic ↦ (panic, c)
              ])
      go (done (s, fds, w)) e =
          let (l, k) = laws.hangup_moves_none fd c.mgr.child s c.fd_set fds c.world w e in
          alike c (record { mgr = record c.mgr { child = s }; fd_set = fds; world = w }) l refl refl
            (λ a. (a.0, k a.1))
      go (fail x) e = tt
      go panic e = tt

  Settling-hangup_console : (fd : ℕ) → Settling (hangup_console io fd)
  unfolding hangup_console
  Settling-hangup_console fd =
      Settling-bind (on_set (unregister os.flags fd)) _ (Settling-on_set (unregister os.flags fd))
        (λ u c.
          alike c (record c { mgr = record c.mgr { console = none } }) refl refl refl (λ a. cc))

  pub Settling-on_hangup : (fd : ℕ) → Settling (on_hangup io fd)
  unfolding on_hangup
  Settling-on_hangup fd c =
      After-if Anywhere (λ u d. Settles c d) (is_client c.mgr.client_socket fd) _ _
        (λ e. Settling-hangup_client fd c)
        (λ e.
          After-if Anywhere (λ u d. Settles c d) (is_child io c.mgr.child fd) _ _
            (λ e. Settling-hangup_child fd c)
            (λ e.
              After-if Anywhere (λ u d. Settles c d) (is_fd c.mgr.console fd) _ _
                (λ e. Settling-hangup_console fd c) (λ e. Settles-refl c)))
