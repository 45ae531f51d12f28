-- ===== src/Pollster/Fresh.antt =====
-- src/pollster.rs, the first `apply_poll_updates` of a manager of src/io.rs that has just been
-- made.
use iosock.Prelude.{
  ℕ, ◌≡◌, refl, sym, ◌∙◌, ap, true, false, ◌||◌, none, some, List, [], ◌∷◌, ◌==◌, if◌then◌else◌,
  arith,
}
use iosock.Outcome.{done}
use iosock.Buffer
use iosock.Buffer.Contents.{new-IsValid}
use iosock.Channel.Pending.{has_bytes}
use iosock.Polled.{PolledFdSet, has_new}
use iosock.Epoll.{Flags}
use iosock.Polled.Interest.{Interest, IsDistinctNew, stored, make_all, fd-made}
use iosock.Polled.Apply.{IsPending, applied, apply_updates-Watches}
use iosock.Polled.Settled.{has_fd-applied, applied-IsPending}
use iosock.Os.{Os}
use iosock.Os.Laws.{OsLaws, is_own}
use iosock.Stdio.{ChildStdio}
use iosock.Stdio.Pipes.{is_fd}
use iosock.Manager.{IosockChannelManager, is_child}
use iosock.Manager.Handlers.{iosock_manager}
use iosock.Manager.Served.{StreamLaws}
use iosock.Manager.Attends.{IsSound}
use iosock.Pollster.{apply_poll_updates}
use iosock.Pollster.Settled.{IsSettled, poll_callbacks-Watches}

pub has_bytes-new : has_bytes Buffer.new ≡ false
unfolding Buffer.new Buffer.heap_buffer
has_bytes-new = refl

-- What epoll watches once each of the descriptors has been added with its events.
abbrev pub watch_list : (fl : Flags) → List (ℕ × fl.Events) → Interest
watch_list fl [] g = none
watch_list fl ((fd, events) ∷ news) g =
    if g == fd then some (fl.new_event events fd) else watch_list fl news g

stored-make_all :
    (fl : Flags) (g : ℕ) (news : List (ℕ × fl.Events))
    → stored {fl = fl} g (make_all news) ≡ watch_list fl news g
stored-make_all fl g [] = refl
stored-make_all fl g ((fd, events) ∷ news) =
    let (f, e) = fd-made fl fd events in ground (arith, f, e, stored-make_all fl g news)

module _ {os : Os} {S : Type 0} {system : OsLaws os} {io : ChildStdio os S}
    (laws : StreamLaws system io) where
  abbrev pub registered : List (ℕ × os.flags.Events) → PolledFdSet os.flags
  registered news = record { existing = []; new = news; removed = [] }

  -- A manager that has just been made, and the descriptors that it registers.
  pub record IsFresh (m : IosockChannelManager S) (news : List (ℕ × os.flags.Events)) : Type 0 where
    pub no_client : m.client_socket ≡ none
    pub in_new : m.in_buffer ≡ Buffer.new
    pub out_new : m.out_buffer ≡ Buffer.new
    pub apart : laws.stdio.IsApart m.child
    pub console_apart : (g : ℕ) → is_child io m.child g ≡ true → is_fd m.console g ≡ false
    pub distinct : IsDistinctNew news
    pub all_known :
        (g : ℕ) → (is_child io m.child g || is_fd m.console g) ≡ true → has_new g news ≡ true
    pub all_own : (g : ℕ) → has_new g news ≡ true → is_own system g ≡ true

  started-IsPending :
      (news : List (ℕ × os.flags.Events)) (w : os.World)
      → IsDistinctNew news
      → ((g : ℕ) → system.watched w g ≡ none)
      → IsPending (registered news) (system.watched w)
  started-IsPending news w d e = record {
    distinct = tt;
    distinct_new = d;
    distinct_removed = tt;
    known = λ g h. cc;
    waiting = λ g h. e g;
    leaving = λ g h. cc;
    nothing_else = λ g h n. e g;
  }

  started-IsSound :
      (news : List (ℕ × os.flags.Events)) (m : IosockChannelManager S) (w w' : os.World)
      → IsFresh m news
      → ((g : ℕ) → system.watched w g ≡ none)
      → ((g : ℕ) → system.watched w' g ≡ stored g (applied (registered news)).existing)
      → IsSound laws (record { mgr = m; fd_set = applied (registered news); world = w' })
  started-IsSound news m w w' f n e = record {
    wired = record {
      distinct = p.distinct;
      registered = λ g h. has_fd-applied system.flags g (registered news) ∙ f.all_known g h;
      client_apart = λ g h. cc;
      child_apart = f.console_apart;
      inner = f.apart;
    };
    client_in = λ g h. ground (arith, f.no_client, h);
    client_off = λ g h. ground (arith, f.no_client, h);
    newcomer = λ g h. cc;
    pending = p;
    others = λ g h. cc;
    in_valid = rw f.in_new new-IsValid;
    out_valid = rw f.out_new new-IsValid;
    out_wants =
        λ g h b. let z : false ≡ true = sym (ap has_bytes f.out_new ∙ has_bytes-new) ∙ b in cc;
    in_wants =
        λ g h b. let z : false ≡ true = sym (ap has_bytes f.in_new ∙ has_bytes-new) ∙ b in cc;
  }
    where
      p : IsPending (applied (registered news)) (system.watched w')
      p = applied-IsPending system.flags (registered news) (started-IsPending news w f.distinct n) e

  -- The first `apply_poll_updates`.
  pub started :
      (news : List (ℕ × os.flags.Events)) (m : IosockChannelManager S) (w : os.World)
      → IsFresh m news
      → ((g : ℕ) → system.watched w g ≡ none)
      → let (r, d) =
          apply_poll_updates
            (iosock_manager io)
            system.poll_fd
            (record { mgr = m; fd_set = registered news; world = w }) in
        (r ≡ done tt)
        × IsSettled laws (iosock_manager io) d
        × ((g : ℕ) → system.watched d.world g ≡ watch_list os.flags news g)
  unfolding apply_poll_updates
  started news m w f n =
      let (w', e, s, k) =
        apply_updates-Watches system.flags (poll_callbacks-Watches system) (registered news) w
          (started-IsPending news w f.distinct n) f.all_own in
      rw e (
        refl,
        record {
          sound = started-IsSound news m w w' f n k;
          no_new = refl;
          settled = s;
          watches = k;
        },
        λ g. k g ∙ stored-make_all os.flags g news,
      )
