-- ===== src/Pollster/Settled.antt =====
-- src/pollster.rs, `apply_poll_updates`, with the manager of src/io.rs.
use iosock.Prelude.{ℕ, ◌≡◌, refl, ◌∙◌, [], arith}
use iosock.Outcome.{done}
use iosock.Channel.{Context, ChannelManager}
use iosock.Polled.Interest.{Watches, stored}
use iosock.Polled.Apply.{IsPending, AllSettled, applied, apply_updates-Watches}
use iosock.Polled.Settled.{has_fd-applied, wants_out-applied, applied-IsPending}
use iosock.Os.{Os}
use iosock.Os.Laws.{OsLaws, is_own}
use iosock.Stdio.{ChildStdio}
use iosock.Manager.{IosockChannelManager}
use iosock.Manager.Served.{StreamLaws}
use iosock.Manager.Attends.{IsSound}
use iosock.Pollster.{poll_callbacks, apply_poll_updates}

module _ {os : Os} (system : OsLaws os) where
  pub poll_callbacks-Watches :
      Watches (poll_callbacks os system.poll_fd) system.watched (is_own system)
  unfolding poll_callbacks
  poll_callbacks-Watches = record {
    new_ok = λ fd events w o h.
        let (fine, now) =
          system.add_ok fd (os.flags.new_event events fd) w (ground arith) (ground arith) h in
        (rw fine refl, now);
    update_ok = λ fd e w h. system.mod_ok fd e w h;
    delete_ok = λ fd w h. system.del_ok fd (os.flags.new_event os.flags.empty fd) w h;
  }

module _ {os : Os} {S : Type 0} {system : OsLaws os} {io : ChildStdio os S}
    (laws : StreamLaws system io) (cm : ChannelManager os (IosockChannelManager S)) where
  -- The manager is sound, and epoll watches exactly the entries of the set, as they ask.
  pub record IsSettled (c : Context os (IosockChannelManager S)) : Type 0 where
    pub sound : IsSound laws c
    pub no_new : c.fd_set.new ≡ []
    pub settled : AllSettled c.fd_set.existing
    pub watches : (g : ℕ) → system.watched c.world g ≡ stored g c.fd_set.existing

  applied-IsSound :
      (c : Context os (IosockChannelManager S)) (w : os.World)
      → IsSound laws c
      → ((g : ℕ) → system.watched w g ≡ stored g (applied c.fd_set).existing)
      → IsSound laws (record c { fd_set = applied c.fd_set; world = w })
  applied-IsSound c w h e = record {
    wired = record {
      distinct = p.distinct;
      registered =
          λ g o. ground (arith, has_fd-applied system.flags g c.fd_set, h.wired.registered g);
      client_apart = h.wired.client_apart;
      child_apart = h.wired.child_apart;
      inner = h.wired.inner;
    };
    client_in = λ g o. ground (arith, has_fd-applied system.flags g c.fd_set, h.client_in g);
    client_off = h.client_off;
    newcomer = λ g n. cc;
    pending = p;
    others = λ g n. cc;
    in_valid = h.in_valid;
    out_valid = h.out_valid;
    out_wants = λ g o k. wants_out-applied system.flags g c.fd_set ∙ h.out_wants g o k;
    in_wants = λ g o k. wants_out-applied system.flags g c.fd_set ∙ h.in_wants g o k;
  }
    where
      p : IsPending (applied c.fd_set) (system.watched w)
      p = applied-IsPending system.flags c.fd_set h.pending e

  -- `apply_poll_updates` succeeds in any state of the manager between its handlers, and leaves
  -- epoll watching exactly the entries of the set, each with the mask that it asks for.
  pub apply_poll_updates_lem :
      (c : Context os (IosockChannelManager S))
      → IsSound laws c
      → let (r, d) = apply_poll_updates cm system.poll_fd c in (r ≡ done tt) × IsSettled d
  unfolding apply_poll_updates
  apply_poll_updates_lem c h =
      let (w, e, s, k) =
        apply_updates-Watches system.flags (poll_callbacks-Watches system) c.fd_set c.world
          h.pending h.others in
      rw e
        (refl, record { sound = applied-IsSound c w h k; no_new = refl; settled = s; watches = k })
