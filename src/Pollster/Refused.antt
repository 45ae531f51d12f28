-- ===== src/Pollster/Refused.antt =====
-- src/pollster.rs, `Pollster::new` where epoll refuses the console.
use iosock.Prelude.{ℕ, List, []}
use iosock.Channel.{Context}
use iosock.Polled.Interest.{Interest}
use iosock.Os.{Os}
use iosock.Os.Laws.{OsLaws, RefuseLaws}
use iosock.Stdio.Pipes
use iosock.Stdio.Pipes.{ChildPipes}
use iosock.Manager
use iosock.Manager.{IosockChannelManager}
use iosock.Manager.Handlers
use iosock.Pollster

module _ {os : Os} {system : OsLaws os} (refuses : RefuseLaws system) where
  -- The context with the first descriptors of a manager that has just been made.
  abbrev first :
      {S : Type 0}
      → IosockChannelManager S
      → List (ℕ × os.flags.Events)
      → os.World
      → Context os (IosockChannelManager S)
  first m news w = record {
    mgr = m;
    fd_set = record { existing = []; new = news; removed = [] };
    world = w;
  }
