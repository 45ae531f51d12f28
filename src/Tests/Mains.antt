-- ===== src/Tests/Mains.antt =====
-- src/main.rs at concrete inputs: a host on which the child was ended by a signal.
use iosock.Prelude.{◌≡◌, ◌↔◌, ◌++◌, true, refl, false, none, some, List, [], ◌∷◌}
use iosock.Io.{ok}
use iosock.Main.{short_flag, long_flag, Invocation, parse_args, Host, finish}
use iosock.Main.Arguments.{Spells, with_pty, pty_flag, parse_args-Spells}
use iosock.Main.Laws.{Deed, waited, wrote, joined, removed, HostLaws, finish_lem}

abbrev plain : Invocation
plain = record {
  use_pty = false;
  sock_path = 115 ∷ [];
  program = 99 ∷ [];
  program_args = short_flag ∷ [];
}

parse_args-Spells_example :
    (parse_args (long_flag ∷ (115 ∷ []) ∷ (99 ∷ []) ∷ short_flag ∷ [])
      ≡ some (record plain { use_pty = true }))
    ↔ Spells
        (long_flag ∷ (115 ∷ []) ∷ (99 ∷ []) ∷ short_flag ∷ [])
        (record plain { use_pty = true })
parse_args-Spells_example =
    parse_args-Spells (long_flag ∷ (115 ∷ []) ∷ (99 ∷ []) ∷ short_flag ∷ [])
      (record plain { use_pty = true })

read_with_pty :
    parse_args (long_flag ∷ (115 ∷ []) ∷ (99 ∷ []) ∷ short_flag ∷ [])
    ≡ some (record plain { use_pty = true })
read_with_pty =
    parse_args-Spells_example.1 (with_pty long_flag (115 ∷ []) (99 ∷ []) (short_flag ∷ []) pty_flag)

abbrev toy_host : Host
toy_host = record {
  World = List Deed;
  wait = λ w. (ok none, w ++ waited ∷ []);
  write_all = λ bs w. (ok tt, w ++ wrote bs ∷ []);
  join = λ w. (some (ok tt), w ++ joined ∷ []);
  remove_file = λ path w. (ok tt, w ++ removed path ∷ []);
}

abbrev toy_deeds : HostLaws toy_host
toy_deeds = record {
  deeds = λ w. w;
  deeds-wait = λ w. refl;
  deeds-write_all = λ bs w. refl;
  deeds-join = λ w. refl;
  deeds-remove_file = λ path w. refl;
}

finish_lem_example :
    let (code, v) = finish toy_host (115 ∷ []) [] in
    (code ≡ 254) × (v ≡ waited ∷ wrote (1 ∷ []) ∷ joined ∷ removed (115 ∷ []) ∷ [])
finish_lem_example = finish_lem toy_host toy_deeds (115 ∷ []) []

-- No command line, and the flag alone.
usage_shown :
    (parse_args ((115 ∷ []) ∷ []) ≡ none) × (parse_args (short_flag ∷ (115 ∷ []) ∷ []) ≡ none)
unfolding parse_args
usage_shown = (refl, refl)
