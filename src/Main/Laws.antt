-- ===== src/Main/Laws.antt =====
-- src/main.rs, the end of the program.
use mathlib.Core.List.{append_assoc, append-nil}
use iosock.Prelude.{ℕ, ◌≡◌, refl, sym, ap, ◌∙◌, Option, none, some, List, [], ◌∷◌, ◌++◌}
use iosock.Io.{Result, ok, err}
use iosock.Main.{Text, Host, after_remove, after_join, finish}

-- What the program does at its end, in the order in which it does it.
pub data Deed : Type 0 where
  waited joined : Deed
  wrote : List ℕ → Deed
  removed : Text → Deed

-- A record of the calls of the host.
pub record HostLaws (host : Host) : Type 0 where
  pub deeds : host.World → List Deed
  pub deeds-wait : (w : host.World) → deeds (host.wait w).1 ≡ deeds w ++ waited ∷ []
  pub deeds-write_all :
      (bs : List ℕ) (w : host.World) → deeds (host.write_all bs w).1 ≡ deeds w ++ wrote bs ∷ []
  pub deeds-join : (w : host.World) → deeds (host.join w).1 ≡ deeds w ++ joined ∷ []
  pub deeds-remove_file :
      (path : Text) (w : host.World)
      → deeds (host.remove_file path w).1 ≡ deeds w ++ removed path ∷ []

-- The code of the process, by how the worker ended, whether the socket was removed, and how the
-- child ended.
abbrev pub code_for : Option (Result (Unit {0})) → Result (Unit {0}) → Result (Option ℕ) → ℕ
code_for none gone child = 255
code_for (some (err e)) gone child = 255
code_for (some (ok u)) (err e) child = 255
code_for (some (ok u)) (ok v) (ok (some code)) = code
code_for (some (ok u)) (ok v) (ok none) = 254
code_for (some (ok u)) (ok v) (err e) = 255

-- The socket is removed if the worker ended well.
abbrev pub clean_up : Text → Option (Result (Unit {0})) → List Deed
clean_up path none = []
clean_up path (some (err e)) = []
clean_up path (some (ok u)) = removed path ∷ []

module _ (host : Host) (laws : HostLaws host) where
  abbrev Ends :
      Text → Result (Option ℕ) → Option (Result (Unit {0})) × host.World → ℕ × host.World → Type 0
  Ends path a (j, w) (code, v) =
      (code ≡ code_for j (host.remove_file path w).0 a)
      × (laws.deeds v ≡ laws.deeds w ++ clean_up path j)

  after_remove-code :
      (a : Result (Option ℕ)) (r : Result (Unit {0}) × host.World)
      → ((after_remove host a r).0 ≡ code_for (some (ok tt)) r.0 a)
        × ((after_remove host a r).1 ≡ r.1)
  after_remove-code (ok (some code)) (ok u, w) = (refl, refl)
  after_remove-code (ok none) (ok u, w) = (refl, refl)
  after_remove-code (err e) (ok u, w) = (refl, refl)
  after_remove-code a (err e, w) = (refl, refl)

  after_join-Ends :
      (path : Text) (a : Result (Option ℕ)) (j : Option (Result (Unit {0})) × host.World)
      → Ends path a j (after_join host path a j)
  after_join-Ends path a (none, w) = (refl, sym (append-nil (laws.deeds w)))
  after_join-Ends path a (some (err e), w) = (refl, sym (append-nil (laws.deeds w)))
  after_join-Ends path a (some (ok u), w) =
      let (c, e) = after_remove-code a (host.remove_file path w) in
      (c, ap laws.deeds e ∙ laws.deeds-remove_file path w)

  three :
      (l l1 l2 l3 l4 ds : List Deed) (a b c : Deed)
      → l1 ≡ l ++ a ∷ []
      → l2 ≡ l1 ++ b ∷ []
      → l3 ≡ l2 ++ c ∷ []
      → l4 ≡ l3 ++ ds
      → l4 ≡ l ++ (a ∷ b ∷ c ∷ ds)
  three l l1 l2 l3 l4 ds a b c p q r s =
      s
      ∙ rw (r, q, p)
          (append_assoc ((l ++ a ∷ []) ++ b ∷ []) (c ∷ []) ds
            ∙ append_assoc (l ++ a ∷ []) (b ∷ []) (c ∷ ds)
            ∙ append_assoc l (a ∷ []) (b ∷ c ∷ ds))

  -- At its end the program waits for the child, writes one byte 1 to the worker's pipe and joins the
  -- worker, in this order and whatever each of them answers; then it removes the socket if the
  -- worker ended well, and only then; and it does nothing else. It exits with the child's code, with
  -- 254 if a signal ended the child, and with 255 if the wait failed, the worker panicked or failed,
  -- or the socket could not be removed.
  pub finish_lem :
      (path : Text) (w : host.World)
      → let (a, w1) = host.wait w in
        let (j, w3) = host.join (host.write_all (1 ∷ []) w1).1 in
        let (gone, w4) = host.remove_file path w3 in
        let (code, v) = finish host path w in
        (code ≡ code_for j gone a)
        × (laws.deeds v ≡ laws.deeds w ++ (waited ∷ wrote (1 ∷ []) ∷ joined ∷ clean_up path j))
  unfolding finish
  finish_lem path w =
      let w1 = (host.wait w).1 in
      let w2 = (host.write_all (1 ∷ []) w1).1 in
      let (c, d) = after_join-Ends path (host.wait w).0 (host.join w2) in
      (
        c,
        three (laws.deeds w) (laws.deeds w1) (laws.deeds w2) (laws.deeds (host.join w2).1) _
            (clean_up path (host.join w2).0) waited (wrote (1 ∷ [])) joined (laws.deeds-wait w)
            (laws.deeds-write_all (1 ∷ []) w1) (laws.deeds-join w2) d,
      )
