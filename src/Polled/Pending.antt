-- ===== src/Polled/Pending.antt =====
-- src/polled_fd.rs: what epoll has still to hear of the set, after each of its methods.
use iosock.Prelude.{
  ℕ, ◌≡◌, refl, sym, ◌∙◌, ap, true, false, ◌||◌, none, List, [], ◌∷◌, ◌++◌, ◌==◌, ==_iff, arith,
}
use iosock.Epoll.{Flags}
use iosock.Polled.{PolledFdSet, has_fd, has_new, remove_first}
use iosock.Polled.Lookup.{IsDistinct, has_fd-remove, IsDistinct-remove}
use iosock.Polled.Interest.{Interest, cut, is_some, elem, IsDistinctNew, IsNodup}
use iosock.Polled.Asks.{IsTuned}
use iosock.Polled.Apply.{IsPending, stored-some}
use iosock.Polled.Again.{stored-remove}

elem-append : (g fd : ℕ) (l : List ℕ) → elem g (l ++ fd ∷ []) ≡ (elem g l || fd == g)
elem-append g fd [] = ground arith
elem-append g fd (x ∷ l) = ground (arith, elem-append g fd l)

IsNodup-append : (fd : ℕ) (l : List ℕ) → IsNodup l → elem fd l ≡ false → IsNodup (l ++ fd ∷ [])
IsNodup-append fd [] d h = (refl, tt)
IsNodup-append fd (x ∷ l) d h =
    (ground (arith, elem-append x fd l), IsNodup-append fd l d.1 (ground arith))

pub has_new-append :
    {E : Type 0} (g fd : ℕ) (e : E) (l : List (ℕ × E))
    → has_new g (l ++ (fd, e) ∷ []) ≡ (has_new g l || fd == g)
has_new-append g fd e [] = ground arith
has_new-append g fd e ((x, y) ∷ l) = ground (arith, has_new-append g fd e l)

IsDistinctNew-append :
    {E : Type 0} (fd : ℕ) (e : E) (l : List (ℕ × E))
    → IsDistinctNew l
    → has_new fd l ≡ false
    → IsDistinctNew (l ++ (fd, e) ∷ [])
IsDistinctNew-append fd e [] d h = (refl, tt)
IsDistinctNew-append fd e ((x, y) ∷ l) d h =
    (ground (arith, has_new-append x fd e l), IsDistinctNew-append fd e l d.1 (ground arith))

module _ {fl : Flags} where
  pub IsPending-same :
      {s : PolledFdSet fl} {k k' : Interest}
      → IsPending s k
      → ((g : ℕ) → k' g ≡ k g)
      → IsPending s k'
  IsPending-same p e = record {
    distinct = p.distinct;
    distinct_new = p.distinct_new;
    distinct_removed = p.distinct_removed;
    known = λ g h. e g ∙ p.known g h;
    waiting = λ g h. e g ∙ p.waiting g h;
    leaving = λ g h. (ap is_some (e g) ∙ (p.leaving g h).0, (p.leaving g h).1);
    nothing_else = λ g h n. e g ∙ p.nothing_else g h n;
  }

  -- Masks change, which epoll does not know yet.
  pub IsPending-tuned :
      {s s' : PolledFdSet fl} {k : Interest} {fd : ℕ}
      → IsPending s k
      → IsDistinct s'.existing
      → IsTuned fd s s'
      → IsPending s' k
  IsPending-tuned {s} {s'} p d t = record {
    distinct = d;
    distinct_new = rw t.same_new p.distinct_new;
    distinct_removed = rw t.same_removed p.distinct_removed;
    known = λ g h. p.known g (sym (t.same_fds g) ∙ h) ∙ sym (t.same_stored g);
    waiting = λ g h. p.waiting g (ap (has_new g) (sym t.same_new) ∙ h);
    leaving = λ g h.
        let (x, y) = p.leaving g (ap (elem g) (sym t.same_removed) ∙ h) in (x, t.same_fds g ∙ y);
    nothing_else =
        λ g h n. p.nothing_else g (sym (t.same_fds g) ∙ h) (ap (elem g) (sym t.same_removed) ∙ n);
  }

  -- An entry goes, and its descriptor is closed.
  pub IsPending-closed :
      {s : PolledFdSet fl} {k k' : Interest} (fd : ℕ)
      → IsPending s k
      → has_fd fd s.existing ≡ true
      → ((g : ℕ) → k' g ≡ cut fd k g)
      → IsPending (record s { existing = remove_first fd s.existing }) k'
  IsPending-closed {s} {k} {k'} fd p h e = record {
    distinct = IsDistinct-remove fd s.existing p.distinct;
    distinct_new = p.distinct_new;
    distinct_removed = p.distinct_removed;
    known = λ g x. ground (
      arith,
      has_fd-remove fd g s.existing p.distinct,
      e g,
      p.known g,
      stored-remove fd g s.existing,
    );
    waiting = λ g x. ground (arith, e g, p.waiting g);
    leaving =
        λ g x. ground (arith, e g, p.leaving g, has_fd-remove fd g s.existing p.distinct, same g);
    nothing_else =
        λ g x y. ground (arith, e g, has_fd-remove fd g s.existing p.distinct, p.nothing_else g);
  }
    where
      same : (g : ℕ) → (g == fd) ≡ true → has_fd g s.existing ≡ true
      same g t = rw ((==_iff g fd).0 t) h

  -- An entry goes, and epoll has still to hear of it.
  pub IsPending-removed :
      {s : PolledFdSet fl} {k : Interest} (fd : ℕ)
      → IsPending s k
      → has_fd fd s.existing ≡ true
      → IsPending
          (record s { existing = remove_first fd s.existing; removed = s.removed ++ fd ∷ [] })
          k
  IsPending-removed {s} {k} fd p h = record {
    distinct = IsDistinct-remove fd s.existing p.distinct;
    distinct_new = p.distinct_new;
    distinct_removed =
        IsNodup-append fd s.removed p.distinct_removed (ground (arith, p.leaving fd));
    known = λ g x.
        ground (
          arith,
          has_fd-remove fd g s.existing p.distinct,
          p.known g,
          stored-remove fd g s.existing,
        );
    waiting = p.waiting;
    leaving = λ g x. ground (
      arith,
      elem-append g fd s.removed,
      p.leaving g,
      p.known g,
      stored-some g s.existing,
      has_fd-remove fd g s.existing p.distinct,
      same g,
    );
    nothing_else = λ g x y. ground (
      arith,
      elem-append g fd s.removed,
      has_fd-remove fd g s.existing p.distinct,
      p.nothing_else g,
    );
  }
    where
      same : (g : ℕ) → (fd == g) ≡ true → has_fd g s.existing ≡ true
      same g t = rw (sym ((==_iff fd g).0 t)) h

  -- A descriptor that epoll does not watch is registered.
  pub IsPending-new :
      {s : PolledFdSet fl} {k : Interest} (fd : ℕ) (events : fl.Events)
      → IsPending s k
      → has_new fd s.new ≡ false
      → k fd ≡ none
      → IsPending (record s { new = s.new ++ (fd, events) ∷ [] }) k
  IsPending-new {s} {k} fd events p n e = record {
    distinct = p.distinct;
    distinct_new = IsDistinctNew-append fd events s.new p.distinct_new n;
    distinct_removed = p.distinct_removed;
    known = p.known;
    waiting = λ g x. ground (arith, has_new-append g fd events s.new, p.waiting g, same g);
    leaving = p.leaving;
    nothing_else = p.nothing_else;
  }
    where
      same : (g : ℕ) → (fd == g) ≡ true → k g ≡ none
      same g t = rw (sym ((==_iff fd g).0 t)) e
