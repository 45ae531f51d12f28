-- ===== src/Pty/Streams.antt =====
-- src/pty.rs, what the new process runs before the program, against a table of descriptors.
use mathlib.Core.Path.{subst}
use iosock.Prelude.{
  ℕ, ◌≢◌, zero, suc, ◌≡◌, refl, sym, ap, ◌∙◌, true, false, Option, none, some, List, if◌then◌else◌,
  Bool-cases, inl, inr, arith,
}
use iosock.Io.{Result, ok, err}
use iosock.Pty.Libc.{ℤ, pos, is_minus_one, Libc}
use iosock.Pty.Open.{Call, checked, after_try, is_retried, retry_interrupted, safe_open, safe_dup2}
use iosock.Pty.Spawn.{and_then, dropping, bind_stdio, pre_exec}
use iosock.Pty.Table.{same_fd, same_fd_path, same_fd_refl, is_stdio, Table, opens, TableLaws}
use iosock.Pty.Patience.{Patient, Returns, pre_exec-Returns}

module _ {libc : Libc} (laws : TableLaws libc) where
  abbrev Has : Table → libc.World → Type 0
  Has t w = (g : ℤ) → laws.table w g ≡ t g

  -- What holds of a value and what it leaves, and what is left with an error.
  abbrev Ends :
      {A : Type 0}
      → (libc.World → Type 0)
      → (A → libc.World → Type 0)
      → Result A × libc.World
      → Type 0
  Ends P Q (ok a, w) = Q a w
  Ends P Q (err e, w) = P w

  abbrev EndsIn :
      {A : Type 0}
      → (libc.World → Type 0)
      → (A → libc.World → Type 0)
      → Option (Result A × libc.World)
      → Type 0
  EndsIn P Q none = Unit
  EndsIn P Q (some r) = Ends P Q r

  after_try-Ends :
      {A : Type 0} (P : libc.World → Type 0) (Q : A → libc.World → Type 0)
      (r : Result A × libc.World) (rest : Option (Result A × libc.World))
      → Ends P Q r
      → (P r.1 → EndsIn P Q rest)
      → EndsIn P Q (after_try libc r rest)
  after_try-Ends P Q (ok a, w) rest h k = h
  after_try-Ends P Q (err e, w) rest h k = elim (Bool-cases (is_retried libc e.kind)) [
    | inl b ↦ rw b (k h)
    | inr b ↦ rw b h
  ]

  retry-Ends :
      {A : Type 0} (P : libc.World → Type 0) (Q : A → libc.World → Type 0) (func : Call libc A)
      → ((w : libc.World) → P w → Ends P Q (func w))
      → (n : ℕ) (w : libc.World) → P w
      → EndsIn P Q (retry_interrupted libc n func w)
  unfolding retry_interrupted
  retry-Ends P Q func f zero w p = tt
  retry-Ends P Q func f (suc n) w p =
      after_try-Ends P Q (func w) (retry_interrupted libc n func (func w).1) (f w p)
        (λ q. retry-Ends P Q func f n (func w).1 q)

  and_then-Ends :
      {A : Type 0} (P P' : libc.World → Type 0) (Q : A → libc.World → Type 0)
      (R : Unit {0} → libc.World → Type 0) (o : Option (Result A × libc.World))
      (f : A → libc.World → Option (Result (Unit {0}) × libc.World))
      → EndsIn P Q o
      → ((w : libc.World) → P w → P' w)
      → ((a : A) (w : libc.World) → Q a w → EndsIn P' R (f a w))
      → EndsIn P' R (and_then libc o f)
  and_then-Ends P P' Q R none f h p k = tt
  and_then-Ends P P' Q R (some (ok a, w)) f h p k = k a w h
  and_then-Ends P P' Q R (some (err e, w)) f h p k = p w h

  dropping-Ends :
      (fd : ℤ) (P P' : libc.World → Type 0) (Q Q' : Unit {0} → libc.World → Type 0)
      (o : Option (Result (Unit {0}) × libc.World))
      → EndsIn P Q o
      → ((w : libc.World) → P w → P' (libc.close fd w))
      → ((u : Unit {0}) (w : libc.World) → Q u w → Q' u (libc.close fd w))
      → EndsIn P' Q' (dropping libc fd o)
  dropping-Ends fd P P' Q Q' none h p q = tt
  dropping-Ends fd P P' Q Q' (some (ok u, w)) h p q = q u w h
  dropping-Ends fd P P' Q Q' (some (err e, w)) h p q = p w h

  weaken :
      {A : Type 0} (P P' : libc.World → Type 0) (Q : A → libc.World → Type 0)
      (o : Option (Result A × libc.World))
      → EndsIn P Q o
      → ((w : libc.World) → P w → P' w)
      → EndsIn P' Q o
  weaken P P' Q none h p = tt
  weaken P P' Q (some (ok a, w)) h p = h
  weaken P P' Q (some (err e, w)) h p = p w h

  safe_open-Ends :
      (name : List ℕ) (t : Table) (w : libc.World)
      → Has t w
      → Ends
          (Has t)
          (λ fd v. (t fd ≡ none) × Has (opens fd (some name) t) v)
          (safe_open libc name w)
  unfolding safe_open checked
  safe_open-Ends name t w h = elim (Bool-cases (is_minus_one (libc.open_file name w).0)) [
    | inl b ↦ rw b (λ g. laws.table-open name w g ∙ rw b (h g))
    | inr b ↦ rw b (
      sym (h (libc.open_file name w).0) ∙ laws.open_fresh name w b,
      λ g. laws.table-open name w g ∙ rw (b, h g) refl,
    )
  ]

  safe_dup2-Ends :
      (src dest : ℤ) (t : Table) (w : libc.World)
      → Has t w
      → Ends (Has t) (λ u v. Has (opens dest (t src) t) v) (safe_dup2 libc src dest w)
  unfolding safe_dup2 checked
  safe_dup2-Ends src dest t w h = elim (Bool-cases (is_minus_one (libc.dup2 src dest w).0)) [
    | inl b ↦ rw b (λ g. laws.table-dup2 src dest w g ∙ rw b (h g))
    | inr b ↦ rw b (λ g. laws.table-dup2 src dest w g ∙ rw (b, h src, h g) refl)
  ]

  -- The descriptors but 0, 1 and 2 are as in the table.
  abbrev Beside : Table → libc.World → Type 0
  Beside t w = (g : ℤ) → is_stdio g ≡ false → laws.table w g ≡ t g

  -- The table once 0, and 0 and 1, are duplicates.
  abbrev bound_0 : ℤ → Table → Table
  bound_0 s t = opens (pos 0) (t s) t

  abbrev bound_1 : ℤ → Table → Table
  bound_1 s t = opens (pos 1) (bound_0 s t s) (bound_0 s t)

  abbrev bound_2 : ℤ → Table → Table
  bound_2 s t = opens (pos 2) (bound_1 s t s) (bound_1 s t)

  bind_stdio-Ends :
      (tries : ℕ) (s : ℤ) (t : Table) (w : libc.World)
      → Has t w
      → EndsIn (Beside t) (λ u v. Has (bound_2 s t) v) (bind_stdio libc tries s w)
  unfolding bind_stdio
  bind_stdio-Ends tries s t w h =
      and_then-Ends (Has t) (Beside t) (λ u v. Has (bound_0 s t) v) (λ u v. Has (bound_2 s t) v)
        (retry_interrupted libc tries (safe_dup2 libc s (pos 0)) w) _
        (retry-Ends (Has t) (λ u v. Has (bound_0 s t) v) (safe_dup2 libc s (pos 0))
          (safe_dup2-Ends s (pos 0) t) tries w h)
        (λ v k g n. k g)
        (λ u v k.
          and_then-Ends (Has (bound_0 s t)) (Beside t) (λ u v. Has (bound_1 s t) v)
            (λ u v. Has (bound_2 s t) v) (retry_interrupted libc tries (safe_dup2 libc s (pos 1)) v)
            _
            (retry-Ends (Has (bound_0 s t)) (λ u v. Has (bound_1 s t) v) (safe_dup2 libc s (pos 1))
              (safe_dup2-Ends s (pos 1) (bound_0 s t)) tries v k)
            (λ v k g n. k g ∙ ground (arith, n))
            (λ u v k.
              weaken (Has (bound_1 s t)) (Beside t) (λ u v. Has (bound_2 s t) v)
                (retry_interrupted libc tries (safe_dup2 libc s (pos 2)) v)
                (retry-Ends (Has (bound_1 s t)) (λ u v. Has (bound_2 s t) v)
                  (safe_dup2 libc s (pos 2)) (safe_dup2-Ends s (pos 2) (bound_1 s t)) tries v k)
                (λ v k g n. k g ∙ ground (arith, n))))

  -- The slave is a descriptor of its own if 0, 1 and 2 are open.
  slave_apart :
      (s : ℤ) (t : Table)
      → t s ≡ none
      → ((g : ℤ) → is_stdio g ≡ true → t g ≢ none)
      → is_stdio s ≡ false
  slave_apart s t n h = elim (Bool-cases (is_stdio s)) [ inl e ↦ elim (h s e n) [ ] | inr e ↦ e ]

  closed_slave :
      (s : ℤ) (name : List ℕ) (t : Table)
      → t s ≡ none
      → is_stdio s ≡ false
      → (g : ℤ)
      → opens s none (bound_2 s (opens s (some name) t)) g ≡ (if is_stdio g then some name else t g)
  closed_slave s name t n k g = elim (Bool-cases (same_fd g s)) [
    | inl e ↦
        subst
          (λ x.
            opens s none (bound_2 s (opens s (some name) t)) x
            ≡ (if is_stdio x then some name else t x))
          (sym (same_fd_path g s e)) (rw (same_fd_refl s, k, n) refl)
    | inr e ↦ ground (arith, e, k, same_fd_refl s)
  ]

  still_there :
      (s : ℤ) (name : List ℕ) (t : Table)
      → t s ≡ none
      → (g : ℤ) → opens s none (opens s (some name) t) g ≡ t g
  still_there s name t n g = elim (Bool-cases (same_fd g s)) [
    | inl e ↦
        subst (λ x. opens s none (opens s (some name) t) x ≡ t x) (sym (same_fd_path g s e))
          (rw (same_fd_refl s, n) refl)
    | inr e ↦ rw e refl
  ]

  pre_exec-EndsIn :
      (tries : ℕ) (name : List ℕ) (w : libc.World)
      → ((g : ℤ) → is_stdio g ≡ true → laws.table w g ≢ none)
      → EndsIn
          (Beside (laws.table w))
          (λ u v. (g : ℤ) → laws.table v g ≡ (if is_stdio g then some name else laws.table w g))
          (pre_exec libc tries name w)
  unfolding pre_exec checked
  pre_exec-EndsIn tries name w h =
      let t = laws.table w in
      and_then-Ends (Has t) (Beside t) (λ u v. Has t v) _ (some (checked libc tt (libc.setsid w))) _
        (begun (libc.setsid w) (laws.table-setsid w)) (λ v k g n. k g)
        (λ u v k.
          and_then-Ends (Has t) (Beside t) (λ s x. (t s ≡ none) × Has (opens s (some name) t) x) _
            (retry_interrupted libc tries (safe_open libc name) v) _
            (retry-Ends (Has t) (λ s x. (t s ≡ none) × Has (opens s (some name) t) x)
              (safe_open libc name) (safe_open-Ends name t) tries v k)
            (λ v k g n. k g)
            (λ s x m.
              dropping-Ends s (Beside (opens s (some name) t)) (Beside t)
                (λ u v. Has (bound_2 s (opens s (some name) t)) v) _ (bind_stdio libc tries s x)
                (bind_stdio-Ends tries s (opens s (some name) t) x m.1)
                (λ v k g n.
                  laws.table-close s v g
                  ∙ ap (λ y. if same_fd g s then none else y) (k g n)
                  ∙ still_there s name t m.0 g)
                (λ u v k g.
                  laws.table-close s v g
                  ∙ ap (λ y. if same_fd g s then none else y) (k g)
                  ∙ closed_slave s name t m.0 (slave_apart s t m.0 h) g)))
    where
      begun :
          (r : ℤ × libc.World)
          → Has (laws.table w) r.1
          → Ends (Has (laws.table w)) (λ u v. Has (laws.table w) v) (checked libc tt r)
      begun (n, v) k = elim (Bool-cases (is_minus_one n)) [ inl b ↦ rw b k | inr b ↦ rw b k ]

  -- What `pre_exec` leaves of the table.
  abbrev pub Binds : List ℕ → Table → Option (Result (Unit {0}) × libc.World) → Type 0
  Binds name t none = ⊥
  Binds name t (some (ok u, v)) = (g : ℤ) → laws.table v g ≡ (if is_stdio g then some name else t g)
  Binds name t (some (err e, v)) = (g : ℤ) → is_stdio g ≡ false → laws.table v g ≡ t g

  returned-Binds :
      (name : List ℕ) (t : Table) (o : Option (Result (Unit {0}) × libc.World))
      → Returns libc o
      → EndsIn
          (Beside t)
          (λ u v. (g : ℤ) → laws.table v g ≡ (if is_stdio g then some name else t g))
          o
      → Binds name t o
  returned-Binds name t none r h = cc
  returned-Binds name t (some (ok u, v)) r h = h
  returned-Binds name t (some (err e, v)) r h = h

  -- What the new process runs before the program, if 0, 1 and 2 are open in it and no call is
  -- interrupted more than `k` times in a row: within `k` retries of each call it succeeds, and then
  -- 0, 1 and 2 are the terminal with the name and every other descriptor is what it was, the slave
  -- that it opened being closed again; or it fails, and every descriptor but 0, 1 and 2 is what it
  -- was.
  pub pre_exec-Binds :
      (k : ℕ) (name : List ℕ) (w : libc.World)
      → ((g : ℤ) → is_stdio g ≡ true → laws.table w g ≢ none)
      → Patient libc k (safe_open libc name)
      → ((src dest : ℤ) → Patient libc k (safe_dup2 libc src dest))
      → Binds name (laws.table w) (pre_exec libc (suc k) name w)
  pre_exec-Binds k name w h p q =
      returned-Binds name (laws.table w) (pre_exec libc (suc k) name w)
        (pre_exec-Returns libc k name w p q) (pre_exec-EndsIn (suc k) name w h)
