-- ===== src/Pty/Patience.antt =====
-- src/pty.rs, `pre_exec`, where no call is interrupted too often.
use iosock.Prelude.{ℕ, ◌+◌, ◌-◌, ◌≤◌, suc, ◌≡◌, refl, ap, ◌∙◌, Option, none, some, List, arith}
use iosock.Io.{Result, ok, err}
use iosock.Pty.Libc.{ℤ, pos, Libc}
use iosock.Pty.Open.{Call, checked, retry_interrupted, safe_open, safe_dup2}
use iosock.Pty.Retry.{Interrupted, IsFinal, retry_interrupted_lem}
use iosock.Pty.Spawn.{and_then, dropping, bind_stdio, pre_exec}

module _ (libc : Libc) where
  -- A call that is interrupted `k` times in a row at most, whatever the state it is made in.
  abbrev pub Patient : {A : Type 0} → ℕ → Call libc A → Type 0
  Patient {A} k func =
      (w : libc.World)
      → (n : ℕ) × (v : libc.World) × (r : Result A) × (u : libc.World) × (n ≤ k)
        × Interrupted libc func n w v
        × (func v ≡ (r, u))
        × IsFinal libc func r

  abbrev pub Returns : {A : Type 0} → Option (Result A × libc.World) → Type 0
  Returns {A} o = (r : Result A × libc.World) × (o ≡ some r)

  retry-Returns :
      {A : Type 0} (k : ℕ) (func : Call libc A) (w : libc.World)
      → Patient k func
      → Returns (retry_interrupted libc (suc k) func w)
  retry-Returns k func w h =
      let (n, v, r, u, l, i, e, f) = h w in
      (
        (r, u),
        ap (λ m. retry_interrupted libc m func w) {x = suc k} {y = n + suc (k - n)}
              (omega (arith, l))
            ∙ retry_interrupted_lem libc func n (k - n) i e f,
      )

  and_then-Returns :
      {A : Type 0} (o : Option (Result A × libc.World))
      (f : A → libc.World → Option (Result (Unit {0}) × libc.World))
      → Returns o
      → ((a : A) (w : libc.World) → Returns (f a w))
      → Returns (and_then libc o f)
  and_then-Returns none f h k = cc
  and_then-Returns (some (ok a, w)) f h k = k a w
  and_then-Returns (some (err e, w)) f h k = ((err e, w), refl)

  dropping-Returns :
      (fd : ℤ) (o : Option (Result (Unit {0}) × libc.World))
      → Returns o
      → Returns (dropping libc fd o)
  dropping-Returns fd none h = cc
  dropping-Returns fd (some (r, w)) h = ((r, libc.close fd w), refl)

  -- All of what the new process runs before the program comes to its end.
  pub pre_exec-Returns :
      (k : ℕ) (name : List ℕ) (w : libc.World)
      → Patient k (safe_open libc name)
      → ((src dest : ℤ) → Patient k (safe_dup2 libc src dest))
      → Returns (pre_exec libc (suc k) name w)
  unfolding pre_exec bind_stdio
  pre_exec-Returns k name w p q =
      and_then-Returns (some (checked libc tt (libc.setsid w))) _
        (checked libc tt (libc.setsid w), refl)
        (λ u v.
          and_then-Returns (retry_interrupted libc (suc k) (safe_open libc name) v) _
            (retry-Returns k (safe_open libc name) v p)
            (λ s x. dropping-Returns s _ (
              and_then-Returns (retry_interrupted libc (suc k) (safe_dup2 libc s (pos 0)) x) _
                (retry-Returns k (safe_dup2 libc s (pos 0)) x (q s (pos 0)))
                (λ u y.
                  and_then-Returns (retry_interrupted libc (suc k) (safe_dup2 libc s (pos 1)) y) _
                    (retry-Returns k (safe_dup2 libc s (pos 1)) y (q s (pos 1)))
                    (λ u z. retry-Returns k (safe_dup2 libc s (pos 2)) z (q s (pos 2)))))))
