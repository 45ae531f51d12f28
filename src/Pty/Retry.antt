-- ===== src/Pty/Retry.antt =====
-- src/pty.rs, `retry_interrupted`: how long a call is retried.
use iosock.Prelude.{ℕ, zero, suc, ◌+◌, ◌≡◌, ◌≢◌, refl, ◌∙◌, ap, false, some, arith}
use iosock.Io.{
  ErrorKind, connection_reset, broken_pipe, interrupted, invalid_data, other, IoError, Result, ok,
  err,
}
use iosock.Pty.Libc.{Libc}
use iosock.Pty.Open.{Call, is_retried, retry_interrupted}

module _ (libc : Libc) {A : Type 0} (func : Call libc A) where
  -- The call answers `ErrorKind::Interrupted` `n` times in a row, which leads from one state to the
  -- other.
  pub data Interrupted : ℕ → libc.World → libc.World → Type 0 where
    at_once : {w : libc.World} → Interrupted zero w w
    again :
        {n : ℕ} {w v u : libc.World} (e : IoError)
        → func w ≡ (err e, v)
        → e.kind ≡ interrupted
        → Interrupted n v u
        → Interrupted (suc n) w u

  -- The result ends the retries: it is a value, or an error that is not an interruption.
  abbrev pub IsFinal : Result A → Type 0
  IsFinal (ok a) = Unit {0}
  IsFinal (err e) = e.kind ≢ interrupted

  not_retried : (k : ErrorKind) → k ≢ interrupted → is_retried libc k ≡ false
  not_retried connection_reset h = refl
  not_retried broken_pipe h = refl
  not_retried interrupted h = elim (h refl) [ ]
  not_retried invalid_data h = refl
  not_retried (other n) h = refl

  last_try :
      (n : ℕ) (w : libc.World) (r : Result A) (v : libc.World)
      → func w ≡ (r, v)
      → IsFinal r
      → retry_interrupted libc (suc n) func w ≡ some (r, v)
  unfolding retry_interrupted
  last_try n w (ok a) v e f = rw e refl
  last_try n w (err x) v e f = rw (e, not_retried x.kind f) refl

  next_try :
      (n : ℕ) (w v : libc.World) (e : IoError)
      → func w ≡ (err e, v)
      → e.kind ≡ interrupted
      → retry_interrupted libc (suc n) func w ≡ retry_interrupted libc n func v
  unfolding retry_interrupted
  next_try n w v e q t = rw (q, t) refl

  -- `retry_interrupted` ends at the first answer that is not `ErrorKind::Interrupted`, a value or any
  -- other error, and returns it as it is, with the state that the call leaves: after `n`
  -- interruptions, for any number of tries above `n`.
  pub retry_interrupted_lem :
      (n m : ℕ) {w v u : libc.World} {r : Result A}
      → Interrupted n w v
      → func v ≡ (r, u)
      → IsFinal r
      → retry_interrupted libc (n + suc m) func w ≡ some (r, u)
  retry_interrupted_lem zero m {w = w} {u = u} {r = r} at_once e f =
      ap (λ k. retry_interrupted libc k func w) {x = zero + suc m} {y = suc m} (omega arith)
      ∙ last_try m w r u e f
  retry_interrupted_lem (suc n) m {w = w} (again {v = w'} x q t h) e f =
      ap (λ k. retry_interrupted libc k func w) {x = suc n + suc m} {y = suc (n + suc m)}
        (omega arith)
      ∙ next_try (n + suc m) w w' x q t
      ∙ retry_interrupted_lem n m h e f
