-- ===== src/Outcome.antt =====
-- How a call ends that may return an `io::Error` or panic (src/polled_fd.rs, src/io.rs).
use iosock.Io.{IoError, Result, ok, err}

pub data Outcome {ℓ} (A : Type ℓ) : Type ℓ where
  done : A → Outcome A
  fail : IoError → Outcome A
  panic : Outcome A

abbrev pub of_result {ℓ} : {A : Type ℓ} → Result A → Outcome A
of_result (ok a) = done a
of_result (err e) = fail e

-- The call returned, and what it returned satisfies `P`.
abbrev pub Returns {ℓ} : {A : Type ℓ} → (A → Type 0) → Outcome A → Type 0
Returns P (done a) = P a
Returns P (fail e) = ⊥
Returns P panic = ⊥
