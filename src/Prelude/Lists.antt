-- ===== src/Prelude/Lists.antt =====
-- Lists measured and cut by native numbers, under the library's names, and slices of them.
use Prim.Native.Nat.{ℕ, zero, suc, ◌+◌, ◌-◌, ◌≤◌, min}
use mathlib.Core.Path.{◌≡◌, refl, sym, ap, ◌∙◌}
use mathlib.Core.List.{List, [], ◌∷◌, ◌++◌}
use native.Mathlib.Omega.{arith}

module _ {ℓ} {A : Type ℓ} where
  abbrev pub length : List A → ℕ
  length [] = 0
  length (x ∷ xs) = suc (length xs)

  abbrev pub take : ℕ → List A → List A
  take zero xs = []
  take (suc n) [] = []
  take (suc n) (x ∷ xs) = x ∷ take n xs

  abbrev pub drop : ℕ → List A → List A
  drop zero xs = xs
  drop (suc n) [] = []
  drop (suc n) (x ∷ xs) = drop n xs

  -- Shut: the program fills pages of 32768 bytes.
  unfoldable pub replicate : ℕ → A → List A
  replicate zero a = []
  replicate (suc n) a = a ∷ replicate n a

  pub length-append : (xs ys : List A) → length (xs ++ ys) ≡ length xs + length ys
  length-append [] ys = omega arith
  length-append (x ∷ xs) ys = omega (arith, length-append xs ys)

  pub length-take : (n : ℕ) (xs : List A) → length (take n xs) ≡ min n (length xs)
  length-take zero xs = omega arith
  length-take (suc n) [] = omega arith
  length-take (suc n) (x ∷ xs) = omega (arith, length-take n xs)

  pub length-drop : (n : ℕ) (xs : List A) → length (drop n xs) ≡ length xs - n
  length-drop zero xs = omega arith
  length-drop (suc n) [] = omega arith
  length-drop (suc n) (x ∷ xs) = omega (arith, length-drop n xs)

  pub length-replicate : (n : ℕ) (a : A) → length (replicate n a) ≡ n
  unfolding replicate
  length-replicate zero a = refl
  length-replicate (suc n) a = ap suc (length-replicate n a)

  pub take-append-drop : (n : ℕ) (xs : List A) → take n xs ++ drop n xs ≡ xs
  take-append-drop zero xs = refl
  take-append-drop (suc n) [] = refl
  take-append-drop (suc n) (x ∷ xs) = ap (λ l. x ∷ l) (take-append-drop n xs)

  pub take-nil : (n : ℕ) → take n [] ≡ []
  take-nil zero = refl
  take-nil (suc n) = refl

  pub drop-nil : (n : ℕ) → drop n [] ≡ []
  drop-nil zero = refl
  drop-nil (suc n) = refl

  pub drop-append : (n : ℕ) (xs ys : List A) → n ≤ length xs → drop n (xs ++ ys) ≡ drop n xs ++ ys
  drop-append zero xs ys h = refl
  drop-append (suc n) [] ys h = absurd (omega arith)
  drop-append (suc n) (x ∷ xs) ys h = drop-append n xs ys (omega arith)

  pub take-append : (n : ℕ) (xs ys : List A) → n ≤ length xs → take n (xs ++ ys) ≡ take n xs
  take-append zero xs ys h = refl
  take-append (suc n) [] ys h = absurd (omega arith)
  take-append (suc n) (x ∷ xs) ys h = ap (λ l. x ∷ l) (take-append n xs ys (omega arith))

  pub take-all : (n : ℕ) (xs : List A) → length xs ≤ n → take n xs ≡ xs
  take-all zero [] h = refl
  take-all zero (x ∷ xs) h = absurd (omega arith)
  take-all (suc n) [] h = refl
  take-all (suc n) (x ∷ xs) h = ap (λ l. x ∷ l) (take-all n xs (omega arith))

  pub drop-take : (n m : ℕ) (xs : List A) → drop n (take m xs) ≡ take (m - n) (drop n xs)
  drop-take zero m xs = ap (λ k. take k xs) {x = m} {y = m - 0} (omega arith)
  drop-take (suc n) zero xs =
      ap (λ k. take k (drop (suc n) xs)) {x = 0} {y = 0 - suc n} (omega arith)
  drop-take (suc n) (suc m) [] = sym (take-nil (suc m - suc n))
  drop-take (suc n) (suc m) (x ∷ xs) =
      drop-take n m xs ∙ ap (λ k. take k (drop n xs)) {x = m - n} {y = suc m - suc n} (omega arith)

  pub drop-drop : (n m : ℕ) (xs : List A) → drop n (drop m xs) ≡ drop (m + n) xs
  drop-drop n zero xs = ap (λ k. drop k xs) {x = n} {y = 0 + n} (omega arith)
  drop-drop n (suc m) [] = drop-nil n ∙ sym (drop-nil (suc m + n))
  drop-drop n (suc m) (x ∷ xs) =
      drop-drop n m xs ∙ ap (λ k. drop k (x ∷ xs)) {x = suc (m + n)} {y = suc m + n} (omega arith)

  pub take-append_add : (xs ys : List A) (k : ℕ) → take (length xs + k) (xs ++ ys) ≡ xs ++ take k ys
  take-append_add [] ys k = ap (λ n. take n ys) {x = 0 + k} {y = k} (omega arith)
  take-append_add (x ∷ xs) ys k =
      ap (λ n. take n (x ∷ (xs ++ ys))) {x = suc (length xs) + k} {y = suc (length xs + k)}
        (omega arith)
      ∙ ap (λ l. x ∷ l) (take-append_add xs ys k)

  pub length-zero : (xs : List A) → length xs ≡ 0 → xs ≡ []
  length-zero [] h = refl
  length-zero (x ∷ xs) h = absurd (omega arith)

  -- The part `[lo..hi]` of a page.
  abbrev pub slice : List A → ℕ → ℕ → List A
  slice xs lo hi = take (hi - lo) (drop lo xs)

  -- The page after the bytes `bs` were put at index `i`.
  unfoldable pub splice : List A → ℕ → List A → List A
  splice xs i bs = take i xs ++ (bs ++ drop (i + length bs) xs)

module _ {ℓ} {A : Type ℓ} where
  pub length-slice : (xs : List A) (lo hi : ℕ) → hi ≤ length xs → length (slice xs lo hi) ≡ hi - lo
  length-slice xs lo hi h = omega (arith, length-take (hi - lo) (drop lo xs), length-drop lo xs)

  -- A slice without its first `n` elements.
  pub drop-slice :
      (n : ℕ) (xs : List A) (lo hi : ℕ) → drop n (slice xs lo hi) ≡ slice xs (lo + n) hi
  drop-slice n xs lo hi =
      drop-take n (hi - lo) (drop lo xs)
      ∙ ap (λ l. take (hi - lo - n) l) (drop-drop n lo xs)
      ∙ ap (λ k. take k (drop (lo + n) xs)) (omega arith)

  pub length-splice :
      (xs : List A) (i : ℕ) (bs : List A)
      → i + length bs ≤ length xs
      → length (splice xs i bs) ≡ length xs
  unfolding splice
  length-splice xs i bs h = omega (
    arith,
    length-append (take i xs) (bs ++ drop (i + length bs) xs),
    length-append bs (drop (i + length bs) xs),
    length-take i xs,
    length-drop (i + length bs) xs,
  )

  -- What stands before the end of the bytes that were put at `i`.
  pub take-splice :
      (xs : List A) (i : ℕ) (bs : List A)
      → i + length bs ≤ length xs
      → take (i + length bs) (splice xs i bs) ≡ take i xs ++ bs
  unfolding splice
  take-splice xs i bs h =
      ap (λ n. take n (take i xs ++ (bs ++ drop (i + length bs) xs)))
        (omega (arith, length-take i xs))
      ∙ take-append_add (take i xs) (bs ++ drop (i + length bs) xs) (length bs)
      ∙ ap (λ l. take i xs ++ l)
          (take-append (length bs) bs (drop (i + length bs) xs) (omega arith)
            ∙ take-all (length bs) bs (omega arith))
