-- ===== src/Base/Slices.antt =====
-- Slices that follow one another.
use native.Mathlib.Nat.{zero-add, suc-add}
use Prim.Native.Nat.{ℕ, zero, suc, ◌+◌, ◌-◌, ◌≤◌}
use proxy_pool_architect.Base.{◌≡◌, refl, ap, List, [], ◌∷◌, ◌++◌, length, take, drop, slice, arith}

module _ {ℓ} {A : Type ℓ} where
  take_nil : (n : ℕ) → take {A = A} n [] ≡ []
  take_nil zero = refl
  take_nil (suc n) = refl

  drop_nil : (n : ℕ) → drop {A = A} n [] ≡ []
  drop_nil zero = refl
  drop_nil (suc n) = refl

  pub take-add : (n m : ℕ) (xs : List A) → take n xs ++ take m (drop n xs) ≡ take (n + m) xs
  take-add zero m xs = rw zero-add
  take-add (suc n) m [] = rw suc-add (ground (arith, take_nil m))
  take-add (suc n) m (x ∷ xs) = rw suc-add (ap (◌∷◌ x) (take-add n m xs))

  drop-add : (n m : ℕ) (xs : List A) → drop n (drop m xs) ≡ drop (m + n) xs
  drop-add n zero xs = rw zero-add
  drop-add n (suc m) [] = rw suc-add (drop_nil n)
  drop-add n (suc m) (x ∷ xs) = rw suc-add (drop-add n m xs)

  pub take-all : (n : ℕ) (xs : List A) → length xs ≤ n → take n xs ≡ xs
  take-all zero [] h = refl
  take-all zero (x ∷ xs) h = absurd (omega arith)
  take-all (suc n) [] h = refl
  take-all (suc n) (x ∷ xs) h = ap (◌∷◌ x) (take-all n xs (omega arith))

  pub slice-append :
      (o n m : ℕ) (xs : List A)
      → slice o (o + n) xs ++ slice (o + n) ((o + n) + m) xs ≡ slice o (o + (n + m)) xs
  slice-append o n m xs =
      rw (add-sub o n, add-sub (o + n) m, add-sub o (n + m), ← drop-add n o xs)
        (take-add n m (drop o xs))
    where
      add-sub : (a b : ℕ) → (a + b) - a ≡ b
      add-sub a b = omega arith
