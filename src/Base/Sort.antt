-- ===== src/Base/Sort.antt =====
-- `Array.prototype.sort` as a stable insertion sort. `after a b` says that the comparator's value at
-- `a` and `b` is positive.
use Prim.Native.Nat.{ℕ, ◌+◌}
use mathlib.Core.Path.{◌≡◌, refl}
use mathlib.Core.Bool.{Bool, true, false}
use mathlib.Core.List.{List, [], ◌∷◌, Perm}
use mathlib.Core.List.Perm
use native.Mathlib.Omega.{arith}
use proxy_pool_architect.Base.Tests.{if◌then◌else◌, Bool-cases}
use proxy_pool_architect.Base.Lists.{length, filter, sum_by, All, AllPairs}
use mathlib.Core.Logic.{inl, inr}

module _ {ℓ} {A : Type ℓ} (after : A → A → Bool) where
  unfoldable pub insert : A → List A → List A
  insert x [] = x ∷ []
  insert x (y ∷ ys) = if after x y then y ∷ insert x ys else x ∷ y ∷ ys

  unfoldable pub sort : List A → List A
  unfolding insert
  sort [] = []
  sort (x ∷ xs) = insert x (sort xs)

  abbrev pub IsSorted : List A → Type 0
  IsSorted [] = Unit
  IsSorted (x ∷ xs) = All (λ y. after x y ≡ false) xs × IsSorted xs

  insert-perm : (x : A) (xs : List A) → Perm (insert x xs) (x ∷ xs)
  unfolding insert
  insert-perm x [] = Perm.rfl
  insert-perm x (y ∷ ys) = elim (Bool-cases (after x y)) [
    | inl h ↦ rw h (Perm.trans (Perm.cons y (insert-perm x ys)) (Perm.swap x y ys))
    | inr h ↦ rw h Perm.rfl
  ]

  pub sort-perm : (xs : List A) → Perm (sort xs) xs
  unfolding sort
  sort-perm [] = Perm.rfl
  sort-perm (x ∷ xs) = Perm.trans (insert-perm x (sort xs)) (Perm.cons x (sort-perm xs))

  insert-sum_by : (f : A → ℕ) (x : A) (xs : List A) → sum_by f (insert x xs) ≡ f x + sum_by f xs
  unfolding insert
  insert-sum_by f x [] = refl
  insert-sum_by f x (y ∷ ys) = ground (arith, insert-sum_by f x ys)

  pub sort-sum_by : (f : A → ℕ) (xs : List A) → sum_by f (sort xs) ≡ sum_by f xs
  unfolding sort
  sort-sum_by f [] = refl
  sort-sum_by f (x ∷ xs) = omega (arith, insert-sum_by f x (sort xs), sort-sum_by f xs)

  insert-length : (x : A) (xs : List A) → length (insert x xs) ≡ length (x ∷ xs)
  unfolding insert
  insert-length x [] = refl
  insert-length x (y ∷ ys) = ground (arith, insert-length x ys)

  pub sort-length : (xs : List A) → length (sort xs) ≡ length xs
  unfolding sort
  sort-length [] = refl
  sort-length (x ∷ xs) = omega (arith, insert-length x (sort xs), sort-length xs)

  insert-All {κ} : (P : A → Type κ) (x : A) (xs : List A) → P x → All P xs → All P (insert x xs)
  unfolding insert
  insert-All P x [] p h = (p, tt)
  insert-All P x (y ∷ ys) p h = elim (Bool-cases (after x y)) [
    | inl e ↦ rw e (h.0, insert-All P x ys p h.1)
    | inr e ↦ rw e (p, h)
  ]

  pub sort-All {κ} : (P : A → Type κ) (xs : List A) → All P xs → All P (sort xs)
  unfolding sort
  sort-All P [] h = tt
  sort-All P (x ∷ xs) h = insert-All P x (sort xs) h.0 (sort-All P xs h.1)

  -- On the values that satisfy `P` the comparator is a total preorder.
  pub record IsPreorder {κ} (P : A → Type κ) : Type (ℓ ⊔ κ) where
    pub total : (x y : A) → P x → P y → after x y ≡ true → after y x ≡ false
    pub trans :
        (x y z : A) → P x → P y → P z → after x y ≡ false → after y z ≡ false → after x z ≡ false

  module _ {κ} {P : A → Type κ} (order : IsPreorder P) where
    below_trans :
        (x y : A) (ys : List A)
        → P x
        → P y
        → All P ys
        → after x y ≡ false
        → All (λ z. after y z ≡ false) ys
        → All (λ z. after x z ≡ false) ys
    below_trans x y [] px py ps h hs = tt
    below_trans x y (z ∷ ys) px py ps h hs =
        (order.trans x y z px py ps.0 h hs.0, below_trans x y ys px py ps.1 h hs.1)

    insert-IsSorted : (x : A) (xs : List A) → P x → All P xs → IsSorted xs → IsSorted (insert x xs)
    unfolding insert
    insert-IsSorted x [] px ps s = (tt, tt)
    insert-IsSorted x (y ∷ ys) px ps s = elim (Bool-cases (after x y)) [
      | inl e ↦
          rw e (insert-All _ x ys (order.total x y px ps.0 e) s.0, insert-IsSorted x ys px ps.1 s.1)
      | inr e ↦ rw e ((e, below_trans x y ys px ps.0 ps.1 e s.0), s)
    ]

    pub sort-IsSorted : (xs : List A) → All P xs → IsSorted (sort xs)
    unfolding sort
    sort-IsSorted [] ps = tt
    sort-IsSorted (x ∷ xs) ps =
        insert-IsSorted x (sort xs) ps.0 (sort-All P xs ps.1) (sort-IsSorted xs ps.1)

  -- What the order says of two values holds of each pair in a sorted list.
  IsSorted-AllPairs :
      (P : A → Type 0) (R : A → A → Type 0)
      → ((x y : A) → P x → P y → after x y ≡ false → R x y)
      → (xs : List A) → All P xs
      → IsSorted xs
      → AllPairs R xs
  IsSorted-AllPairs P R say [] ps s = tt
  IsSorted-AllPairs P R say (x ∷ xs) ps s =
      (each xs ps.1 s.0, IsSorted-AllPairs P R say xs ps.1 s.1)
    where
      each : (ys : List A) → All P ys → All (λ y. after x y ≡ false) ys → All (R x) ys
      each [] qs h = tt
      each (y ∷ ys) qs h = (say x y ps.0 qs.0 h.0, each ys qs.1 h.1)

  pub sort-AllPairs :
      (P : A → Type 0) (R : A → A → Type 0)
      → IsPreorder P
      → ((x y : A) → P x → P y → after x y ≡ false → R x y)
      → (xs : List A) → All P xs
      → AllPairs R (sort xs)
  sort-AllPairs P R order say xs ps =
      IsSorted-AllPairs P R say (sort xs) (sort-All P xs ps) (sort-IsSorted order xs ps)

  -- Values that the comparator does not separate keep their order.
  module _ (q : A → Bool) (tied : (x y : A) → q x ≡ true → q y ≡ true → after x y ≡ false) where
    filter-insert : (x : A) (xs : List A) → filter q (insert x xs) ≡ filter q (x ∷ xs)
    unfolding insert
    filter-insert x [] = refl
    filter-insert x (y ∷ ys) = ground (arith, filter-insert x ys, tied x y)

    pub filter-sort : (xs : List A) → filter q (sort xs) ≡ filter q xs
    unfolding sort
    filter-sort [] = refl
    filter-sort (x ∷ xs) = ground (arith, filter-insert x (sort xs), filter-sort xs)
