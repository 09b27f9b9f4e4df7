-- ===== src/Derive/Latency.antt =====
-- dashboard/src/lib/dashboard-derive.ts: the average latency of a group.
use proxy_pool_architect.Base.{
  ℕ, ◌*◌, ◌≤◌, ◌<◌, ◌≡◌, ◌↔◌, refl, Option, none, some, List, [], ◌∷◌, All, length, sum_by, arith,
  ◌⊎◌, inl, inr,
}
use proxy_pool_architect.Base.Round.{round_div-ge, round_div-le}
use proxy_pool_architect.Derive.{known, average_latency}

-- A value that is known lies in the range.
abbrev pub InRange : ℕ → ℕ → Option ℕ → Type 0
InRange lo hi none = Unit
InRange lo hi (some v) = (lo ≤ v) × (v ≤ hi)

sum-InRange :
    (lo hi : ℕ) (values : List (Option ℕ))
    → All (InRange lo hi) values
    → (lo * length (known values) ≤ sum_by (λ v. v) (known values))
      × (sum_by (λ v. v) (known values) ≤ hi * length (known values))
sum-InRange lo hi [] h = omega arith
sum-InRange lo hi (none ∷ vs) h = sum-InRange lo hi vs h.1
sum-InRange lo hi (some v ∷ vs) h = omega (arith, sum-InRange lo hi vs h.1)

known-nil_or : (xs : List ℕ) → (xs ≡ []) ⊎ (0 < length xs)
known-nil_or [] = inl refl
known-nil_or (x ∷ xs) = inr (omega arith)

-- The average latency is missing exactly when no latency is known, and otherwise it lies in every range
-- that holds all known latencies.
pub average_latency-InRange :
    (lo hi : ℕ) (values : List (Option ℕ))
    → All (InRange lo hi) values
    → InRange lo hi (average_latency values)
      × ((average_latency values ≡ none) ↔ (known values ≡ []))
unfolding average_latency
average_latency-InRange lo hi values h = elim (known-nil_or (known values)) [
  | inl e ↦ rw e (tt, ((λ _. refl), (λ _. refl)))
  | inr pos ↦
      let (above, below) = sum-InRange lo hi values h in
      let n = sum_by (λ v. v) (known values) in
      let d = length (known values) in
      ground (arith, round_div-ge n d lo pos above, round_div-le n d hi pos below)
]
