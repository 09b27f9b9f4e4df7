-- ===== src/Format/Masking.antt =====
-- dashboard/src/lib/format.ts: what a masked credential shows.
use proxy_pool_architect.Base.{
  ◌<◌, ◌≤◌, ◌≡◌, ap, some, [], ◌∷◌, ◌++◌, length, take, arith, ◌⊎◌, inl, inr,
}
use proxy_pool_architect.Base.Text.{Text, codes}
use proxy_pool_architect.Format.{credential_or}

-- Two credentials of more than two characters that begin with the same two characters are masked
-- alike, so nothing behind these shows; two of at most two characters are always masked alike.
pub credential_or-hides :
    (not_set s t : Text)
    → ((2 < length s) × (2 < length t) × (take 2 s ≡ take 2 t))
      ⊎ ((0 < length s) × (length s ≤ 2) × (0 < length t) × (length t ≤ 2))
    → credential_or not_set (some s) ≡ credential_or not_set (some t)
unfolding credential_or
credential_or-hides not_set [] t h = absurd (omega arith)
credential_or-hides not_set (a ∷ s) [] h = absurd (omega arith)
credential_or-hides not_set (a ∷ s) (b ∷ t) (inl h) = ground (arith, ap (λ u. u ++ codes "***") h.2)
credential_or-hides not_set (a ∷ s) (b ∷ t) (inr h) = ground arith
