-- ===== src/Pages/Providers/Paging.antt =====
-- dashboard/src/pages/ProvidersPage.tsx: the pages of the table.
use proxy_pool_architect.Base.{
  ℕ, zero, suc, ◌+◌, ◌-◌, ◌*◌, ◌≡◌, refl, ◌∙◌, List, [], ◌++◌, take, drop, arith,
}
use proxy_pool_architect.Base.Slices.{take-add, take-all}
use proxy_pool_architect.Types.Records.{ProviderSummary}
use proxy_pool_architect.Pages.Providers.{
  ProvidersState, providers_page_size, total_pages_of, visible_items, to_page,
}

-- What the table shows on the pages up to one, in order.
abbrev pub shown_up_to : ℕ → ProvidersState → List ProviderSummary
shown_up_to zero s = []
shown_up_to (suc n) s = shown_up_to n s ++ visible_items (to_page (suc n) s)

visible-slice :
    (n : ℕ) (s : ProvidersState)
    → visible_items (to_page (suc n) s)
      ≡ take providers_page_size (drop (n * providers_page_size) s.items)
unfolding visible_items
visible-slice n s = rw (before, width) refl
  where
    before : (suc n - 1) * 8 ≡ n * 8
    before = omega arith

    width : (n * 8 + 8) - n * 8 ≡ 8
    width = omega arith

shown_up_to-take :
    (n : ℕ) (s : ProvidersState) → shown_up_to n s ≡ take (n * providers_page_size) s.items
shown_up_to-take zero s = refl
shown_up_to-take (suc n) s =
    rw (shown_up_to-take n s, visible-slice n s, take-add (n * 8) 8 s.items, pages) refl
  where
    pages : n * 8 + 8 ≡ suc n * 8
    pages = omega arith

-- The pages of the providers table, from the first to the last, together show each provider once, in their order.
pub shown_up_to_all : (s : ProvidersState) → shown_up_to (total_pages_of s) s ≡ s.items
shown_up_to_all s = shown_up_to-take (total_pages_of s) s ∙ take-all _ s.items (omega arith)
