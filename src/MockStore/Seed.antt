-- ===== src/MockStore/Seed.antt =====
-- dashboard/src/lib/mock-data.ts: what the mock store starts with. `hours_ago` is the clock.
pub mod First
pub mod Middle
pub mod Last
use proxy_pool_architect.Base.{ℕ, List, [], ◌∷◌}
use proxy_pool_architect.Base.Text.{Text}
use proxy_pool_architect.Types.Records.{ProxyEndpoint}
use proxy_pool_architect.MockStore.Seed.First
use proxy_pool_architect.MockStore.Seed.Middle
use proxy_pool_architect.MockStore.Seed.Last

unfoldable pub build_mock_proxy_store : (ℕ → Text) → List ProxyEndpoint
unfolding First.seed_1 First.seed_2 First.seed_3 First.seed_4 First.seed_5 First.seed_6
    Middle.seed_7 Middle.seed_8 Middle.seed_9 Middle.seed_10 Middle.seed_11 Middle.seed_12
    Last.seed_13 Last.seed_14 Last.seed_15 Last.seed_16 Last.seed_17 Last.seed_18
build_mock_proxy_store hours_ago =
    First.seed_1 hours_ago
    ∷ First.seed_2 hours_ago
    ∷ First.seed_3 hours_ago
    ∷ First.seed_4 hours_ago
    ∷ First.seed_5 hours_ago
    ∷ First.seed_6 hours_ago
    ∷ Middle.seed_7 hours_ago
    ∷ Middle.seed_8 hours_ago
    ∷ Middle.seed_9 hours_ago
    ∷ Middle.seed_10 hours_ago
    ∷ Middle.seed_11 hours_ago
    ∷ Middle.seed_12 hours_ago
    ∷ Last.seed_13 hours_ago
    ∷ Last.seed_14 hours_ago
    ∷ Last.seed_15 hours_ago
    ∷ Last.seed_16 hours_ago
    ∷ Last.seed_17 hours_ago
    ∷ Last.seed_18 hours_ago
    ∷ []
