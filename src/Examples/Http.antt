-- ===== src/Examples/Http.antt =====
-- `fetchJson` of dashboard/src/lib/api-client.ts at concrete responses.
use proxy_pool_architect.Base.{ℕ, ◌≡◌, ◌↔◌, refl, false, none, some, [], ◌∷◌}
use proxy_pool_architect.Base.Text.{codes}
use proxy_pool_architect.Format.{decimal}
use proxy_pool_architect.Effects.{api_error, abort_error, ok, err}
use proxy_pool_architect.ApiClient.Http.{refused, answered, parse_error, rethrow, fetch_outcome}
use proxy_pool_architect.ApiClient.Errors.{fetch_outcome-status}
use proxy_pool_architect.ApiClient.Requests.{build_pagination_path, path_with}
use proxy_pool_architect.Examples.Samples.{with_text}

-- A request that the timer ends reads as a timeout.
timed_out_run :
    fetch_outcome {T = ℕ} 6000 (refused (abort_error []))
    ≡ err (api_error (codes "Request timed out after 6000ms") none)
unfolding fetch_outcome rethrow decimal
timed_out_run = refl

page_run :
    build_pagination_path (codes "/events") 20 40
    ≡ path_with (codes "/events") ((codes "limit", codes "20") ∷ (codes "offset", codes "40") ∷ [])
unfolding build_pagination_path decimal
page_run = refl

fetch_outcome-status_example :
    (fetch_outcome {T = ℕ} 6000 (answered (with_text 404 (codes "gone")))
      ≡ err (api_error (codes "gone") (some 404)))
    ↔ ((false ≡ false)
        × (parse_error {T = ℕ} (with_text 404 (codes "gone")) ≡ ok (codes "gone"))
        × (◌≡◌ {A = ℕ} 404 404))
unfolding parse_error
fetch_outcome-status_example =
    fetch_outcome-status {T = ℕ} 6000 (answered (with_text 404 (codes "gone"))) (codes "gone") 404
      (tt, tt)
