-- ===== src/ApiClient/Params.antt =====
-- dashboard/src/lib/api-client.ts: what the parameters of a request say.
use proxy_pool_architect.Base.{
  ◌≡◌, refl, Option, none, some, List, [], ◌∷◌, or_else, or_option, if◌then◌else◌, arith,
}
use proxy_pool_architect.Base.Text.{Text, codes, text_beq, text_beq_iff, non_empty}
use proxy_pool_architect.Format.{decimal}
use proxy_pool_architect.I18n.Entries.{lookup}
use proxy_pool_architect.Types.Unions.{pool_text, scheme_text, anonymity_text}
use proxy_pool_architect.Types.Records.{ProxyListQuery}
use proxy_pool_architect.ApiClient.Requests.{
  set_param, set_some, text_of, live_proxy_list_params, live_proxy_snapshot_limit,
}

pub lookup-set_param :
    (j k v : Text) (params : List (Text × Text))
    → lookup j (set_param k v params) ≡ (if text_beq k j then some v else lookup j params)
lookup-set_param j k v [] = refl
lookup-set_param j k v ((i, w) ∷ params) =
    ground
      (arith, text_beq_iff k j, text_beq_iff i k, text_beq_iff i j, lookup-set_param j k v params)

pub lookup-set_some :
    (j k : Text) (v : Option Text) (params : List (Text × Text))
    → lookup j (set_some k v params)
      ≡ (if text_beq k j then or_option v (lookup j params) else lookup j params)
lookup-set_some j k none params = ground arith
lookup-set_some j k (some v) params = lookup-set_param j k v params

or_option-none : {A : Type 0} (v : Option A) → or_option v none ≡ v
or_option-none none = refl
or_option-none (some a) = refl

ruleset laws = (lookup-set_some, lookup-set_param, or_option-none)

-- Each parameter of the list request is there exactly when the query has its criterion, and has that
-- value; the limit is 500 and the offset 0 if the query has none.
pub live_proxy_list_params_lem :
    (query : ProxyListQuery)
    → let params = live_proxy_list_params query in
      (lookup (codes "limit") params
        ≡ some (decimal (or_else query.limit live_proxy_snapshot_limit)))
      × (lookup (codes "offset") params ≡ some (decimal (or_else query.offset 0)))
      × (lookup (codes "pool") params ≡ text_of pool_text query.pool)
      × (lookup (codes "scheme") params ≡ text_of scheme_text query.scheme)
      × (lookup (codes "anonymity") params ≡ text_of anonymity_text query.anonymity)
      × (lookup (codes "country") params ≡ non_empty query.country)
      × (lookup (codes "source") params ≡ non_empty query.source)
      × (lookup (codes "q") params ≡ non_empty query.q)
      × (lookup (codes "min_score") params ≡ text_of decimal query.min_score)
unfolding live_proxy_list_params
live_proxy_list_params_lem query = (
  simp laws,
  simp laws,
  simp laws,
  simp laws,
  simp laws,
  simp laws,
  simp laws,
  simp laws,
  simp laws,
)
