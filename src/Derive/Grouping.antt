-- ===== src/Derive/Grouping.antt =====
-- What the three summaries of dashboard/src/lib/dashboard-derive.ts share: one summary for each group
-- of proxies, sorted.
use proxy_pool_architect.Base.{
  ℕ, ◌≡◌, ◌∙◌, ap, sym, Bool, Option, List, All, All-map, map-All, filter, any, map, sum_by,
  sum_by-map, sum_by-ext, length, is_some, if◌then◌else◌,
}
use proxy_pool_architect.Base.Text.{Text, text_beq}
use proxy_pool_architect.Base.Sort.{sort, sort-All, sort-sum_by}
use proxy_pool_architect.Base.Group.{
  is_key, group_by, group_by-entries, sum_by-group_by, sum_by-length-group_by,
}
use proxy_pool_architect.Types.Records.{ProxyEndpoint}

module _ {S : Type 0} (key : ProxyEndpoint → Option Text) (name : S → Text)
    (summary : Text → List ProxyEndpoint → S)
    (named : (t : Text) (bucket : List ProxyEndpoint) → name (summary t bucket) ≡ t)
    (after : S → S → Bool) (items : List ProxyEndpoint) where
  abbrev pub summaries : List S
  summaries = sort after (map (λ e. summary e.0 e.1) (group_by key items))

  abbrev pub IsOwn : S → Type 0
  IsOwn s = s ≡ summary (name s) (filter (λ item. is_key (name s) (key item)) items)

  pub summaries-IsOwn : All IsOwn summaries
  summaries-IsOwn = sort-All after IsOwn _ (
      map-All IsOwn _ (group_by key items)
        (All-map (group_by key items) own (group_by-entries key items)))
    where
      own :
          (e : Text × List ProxyEndpoint)
          → e.1 ≡ filter (λ item. is_key e.0 (key item)) items
          → IsOwn (summary e.0 e.1)
      own e h =
          ap (summary e.0) h
          ∙ ap (λ t. summary t (filter (λ item. is_key t (key item)) items)) (sym (named e.0 e.1))

  pub sum_by-summaries :
      (x : Text)
      → sum_by (λ s. if text_beq (name s) x then 1 else 0) summaries
        ≡ (if any (λ item. is_key x (key item)) items then 1 else 0)
  sum_by-summaries x =
      sort-sum_by after _ _
      ∙ (sum_by-map _ _ (group_by key items)
          ∙ (sum_by-ext _ _ (group_by key items)
                (λ e. ap (λ t. if text_beq t x then 1 else 0) (named e.0 e.1))
              ∙ sum_by-group_by key x items))

  -- The groups hold, together, the items that have a key.
  pub sum_by_size-summaries :
      (size : S → ℕ)
      → ((t : Text) (bucket : List ProxyEndpoint) → size (summary t bucket) ≡ length bucket)
      → sum_by size summaries ≡ length (filter (λ item. is_some (key item)) items)
  sum_by_size-summaries size sized =
      sort-sum_by after _ _
      ∙ (sum_by-map _ _ (group_by key items)
          ∙ (sum_by-ext _ _ (group_by key items) (λ e. sized e.0 e.1)
              ∙ sum_by-length-group_by key items))
