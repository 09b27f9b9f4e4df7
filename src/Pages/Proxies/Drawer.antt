-- ===== src/Pages/Proxies/Drawer.antt =====
-- dashboard/src/components/proxies/ProxyDetailDrawer.tsx: the texts of the drawer, row by row. `parses`
-- and `date_format` are those of the formatters.
pub mod Hiding
use proxy_pool_architect.Base.{
  ℕ, Bool, true, false, Option, none, some, List, [], ◌∷◌, ◌++◌, or_else, if◌then◌else◌,
}
use proxy_pool_architect.Base.Text.{Text, codes, non_empty}
use proxy_pool_architect.Types.Unions.{scheme_text}
use proxy_pool_architect.Types.Records.{ProxyEndpoint}
use proxy_pool_architect.Format.{decimal}
use proxy_pool_architect.I18n.{
  Language, translate, format_date_time, format_latency, mask_credential,
}
use proxy_pool_architect.I18n.Labels.{pool_label_key, anonymity_label_key}

module _ (language : Language) (parses : Text → Bool) (date_format : Text → Text → Text) where
  abbrev t : Text → Text
  t key = translate language key none

  abbrev date : Option Text → Text
  date value = format_date_time language parses date_format value

  abbrev is_required : ProxyEndpoint → Bool
  is_required proxy = or_else proxy.auth_required false

  unfoldable pub username_text : ProxyEndpoint → Text
  unfolding translate mask_credential
  username_text proxy = elim (non_empty proxy.username) [
    | some username ↦ mask_credential language (some username)
    | none ↦
        if is_required proxy then t (codes "proxies.detail.hidden") else t (codes "common.notSet")
  ]

  -- The label and the text of each row, the badges first.
  unfoldable pub drawer_rows : ProxyEndpoint → List (Text × Text)
  unfolding translate format_latency format_date_time username_text pool_label_key
      anonymity_label_key decimal
  drawer_rows proxy =
      (codes "status", t (pool_label_key proxy.status))
      ∷ (codes "scheme", scheme_text proxy.scheme)
      ∷ (codes "anonymity", t (anonymity_label_key proxy.anonymity))
      ∷ (t (codes "proxies.table.host"), proxy.host)
      ∷ (t (codes "proxies.table.port"), decimal proxy.port)
      ∷ (t (codes "proxies.table.source"), proxy.source)
      ∷ (
        t (codes "proxies.table.country"),
        or_else (non_empty proxy.country) (t (codes "common.unknown")),
      )
      ∷ (codes "ASN", or_else (non_empty proxy.asn) (t (codes "common.unknown")))
      ∷ (t (codes "proxies.table.latency"), format_latency language proxy.latency_ms)
      ∷ (t (codes "proxies.table.score"), decimal proxy.score)
      ∷ (
        t (codes "proxies.detail.successFail"),
        decimal proxy.success_count ++ (codes " / " ++ decimal proxy.fail_count),
      )
      ∷ (t (codes "proxies.table.lastChecked"), date proxy.last_checked_at)
      ∷ (t (codes "proxies.detail.lastSuccess"), date proxy.last_success_at)
      ∷ (
        t (codes "proxies.detail.authentication"),
        if is_required proxy
            then t (codes "proxies.detail.authConfigured")
            else t (codes "proxies.detail.authNotRequired"),
      )
      ∷ (t (codes "proxies.detail.username"), username_text proxy)
      ∷ (
        t (codes "proxies.detail.password"),
        if is_required proxy
            then t (codes "proxies.detail.authConfigured")
            else t (codes "common.notSet"),
      )
      ∷ (
        t (codes "proxies.detail.consecutiveFail"),
        decimal (or_else proxy.consecutive_fail_count 0),
      )
      ∷ (t (codes "proxies.detail.cooldownUntil"), date proxy.cooldown_until)
      ∷ (
        t (codes "proxies.table.lastError"),
        or_else (non_empty proxy.last_error) (t (codes "proxies.detail.noRecentError")),
      )
      ∷ []

-- The drawer for what is selected.
pub data Drawer : Type 0 where
  shut : Drawer
  waiting : (heading : Text) → Drawer
  nothing : (heading : Text) → Drawer
  details : (heading : Text) (rows : List (Text × Text)) → Drawer

module _ (language : Language) (parses : Text → Bool) (date_format : Text → Text → Text) where
  abbrev pub drawer_for : Bool → Option ProxyEndpoint → Drawer
  drawer_for true none = waiting (translate language (codes "proxies.detail.inspecting") none)
  drawer_for true (some proxy) = waiting proxy.id
  drawer_for false none = nothing (translate language (codes "proxies.detail.inspecting") none)
  drawer_for false (some proxy) = details proxy.id (drawer_rows language parses date_format proxy)

  unfoldable pub drawer : (open_drawer loading : Bool) → Option ProxyEndpoint → Drawer
  unfolding translate drawer_rows
  drawer open_drawer loading proxy = if open_drawer then drawer_for loading proxy else shut
