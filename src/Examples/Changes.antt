-- ===== src/Examples/Changes.antt =====
-- The deletion of a proxy and the import of proxies (dashboard/src/pages) in concrete states.
use proxy_pool_architect.Base.{◌≡◌, refl, true, false, none, some, List, [], ◌∷◌, map}
use proxy_pool_architect.Base.Text.{Text, codes}
use proxy_pool_architect.Effects.{ok}
use proxy_pool_architect.ApiClient.Client.{mock}
use proxy_pool_architect.Pages.Proxies.{ProxiesState, default_filters, confirm_delete}
use proxy_pool_architect.Pages.Proxies.Deletion.{IsDeleted, confirm_delete-IsDeleted}
use proxy_pool_architect.Examples.Samples.{
  first_proxy, three_proxies, browser, empty_server, no_state,
}
use proxy_pool_architect.Types.Unions.{ProxyUrlImportFileType, ProxyUrlImportDetectedFormat}
use proxy_pool_architect.Types.Records.{ProxyUrlImportResult, ProviderSummary}
use proxy_pool_architect.Pages.Providers.{
  ProvidersState, initial_providers, shows_panels, total_pages_of, visible_items, next_page,
  end_effect_load, edit_form, begin_submit, end_submit, end_reload,
}
use proxy_pool_architect.Pages.Providers.Results.{ShowsNoResult, Reach-ShowsNoResult}
use proxy_pool_architect.Pages.Providers.Results as Results

abbrev listed : ProxiesState
listed = record {
  filters = default_filters;
  options = record { countries = []; sources = [] };
  page = 1;
  shown = some (record { items = three_proxies; total = 3; limit = 8; offset = 0 });
  loading = false;
  error = none;
  drawer_open = true;
  selected_proxy = some first_proxy;
  drawer_loading = false;
  delete_target = some first_proxy;
  delete_pending = false;
}

confirm_delete-IsDeleted_example : IsDeleted (codes "a") listed (
    confirm_delete
      (λ text. 0)
      browser
      empty_server
      6000
      mock
      (codes "Failed")
      (codes "Not deleted")
      listed
      no_state)
confirm_delete-IsDeleted_example =
    confirm_delete-IsDeleted (λ text. 0) browser empty_server 6000 (codes "Failed")
      (codes "Not deleted") first_proxy listed no_state refl refl

abbrev one_proxy_import : ProxyUrlImportResult
one_proxy_import = record {
  source = codes "url";
  file_type = ProxyUrlImportFileType.auto;
  detected_format = ProxyUrlImportDetectedFormat.plain_text;
  fetched_count = 1;
  valid_count = 1;
  stored_count = 1;
  duplicate_count = 0;
  invalid_count = 0;
  direct_supported_count = 1;
  adapter_required_count = 0;
  unsupported_count = 0;
  detected_protocols = [];
  supported_connection_modes = [];
}

abbrev providers_listed : ProvidersState
providers_listed = end_effect_load (codes "failed") (ok []) initial_providers

abbrev filled : ProvidersState
filled = edit_form (codes "https://a") ProxyUrlImportFileType.auto providers_listed

abbrev import_over : ProvidersState
import_over = end_submit 0 (codes "failed") (ok one_proxy_import) (begin_submit filled)

abbrev listed_again : ProvidersState
listed_again = end_reload (codes "failed") (ok []) import_over

Reach-ShowsNoResult_example : ShowsNoResult listed_again.form
Reach-ShowsNoResult_example = Reach-ShowsNoResult (
    Results.Reach.next
      (Results.Reach.next
        (Results.Reach.next
          (Results.Reach.next
            (Results.Reach.next Results.Reach.start
              (Results.Step.effect_loaded (codes "failed") (ok []) refl))
            (Results.Step.edited (codes "https://a") ProxyUrlImportFileType.auto refl))
          (Results.Step.submitted refl))
        (Results.Step.imported 0 (codes "failed") (ok one_proxy_import) refl))
      (Results.Step.reloaded (codes "failed") (ok []) refl))

listed_again-shown : shows_panels listed_again ≡ true
unfolding end_effect_load edit_form begin_submit end_submit end_reload
listed_again-shown = refl

abbrev provider_named : Text → ProviderSummary
provider_named name = record {
  name = name;
  enabled = true;
  last_fetch_at = none;
  fetched_count = 1;
  valid_count = 1;
  last_error = none;
}

abbrev nine_providers : List ProviderSummary
nine_providers = map provider_named (map (λ c. c ∷ []) (codes "abcdefghi"))

abbrev nine_listed : ProvidersState
nine_listed = record initial_providers { items = nine_providers; loading = false }

nine_listed-pages : total_pages_of nine_listed ≡ 2
nine_listed-pages = refl

second_page_run : visible_items (next_page nine_listed) ≡ provider_named (codes "i") ∷ []
unfolding visible_items next_page
second_page_run = refl
