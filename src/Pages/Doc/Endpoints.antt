-- ===== src/Pages/Doc/Endpoints.antt =====
-- dashboard/src/docs/api-docs.ts against dashboard/src/lib/api-client.ts: the documents have the requests
-- of the client.
use proxy_pool_architect.Base.{
  ℕ, Bool, true, ◌&&◌, ◌≡◌, refl, List, [], ◌∷◌, ◌++◌, All, any, drop, length, nat_beq,
  if◌then◌else◌,
}
use proxy_pool_architect.Base.Text.{Text, codes, text_beq, starts_with, trim_start}
use proxy_pool_architect.ApiClient.Requests.{
  Method, get, post, patch, delete, Target, path, path_with, proxy_path, Request,
  build_live_proxy_list_path, build_pagination_path,
}
use proxy_pool_architect.ApiClient.Call.{ClientState, Server}
use proxy_pool_architect.ApiClient.Client.{Environment, live}
use proxy_pool_architect.ApiClient.Operations.{Operation, run}
use proxy_pool_architect.ApiClient.Keeping.{
  ClientRequest, to_session, to_login, to_logout, to_health, to_stats, to_proxies, to_proxy,
  to_deletion, to_import, to_geo, to_providers, to_jobs, to_events, to_settings, to_new_settings,
}
use proxy_pool_architect.ApiClient.Stable.{run-Keeps}
use proxy_pool_architect.Pages.Doc.{DocLang, doc_zh, doc_en, content_lines}
use proxy_pool_architect.Pages.Doc.Chinese.{api_doc_zh}
use proxy_pool_architect.Pages.Doc.English.{api_doc_en}

abbrev method_text : Method → Text
method_text get = codes "GET "
method_text post = codes "POST "
method_text patch = codes "PATCH "
method_text delete = codes "DELETE "

-- The path as the documents write it.
abbrev route : Target → Text
route (path text) = text
route (path_with text params) = text
route (proxy_path id) = codes "/proxy/{proxy_id}"

abbrev without_query : Text → Text
without_query [] = []
without_query (c ∷ s) = let rest = without_query s in if nat_beq c b'?' then [] else c ∷ rest

-- Whether a line of a document is a method and a path, under the base URL of the documents.
abbrev lists : Request → Text → Bool
lists r line =
    let verb = method_text r.method in
    starts_with verb line
    && text_beq (without_query (trim_start (drop (length verb) line)))
        (codes "/api" ++ route r.target)

unfoldable pub is_documented : DocLang → Request → Bool
unfolding api_doc_zh api_doc_en
is_documented lang r = any (lists r) (content_lines lang)

abbrev pub AreDocumented : DocLang → List Request → Type 0
AreDocumented lang sent = All (λ r. is_documented lang r ≡ true) sent

request_documented : (lang : DocLang) {r : Request} → ClientRequest r → is_documented lang r ≡ true
unfolding is_documented build_live_proxy_list_path build_pagination_path
request_documented doc_zh to_session = refl
request_documented doc_zh (to_login username password) = refl
request_documented doc_zh to_logout = refl
request_documented doc_zh to_health = refl
request_documented doc_zh to_stats = refl
request_documented doc_zh (to_proxies query) = refl
request_documented doc_zh (to_proxy id) = refl
request_documented doc_zh (to_deletion id) = refl
request_documented doc_zh (to_import url file_type) = refl
request_documented doc_zh to_geo = refl
request_documented doc_zh to_providers = refl
request_documented doc_zh (to_jobs limit offset) = refl
request_documented doc_zh (to_events limit offset) = refl
request_documented doc_zh to_settings = refl
request_documented doc_zh (to_new_settings next) = refl
request_documented doc_en to_session = refl
request_documented doc_en (to_login username password) = refl
request_documented doc_en to_logout = refl
request_documented doc_en to_health = refl
request_documented doc_en to_stats = refl
request_documented doc_en (to_proxies query) = refl
request_documented doc_en (to_proxy id) = refl
request_documented doc_en (to_deletion id) = refl
request_documented doc_en (to_import url file_type) = refl
request_documented doc_en to_geo = refl
request_documented doc_en to_providers = refl
request_documented doc_en (to_jobs limit offset) = refl
request_documented doc_en (to_events limit offset) = refl
request_documented doc_en to_settings = refl
request_documented doc_en (to_new_settings next) = refl

-- In the live mode, whatever a method of the client is called with and whatever the server answers, each
-- request that the client sends is in both documents, with its method and its path under the base URL.
pub run-AreDocumented :
    (env : Environment) (server : Server) (timeout_ms : ℕ) (op : Operation) (s : ClientState)
    (lang : DocLang)
    → AreDocumented lang s.sent
    → AreDocumented lang (run env server timeout_ms live op s).sent
run-AreDocumented env server timeout_ms op s lang =
    run-Keeps (λ c. AreDocumented lang c.sent)
      (record {
        sending = λ c request before. (request_documented lang request, before);
        caching = λ c item before. before;
        uncaching = λ c id before. before;
        setting = λ c next before. before;
      })
      env server timeout_ms op s
