-- ===== src/MockStore/Catalogue.antt =====
-- dashboard/src/lib/mock-data.ts: the mock store seen as a catalogue that finds a proxy by its id. The
-- order of the proxies is forgotten.
use mathlib.Core.Path.{fun_ext}
use proxy_pool_architect.Base.{
  ◌≡◌, refl, ap, ◌∙◌, Bool, not, Option, none, some, List, [], ◌∷◌, ◌++◌, filter, find, any, arith,
  or_option, is_some, if◌then◌else◌,
}
use proxy_pool_architect.Base.Text.{Text, codes, text_beq, text_beq_iff, has}
use proxy_pool_architect.Effects.{js_error, ok, err}
use proxy_pool_architect.Types.Unions.{ProxyUrlImportFileType}
use proxy_pool_architect.Types.Records.{ProxyEndpoint, DashboardSettings}
use proxy_pool_architect.MockStore.{
  MockState, has_id, get_mock_proxy, delete_mock_proxy, get_mock_settings, update_mock_settings,
}
use proxy_pool_architect.MockStore.Import.{
  imported_proxies, ids, unique_imported, import_source, submit_from_host,
}
use proxy_pool_architect.MockStore.Deletion.{delete_mock_proxy_ok}

-- What a client can tell of the store by ids.
pub record Catalogue : Type 0 where
  pub found : Text → Option ProxyEndpoint
  pub settings : DashboardSettings

abbrev pub catalogue_of : MockState → Catalogue
catalogue_of s = record { found = λ id. find (has_id id) s.proxies; settings = s.settings }

-- The operations on a catalogue: an id is taken out; proxies are put in under ids that are free.
abbrev pub take_out : Text → Catalogue → Catalogue
take_out id c = record c { found = λ other. if text_beq id other then none else c.found other }

abbrev pub put_in : List ProxyEndpoint → Catalogue → Catalogue
put_in proxies c = record c { found = λ id. or_option (c.found id) (find (has_id id) proxies) }

abbrev pub set_settings : DashboardSettings → Catalogue → Catalogue
set_settings next c = record c { settings = next }

find-without :
    (id other : Text) (xs : List ProxyEndpoint)
    → find (has_id other) (filter (λ proxy. not (has_id id proxy)) xs)
      ≡ (if text_beq id other then none else find (has_id other) xs)
find-without id other [] = ground arith
find-without id other (x ∷ xs) = ground (
  arith,
  text_beq_iff x.id id,
  text_beq_iff x.id other,
  text_beq_iff id other,
  find-without id other xs,
)

find-append :
    (p : ProxyEndpoint → Bool) (xs ys : List ProxyEndpoint)
    → find p (xs ++ ys) ≡ or_option (find p xs) (find p ys)
find-append p [] ys = refl
find-append p (x ∷ xs) ys = ground (arith, find-append p xs ys)

has-find : (id : Text) (xs : List ProxyEndpoint) → has id (ids xs) ≡ is_some (find (has_id id) xs)
has-find id [] = refl
has-find id (x ∷ xs) = ground (arith, has-find id xs)

find-unique_imported :
    (id : Text) (xs ys : List ProxyEndpoint)
    → or_option (find (has_id id) (unique_imported xs ys)) (find (has_id id) ys)
      ≡ or_option (find (has_id id) ys) (find (has_id id) xs)
find-unique_imported id [] ys = ground arith
find-unique_imported id (x ∷ xs) ys =
    ground (arith, text_beq_iff x.id id, has-find x.id ys, find-unique_imported id xs ys)

any-find : (p : ProxyEndpoint → Bool) (xs : List ProxyEndpoint) → any p xs ≡ is_some (find p xs)
any-find p [] = refl
any-find p (x ∷ xs) = ground (arith, any-find p xs)

catalogue-ext :
    (found found' : Text → Option ProxyEndpoint) (settings : DashboardSettings)
    → ((id : Text) → found id ≡ found' id)
    → ◌≡◌ {A = Catalogue}
        (record { found = found; settings = settings })
        (record { found = found'; settings = settings })
catalogue-ext found found' settings h =
    ap (λ (f : Text → Option ProxyEndpoint). record { found = f; settings = settings }) (fun_ext h)

catalogue-import :
    (host : Text) (file_type : ProxyUrlImportFileType) (s : MockState)
    → catalogue_of (submit_from_host host file_type s).1
      ≡ put_in (imported_proxies file_type (import_source file_type host)) (catalogue_of s)
unfolding submit_from_host
catalogue-import host file_type s =
    let imported = imported_proxies file_type (import_source file_type host) in
    catalogue-ext _ _ s.settings (λ id.
      find-append (has_id id) (unique_imported imported s.proxies) s.proxies
      ∙ find-unique_imported id imported s.proxies)

-- The store's operations are those of a catalogue, whatever the order of the proxies: a deletion takes
-- the id out and succeeds exactly if it was there; an import puts its proxies in under the ids that are
-- free; new settings change nothing else; and what is got is what the catalogue has.
pub catalogue_of_steps :
    (id host : Text) (file_type : ProxyUrlImportFileType) (next : DashboardSettings) (s : MockState)
    → let imported = imported_proxies file_type (import_source file_type host) in
      (catalogue_of (delete_mock_proxy id s).1 ≡ take_out id (catalogue_of s))
      × ((delete_mock_proxy id s).0.ok ≡ is_some ((catalogue_of s).found id))
      × (catalogue_of (submit_from_host host file_type s).1 ≡ put_in imported (catalogue_of s))
      × (catalogue_of (update_mock_settings next s).1 ≡ set_settings next (catalogue_of s))
      × (get_mock_proxy id s ≡ (elim ((catalogue_of s).found id) [
        | none ↦ err (js_error (codes "Proxy not found: " ++ id))
        | some proxy ↦ ok proxy
      ]))
      × (get_mock_settings s ≡ (catalogue_of s).settings)
unfolding update_mock_settings get_mock_proxy get_mock_settings
catalogue_of_steps id host file_type next s = (
  deleted,
  delete_mock_proxy_ok id s ∙ any-find (has_id id) s.proxies,
  catalogue-import host file_type s,
  refl,
  refl,
  refl,
)
  where
    deleted : catalogue_of (delete_mock_proxy id s).1 ≡ take_out id (catalogue_of s)
    deleted =
        unfold delete_mock_proxy in
        catalogue-ext _ _ s.settings (λ other. find-without id other s.proxies)
