-- ===== src/MockStore/Imports.antt =====
-- dashboard/src/lib/mock-data.ts: what an import does to the store and what it reports.
use proxy_pool_architect.Base.{
  ◌+◌, ◌-◌, ◌≡◌, refl, Bool, true, false, not, ◌||◌, List, [], ◌∷◌, ◌++◌, length, length-filter-le,
  arith, ap, ◌∙◌, All, if◌then◌else◌,
}
use proxy_pool_architect.Base.Text.{Text, text_beq_iff, has}
use proxy_pool_architect.Types.Unions.{ProxyUrlImportFileType, v2ray}
use proxy_pool_architect.Types.Records.{ProxyEndpoint}
use proxy_pool_architect.MockStore.{MockState}
use proxy_pool_architect.MockStore.Import.{
  imported_proxies, ids, unique_imported, import_source, submit_from_host,
}

abbrev is_v2ray : ProxyUrlImportFileType → Bool
is_v2ray v2ray = true
is_v2ray _ = false

-- The numbers of an import add up: what is imported directly is stored or a duplicate, what is valid is
-- imported directly or needs an adapter, and nothing is invalid. What was fetched is valid or
-- unsupported, but for a v2ray list, where two direct entries are counted as fetched and in no other
-- number.
pub submit_from_host-counts :
    (host : Text) (file_type : ProxyUrlImportFileType) (s : MockState)
    → let r = (submit_from_host host file_type s).0 in
      (r.stored_count + r.duplicate_count ≡ r.direct_supported_count)
      × (r.direct_supported_count + r.adapter_required_count ≡ r.valid_count)
      × (r.invalid_count ≡ 0)
      × (r.valid_count + r.unsupported_count + (if is_v2ray file_type then 2 else 0)
          ≡ r.fetched_count)
unfolding submit_from_host
submit_from_host-counts host v2ray s = (refl, refl, refl, refl)
submit_from_host-counts host file_type s =
    let fits =
      length-filter-le (λ proxy. not (has proxy.id (ids s.proxies)))
        (imported_proxies file_type (import_source file_type host)) in
    (omega arith, omega arith, refl, omega arith)

pub has-map-append :
    (x : Text) (xs ys : List ProxyEndpoint)
    → has x (ids (xs ++ ys)) ≡ (has x (ids xs) || has x (ids ys))
has-map-append x [] ys = refl
has-map-append x (y ∷ xs) ys = ground (arith, has-map-append x xs ys)

has-unique_imported :
    (x : Text) (xs ys : List ProxyEndpoint)
    → (has x (ids (unique_imported xs ys)) || has x (ids ys)) ≡ (has x (ids xs) || has x (ids ys))
has-unique_imported x [] ys = refl
has-unique_imported x (y ∷ xs) ys = ground (arith, has-unique_imported x xs ys, text_beq_iff y.id x)

-- The ids in the store after an import are those from before and those that were imported.
pub submit_from_host-ids :
    (x host : Text) (file_type : ProxyUrlImportFileType) (s : MockState)
    → let s' = (submit_from_host host file_type s).1 in
      let imported = imported_proxies file_type (import_source file_type host) in
      has x (ids s'.proxies) ≡ (has x (ids imported) || has x (ids s.proxies))
unfolding submit_from_host
submit_from_host-ids x host file_type s =
    has-map-append x (unique_imported _ s.proxies) s.proxies
    ∙ has-unique_imported x (imported_proxies file_type (import_source file_type host)) s.proxies

unique_imported-nil :
    (imported stored : List ProxyEndpoint)
    → All (λ proxy. has proxy.id (ids stored) ≡ true) imported
    → unique_imported imported stored ≡ []
unique_imported-nil [] stored h = refl
unique_imported-nil (x ∷ imported) stored h =
    ground (arith, unique_imported-nil imported stored h.1, h.0)

-- Everything that a second import brings is in the store.
imported_again :
    (host again : Text) (file_type : ProxyUrlImportFileType) (s : MockState)
    → All
        (λ proxy. has proxy.id (ids (submit_from_host host file_type s).1.proxies) ≡ true)
        (imported_proxies file_type (import_source file_type again))
unfolding imported_proxies
imported_again host again v2ray s = tt
imported_again host again file_type s =
    (submit_from_host-ids _ host file_type s, (submit_from_host-ids _ host file_type s, tt))

submit_known :
    (host : Text) (file_type : ProxyUrlImportFileType) (s : MockState)
    → All
        (λ proxy. has proxy.id (ids s.proxies) ≡ true)
        (imported_proxies file_type (import_source file_type host))
    → let (r, s') = submit_from_host host file_type s in
      (s' ≡ s) × (r.stored_count ≡ 0) × (r.duplicate_count ≡ r.direct_supported_count)
unfolding submit_from_host
submit_known host file_type s known =
    let imported = imported_proxies file_type (import_source file_type host) in
    let nothing = unique_imported-nil imported s.proxies known in
    (
      ap (λ new. record s { proxies = new ++ s.proxies }) nothing,
      ap length nothing,
      ap (λ new. length imported - length new) nothing ∙ omega arith,
    )

-- A second import of the same kind from any host stores nothing: the store stays as the first left it,
-- and all that is imported counts as duplicate.
pub submit_from_host_twice :
    (host again : Text) (file_type : ProxyUrlImportFileType) (s : MockState)
    → let s' = (submit_from_host host file_type s).1 in
      let (r, s'') = submit_from_host again file_type s' in
      (s'' ≡ s') × (r.stored_count ≡ 0) × (r.duplicate_count ≡ r.direct_supported_count)
submit_from_host_twice host again file_type s =
    submit_known again file_type (submit_from_host host file_type s).1
      (imported_again host again file_type s)
