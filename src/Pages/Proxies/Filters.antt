-- ===== src/Pages/Proxies/Filters.antt =====
-- dashboard/src/components/proxies/ProxyFilters.tsx: the form of the filters. An empty choice is `none`.
pub mod Choices
use proxy_pool_architect.Base.{Bool, Option, none, some, List, [], ◌∷◌, if◌then◌else◌}
use proxy_pool_architect.Base.Text.{Text, codes, text_beq}
use proxy_pool_architect.Types.Unions.{ProxyPool, ProxyScheme, ProxyAnonymity}
use proxy_pool_architect.Pages.Proxies.{ProxyFilterState}

abbrev pub pools : List (Option ProxyPool)
pools =
    none
    ∷ some ProxyPool.raw
    ∷ some ProxyPool.checked
    ∷ some ProxyPool.elite
    ∷ some ProxyPool.dead
    ∷ some ProxyPool.cooldown
    ∷ []

abbrev pub schemes : List (Option ProxyScheme)
schemes =
    none
    ∷ some ProxyScheme.http
    ∷ some ProxyScheme.https
    ∷ some ProxyScheme.socks4
    ∷ some ProxyScheme.socks5
    ∷ []

abbrev pub anonymities : List (Option ProxyAnonymity)
anonymities =
    none
    ∷ some ProxyAnonymity.unknown
    ∷ some ProxyAnonymity.transparent
    ∷ some ProxyAnonymity.anonymous
    ∷ some ProxyAnonymity.elite
    ∷ []

-- What the user does in the form. An input names its field.
pub data FilterEdit : Type 0 where
  choose_pool : Option ProxyPool → FilterEdit
  choose_scheme : Option ProxyScheme → FilterEdit
  choose_anonymity : Option ProxyAnonymity → FilterEdit
  choose_country : Text → FilterEdit
  choose_source : Text → FilterEdit
  enter : (name value : Text) → FilterEdit

-- `onInputChange`; `none` says that `onChange` is not called.
abbrev pub on_input_change : Text → Text → ProxyFilterState → Option ProxyFilterState
on_input_change name next value =
    if text_beq name (codes "minScore")
    then some (record value { min_score = next })
    else if text_beq name (codes "query")
    then some (record value { query = next })
    else none

-- What `onChange` is called with.
unfoldable pub update_field : FilterEdit → ProxyFilterState → Option ProxyFilterState
update_field (choose_pool pool) value = some (record value { pool = pool })
update_field (choose_scheme scheme) value = some (record value { scheme = scheme })
update_field (choose_anonymity anonymity) value = some (record value { anonymity = anonymity })
update_field (choose_country country) value = some (record value { country = country })
update_field (choose_source source) value = some (record value { source = source })
update_field (enter name next) value = on_input_change name next value
