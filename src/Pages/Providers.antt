-- ===== src/Pages/Providers.antt =====
-- dashboard/src/pages/ProvidersPage.tsx with the form of
-- dashboard/src/components/providers/ProviderUrlImportForm.tsx: what the handlers set between two waits
-- is rendered at once, by `commit`. While the page shows that it loads, or an error, the form is not
-- there, and its state is lost. Each form has a key of its own, by which an import finds the form that
-- it was started from.
pub mod Results
pub mod Paging
use proxy_pool_architect.Base.{
  ℕ, ◌+◌, ◌-◌, ◌*◌, ◌/◌, ◌==◌, nat_eq, Bool, true, false, ◌&&◌, Option, none, some, List, [],
  if◌then◌else◌, or_else, max, min, ltb, slice, length,
}
use proxy_pool_architect.Base.Text.{Text, non_empty, truthy, trim}
use proxy_pool_architect.Effects.{Exception, Result, ok, err, message_or}
use proxy_pool_architect.Types.Unions.{ProxyUrlImportFileType}
use proxy_pool_architect.Types.Records.{ProviderSummary, ProxyUrlImportResult}

pub record FormState : Type 0 where
  pub key : ℕ
  pub url : Text
  pub file_type : ProxyUrlImportFileType
  pub submitting : Bool
  pub error : Option Text
  pub result : Option ProxyUrlImportResult

abbrev pub new_form : ℕ → FormState
new_form key = record {
  key = key;
  url = [];
  file_type = ProxyUrlImportFileType.auto;
  submitting = false;
  error = none;
  result = none;
}

pub record ProvidersState : Type 0 where
  pub items : List ProviderSummary
  pub loading : Bool
  pub error : Option Text
  pub page : ℕ
  pub form : Option FormState
  pub next_key : ℕ

abbrev pub initial_providers : ProvidersState
initial_providers = record {
  items = [];
  loading = true;
  error = none;
  page = 1;
  form = none;
  next_key = 0;
}

-- The page shows its panels, and so the form, which is a new one if there was none.
abbrev pub shows_panels : ProvidersState → Bool
shows_panels s =
    if s.loading then false else elim (non_empty s.error) [ some message ↦ false | none ↦ true ]

unfoldable pub commit : ProvidersState → ProvidersState
commit s =
    if shows_panels s
    then record s { form = some (or_else s.form (new_form s.next_key)); next_key = s.next_key + 1 }
    else record s { form = none }

-- The setters of the form that is there.
abbrev pub set_form : (FormState → FormState) → Option FormState → Option FormState
set_form set none = none
set_form set (some form) = some (set form)

abbrev pub in_form : (FormState → FormState) → ProvidersState → ProvidersState
in_form set s = record s { form = set_form set s.form }

-- The setters of the form with the key, which do nothing when it is gone.
abbrev pub of_key : ℕ → (FormState → FormState) → FormState → FormState
of_key key set form = if form.key == key then set form else form

-- The effect's load from the end of its request on, if it is not cancelled.
unfoldable pub end_effect_load :
    Text → Result (List ProviderSummary) → ProvidersState → ProvidersState
unfolding commit
end_effect_load load_error (ok providers) s =
    commit (record s { items = providers; error = none; loading = false })
end_effect_load load_error (err e) s =
    commit (record s { error = some (message_or load_error e); loading = false })

-- `loadProviders` up to its request, and from its end on.
abbrev pub begin_reload : ProvidersState → ProvidersState
begin_reload s = record s { loading = true; error = none }

unfoldable pub end_reload : Text → Result (List ProviderSummary) → ProvidersState → ProvidersState
unfolding commit
end_reload load_error (ok providers) s =
    commit (record s { items = providers; page = 1; loading = false })
end_reload load_error (err e) s =
    commit (record s { error = some (message_or load_error e); loading = false })

-- The fields of the form.
unfoldable pub edit_form : Text → ProxyUrlImportFileType → ProvidersState → ProvidersState
unfolding commit
edit_form url file_type s =
    commit (in_form (λ form. record form { url = url; file_type = file_type }) s)

-- `handleSubmit` up to its request.
abbrev pub submitting_form : FormState → FormState
submitting_form form =
    if truthy (trim form.url) then record form { submitting = true; error = none } else form

unfoldable pub begin_submit : ProvidersState → ProvidersState
unfolding commit
begin_submit s = commit (in_form submitting_form s)

-- The same from the end of its request on, for the form with the key. An import that has succeeded sets
-- the result and then calls `onImported`, which is `loadProviders`, in one go.
unfoldable pub end_submit : ℕ → Text → Result ProxyUrlImportResult → ProvidersState → ProvidersState
unfolding commit
end_submit key import_error (ok next) s =
    commit (begin_reload (in_form (of_key key (λ form. record form { result = some next })) s))
end_submit key import_error (err e) s = commit (
    in_form
      (of_key key
        (λ form. record form { error = some (message_or import_error e); submitting = false }))
      s)

-- The pages of the table: `totalPages`, `visibleItems` and the two buttons, which need the panels and
-- are disabled at the ends.
abbrev pub providers_page_size : ℕ
providers_page_size = 8

abbrev pub total_pages_of : ProvidersState → ℕ
total_pages_of s = max 1 ((length s.items + 7) / providers_page_size)

unfoldable pub visible_items : ProvidersState → List ProviderSummary
visible_items s =
    let offset = (s.page - 1) * providers_page_size in
    slice offset (offset + providers_page_size) s.items

abbrev pub to_page : ℕ → ProvidersState → ProvidersState
to_page page s = record s { page = page }

unfoldable pub previous_page : ProvidersState → ProvidersState
unfolding commit
previous_page s =
    if shows_panels s && (ltb 0 (length s.items) && ltb 1 s.page)
    then commit (to_page (max 1 (s.page - 1)) s)
    else s

unfoldable pub next_page : ProvidersState → ProvidersState
unfolding commit
next_page s =
    if shows_panels s && (ltb 0 (length s.items) && ltb s.page (total_pages_of s))
    then commit (to_page (min (total_pages_of s) (s.page + 1)) s)
    else s
