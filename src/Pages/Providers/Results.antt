-- ===== src/Pages/Providers/Results.antt =====
-- dashboard/src/pages/ProvidersPage.tsx: what the form shows of an import.
use proxy_pool_architect.Base.{
  ℕ, Bool, true, false, ◌≡◌, refl, ◌∙◌, Option, none, some, List, Bool-cases, inl, inr, or_else,
  if◌then◌else◌, ◌==◌, nat_eq,
}
use proxy_pool_architect.Base.Text.{Text, truthy, trim}
use proxy_pool_architect.Effects.{Result, ok, err, message_or}
use proxy_pool_architect.Types.Unions.{ProxyUrlImportFileType}
use proxy_pool_architect.Types.Records.{ProviderSummary, ProxyUrlImportResult}
use proxy_pool_architect.Pages.Providers.{
  FormState, new_form, ProvidersState, initial_providers, shows_panels, commit, set_form, in_form,
  of_key, submitting_form, to_page, previous_page, next_page, end_effect_load, begin_reload,
  end_reload, edit_form, begin_submit, end_submit,
}

-- What happens to the page; loads and imports may overlap and end in any order.
pub data Step (s s' : ProvidersState) : Type 0 where
  effect_loaded :
      (load_error : Text) (result : Result (List ProviderSummary))
      → s' ≡ end_effect_load load_error result s
      → Step s s'
  reloaded :
      (load_error : Text) (result : Result (List ProviderSummary))
      → s' ≡ end_reload load_error result s
      → Step s s'
  edited :
      (url : Text) (file_type : ProxyUrlImportFileType) → s' ≡ edit_form url file_type s → Step s s'
  submitted : s' ≡ begin_submit s → Step s s'
  imported :
      (key : ℕ) (import_error : Text) (result : Result ProxyUrlImportResult)
      → s' ≡ end_submit key import_error result s
      → Step s s'
  paged_back : s' ≡ previous_page s → Step s s'
  paged_on : s' ≡ next_page s → Step s s'

pub data Reach : ProvidersState → Type 0 where
  start : Reach initial_providers
  next : {s s' : ProvidersState} → Reach s → Step s s' → Reach s'

-- There is no form, or it shows no result.
abbrev pub ShowsNoResult : Option FormState → Type 0
ShowsNoResult none = Unit
ShowsNoResult (some form) = form.result ≡ none

or_else-ShowsNoResult :
    (key : ℕ) (form : Option FormState)
    → ShowsNoResult form
    → ShowsNoResult (some (or_else form (new_form key)))
or_else-ShowsNoResult key none h = refl
or_else-ShowsNoResult key (some form) h = h

commit-ShowsNoResult : (s : ProvidersState) → ShowsNoResult s.form → ShowsNoResult (commit s).form
unfolding commit
commit-ShowsNoResult s h = elim (Bool-cases (shows_panels s)) [
  | inl panels ↦ rw panels (or_else-ShowsNoResult s.next_key s.form h)
  | inr hidden ↦ rw hidden tt
]

commit_loading : (s : ProvidersState) → s.loading ≡ true → ShowsNoResult (commit s).form
unfolding commit
commit_loading s loading = rw loading tt

if_committed-ShowsNoResult :
    (test : Bool) (page : ℕ) (s : ProvidersState)
    → ShowsNoResult s.form
    → ShowsNoResult (if test then commit (to_page page s) else s).form
if_committed-ShowsNoResult true page s h = commit-ShowsNoResult (to_page page s) h
if_committed-ShowsNoResult false page s h = h

Keeps : (FormState → FormState) → Type 0
Keeps set = (form : FormState) → (set form).result ≡ form.result

set_form-ShowsNoResult :
    (set : FormState → FormState) (form : Option FormState)
    → Keeps set
    → ShowsNoResult form
    → ShowsNoResult (set_form set form)
unfolding Keeps
set_form-ShowsNoResult set none keeps h = tt
set_form-ShowsNoResult set (some form) keeps h = keeps form ∙ h

of_key-Keeps : (key : ℕ) (set : FormState → FormState) → Keeps set → Keeps (of_key key set)
unfolding Keeps
of_key-Keeps key set keeps form = elim (Bool-cases (form.key == key)) [
  | inl same ↦ rw same (keeps form)
  | inr other ↦ rw other refl
]

submitting_form-Keeps : Keeps submitting_form
unfolding Keeps
submitting_form-Keeps form = elim (Bool-cases (truthy (trim form.url))) [
  | inl given ↦ rw given refl
  | inr blank ↦ rw blank refl
]

committed-ShowsNoResult :
    (set : FormState → FormState) (s : ProvidersState)
    → Keeps set
    → ShowsNoResult s.form
    → ShowsNoResult (commit (in_form set s)).form
committed-ShowsNoResult set s keeps h =
    commit-ShowsNoResult (in_form set s) (set_form-ShowsNoResult set s.form keeps h)

edited-Keeps :
    (url : Text) (file_type : ProxyUrlImportFileType)
    → Keeps (λ form. record form { url = url; file_type = file_type })
unfolding Keeps
edited-Keeps url file_type form = refl

failed-Keeps :
    (message : Text) → Keeps (λ form. record form { error = some message; submitting = false })
unfolding Keeps
failed-Keeps message form = refl

Step-ShowsNoResult :
    {s s' : ProvidersState} → Step s s' → ShowsNoResult s.form → ShowsNoResult s'.form
unfolding end_effect_load end_reload edit_form begin_submit end_submit previous_page next_page
Step-ShowsNoResult {s} (effect_loaded text (ok items) e) h =
    rw e (commit-ShowsNoResult (record s { items = items; error = none; loading = false }) h)
Step-ShowsNoResult {s} (effect_loaded text (err f) e) h =
    rw e (commit-ShowsNoResult (record s { error = some (message_or text f); loading = false }) h)
Step-ShowsNoResult {s} (reloaded text (ok items) e) h =
    rw e (commit-ShowsNoResult (record s { items = items; page = 1; loading = false }) h)
Step-ShowsNoResult {s} (reloaded text (err f) e) h =
    rw e (commit-ShowsNoResult (record s { error = some (message_or text f); loading = false }) h)
Step-ShowsNoResult {s} (edited url file_type e) h =
    rw e (committed-ShowsNoResult _ s (edited-Keeps url file_type) h)
Step-ShowsNoResult {s} (submitted e) h =
    rw e (committed-ShowsNoResult submitting_form s submitting_form-Keeps h)
Step-ShowsNoResult {s} (imported key text (ok result) e) h = rw e (
    commit_loading
      (begin_reload (in_form (of_key key (λ form. record form { result = some result })) s)) refl)
Step-ShowsNoResult {s} (imported key text (err f) e) h =
    rw e (committed-ShowsNoResult _ s (of_key-Keeps key _ (failed-Keeps (message_or text f))) h)
Step-ShowsNoResult {s} (paged_back e) h = rw e (if_committed-ShowsNoResult _ _ s h)
Step-ShowsNoResult {s} (paged_on e) h = rw e (if_committed-ShowsNoResult _ _ s h)

-- In no state that the providers page reaches does its form show the result of an import: an import that has
-- succeeded makes the page load its list again, and with that the form and its result go.
pub Reach-ShowsNoResult : {s : ProvidersState} → Reach s → ShowsNoResult s.form
Reach-ShowsNoResult start = tt
Reach-ShowsNoResult (next r step) = Step-ShowsNoResult step (Reach-ShowsNoResult r)
