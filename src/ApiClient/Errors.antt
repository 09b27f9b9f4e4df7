-- ===== src/ApiClient/Errors.antt =====
-- dashboard/src/lib/api-client.ts: which values and errors `fetchJson` ends with.
use mathlib.Core.Path.{subst}
use proxy_pool_architect.Base.{
  ℕ, true, false, ◌≡◌, ◌≢◌, ◌↔◌, refl, Option, none, some, [], arith, or_else, Bool-cases, inl, inr,
}
use proxy_pool_architect.Base.Text.{Text, codes, includes}
use proxy_pool_architect.Effects.{
  Exception, api_error, abort_error, js_error, thrown, Result, ok, err,
}
use proxy_pool_architect.ApiClient.Http.{
  Response, Race, timed_out, refused, answered, is_ok, parse_error, rethrow, settle, fetch_outcome,
  rethrow_from, reject_with,
}

-- The browser's own exceptions are none of the client's.
abbrev pub IsForeign : Exception → Type 0
IsForeign (api_error message status) = ⊥
IsForeign (abort_error message) = Unit
IsForeign (js_error message) = Unit
IsForeign thrown = Unit

abbrev pub FailsForeign : {T : Type 0} → Result T → Type 0
FailsForeign (ok value) = Unit
FailsForeign (err e) = IsForeign e

abbrev pub IsApiError : Exception → Type 0
IsApiError e = (message : Text) × (status : Option ℕ) × (e ≡ api_error message status)

rethrow-IsApiError : (timeout_ms : ℕ) (e : Exception) → IsApiError (rethrow timeout_ms e)
unfolding rethrow
rethrow-IsApiError t (api_error message status) = (message, status, refl)
rethrow-IsApiError t (abort_error message) = (_, none, refl)
rethrow-IsApiError t (js_error message) = (message, none, refl)
rethrow-IsApiError t thrown = (_, none, refl)

err-injective : {T : Type 0} (e f : Exception) → ◌≡◌ {A = Result T} (err e) (err f) → e ≡ f
err-injective e f h = cc

foreign-no_status :
    (t : ℕ) (e : Exception) (message : Text) (status : ℕ)
    → IsForeign e
    → rethrow t e ≢ api_error message (some status)
unfolding rethrow
foreign-no_status t (abort_error text) message status foreign h = cc
foreign-no_status t (js_error text) message status foreign h = cc
foreign-no_status t thrown message status foreign h = cc
foreign-no_status t (api_error text st) message status foreign h = foreign

-- Whatever happens to a request, `fetchJson` rejects with a `DashboardApiError` only.
pub fetch_outcome-IsApiError :
    {T : Type 0} (timeout_ms : ℕ) (race : Race T) {e : Exception}
    → fetch_outcome timeout_ms race ≡ err e
    → IsApiError e
unfolding fetch_outcome
fetch_outcome-IsApiError t race h = from (settle t race) h
  where
    from : {T : Type 0} {e : Exception} (r : Result T) → rethrow_from t r ≡ err e → IsApiError e
    from (ok value) h = cc
    from {e} (err f) h = subst IsApiError (err-injective (rethrow t f) e h) (rethrow-IsApiError t f)

json_only :
    {T : Type 0} (t : ℕ) (result : Result T) (message : Text) (status : ℕ)
    → FailsForeign result
    → rethrow_from t result ≢ err (api_error message (some status))
json_only t (ok value) message status foreign h = cc
json_only t (err e) message status foreign h =
    foreign-no_status t e message status foreign (err-injective _ _ h)

text_only :
    {T : Type 0} (t code : ℕ) (result : Result Text) (message : Text) (status : ℕ)
    → FailsForeign result
    → (rethrow_from {T = T} t (reject_with code result) ≡ err (api_error message (some status)))
      ↔ ((result ≡ ok message) × (code ≡ status))
unfolding rethrow
text_only t code (ok detail) message status foreign = ((λ h. (cc, cc)), (λ h. ground arith))
text_only t code (err e) message status foreign =
    ((λ h. absurd (foreign-no_status t e message status foreign (err-injective _ _ h))), (λ h. cc))

status_of_answer :
    {T : Type 0} (timeout_ms : ℕ) (r : Response T) (message : Text) (status : ℕ)
    → FailsForeign r.as_json
    → FailsForeign (parse_error r)
    → (rethrow_from timeout_ms (settle timeout_ms (answered r))
        ≡ err (api_error message (some status)))
      ↔ ((is_ok r.status ≡ false) × (parse_error r ≡ ok message) × (r.status ≡ status))
status_of_answer t r message status json text = elim (Bool-cases (is_ok r.status)) [
  | inl good ↦
      rw good ((λ h. absurd (json_only t r.as_json message status json h)), (λ h. absurd (cc)))
  | inr bad ↦
      let both = text_only t r.status (parse_error r) message status text in
      rw bad ((λ h. (refl, (both.0 h).0, (both.0 h).1)), (λ h. both.1 (h.1, h.2)))
]

-- No exception that the browser raises in the request or in a reading of the body is one of the client's.
abbrev pub IsBrowsers : {T : Type 0} → Race T → Type 0
IsBrowsers timed_out = Unit
IsBrowsers (refused e) = IsForeign e
IsBrowsers (answered r) = FailsForeign r.as_json × FailsForeign (parse_error r)

-- The server has answered with this status, it is no success, and this is the text that could be read.
abbrev pub HasFailedWith : {T : Type 0} → Text → ℕ → Race T → Type 0
HasFailedWith message status timed_out = ⊥
HasFailedWith message status (refused e) = ⊥
HasFailedWith message status (answered r) =
    (is_ok r.status ≡ false) × (parse_error r ≡ ok message) × (r.status ≡ status)

-- Whatever becomes of a request, if the browser's exceptions are none of the client's, `fetchJson` rejects
-- with a status exactly when the server answered with that status, it is no success, and the error's text
-- could be read; the message is then that text. After a time-out or a request that is refused it never
-- rejects with a status.
pub fetch_outcome-status :
    {T : Type 0} (timeout_ms : ℕ) (race : Race T) (message : Text) (status : ℕ)
    → IsBrowsers race
    → (fetch_outcome timeout_ms race ≡ err (api_error message (some status)))
      ↔ HasFailedWith message status race
unfolding fetch_outcome rethrow
fetch_outcome-status t timed_out message status browsers = ((λ h. cc), (λ h. absurd h))
fetch_outcome-status t (refused e) message status browsers =
    ((λ h. foreign-no_status t e message status browsers (err-injective _ _ h)), (λ h. absurd h))
fetch_outcome-status t (answered r) message status browsers =
    status_of_answer t r message status browsers.0 browsers.1

-- An error response in JSON without a detail loses its status: the body is read a second time, which the
-- browser refuses, and the error that comes of this carries no status, whatever the server answered.
pub fetch_outcome_no_detail :
    {T : Type 0} (timeout_ms : ℕ) (r : Response T)
    → is_ok r.status ≡ false
    → includes (codes "application/json") (or_else r.content_type []) ≡ true
    → r.as_detail ≡ ok none
    → fetch_outcome timeout_ms (answered r) ≡ err (api_error r.reread none)
unfolding fetch_outcome
fetch_outcome_no_detail t r bad json no_detail = rw (bad, parse_error, json, no_detail) refl
