-- ===== src/ApiClient/Http.antt =====
-- dashboard/src/lib/api-client.ts: `parseError`, `fetchJson` and the paths of requests.
-- A response is what `fetch` gives: its body can be read once, as JSON or as text, and a second
-- reading is refused with a `TypeError`. A payload has the type that the code casts it to.
use proxy_pool_architect.Base.{
  ℕ, Bool, true, false, ◌&&◌, Option, none, some, [], ◌++◌, if◌then◌else◌, or_else, leb, ltb,
}
use proxy_pool_architect.Base.Text.{Text, codes, includes, non_empty, truthy}
use proxy_pool_architect.Format.{decimal}
use proxy_pool_architect.Effects.{
  Exception, api_error, abort_error, js_error, thrown, Result, ok, err,
}

-- `as_json` is the payload of a good response and `as_detail` the `detail` of a bad one; both are
-- what `response.json()` gives, and `as_text` what `response.text()` gives, if nothing was read yet.
-- `reread` is the text of the `TypeError` that a second reading is refused with.
pub record Response (T : Type 0) : Type 0 where
  pub status : ℕ
  pub content_type : Option Text
  pub as_json : Result T
  pub as_detail : Result (Option Text)
  pub as_text : Result Text
  pub reread : Text

-- How the race between the request and the timer ends.
pub data Race (T : Type 0) : Type 0 where
  timed_out : Race T
  refused : Exception → Race T
  answered : Response T → Race T

-- `response.ok`
abbrev pub is_ok : ℕ → Bool
is_ok status = leb 200 status && ltb status 300

abbrev pub failed_with : ℕ → Text
failed_with status = codes "Request failed with status " ++ decimal status

-- `response.text()` and the default message, where `used` says that the body has been read.
abbrev pub read_text : {T : Type 0} → Response T → Bool → Result Text
read_text response used = if used then err (js_error response.reread) else elim response.as_text [
  | err e ↦ err e
  | ok text ↦ ok (if truthy text then text else failed_with response.status)
]

unfoldable pub parse_error : {T : Type 0} → Response T → Result Text
parse_error response =
    if includes (codes "application/json") (or_else response.content_type [])
    then elim response.as_detail [
      | err e ↦ err e
      | ok detail ↦ elim (non_empty detail) [ some text ↦ ok text | none ↦ read_text response true ]
    ]
    else read_text response false

abbrev pub timeout_error : ℕ → Exception
timeout_error timeout_ms =
    api_error (codes "Request timed out after " ++ (decimal timeout_ms ++ codes "ms")) none

-- The `catch` of `fetchJson`.
unfoldable pub rethrow : ℕ → Exception → Exception
rethrow timeout_ms (api_error message status) = api_error message status
rethrow timeout_ms (abort_error message) = timeout_error timeout_ms
rethrow timeout_ms (js_error message) = api_error message none
rethrow timeout_ms thrown = api_error (codes "Unexpected API request failure") none

abbrev pub rethrow_from : {T : Type 0} → ℕ → Result T → Result T
rethrow_from timeout_ms (ok value) = ok value
rethrow_from timeout_ms (err e) = err (rethrow timeout_ms e)

abbrev pub reject_with : {T : Type 0} → ℕ → Result Text → Result T
reject_with status (ok detail) = err (api_error detail (some status))
reject_with status (err e) = err e

-- The `try` of `fetchJson`, without its `catch`.
abbrev pub settle : {T : Type 0} → ℕ → Race T → Result T
settle timeout_ms timed_out = err (timeout_error timeout_ms)
settle timeout_ms (refused e) = err e
settle timeout_ms (answered response) =
    if is_ok response.status
    then response.as_json
    else reject_with response.status (parse_error response)

-- `fetchJson`, from the end of the race on.
unfoldable pub fetch_outcome : {T : Type 0} → ℕ → Race T → Result T
unfolding rethrow parse_error
fetch_outcome timeout_ms race = rethrow_from timeout_ms (settle timeout_ms race)
