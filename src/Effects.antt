-- ===== src/Effects.antt =====
-- Results of the dashboard's asynchronous functions: a value or the exception that a promise rejects
-- with. `api_error` is `DashboardApiError` of dashboard/src/lib/api-client.ts with its optional status,
-- `abort_error` a `DOMException` named "AbortError", `js_error` any other `Error` with its message, and
-- `thrown` a value that is no `Error`.
use proxy_pool_architect.Base.{ℕ, Option, ◌≡◌, refl, ◌⊎◌, inl, inr}
use proxy_pool_architect.Base.Text.{Text}

pub data Exception : Type 0 where
  api_error : Text → Option ℕ → Exception
  abort_error : Text → Exception
  js_error : Text → Exception
  thrown : Exception

pub data Result {ℓ} (A : Type ℓ) : Type ℓ where
  ok : A → Result A
  err : Exception → Result A

pub Result-cases {ℓ} :
    {A : Type ℓ} (r : Result A) → ((a : A) × (r ≡ ok a)) ⊎ ((e : Exception) × (r ≡ err e))
Result-cases (ok a) = inl (a, refl)
Result-cases (err e) = inr (e, refl)

pub ok-injective {ℓ} : {A : Type ℓ} (a b : A) → ok a ≡ ok b → a ≡ b
ok-injective a b h = cc

-- `err instanceof Error ? err.message : fallback`
abbrev pub message_or : Text → Exception → Text
message_or fallback (api_error message status) = message
message_or fallback (abort_error message) = message
message_or fallback (js_error message) = message
message_or fallback thrown = fallback
