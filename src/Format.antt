-- ===== src/Format.antt =====
-- dashboard/src/lib/format.ts, and the same formatters of dashboard/src/i18n/I18nContext.tsx. Numbers
-- are grouped in threes as `Intl.NumberFormat` does for "en-US" and "zh-CN"; the date format is the
-- environment's and a parameter.
pub mod Masking
pub mod Digits
use proxy_pool_architect.Base.{
  ℕ, zero, suc, ◌+◌, ◌*◌, ◌/◌, ◌%◌, Bool, Option, none, some, List, [], ◌∷◌, ◌++◌, ltb, leb,
  if◌then◌else◌, length, take,
}
use proxy_pool_architect.Base.Text.{Text, codes, non_empty}
use proxy_pool_architect.Base.Round.{round_div}
use proxy_pool_architect.Types.Records.{Ratio}

-- The decimal digits, the last one first, of a number below 10 ^ fuel.
unfoldable pub digits_of : ℕ → ℕ → List ℕ
digits_of zero n = []
digits_of (suc fuel) n =
    let more = digits_of fuel (n / 10) in if ltb n 10 then n ∷ [] else n % 10 ∷ more

-- A comma behind each third digit from the end.
unfoldable pub group_digits : List ℕ → Text
group_digits (a ∷ b ∷ c ∷ d ∷ rest) =
    group_digits (d ∷ rest) ++ b',' ∷ (c + 48) ∷ (b + 48) ∷ (a + 48) ∷ []
group_digits (a ∷ b ∷ c ∷ []) = (c + 48) ∷ (b + 48) ∷ (a + 48) ∷ []
group_digits (a ∷ b ∷ []) = (b + 48) ∷ (a + 48) ∷ []
group_digits (a ∷ []) = (a + 48) ∷ []
group_digits [] = []

-- `new Intl.NumberFormat(locale).format(value)`; a number has fewer digits than its successor is large.
unfoldable pub format_number : ℕ → Text
unfolding digits_of group_digits
format_number value = group_digits (digits_of (suc value) value)

unfoldable pub write_digits : List ℕ → Text
write_digits [] = []
write_digits (d ∷ ds) = write_digits ds ++ (d + 48) ∷ []

-- `String(value)`
unfoldable pub decimal : ℕ → Text
unfolding digits_of write_digits
decimal value = write_digits (digits_of (suc value) value)

-- `format.ts` and the translated formatters differ in the label of a missing value.
unfoldable pub latency_or : Text → Option ℕ → Text
unfolding format_number
latency_or unknown none = unknown
latency_or unknown (some value) = format_number value ++ codes " ms"

-- The ratio is exact here, where the program multiplies in floating point.
unfoldable pub percent_or : Text → Option Ratio → Text
unfolding decimal round_div
percent_or unknown none = unknown
percent_or unknown (some value) = decimal (round_div (value.num * 100) value.den) ++ codes "%"

abbrev mask_text : Text → Text
mask_text value = if leb (length value) 2 then codes "**" else take 2 value ++ codes "***"

unfoldable pub credential_or : Text → Option Text → Text
credential_or not_set value = elim (non_empty value) [ none ↦ not_set | some v ↦ mask_text v ]

unfoldable pub format_latency : Option ℕ → Text
unfolding latency_or
format_latency = latency_or (codes "Unknown")

unfoldable pub format_percent : Option Ratio → Text
unfolding percent_or
format_percent = percent_or (codes "Unknown")

unfoldable pub mask_credential : Option Text → Text
unfolding credential_or
mask_credential = credential_or (codes "Not set")

-- `date_format` is `new Intl.DateTimeFormat(...).format(new Date(value))`.
unfoldable pub format_date_time : (Text → Text) → Option Text → Text
format_date_time date_format value = elim (non_empty value) [
  | none ↦ codes "Unknown"
  | some v ↦ date_format v
]
