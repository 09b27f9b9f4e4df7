-- ===== src/Pages/Validation.antt =====
-- dashboard/src/pages/ValidationPage.tsx: the error types in a sample of events.
pub mod Errors
pub mod Screen
pub mod Fresh
use proxy_pool_architect.Base.{ℕ, ◌+◌, Bool, true, false, List, [], ◌∷◌, map, ltb, if◌then◌else◌}
use proxy_pool_architect.Base.Text.{Text, text_beq}
use proxy_pool_architect.Base.Sort.{sort}
use proxy_pool_architect.Types.Unions.{EventLevel}
use proxy_pool_architect.Types.Records.{EventLogEntry}

abbrev pub is_problem : EventLogEntry → Bool
is_problem event = elim event.level [
  | EventLevel.info ↦ false
  | EventLevel.warning ↦ true
  | EventLevel.error ↦ true
]

-- `counts.set(type, (counts.get(type) ?? 0) + 1)`
abbrev pub counted : Text → List (Text × ℕ) → List (Text × ℕ)
counted type [] = (type, 1) ∷ []
counted type ((t, n) ∷ counts) =
    if text_beq t type then (t, n + 1) ∷ counts else (t, n) ∷ counted type counts

-- The loop over the events.
pub count_from : List (Text × ℕ) → List EventLogEntry → List (Text × ℕ)
count_from counts [] = counts
count_from counts (event ∷ events) =
    let added = count_from (counted event.type counts) events in
    let skipped = count_from counts events in if is_problem event then added else skipped

pub record ErrorType : Type 0 where
  pub type : Text
  pub total : ℕ

-- The comparator's value at `left` and `right` is positive.
abbrev pub error_after : ErrorType → ErrorType → Bool
error_after left right = ltb left.total right.total

abbrev pub error_type : Text × ℕ → ErrorType
error_type (type, total) = record { type = type; total = total }

unfoldable pub count_error_types : List EventLogEntry → List ErrorType
unfolding count_from
count_error_types events = sort error_after (map error_type (count_from [] events))
