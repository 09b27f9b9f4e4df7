-- ===== src/Pages/Validation/Errors.antt =====
-- dashboard/src/pages/ValidationPage.tsx: what the list of error types counts.
use proxy_pool_architect.Base.{
  ℕ, ◌+◌, ◌≤◌, ◌≡◌, refl, ◌∙◌, Bool, ◌&&◌, ◌||◌, Bool-cases, inl, inr, List, [], ◌∷◌, filter, any,
  max, length, sum_by, sum_by-map, All-intro, AllPairs, arith, if◌then◌else◌,
}
use proxy_pool_architect.Base.Text.{Text, text_beq, text_beq_iff}
use proxy_pool_architect.Base.Sort.{IsPreorder, sort-AllPairs, sort-sum_by}
use proxy_pool_architect.Types.Records.{EventLogEntry}
use proxy_pool_architect.Pages.Validation.{
  is_problem, counted, count_from, error_after, error_type, count_error_types,
}

-- The events of the type that are warnings or errors.
abbrev pub is_problem_of : Text → EventLogEntry → Bool
is_problem_of type event = is_problem event && text_beq event.type type

abbrev total_of : Text → List (Text × ℕ) → ℕ
total_of type = sum_by (λ e. if text_beq e.0 type then e.1 else 0)

abbrev entries_of : Text → List (Text × ℕ) → ℕ
entries_of type = sum_by (λ e. if text_beq e.0 type then 1 else 0)

total_of-counted :
    (type t : Text) (counts : List (Text × ℕ))
    → total_of type (counted t counts) ≡ total_of type counts + (if text_beq t type then 1 else 0)
total_of-counted type t [] = ground arith
total_of-counted type t ((u, n) ∷ counts) = ground (
  arith,
  text_beq_iff u t,
  text_beq_iff u type,
  text_beq_iff t type,
  total_of-counted type t counts,
)

total_of-count_from :
    (type : Text) (counts : List (Text × ℕ)) (events : List EventLogEntry)
    → total_of type (count_from counts events)
      ≡ total_of type counts + length (filter (is_problem_of type) events)
unfolding count_from
total_of-count_from type counts [] = omega arith
total_of-count_from type counts (event ∷ events) = ground (
  arith,
  total_of-count_from type counts events,
  total_of-count_from type (counted event.type counts) events,
  total_of-counted type event.type counts,
)

entries_of-counted :
    (type t : Text) (counts : List (Text × ℕ))
    → entries_of type (counted t counts)
      ≡ (if text_beq t type then max 1 (entries_of type counts) else entries_of type counts)
entries_of-counted type t [] = ground arith
entries_of-counted type t ((u, n) ∷ counts) = ground (
  arith,
  text_beq_iff u t,
  text_beq_iff u type,
  text_beq_iff t type,
  entries_of-counted type t counts,
)

max_once :
    (b c : Bool) (n m : ℕ)
    → m ≡ (if b then max 1 n else n)
    → (if c then max 1 m else m) ≡ (if b || c then max 1 n else n)
max_once b c n m h = ground arith

entries_of-count_from :
    (type : Text) (counts : List (Text × ℕ)) (events : List EventLogEntry)
    → entries_of type (count_from counts events) ≡ (
        if any (is_problem_of type) events
        then max 1 (entries_of type counts)
        else entries_of type counts)
unfolding count_from
entries_of-count_from type counts [] = refl
entries_of-count_from type counts (event ∷ events) = elim (Bool-cases (is_problem event)) [
  | inl problem ↦ rw problem (
      entries_of-count_from type (counted event.type counts) events
      ∙ max_once (text_beq event.type type) (any (is_problem_of type) events) _ _
          (entries_of-counted type event.type counts))
  | inr harmless ↦ rw harmless (entries_of-count_from type counts events)
]

sum-counted :
    (t : Text) (counts : List (Text × ℕ))
    → sum_by (λ e. e.1) (counted t counts) ≡ sum_by (λ e. e.1) counts + 1
sum-counted t [] = refl
sum-counted t ((u, n) ∷ counts) = ground (arith, sum-counted t counts)

sum-count_from :
    (counts : List (Text × ℕ)) (events : List EventLogEntry)
    → sum_by (λ e. e.1) (count_from counts events)
      ≡ sum_by (λ e. e.1) counts + length (filter is_problem events)
unfolding count_from
sum-count_from counts [] = omega arith
sum-count_from counts (event ∷ events) = ground (
  arith,
  sum-count_from counts events,
  sum-count_from (counted event.type counts) events,
  sum-counted event.type counts,
)

error_after-IsPreorder : IsPreorder error_after (λ _. Unit {0})
error_after-IsPreorder = record {
  total = λ x y _ _ h. ground arith;
  trans = λ x y z _ _ _ h k. ground arith;
}

-- The total of a type is the number of its warnings and errors; each type that has one is listed once
-- and no other type is; the totals add up to the number of all warnings and errors; and the types
-- stand in descending order of their totals.
pub count_error_types_lem :
    (type : Text) (events : List EventLogEntry)
    → (sum_by (λ e. if text_beq e.type type then e.total else 0) (count_error_types events)
        ≡ length (filter (is_problem_of type) events))
      × (sum_by (λ e. if text_beq e.type type then 1 else 0) (count_error_types events)
          ≡ (if any (is_problem_of type) events then 1 else 0))
      × (sum_by (λ e. e.total) (count_error_types events) ≡ length (filter is_problem events))
      × AllPairs (λ a b. b.total ≤ a.total) (count_error_types events)
unfolding count_error_types
count_error_types_lem type events = (
  sort-sum_by error_after _ _
      ∙ (sum_by-map _ error_type (count_from [] events)
          ∙ omega (arith, total_of-count_from type [] events)),
  sort-sum_by error_after _ _
      ∙ (sum_by-map _ error_type (count_from [] events) ∙ entries_of-count_from type [] events),
  sort-sum_by error_after _ _
      ∙ (sum_by-map _ error_type (count_from [] events) ∙ omega (arith, sum-count_from [] events)),
  sort-AllPairs error_after (λ _. Unit) _ error_after-IsPreorder (λ a b _ _ h. ground arith) _
      (All-intro _ (λ _. tt)),
)
