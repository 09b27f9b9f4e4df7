-- ===== src/Pages/Settings/Fields.antt =====
-- dashboard/src/pages/SettingsPage.tsx: the fields of the form.
use proxy_pool_architect.Base.{
  ℕ, Bool, true, false, ◌≡◌, refl, Option, or_else, if◌then◌else◌, arith, ap, ◌∙◌, inl, inr,
  Bool-cases,
}
use proxy_pool_architect.Base.Text.{Text}
use proxy_pool_architect.Types.Records.{DashboardSettings}
use proxy_pool_architect.Pages.Settings.{
  NumberField, Toggle, with_number, number_of, with_toggle, toggle_of, Edit, typed, checked, edited,
}

abbrev pub same_field : NumberField → NumberField → Bool
same_field NumberField.fetch_interval NumberField.fetch_interval = true
same_field NumberField.validate_interval NumberField.validate_interval = true
same_field NumberField.validate_timeout NumberField.validate_timeout = true
same_field NumberField.concurrency NumberField.concurrency = true
same_field NumberField.elite_score NumberField.elite_score = true
same_field NumberField.cooldown NumberField.cooldown = true
same_field _ _ = false

abbrev pub same_toggle : Toggle → Toggle → Bool
same_toggle Toggle.authorized_targets Toggle.authorized_targets = true
same_toggle Toggle.private_networks Toggle.private_networks = true
same_toggle Toggle.mask_credentials Toggle.mask_credentials = true
same_toggle _ _ = false

same_field-eq : (field other : NumberField) → same_field field other ≡ true → field ≡ other
same_field-eq field other h = ground arith

number_of-with_number :
    (field other : NumberField) (n : ℕ) (s : DashboardSettings)
    → number_of other (with_number field n s)
      ≡ (if same_field field other then n else number_of other s)
unfolding number_of with_number
number_of-with_number field other n s = ground arith

toggle_of-with_number :
    (field : NumberField) (toggle : Toggle) (n : ℕ) (s : DashboardSettings)
    → toggle_of toggle (with_number field n s) ≡ toggle_of toggle s
unfolding toggle_of with_number
toggle_of-with_number field toggle n s = ground arith

number_of-with_toggle :
    (toggle : Toggle) (field : NumberField) (b : Bool) (s : DashboardSettings)
    → number_of field (with_toggle toggle b s) ≡ number_of field s
unfolding number_of with_toggle
number_of-with_toggle toggle field b s = ground arith

toggle_of-with_toggle :
    (toggle other : Toggle) (b : Bool) (s : DashboardSettings)
    → toggle_of other (with_toggle toggle b s)
      ≡ (if same_toggle toggle other then b else toggle_of other s)
unfolding toggle_of with_toggle
toggle_of-with_toggle toggle other b s = ground arith

-- The value of a field after an edit, for its value before.
abbrev pub number_after : (Text → Option ℕ) → Edit → NumberField → ℕ → ℕ
number_after number (typed field value) other old =
    if same_field field other then or_else (number value) old else old
number_after number (checked toggle b) other old = old

abbrev pub toggle_after : Edit → Toggle → Bool → Bool
toggle_after (typed field value) other old = old
toggle_after (checked toggle b) other old = if same_toggle toggle other then b else old

-- An edit of the form changes the field that it is made in and no other: a number field takes the number
-- that its text is read as, and keeps its value if the text is no number; a check box takes its state.
pub edited_lem :
    (number : Text → Option ℕ) (edit : Edit) (s : DashboardSettings)
    → ((field : NumberField)
        → number_of field (edited number edit s)
          ≡ number_after number edit field (number_of field s))
      × ((toggle : Toggle)
          → toggle_of toggle (edited number edit s) ≡ toggle_after edit toggle (toggle_of toggle s))
unfolding edited
edited_lem number (typed field value) s = (
  λ other. taken other (same_field-eq field other),
  λ toggle. toggle_of-with_number field toggle (or_else (number value) (number_of field s)) s,
)
  where
    taken :
        (other : NumberField)
        → (same_field field other ≡ true → field ≡ other)
        → number_of other (with_number field (or_else (number value) (number_of field s)) s) ≡ (
            if same_field field other
            then or_else (number value) (number_of other s)
            else number_of other s)
    taken other same =
        number_of-with_number field other (or_else (number value) (number_of field s)) s
        ∙ elim (Bool-cases (same_field field other)) [
          | inl it ↦
              rw it (ap (λ (f : NumberField). or_else (number value) (number_of f s)) (same it))
          | inr another ↦ rw another refl
        ]
edited_lem number (checked toggle b) s = (
  λ field. number_of-with_toggle toggle field b s,
  λ other. toggle_of-with_toggle toggle other b s,
)
