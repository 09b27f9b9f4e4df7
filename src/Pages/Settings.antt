-- ===== src/Pages/Settings.antt =====
-- dashboard/src/pages/SettingsPage.tsx: the settings form with its load and its save. `number` is
-- `toNumber` up to its fallback: the finite number that a text is read as, here a natural number.
pub mod Fields
pub mod Saving
use proxy_pool_architect.Base.{
  ℕ, ◌+◌, Bool, true, false, Option, none, some, List, [], ◌∷◌, or_else, if◌then◌else◌, nat_beq,
}
use proxy_pool_architect.Base.Text.{Text, codes, non_empty}
use proxy_pool_architect.Effects.{Exception, Result, ok, err, message_or}
use proxy_pool_architect.Types.Records.{DashboardSettings, SafeNetworkingSettings}

-- The form's number fields and check boxes.
pub data NumberField : Type 0 where
  fetch_interval validate_interval validate_timeout : NumberField
  concurrency elite_score cooldown : NumberField

pub data Toggle : Type 0 where
  authorized_targets private_networks mask_credentials : Toggle

-- `{...settings, [field]: value}`
unfoldable pub with_number : NumberField → ℕ → DashboardSettings → DashboardSettings
with_number NumberField.fetch_interval n s = record s { fetch_interval_seconds = n }
with_number NumberField.validate_interval n s = record s { validate_interval_seconds = n }
with_number NumberField.validate_timeout n s = record s { validate_timeout_seconds = n }
with_number NumberField.concurrency n s = record s { validate_concurrency = n }
with_number NumberField.elite_score n s = record s { min_elite_score = n }
with_number NumberField.cooldown n s = record s { cooldown_seconds = n }

-- The value that a field is shown with.
unfoldable pub number_of : NumberField → DashboardSettings → ℕ
number_of NumberField.fetch_interval s = s.fetch_interval_seconds
number_of NumberField.validate_interval s = s.validate_interval_seconds
number_of NumberField.validate_timeout s = s.validate_timeout_seconds
number_of NumberField.concurrency s = s.validate_concurrency
number_of NumberField.elite_score s = s.min_elite_score
number_of NumberField.cooldown s = s.cooldown_seconds

abbrev pub with_networking : SafeNetworkingSettings → DashboardSettings → DashboardSettings
with_networking networking s = record s { safe_networking = networking }

unfoldable pub with_toggle : Toggle → Bool → DashboardSettings → DashboardSettings
with_toggle Toggle.authorized_targets b s =
    with_networking (record s.safe_networking { authorized_targets_only = b }) s
with_toggle Toggle.private_networks b s =
    with_networking (record s.safe_networking { block_private_networks = b }) s
with_toggle Toggle.mask_credentials b s =
    with_networking (record s.safe_networking { mask_proxy_credentials = b }) s

unfoldable pub toggle_of : Toggle → DashboardSettings → Bool
toggle_of Toggle.authorized_targets s = s.safe_networking.authorized_targets_only
toggle_of Toggle.private_networks s = s.safe_networking.block_private_networks
toggle_of Toggle.mask_credentials s = s.safe_networking.mask_proxy_credentials

-- What the user enters.
pub data Edit : Type 0 where
  typed : NumberField → Text → Edit
  checked : Toggle → Bool → Edit

unfoldable pub edited : (Text → Option ℕ) → Edit → DashboardSettings → DashboardSettings
unfolding with_number number_of with_toggle
edited number (typed field value) s =
    with_number field (or_else (number value) (number_of field s)) s
edited number (checked toggle b) s = with_toggle toggle b s

-- `effect` is the number of the effect's run that is not cancelled.
pub record SettingsState : Type 0 where
  pub settings : Option DashboardSettings
  pub loading : Bool
  pub saving : Bool
  pub error : Option Text
  pub message_key : Option Text
  pub effect : ℕ

abbrev pub initial_settings : SettingsState
initial_settings = record {
  settings = none;
  loading = true;
  saving = false;
  error = none;
  message_key = none;
  effect = 0;
}

pub data View : Type 0 where
  loading_view : View
  error_view : Text → View
  empty_view : View
  form_view : DashboardSettings → View

unfoldable pub view : SettingsState → View
view s = if s.loading then loading_view else elim (non_empty s.error) [
  | some message ↦ error_view message
  | none ↦ elim s.settings [ some settings ↦ form_view settings | none ↦ empty_view ]
]

-- The effect, which runs at first and when the language changes, up to its request.
unfoldable pub run_effect : SettingsState → SettingsState
run_effect s = record s { loading = true; error = none; effect = s.effect + 1 }

abbrev pub loaded : Text → Result DashboardSettings → SettingsState → SettingsState
loaded load_error (ok next) s = record s { settings = some next; loading = false }
loaded load_error (err e) s = record s { error = some (message_or load_error e); loading = false }

unfoldable pub end_load : Text → ℕ → Result DashboardSettings → SettingsState → SettingsState
end_load load_error n result s = if nat_beq n s.effect then loaded load_error result s else s

-- A field of the form, which is there only in `form_view`.
abbrev pub on_form : (DashboardSettings → SettingsState) → SettingsState → View → SettingsState
on_form f s loading_view = s
on_form f s (error_view message) = s
on_form f s empty_view = s
on_form f s (form_view settings) = f settings

unfoldable pub enter : (Text → Option ℕ) → Edit → SettingsState → SettingsState
unfolding edited view
enter number edit s =
    on_form (λ settings. record s { settings = some (edited number edit settings) }) s (view s)

-- `saveSettings` up to its request, with the settings that it sends. The button is disabled while it
-- saves.
abbrev pub saved_from : Bool → SettingsState → View → Option DashboardSettings
saved_from true s v = none
saved_from false s loading_view = none
saved_from false s (error_view message) = none
saved_from false s empty_view = none
saved_from false s (form_view settings) = some settings

unfoldable pub press_save : SettingsState → Option DashboardSettings
unfolding view
press_save s = saved_from s.saving s (view s)

abbrev pub begin_save : SettingsState → SettingsState
begin_save s = record s { saving = true; error = none; message_key = none }

-- The same from the end of its request on.
unfoldable pub end_save : Text → Result DashboardSettings → SettingsState → SettingsState
end_save save_error (ok saved) s = record s {
  settings = some saved;
  message_key = some (codes "settings.saved");
  saving = false;
}
end_save save_error (err e) s = record s { error = some (message_or save_error e); saving = false }
