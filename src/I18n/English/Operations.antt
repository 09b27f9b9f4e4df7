-- ===== src/I18n/English/Operations.antt =====
-- dashboard/src/i18n/translations.ts: the English texts of validation, logs, settings and placeholders.
use proxy_pool_architect.Base.{List, [], ◌∷◌}
use proxy_pool_architect.Base.Text.{Text}
use proxy_pool_architect.I18n.Entries.{entry}

unfoldable pub en_operations : List (Text × Text)
en_operations =
    entry "validation.loadError" "Unable to load validation status"
    ∷ entry "validation.loading" "Loading validation status"
    ∷ entry "validation.emptyTitle" "No validation activity available"
    ∷ entry "validation.emptyMessage" "No recent validation jobs were returned."
    ∷ entry "validation.statusTitle" "Validation status"
    ∷ entry "validation.liveNote"
        "Live mode reads recent validation jobs and operational events from the backend."
    ∷ entry "validation.mockNote" "This page is currently backed by mock validation history."
    ∷ entry "validation.recentSuccessRate" "Recent success rate"
    ∷ entry "validation.recentSuccessDetail" "Across recent validation jobs"
    ∷ entry "validation.timeoutRate" "Timeout rate"
    ∷ entry "validation.timeoutEvents" "{count} timeout events"
    ∷ entry "validation.deadDetail" "Current dead pool size"
    ∷ entry "validation.checkedDetail" "Ready for selection"
    ∷ entry "validation.recentJobs" "Recent validation jobs"
    ∷ entry "validation.jobsDescription"
        "Job-level throughput, success, failure, and timeout signals."
    ∷ entry "validation.commonErrors" "Common error types"
    ∷ entry "validation.commonErrorsDescription"
        "Most frequent warning and error categories from recent events."
    ∷ entry "validation.eventsCount" "{count} events"
    ∷ entry "validation.job" "Job"
    ∷ entry "validation.started" "Started"
    ∷ entry "validation.finished" "Finished"
    ∷ entry "validation.checked" "Checked"
    ∷ entry "validation.timeout" "Timeout"
    ∷ entry "validation.tableCaption" "Recent validation jobs with throughput and success rate"
    ∷ entry "validation.paginationLabel" "Validation job pagination"
    ∷ entry "logs.loadError" "Unable to load event log"
    ∷ entry "logs.loading" "Loading event log"
    ∷ entry "logs.emptyTitle" "No events available"
    ∷ entry "logs.emptyMessage" "No operational events were returned."
    ∷ entry "logs.operationalEvents" "Operational events"
    ∷ entry "logs.liveNote"
        "Live mode reads backend event history and falls back to mock entries only when the endpoint is unavailable."
    ∷ entry "logs.mockNote" "This page is currently backed by mock operational events."
    ∷ entry "logs.recentEvents" "Recent events"
    ∷ entry "logs.description" "Warnings, errors, and routine operator-visible actions."
    ∷ entry "logs.time" "Time"
    ∷ entry "logs.level" "Level"
    ∷ entry "logs.type" "Type"
    ∷ entry "logs.message" "Message"
    ∷ entry "logs.tableCaption" "Operational event log"
    ∷ entry "logs.paginationLabel" "Event log pagination"
    ∷ entry "settings.loadError" "Unable to load settings"
    ∷ entry "settings.loading" "Loading dashboard settings"
    ∷ entry "settings.emptyTitle" "No settings available"
    ∷ entry "settings.emptyMessage" "No dashboard settings were returned."
    ∷ entry "settings.saved" "Settings saved."
    ∷ entry "settings.saveError" "Unable to save settings"
    ∷ entry "settings.runtimeTitle" "Runtime settings"
    ∷ entry "settings.liveNote" "Live mode reads and updates runtime-safe backend settings."
    ∷ entry "settings.mockNote" "This page is currently backed by mock settings data."
    ∷ entry "settings.preferences" "Preferences"
    ∷ entry "settings.preferencesDescription" "Display options are stored locally in this browser."
    ∷ entry "settings.language" "Language"
    ∷ entry "settings.schedulerTitle" "Scheduler and validation"
    ∷ entry "settings.schedulerDescription"
        "Only safe networking and quality-management settings are exposed here."
    ∷ entry "settings.fetchInterval" "Fetch interval seconds"
    ∷ entry "settings.validationInterval" "Validation interval seconds"
    ∷ entry "settings.validationTimeout" "Validation timeout seconds"
    ∷ entry "settings.validationConcurrency" "Validation concurrency"
    ∷ entry "settings.minimumEliteScore" "Minimum elite score"
    ∷ entry "settings.cooldownSeconds" "Cooldown seconds"
    ∷ entry "settings.authorizedTargets" "Authorized targets only"
    ∷ entry "settings.authorizedTargetsDescription"
        "Keep dashboard-triggered networking limited to approved internal or owned targets."
    ∷ entry "settings.blockPrivateNetworks" "Block private networks"
    ∷ entry "settings.blockPrivateNetworksDescription"
        "Avoid routing validation work into RFC1918 or local-only destinations by default."
    ∷ entry "settings.maskCredentials" "Mask proxy credentials"
    ∷ entry "settings.maskCredentialsDescription"
        "Never reveal proxy usernames or passwords in the dashboard UI."
    ∷ entry "settings.connected" "Connected to live settings API."
    ∷ entry "settings.saving" "Saving..."
    ∷ entry "settings.save" "Save settings"
    ∷ entry "placeholder.emptyTitle" "{title} has no data yet"
    ∷ entry "placeholder.emptyMessage" "No records are available in this view."
    ∷ []
