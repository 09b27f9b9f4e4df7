-- ===== src/I18n/English/Shell.antt =====
-- dashboard/src/i18n/translations.ts: the English texts of the shell, the navigation and the labels of states.
use proxy_pool_architect.Base.{List, [], ◌∷◌}
use proxy_pool_architect.Base.Text.{Text}
use proxy_pool_architect.I18n.Entries.{entry}

unfoldable pub en_shell : List (Text × Text)
en_shell =
    entry "common.cancel" "Cancel"
    ∷ entry "common.close" "Close"
    ∷ entry "common.confirm" "Confirm"
    ∷ entry "common.delete" "Delete"
    ∷ entry "common.none" "None"
    ∷ entry "common.notSet" "Not set"
    ∷ entry "common.unknown" "Unknown"
    ∷ entry "common.view" "View"
    ∷ entry "common.working" "Working..."
    ∷ entry "common.loading" "Loading"
    ∷ entry "common.unableToLoadData" "Unable to load data"
    ∷ entry "common.listRange" "{start}-{end} of {total}"
    ∷ entry "common.paginationLabel" "Pagination"
    ∷ entry "common.paginationPrevious" "Previous"
    ∷ entry "common.paginationNext" "Next"
    ∷ entry "common.paginationPage" "Page {page} / {totalPages}"
    ∷ entry "language.en" "English"
    ∷ entry "language.zh-CN" "中文"
    ∷ entry "auth.loading" "Checking dashboard session"
    ∷ entry "auth.sessionError" "Unable to check the current session"
    ∷ entry "auth.sessionFailed" "Session check failed"
    ∷ entry "auth.title" "Admin sign in"
    ∷ entry "auth.description" "Sign in to access proxy pool operations and dashboard APIs."
    ∷ entry "auth.username" "Username"
    ∷ entry "auth.password" "Password"
    ∷ entry "auth.usernamePlaceholder" "Enter admin username"
    ∷ entry "auth.passwordPlaceholder" "Enter password"
    ∷ entry "auth.login" "Sign in"
    ∷ entry "auth.loggingIn" "Signing in..."
    ∷ entry "auth.loginError" "Unable to sign in with the provided credentials"
    ∷ entry "auth.loginFailed" "Sign-in failed"
    ∷ entry "auth.logout" "Sign out"
    ∷ entry "auth.logoutError" "Unable to sign out"
    ∷ entry "auth.adminUser" "Admin"
    ∷ entry "nav.overview" "Overview"
    ∷ entry "nav.proxies" "Proxies"
    ∷ entry "nav.providers" "Providers"
    ∷ entry "nav.geo" "Geo"
    ∷ entry "nav.validation" "Validation"
    ∷ entry "nav.logs" "Logs"
    ∷ entry "nav.settings" "Settings"
    ∷ entry "nav.doc" "API Doc"
    ∷ entry "mode.live" "Live API"
    ∷ entry "mode.mock" "Mock data"
    ∷ entry "app.navigation" "Dashboard navigation"
    ∷ entry "theme.light" "Light theme"
    ∷ entry "theme.dark" "Dark theme"
    ∷ entry "status.ok" "ok"
    ∷ entry "status.error" "error"
    ∷ entry "status.unknown" "unknown"
    ∷ entry "status.running" "running"
    ∷ entry "status.stopped" "stopped"
    ∷ entry "proxyPool.raw" "raw"
    ∷ entry "proxyPool.checked" "checked"
    ∷ entry "proxyPool.elite" "elite"
    ∷ entry "proxyPool.dead" "dead"
    ∷ entry "proxyPool.cooldown" "cooldown"
    ∷ entry "anonymity.unknown" "unknown"
    ∷ entry "anonymity.transparent" "transparent"
    ∷ entry "anonymity.anonymous" "anonymous"
    ∷ entry "anonymity.elite" "elite"
    ∷ entry "provider.enabled" "enabled"
    ∷ entry "provider.disabled" "disabled"
    ∷ entry "eventLevel.info" "info"
    ∷ entry "eventLevel.warning" "warning"
    ∷ entry "eventLevel.error" "error"
    ∷ entry "validationStatus.running" "running"
    ∷ entry "validationStatus.finished" "finished"
    ∷ entry "validationStatus.failed" "failed"
    ∷ []
