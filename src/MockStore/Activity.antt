-- ===== src/MockStore/Activity.antt =====
-- dashboard/src/lib/mock-data.ts: the constant jobs, events, session, figures and first settings.
use proxy_pool_architect.Base.{ℕ, true, false, none, some, List, [], ◌∷◌}
use proxy_pool_architect.Base.Text.{Text, codes}
use proxy_pool_architect.Types.Unions.{
  DbStatus, SchedulerStatus, HealthLevel, JobStatus, EventLevel, AuthMethod,
}
use proxy_pool_architect.Types.Records.{
  ValidationJob, EventLogEntry, DashboardSettings, AuthSessionStatus, DashboardStats, HealthStatus,
}

pub mock_settings : DashboardSettings
mock_settings = record {
  fetch_interval_seconds = 1800;
  validate_interval_seconds = 600;
  validate_timeout_seconds = 10;
  validate_concurrency = 100;
  min_elite_score = 80;
  cooldown_seconds = 1800;
  safe_networking = record {
    authorized_targets_only = true;
    block_private_networks = true;
    mask_proxy_credentials = true;
  };
}

unfoldable pub mock_auth_session : AuthSessionStatus
mock_auth_session = record {
  enabled = false;
  authenticated = false;
  username = none;
  expires_at = none;
  auth_method = some AuthMethod.disabled;
}

pub mock_health : HealthStatus
mock_health = record {
  status = HealthLevel.ok;
  db = DbStatus.ok;
  scheduler = SchedulerStatus.running;
}

-- `now` is the time of the call.
pub mock_stats : (now : Text) → DashboardStats
mock_stats now = record {
  raw = 1280;
  checked = 342;
  elite = 76;
  dead = 862;
  cooldown = 18;
  avg_latency_ms = some 1240;
  success_rate = some (record { num = 72; den = 100 });
  last_fetch_at = some now;
  last_validate_at = some now;
  db_status = DbStatus.ok;
  scheduler_status = SchedulerStatus.running;
}

module _ (hours_ago : ℕ → Text) where
  abbrev job : Text → ℕ → ℕ → ℕ → ℕ → ℕ → ValidationJob
  job id hours checked success fail timeout = record {
    id = id;
    started_at = hours_ago hours;
    finished_at = some (hours_ago hours);
    checked_count = checked;
    success_count = success;
    fail_count = fail;
    timeout_count = timeout;
    status = JobStatus.finished;
  }

  unfoldable pub mock_validation_jobs : List ValidationJob
  mock_validation_jobs =
      job (codes "job-2026-05-01-001") 2 420 133 287 41
      ∷ job (codes "job-2026-05-01-002") 6 390 121 269 36
      ∷ job (codes "job-2026-05-01-003") 12 405 128 277 44
      ∷ []

  abbrev event : Text → Text → EventLevel → Text → ℕ → EventLogEntry
  event id type level message hours = record {
    id = id;
    type = type;
    level = level;
    message = message;
    created_at = hours_ago hours;
  }

  unfoldable pub mock_events : List EventLogEntry
  mock_events =
      event (codes "event-001") (codes "validation_timeout") EventLevel.warning
        (codes "Proxy timed out during validation.") 1
      ∷ event (codes "event-002") (codes "provider_fetch_error") EventLevel.error
          (codes "url_list_provider returned a temporary upstream error.") 3
      ∷ event (codes "event-003") (codes "proxy_deleted") EventLevel.info
          (codes "Dead proxy removed from the pool after operator review.") 5
      ∷ event (codes "event-004") (codes "validation_failed") EventLevel.warning
          (codes "Transparent proxy leaked forwarding headers.") 7
      ∷ []
