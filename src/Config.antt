-- ===== src/Config.antt =====
-- backend/app/config.py, `Config`: the settings that the control plane reads at run time.
use crate_probe.Prelude.{ℕ, String}

pub record Config : Type 0 where
  pub lease_ttl_seconds : ℕ
  pub runner_offline_seconds : ℕ
  pub claim_max_jobs_hard_limit : ℕ
  pub max_state_sync_interval_seconds : ℕ
  pub admin_token : String
  pub task_upload_max_mb : ℕ
  pub file_push_max_mb : ℕ
  pub artifact_max_mb : ℕ
