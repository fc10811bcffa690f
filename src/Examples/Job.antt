-- ===== src/Examples/Job.antt =====
-- job, retry and config.
use oblivinx.Base.{ℕ, ◌/◌, ◌≤◌, none, some, arith}
use oblivinx.Base.Value.{Fields}
use oblivinx.Job.{JobOptions}
use oblivinx.Config.{QueueConfig}
use oblivinx.Retry.{ExponentialBackoff}

abbrev mail : JobOptions
mail = record {
  type = "mail";
  payload = Fields.end;
  priority = some 2;
  delay = none;
  max_attempts = some 5;
  max_duration = none;
  ttl = some 60_000;
  shard_key = none;
  flow_id = none;
  depends_on = none;
  idempotency_key = none;
  retry_policy = none;
}

abbrev backoff : ExponentialBackoff
backoff = record { max_attempts = 5; base = 1_000; cap = 60_000 }

half_below : (c : ℕ) → c / 2 ≤ c
half_below c = omega arith

abbrev only_named : QueueConfig Unit Unit
only_named = record {
  name = "mails";
  adapter = none;
  workers = none;
  persistence = none;
  plugins = none;
  default_priority = some 7;
  default_max_attempts = none;
  default_max_duration = none;
  max_queue_size = some 100;
}
