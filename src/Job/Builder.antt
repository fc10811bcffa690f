-- ===== src/Job/Builder.antt =====
-- packages/queueovn/src/job/JobBuilder.ts: the fluent builder. A setter returns the new builder.
use oblivinx.Base.{ℕ, String, Option, none, some, List}
use oblivinx.Base.Value.{Fields, end}
use oblivinx.Job.{Job, JobOptions, JobDefaults, RetryPolicy, create_job}

abbrev pub builder_defaults : JobDefaults
builder_defaults = record {
  default_priority = 5;
  default_max_attempts = 3;
  default_max_duration = 30_000;
}

pub record JobBuilder : Type 0 where
  pub type : String
  pub payload : Fields
  pub priority : ℕ
  pub delay : ℕ
  pub max_attempts : ℕ
  pub max_duration : ℕ
  pub ttl : Option ℕ
  pub flow_id : Option String
  pub depends_on : Option (List String)
  pub retry_policy : Option RetryPolicy

abbrev pub new_builder : JobBuilder
new_builder = record {
  type = "";
  payload = end;
  priority = builder_defaults.default_priority;
  delay = 0;
  max_attempts = builder_defaults.default_max_attempts;
  max_duration = builder_defaults.default_max_duration;
  ttl = none;
  flow_id = none;
  depends_on = none;
  retry_policy = none;
}

unfoldable pub set_type : String → JobBuilder → JobBuilder
set_type val b = record b { type = val }

unfoldable pub set_payload : Fields → JobBuilder → JobBuilder
set_payload val b = record b { payload = val }

unfoldable pub set_priority : ℕ → JobBuilder → JobBuilder
set_priority val b = record b { priority = val }

unfoldable pub set_delay : ℕ → JobBuilder → JobBuilder
set_delay val b = record b { delay = val }

unfoldable pub set_max_attempts : ℕ → JobBuilder → JobBuilder
set_max_attempts val b = record b { max_attempts = val }

unfoldable pub set_max_duration : ℕ → JobBuilder → JobBuilder
set_max_duration val b = record b { max_duration = val }

unfoldable pub set_ttl : ℕ → JobBuilder → JobBuilder
set_ttl val b = record b { ttl = some val }

unfoldable pub set_flow : String → JobBuilder → JobBuilder
set_flow val b = record b { flow_id = some val }

unfoldable pub set_depends_on : List String → JobBuilder → JobBuilder
set_depends_on val b = record b { depends_on = some val }

unfoldable pub set_retry : RetryPolicy → JobBuilder → JobBuilder
set_retry val b = record b { retry_policy = some val }

-- `build`: the options handed to `createJob`. There is no setter for an idempotency key.
abbrev pub built_options : JobBuilder → JobOptions
built_options b = record {
  type = b.type;
  payload = b.payload;
  priority = some b.priority;
  delay = some b.delay;
  max_attempts = some b.max_attempts;
  max_duration = some b.max_duration;
  ttl = b.ttl;
  shard_key = none;
  flow_id = b.flow_id;
  depends_on = b.depends_on;
  idempotency_key = none;
  retry_policy = b.retry_policy;
}

unfoldable pub build : String → ℕ → JobBuilder → Job
build id now b = create_job id now (built_options b) builder_defaults
