-- ===== src/Job.antt =====
-- packages/queueovn/src/types/job.types.ts, job/Job.ts and job/JobState.ts: the job value and its
-- factory. An optional field is an `Option`. The id that `generateId` (the `ulid` package) makes and
-- the time of `Date.now()` are arguments. `build` of job/JobBuilder.ts is in `Builder`, the error
-- classes of errors/ are in `Errors`.
pub mod Errors
pub mod Builder
pub mod Laws
use oblivinx.Base.{ℕ, ◌+◌, Bool, String, Option, none, some, List, default_to}
use oblivinx.Base.Value.{Value, Fields}
use oblivinx.Job.Errors.{Failure}
use mathlib.Core.Option

pub data JobState : Type 0 where
  pending active done failed retrying paused expired dlq : JobState

-- `IRetryPolicy`: what the queue asks of a policy.
pub record RetryPolicy : Type 0 where
  pub should_retry : ℕ → Failure → Bool
  pub next_delay : ℕ → Failure → ℕ

pub record Job : Type 0 where
  pub id : String
  pub type : String
  pub payload : Fields
  pub priority : ℕ
  pub max_attempts : ℕ
  pub attempts : ℕ
  pub max_duration : ℕ
  pub state : JobState
  pub created_at : ℕ
  pub run_at : ℕ
  pub ttl : Option ℕ
  pub expires_at : Option ℕ
  pub started_at : Option ℕ
  pub finished_at : Option ℕ
  pub last_error : Option String
  pub flow_id : Option String
  pub depends_on : Option (List String)
  pub idempotency_key : Option String
  pub retry_policy : Option RetryPolicy

pub record JobOptions : Type 0 where
  pub type : String
  pub payload : Fields
  pub priority : Option ℕ
  pub delay : Option ℕ
  pub max_attempts : Option ℕ
  pub max_duration : Option ℕ
  pub ttl : Option ℕ
  pub shard_key : Option String
  pub flow_id : Option String
  pub depends_on : Option (List String)
  pub idempotency_key : Option String
  pub retry_policy : Option RetryPolicy

pub record JobDefaults : Type 0 where
  pub default_priority : ℕ
  pub default_max_attempts : ℕ
  pub default_max_duration : ℕ

pub data JobResult : Type 0 where
  success : Value → JobResult
  failure : Failure → JobResult

-- `createJob`, with the generated id and the current time given.
unfoldable pub create_job : String → ℕ → JobOptions → JobDefaults → Job
create_job id now options defaults =
    let delay = default_to options.delay 0 in
    record {
      id = id;
      type = options.type;
      payload = options.payload;
      priority = default_to options.priority defaults.default_priority;
      max_attempts = default_to options.max_attempts defaults.default_max_attempts;
      attempts = 0;
      max_duration = default_to options.max_duration defaults.default_max_duration;
      state = pending;
      created_at = now;
      run_at = now + delay;
      ttl = options.ttl;
      expires_at = Option.map (λ t. now + t) options.ttl;
      started_at = none;
      finished_at = none;
      last_error = none;
      flow_id = options.flow_id;
      depends_on = options.depends_on;
      idempotency_key = options.idempotency_key;
      retry_policy = options.retry_policy;
    }

-- `Partial<Omit<Job, 'id' | 'type' | 'createdAt'>>`: `none` leaves a field as it is, and
-- `some none` sets an optional one to `undefined`.
pub record JobChanges : Type 0 where
  pub payload : Option Fields
  pub priority : Option ℕ
  pub max_attempts : Option ℕ
  pub attempts : Option ℕ
  pub max_duration : Option ℕ
  pub state : Option JobState
  pub run_at : Option ℕ
  pub ttl : Option (Option ℕ)
  pub expires_at : Option (Option ℕ)
  pub started_at : Option (Option ℕ)
  pub finished_at : Option (Option ℕ)
  pub last_error : Option (Option String)
  pub flow_id : Option (Option String)
  pub depends_on : Option (Option (List String))
  pub idempotency_key : Option (Option String)
  pub retry_policy : Option (Option RetryPolicy)

abbrev pub no_changes : JobChanges
no_changes = record {
  payload = none;
  priority = none;
  max_attempts = none;
  attempts = none;
  max_duration = none;
  state = none;
  run_at = none;
  ttl = none;
  expires_at = none;
  started_at = none;
  finished_at = none;
  last_error = none;
  flow_id = none;
  depends_on = none;
  idempotency_key = none;
  retry_policy = none;
}

unfoldable pub update_job : Job → JobChanges → Job
update_job job changes = record job {
  payload = default_to changes.payload job.payload;
  priority = default_to changes.priority job.priority;
  max_attempts = default_to changes.max_attempts job.max_attempts;
  attempts = default_to changes.attempts job.attempts;
  max_duration = default_to changes.max_duration job.max_duration;
  state = default_to changes.state job.state;
  run_at = default_to changes.run_at job.run_at;
  ttl = default_to changes.ttl job.ttl;
  expires_at = default_to changes.expires_at job.expires_at;
  started_at = default_to changes.started_at job.started_at;
  finished_at = default_to changes.finished_at job.finished_at;
  last_error = default_to changes.last_error job.last_error;
  flow_id = default_to changes.flow_id job.flow_id;
  depends_on = default_to changes.depends_on job.depends_on;
  idempotency_key = default_to changes.idempotency_key job.idempotency_key;
  retry_policy = default_to changes.retry_policy job.retry_policy;
}

pub JobState-discrete : Discrete JobState
JobState-discrete = hlevel

abbrev pub is_active : JobState → Bool
is_active active = Bool.true
is_active _ = Bool.false
