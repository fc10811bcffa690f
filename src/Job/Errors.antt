-- ===== src/Job/Errors.antt =====
-- packages/queueovn/src/errors: the error classes. The text of a message that is a template over
-- a number is left to the constructor's arguments; `plain` is any other `Error`, by name and message.
use oblivinx.Base.{ℕ, String, List, Bool, true, false}

pub data Failure : Type 0 where
  plain : String → String → Failure
  queue_error : String → Failure
  queue_full : ℕ → Failure
  adapter_error : String → Failure
  dependency_error : String → String → Failure
  cyclic_dependency : List String → Failure
  unknown_job_type : String → Failure
  job_timeout : String → ℕ → Failure
  rate_limit : String → Failure
  concurrency_limit : ℕ → Failure
  discard_job : String → Failure

-- `this.name` of each class.
unfoldable pub error_name : Failure → String
error_name (plain name _) = name
error_name (queue_error _) = "QueueError"
error_name (queue_full _) = "QueueError"
error_name (adapter_error _) = "AdapterError"
error_name (dependency_error _ _) = "DependencyError"
error_name (cyclic_dependency _) = "CyclicDependencyError"
error_name (unknown_job_type _) = "UnknownJobTypeError"
error_name (job_timeout _ _) = "JobTimeoutError"
error_name (rate_limit _) = "RateLimitError"
error_name (concurrency_limit _) = "RateLimitError"
error_name (discard_job _) = "DiscardJobError"

-- `DiscardJobError.is`.
abbrev pub is_discard : Failure → Bool
is_discard (discard_job _) = true
is_discard _ = false
