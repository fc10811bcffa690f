-- ===== src/Plugins/Metrics.antt =====
-- plugins/Metrics.ts: the counters. `this.clock.now()` is an argument; a clock that runs backwards is
-- left out, so the latency is the truncated difference. `Math.round` of a quotient of whole numbers
-- is written with whole numbers.
pub mod Counts
use oblivinx.Base.{
  ℕ, zero, ◌+◌, ◌-◌, ◌*◌, ◌/◌, Option, none, some, if◌then◌else◌, ltb, String, List, [], ◌∷◌,
}
use oblivinx.Base.Dict.{Dict, lookup, insert, erase}
use oblivinx.Job.{Job, JobResult}
use oblivinx.Job.Errors.{Failure}

pub record Metrics : Type 0 where
  pub processed : ℕ
  pub failed : ℕ
  pub retried : ℕ
  pub expired : ℕ
  pub total_latency_ms : ℕ
  pub active_count : ℕ
  pub start_times : Dict ℕ

abbrev pub new_metrics : Metrics
new_metrics = record {
  processed = 0;
  failed = 0;
  retried = 0;
  expired = 0;
  total_latency_ms = 0;
  active_count = 0;
  start_times = [];
}

unfoldable pub on_process : ℕ → Job → Metrics → Metrics
on_process now job m = record m {
  active_count = m.active_count + 1;
  start_times = insert job.id now m.start_times;
}

unfoldable pub latency : ℕ → Option ℕ → ℕ
latency now none = 0
latency now (some start) = now - start

unfoldable pub on_complete : ℕ → Job → Metrics → Metrics
unfolding latency
on_complete now job m = record m {
  processed = m.processed + 1;
  active_count = m.active_count - 1;
  total_latency_ms = m.total_latency_ms + latency now (lookup job.id m.start_times);
  start_times = erase job.id m.start_times;
}

unfoldable pub on_fail : Job → Failure → Metrics → Metrics
on_fail job error m = record m {
  failed = m.failed + 1;
  active_count = m.active_count - 1;
  start_times = erase job.id m.start_times;
}

unfoldable pub on_expire : Job → Metrics → Metrics
on_expire job m = record m { expired = m.expired + 1 }

unfoldable pub record_retry : Metrics → Metrics
record_retry m = record m { retried = m.retried + 1 }

pub record MetricsSnapshot : Type 0 where
  pub processed : ℕ
  pub failed : ℕ
  pub retried : ℕ
  pub expired : ℕ
  pub depth : ℕ
  pub avg_latency_ms : ℕ
  pub active_workers : ℕ

-- Half of an odd total rounds up, as in `Math.round`.
unfoldable pub rounded : ℕ → ℕ → ℕ
rounded total count = (2 * total + count) / (2 * count)

unfoldable pub snapshot : ℕ → Metrics → MetricsSnapshot
unfolding rounded
snapshot queue_depth m = record {
  processed = m.processed;
  failed = m.failed;
  retried = m.retried;
  expired = m.expired;
  depth = queue_depth;
  avg_latency_ms = if ltb 0 m.processed then rounded m.total_latency_ms m.processed else 0;
  active_workers = m.active_count;
}

-- `reset`.
abbrev pub reset : Metrics → Metrics
reset m = new_metrics
