-- ===== src/Job/Laws.antt =====
-- job/JobBuilder.ts beside `createJob` of job/Job.ts.
use oblivinx.Base.{ℕ, String, Option, none, some, ◌≡◌, arith}
use oblivinx.Job.{JobOptions, create_job}
use oblivinx.Job.Builder.{
  JobBuilder, new_builder, builder_defaults, set_type, set_payload, set_priority, set_delay,
  set_max_attempts, set_max_duration, set_ttl, set_flow, set_depends_on, set_retry, build,
}

-- Apply a setter where the option is given.
abbrev pub when_given {ℓ} :
    {A : Type ℓ} → (A → JobBuilder → JobBuilder) → Option A → JobBuilder → JobBuilder
when_given f none b = b
when_given f (some a) b = f a b

-- The chain of setter calls that a caller writes for some options.
abbrev pub chain_for : JobOptions → JobBuilder
chain_for o = when_given set_retry o.retry_policy (
    when_given set_depends_on o.depends_on (
      when_given set_flow o.flow_id (
        when_given set_ttl o.ttl (
          when_given set_max_duration o.max_duration (
            when_given set_max_attempts o.max_attempts (
              when_given set_delay o.delay (
                when_given set_priority o.priority
                  (set_payload o.payload (set_type o.type new_builder)))))))))

module _ (id : String) (now : ℕ) where
  module _ (o : JobOptions) where
    -- For options without an idempotency key, the builder that is given the type, the payload and
    -- every other option by its setter, where the option is there, builds the job that `createJob`
    -- makes of the options with the builder's defaults.
    pub build-chain_for :
        o.idempotency_key ≡ none → build id now (chain_for o) ≡ create_job id now o builder_defaults
    unfolding build create_job set_retry set_depends_on set_flow set_ttl set_max_duration
        set_max_attempts set_delay set_priority set_payload set_type
    build-chain_for h = ground arith
