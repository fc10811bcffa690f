-- ===== src/Client/Ids/Repeats.antt =====
-- packages/oblivinx3x/src/utils/id.ts, `generateSnowflake`: more calls than a millisecond has ids.
use oblivinx.Base.{ℕ, zero, suc, ◌+◌, ◌%◌, ◌≡◌, refl, ◌∙◌, sym, ap, none, some, arith}
use oblivinx.Client.Ids.{
  SnowflakeConfig, SnowflakeState, IdResult, made, refused, encode, generate_snowflake,
}
use oblivinx.Client.Ids.Sparse.{IsValid, state_at, generate-same}

abbrev pub again : (SnowflakeState → IdResult) → IdResult → IdResult
again f (refused e) = refused e
again f (made id s) = f s

-- What the call returns that has `k` calls before it, all at the same time and from a new module.
abbrev pub nth_call : SnowflakeConfig → ℕ → ℕ → ℕ → IdResult
nth_call config now waited zero = generate_snowflake config now waited none
nth_call config now waited (suc k) =
    again (λ s. generate_snowflake config now waited (some s)) (nth_call config now waited k)

first_call :
    (config : SnowflakeConfig) (now waited : ℕ)
    → IsValid config
    → generate_snowflake config now waited none ≡ made (encode config now 0) (state_at now 0)
unfolding generate_snowflake
first_call config now waited (worker, datacenter) = ground arith

nth_call_lem :
    (config : SnowflakeConfig) (now waited k : ℕ)
    → IsValid config
    → nth_call config now waited k ≡ made (encode config now (k % 4_096)) (state_at now (k % 4_096))
nth_call_lem config now waited zero valid = first_call config now waited valid
nth_call_lem config now waited (suc k) valid =
    let next : (k % 4_096 + 1) % 4_096 ≡ suc k % 4_096 = omega arith in
    rw
      (
        nth_call_lem config now waited k valid,
        generate-same config now (k % 4_096) waited valid,
        next,
      )
      refl

-- With a worker and a datacenter in range, of calls at one and the same time, from a new module
-- on, each returns what the call returned that came 4096 calls before it: the same id, whatever
-- the wait for the next millisecond returned.
pub nth_call-repeats :
    (config : SnowflakeConfig) (now waited k : ℕ)
    → IsValid config
    → nth_call config now waited (k + 4_096) ≡ nth_call config now waited k
nth_call-repeats config now waited k valid =
    let wrap : (k + 4_096) % 4_096 ≡ k % 4_096 = omega arith in
    nth_call_lem config now waited (k + 4_096) valid
    ∙ ap (λ i. made (encode config now i) (state_at now i)) wrap
    ∙ sym (nth_call_lem config now waited k valid)
