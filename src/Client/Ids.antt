-- ===== src/Client/Ids.antt =====
-- packages/oblivinx3x/src/utils/id.ts: the ids of the strategies `snowflake` and `increment`, as
-- numbers; the source prints them in decimals. The time of `Date.now()` is an argument, and so is the
-- time that `waitNextMillis` returns. A shift to the left is a product, and since the worker and the
-- datacenter are at most 31 and the sequence below 4096, the bits of the four parts do not meet, and
-- `|` adds them. The clock is past `EPOCH`, the start of 2024. Of the state, `workerId` and
-- `datacenterId` are never read.
pub mod Sparse
pub mod Repeats
use oblivinx.Base.{
  [], ℕ, ◌+◌, ◌-◌, ◌*◌, ◌^◌, ◌%◌, Bool, true, false, String, Option, none, some, if◌then◌else◌, ltb,
  ◌==◌, default_to,
}
use oblivinx.Base.Dict.{Dict, lookup, insert, erase}

pub record SnowflakeConfig : Type 0 where
  pub worker_id : ℕ
  pub datacenter_id : ℕ

-- `lastTimestamp` begins as -1, which is `none`.
pub record SnowflakeState : Type 0 where
  pub last_timestamp : Option ℕ
  pub sequence : ℕ

abbrev pub epoch : ℕ
epoch = 1_704_067_200_000

abbrev pub max_worker_id : ℕ
max_worker_id = 31

abbrev pub max_datacenter_id : ℕ
max_datacenter_id = 31

pub data IdError : Type 0 where
  worker_out_of_range datacenter_out_of_range clock_moved_backwards : IdError

pub data IdResult : Type 0 where
  refused : IdError → IdResult
  made : ℕ → SnowflakeState → IdResult

-- The shifts are 17 + 12 + 12, 12 + 12 and 12.
unfoldable pub encode : SnowflakeConfig → ℕ → ℕ → ℕ
encode config now sequence =
    (now - epoch) * 2_199_023_255_552
    + config.datacenter_id * 16_777_216
    + config.worker_id * 4_096
    + sequence

abbrev pub is_same_time : Option ℕ → ℕ → Bool
is_same_time none now = false
is_same_time (some last) now = now == last

abbrev pub is_before : ℕ → Option ℕ → Bool
is_before now none = false
is_before now (some last) = ltb now last

-- The sequence; where it is used up, the loop waits for the next millisecond.
abbrev pub step_sequence : ℕ → ℕ → SnowflakeState → SnowflakeState
step_sequence now waited s =
    let next = (s.sequence + 1) % 4_096 in
    if is_same_time s.last_timestamp now
    then record s {
      sequence = next;
      last_timestamp = if next == 0 then some waited else s.last_timestamp;
    }
    else record s { sequence = 0 }

abbrev pub emit : SnowflakeConfig → ℕ → SnowflakeState → IdResult
emit config now s = made (encode config now s.sequence) (record s { last_timestamp = some now })

abbrev pub begin_state : Option SnowflakeState → SnowflakeState
begin_state state = default_to state (record { last_timestamp = none; sequence = 0 })

-- `generateSnowflake`.
unfoldable pub generate_snowflake : SnowflakeConfig → ℕ → ℕ → Option SnowflakeState → IdResult
generate_snowflake config now waited state =
    let s = begin_state state in
    if ltb max_worker_id config.worker_id
    then refused worker_out_of_range
    else if ltb max_datacenter_id config.datacenter_id
    then refused datacenter_out_of_range
    else if is_before now s.last_timestamp
    then refused clock_moved_backwards
    else emit config now (step_sequence now waited s)

-- `generateIncrement`.
unfoldable pub generate_increment : String → Dict ℕ → ℕ × Dict ℕ
generate_increment collection counters =
    let next = default_to (lookup collection counters) 0 + 1 in
    (next, insert collection next counters)

abbrev pub reset_increment : String → Dict ℕ → Dict ℕ
reset_increment collection counters = erase collection counters

pub data IdStrategy : Type 0 where
  uuid snowflake increment : IdStrategy

-- The state of the module.
pub record IdState : Type 0 where
  pub snowflakes : Option SnowflakeState
  pub counters : Dict ℕ

-- `generateId`: `uuid_text` is a new UUID, `print` prints a number, and an error has its reason.
pub data GeneratedId : Type 0 where
  config_missing : GeneratedId
  not_made : IdError → GeneratedId
  id_made : String → IdState → GeneratedId

abbrev pub of_snowflake : (ℕ → String) → IdState → IdResult → GeneratedId
of_snowflake print s (refused e) = not_made e
of_snowflake print s (made id t) = id_made (print id) (record s { snowflakes = some t })

abbrev pub generate_id :
    (ℕ → String)
    → String
    → ℕ
    → ℕ
    → IdStrategy
    → Option SnowflakeConfig
    → Option String
    → IdState
    → GeneratedId
generate_id print uuid_text now waited uuid config collection s = id_made uuid_text s
generate_id print uuid_text now waited snowflake none collection s = config_missing
generate_id print uuid_text now waited snowflake (some config) collection s =
    of_snowflake print s (generate_snowflake config now waited s.snowflakes)
generate_id print uuid_text now waited increment config none s = config_missing
generate_id print uuid_text now waited increment config (some collection) s =
    let (next, counters) = generate_increment collection s.counters in
    id_made (print next) (record s { counters = counters })

abbrev pub reset_all_increments : Dict ℕ → Dict ℕ
reset_all_increments counters = []
