-- ===== src/Client/Ids/Sparse.antt =====
-- packages/oblivinx3x/src/utils/id.ts, `generateSnowflake`: ids that grow.
use oblivinx.Base.{
  ℕ, ◌+◌, ◌%◌, ◌<◌, ◌≤◌, ◌≡◌, refl, ◌∙◌, ap, Option, none, some, List, [], ◌∷◌, ◌⊎◌, inl, inr,
  arith,
}
use oblivinx.Client.Ids.{
  SnowflakeConfig, SnowflakeState, IdResult, made, refused, encode, epoch, generate_snowflake,
}

-- Calls at some times, each with the time that a wait would return.
abbrev pub Times : Type 0
Times = List (ℕ × ℕ)

abbrev cons_id : ℕ → Option (List ℕ) → Option (List ℕ)
cons_id id none = none
cons_id id (some ids) = some (id ∷ ids)

abbrev pub then_all : (Option SnowflakeState → Option (List ℕ)) → IdResult → Option (List ℕ)
then_all rest (refused _) = none
then_all rest (made id s) = cons_id id (rest (some s))

-- The ids of the calls, if none is refused.
abbrev pub generate_all : SnowflakeConfig → Times → Option SnowflakeState → Option (List ℕ)
generate_all config [] state = some []
generate_all config ((now, waited) ∷ times) state =
    then_all (generate_all config times) (generate_snowflake config now waited state)

-- The clock does not go back, and no millisecond has more than 4096 calls.
abbrev pub IsSparse : ℕ → ℕ → Times → Type 0
IsSparse last sequence [] = Unit
IsSparse last sequence ((now, _) ∷ times) =
    ((last < now) × IsSparse now 0 times)
    ⊎ ((last ≡ now) × (sequence + 1 < 4_096) × IsSparse now (sequence + 1) times)

abbrev pub IsIncreasing : ℕ → List ℕ → Type 0
IsIncreasing below [] = Unit
IsIncreasing below (id ∷ ids) = (below < id) × IsIncreasing id ids

abbrev pub IsValid : SnowflakeConfig → Type 0
IsValid config = (config.worker_id ≤ 31) × (config.datacenter_id ≤ 31)

abbrev pub state_at : ℕ → ℕ → SnowflakeState
state_at last sequence = record { last_timestamp = some last; sequence = sequence }

generate-later :
    (config : SnowflakeConfig) (last sequence now waited : ℕ)
    → IsValid config
    → last < now
    → generate_snowflake config now waited (some (state_at last sequence))
      ≡ made (encode config now 0) (state_at now 0)
unfolding generate_snowflake
generate-later config last sequence now waited (worker, datacenter) later = ground arith

pub generate-same :
    (config : SnowflakeConfig) (now sequence waited : ℕ)
    → IsValid config
    → generate_snowflake config now waited (some (state_at now sequence))
      ≡ made (encode config now ((sequence + 1) % 4_096)) (state_at now ((sequence + 1) % 4_096))
unfolding generate_snowflake
generate-same config now sequence waited (worker, datacenter) = ground arith

-- The sequence has room for one more.
generate-next :
    (config : SnowflakeConfig) (last now sequence waited : ℕ)
    → IsValid config
    → last ≡ now
    → sequence + 1 < 4_096
    → generate_snowflake config now waited (some (state_at last sequence))
      ≡ made (encode config now (sequence + 1)) (state_at now (sequence + 1))
generate-next config last now sequence waited valid same room =
    let next : (sequence + 1) % 4_096 ≡ sequence + 1 = omega arith in
    rw same (
      generate-same config now sequence waited valid
      ∙ ap (λ i. made (encode config now i) (state_at now i)) next)

generate_all-cons :
    (config : SnowflakeConfig) (now waited : ℕ) (times : Times) (state : Option SnowflakeState)
    (id : ℕ) (s : SnowflakeState) (ids : List ℕ)
    → generate_snowflake config now waited state ≡ made id s
    → generate_all config times (some s) ≡ some ids
    → generate_all config ((now, waited) ∷ times) state ≡ some (id ∷ ids)
generate_all-cons config now waited times state id s ids first rest =
    ap (then_all (generate_all config times)) first ∙ ap (cons_id id) rest

encode-later :
    (config : SnowflakeConfig) (last sequence now : ℕ)
    → IsValid config
    → epoch ≤ last
    → sequence < 4_096
    → last < now
    → encode config last sequence < encode config now 0
unfolding encode
encode-later config last sequence now valid past small later = omega arith

encode-same :
    (config : SnowflakeConfig) (now sequence : ℕ)
    → encode config now sequence < encode config now (sequence + 1)
unfolding encode
encode-same config now sequence = omega arith

-- From a generator that made an id at some time after the epoch, with a worker and a datacenter in
-- range, calls at times that do not go back, and with at most 4096 ids in a millisecond, are all
-- answered, and each id is greater than the one before.
pub generate_all-IsIncreasing :
    (config : SnowflakeConfig) (last sequence : ℕ) (times : Times)
    → IsValid config
    → epoch ≤ last
    → sequence < 4_096
    → IsSparse last sequence times
    → (ids : List ℕ) × (generate_all config times (some (state_at last sequence)) ≡ some ids)
      × IsIncreasing (encode config last sequence) ids
generate_all-IsIncreasing config last sequence [] valid past small sparse = ([], refl, tt)
generate_all-IsIncreasing config last sequence ((now, waited) ∷ times) valid past small sparse =
    elim sparse [
      | inl (later, rest) ↦
          let (ids, run, grows) =
            generate_all-IsIncreasing config now 0 times valid (omega arith) (omega arith) rest in
          (
            encode config now 0 ∷ ids,
            generate_all-cons config now waited times _ _ _ ids
                (generate-later config last sequence now waited valid later) run,
            (encode-later config last sequence now valid past small later, grows),
          )
      | inr (same, room, rest) ↦
          let (ids, run, grows) =
            generate_all-IsIncreasing config now (sequence + 1) times valid (omega arith) room
              rest in
          (
            encode config now (sequence + 1) ∷ ids,
            generate_all-cons config now waited times _ _ _ ids
                (generate-next config last now sequence waited valid same room) run,
            (rw same (encode-same config now sequence), grows),
          )
    ]
