-- ===== src/Examples/Query.antt =====
-- packages/oblivinx3x/src: ids, filters and their validation.
use oblivinx.Base.{
  ℕ, ◌+◌, ◌≤◌, ◌≡◌, ◌≢◌, refl, ◌↔◌, String, none, some, List, [], ◌∷◌, true, false, arith, inl, inr,
}
use oblivinx.Base.Value.{Value, Items}
use oblivinx.Client.Ids.{SnowflakeConfig, encode}
use oblivinx.Client.Ids.Sparse.{
  Times, generate_all, state_at, IsIncreasing, generate_all-IsIncreasing,
}
use oblivinx.Client.Ids.Repeats.{nth_call, nth_call-repeats}
use oblivinx.Client.Query.{Input, Entries, get}
use oblivinx.Client.Query.Builder.{Condition, condition, create}
use oblivinx.Client.Query.Builder.Conditions.{
  Calls, conditions, condition_in, last_value, conditions-last_value,
}
use oblivinx.Client.Query.Validator.{
  validate_filter, validate_filter_object, check_key, is_forbidden, is_operator, is_filter_op,
}
use oblivinx.Client.Query.Validator.Reach.{
  own, under, of_object, IsPermitted, validate_filter-IsPermitted, regex-rejected,
}
use oblivinx.Client.Depth.{validate_depth}
use oblivinx.Client.Depth.Bounds.{depth, validate_depth-depth}

abbrev config : SnowflakeConfig
config = record { worker_id = 3; datacenter_id = 1 }

abbrev times : Times
times = (1_704_067_200_009, 0) ∷ (1_704_067_200_009, 0) ∷ (1_704_067_200_010, 0) ∷ []

generate_all-IsIncreasing_example :
    (ids : List ℕ) × (generate_all config times (some (state_at 1_704_067_200_009 5)) ≡ some ids)
    × IsIncreasing (encode config 1_704_067_200_009 5) ids
generate_all-IsIncreasing_example =
    generate_all-IsIncreasing config 1_704_067_200_009 5 times (omega arith, omega arith)
      (omega arith) (omega arith)
      (inr (refl, omega arith, inr (refl, omega arith, inl (omega arith, tt))))

nth_call-repeats_example :
    nth_call config 1_704_067_200_009 0 (2 + 4_096) ≡ nth_call config 1_704_067_200_009 0 2
nth_call-repeats_example = nth_call-repeats config 1_704_067_200_009 0 2 (omega arith, omega arith)

-- `{ age: { $gt: 18 } }`.
abbrev adults : Entries
adults =
    Entries.entry "age" (Input.object (Entries.entry "$gt" (Input.number 18) Entries.end))
      Entries.end

adults_pass : validate_filter false (Input.object adults) ≡ none
unfolding validate_filter_object check_key is_forbidden is_operator is_filter_op
adults_pass = refl

validate_filter-IsPermitted_example : IsPermitted false "$gt"
validate_filter-IsPermitted_example = validate_filter-IsPermitted false adults "$gt" adults_pass (
    under "$gt" "age" (Input.object (Entries.entry "$gt" (Input.number 18) Entries.end)) Entries.end
      refl
      (of_object "$gt" (Entries.entry "$gt" (Input.number 18) Entries.end)
        (own "$gt" (Input.number 18) Entries.end)))

abbrev index_key : ℕ → String
index_key n = "0"

regex-rejected_example :
    validate_filter false
      (Input.object (condition index_key Condition.regex "name" (Input.text "^A") adults))
    ≢ none
regex-rejected_example = regex-rejected index_key false "name" (Input.text "^A") adults refl

-- `{ __proto__: { admin: true } }`.
abbrev polluted : Entries
polluted =
    Entries.entry "__proto__"
      (Input.object (Entries.entry "admin" (Input.boolean true) Entries.end)) Entries.end

abbrev made_calls : Calls
made_calls =
    (Condition.gte, ("age", Input.number 18))
    ∷ (Condition.lt, ("age", Input.number 65))
    ∷ (Condition.eq, ("active", Input.boolean true))
    ∷ (Condition.gte, ("age", Input.number 21))
    ∷ []

conditions-last_value_example :
    condition_in (get "age" (conditions index_key made_calls create)) "$gte"
    ≡ last_value "age" "$gte" made_calls none
conditions-last_value_example = conditions-last_value index_key made_calls "age" "$gte"

validate_depth-depth_example :
    (validate_depth 1 0 (Value.array (Items.cons (Value.array Items.nil) Items.nil)) ≡ true)
    ↔ (depth (Value.array (Items.cons (Value.array Items.nil) Items.nil)) ≤ 1)
validate_depth-depth_example =
    validate_depth-depth 1 (Value.array (Items.cons (Value.array Items.nil) Items.nil))
