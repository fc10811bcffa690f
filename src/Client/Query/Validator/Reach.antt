-- ===== src/Client/Query/Validator/Reach.antt =====
-- packages/oblivinx3x/src/security/validation.ts: the keys that the validator of filters looks at, and
-- what FilterBuilder.ts builds of them.
use oblivinx.Base.{
  ℕ, ◌≡◌, ◌≢◌, refl, Bool, true, false, String, Option, none, some, str_eq, Bool-cases, inl, inr,
  arith, ◌⊎◌,
}
use oblivinx.Client.Query.{Input, Inputs, Entries, get, put}
use oblivinx.Client.Query.Builder.{regex, value_of, merged, add_condition, condition, spread}
use oblivinx.Client.Query.Validator.{
  QueryError, first_of, check_key, validate_filter_object, validate_value, validate_items,
  validate_filter, is_forbidden, is_operator, is_filter_op,
}

-- The keys of a filter: its own, those of an object under a key, and those of an object in an array
-- under a key; nothing under `$where`.
mutual
  pub data Reaches : Entries → String → Type 0 where
    own : (k : String) (v : Input) (rest : Entries) → Reaches (Entries.entry k v rest) k
    further :
        (k j : String) (v : Input) (rest : Entries)
        → Reaches rest k
        → Reaches (Entries.entry j v rest) k
    under :
        (k j : String) (v : Input) (rest : Entries)
        → str_eq "$where" j ≡ false
        → ReachesIn v k
        → Reaches (Entries.entry j v rest) k

  pub data ReachesIn : Input → String → Type 0 where
    of_object : (k : String) (es : Entries) → Reaches es k → ReachesIn (Input.object es) k
    of_array : (k : String) (items : Inputs) → ReachesItem items k → ReachesIn (Input.array items) k

  pub data ReachesItem : Inputs → String → Type 0 where
    first :
        (k : String) (es : Entries) (items : Inputs)
        → Reaches es k
        → ReachesItem (Inputs.cons (Input.object es) items) k
    next :
        (k : String) (v : Input) (items : Inputs)
        → ReachesItem items k
        → ReachesItem (Inputs.cons v items) k

first_of-none : (a b : Option QueryError) → first_of a b ≡ none → (a ≡ none) × (b ≡ none)
first_of-none none b h = (refl, h)
first_of-none (some e) b h = absurd (cc)

validate_items-tail :
    (allow : Bool) (v : Input) (items : Inputs)
    → validate_items allow (Inputs.cons v items) ≡ none
    → validate_items allow items ≡ none
unfolding validate_filter_object
validate_items-tail allow Input.null items h = h
validate_items-tail allow (Input.boolean b) items h = h
validate_items-tail allow (Input.number n) items h = h
validate_items-tail allow (Input.text s) items h = h
validate_items-tail allow (Input.regexp s) items h = h
validate_items-tail allow (Input.array l) items h = h
validate_items-tail allow (Input.object es) items h =
    (first_of-none (validate_filter_object allow es) (validate_items allow items) h).1

-- What one entry of an accepted filter says.
validate_entry :
    (allow : Bool) (k : String) (v : Input) (rest : Entries)
    → validate_filter_object allow (Entries.entry k v rest) ≡ none
    → (check_key allow k ≡ none)
      × ((str_eq "$where" k ≡ false) → validate_value allow k v ≡ none)
      × (validate_filter_object allow rest ≡ none)
unfolding validate_filter_object
validate_entry allow k v rest h =
    let (key, others) = first_of-none (check_key allow k) _ h in
    let (value, tail) = first_of-none _ (validate_filter_object allow rest) others in
    (key, λ e. rw e at value, tail)

mutual
  unfolding validate_filter_object

  Reaches-check_key :
      (allow : Bool) (es : Entries) (k : String)
      → Reaches es k
      → validate_filter_object allow es ≡ none
      → check_key allow k ≡ none
  Reaches-check_key allow _ _ (own k v rest) h = (validate_entry allow k v rest h).0
  Reaches-check_key allow _ _ (further k j v rest r) h =
      Reaches-check_key allow rest k r (validate_entry allow j v rest h).2
  Reaches-check_key allow _ _ (under k j v rest e r) h =
      ReachesIn-check_key allow j v k r ((validate_entry allow j v rest h).1 e)

  ReachesIn-check_key :
      (allow : Bool) (key : String) (v : Input) (k : String)
      → ReachesIn v k
      → validate_value allow key v ≡ none
      → check_key allow k ≡ none
  ReachesIn-check_key allow key _ _ (of_object k es r) h = Reaches-check_key allow es k r h
  ReachesIn-check_key allow key _ _ (of_array k items r) h = ReachesItem-check_key allow items k r h

  ReachesItem-check_key :
      (allow : Bool) (items : Inputs) (k : String)
      → ReachesItem items k
      → validate_items allow items ≡ none
      → check_key allow k ≡ none
  ReachesItem-check_key allow _ _ (first k es items r) h =
      Reaches-check_key allow es k r
        (first_of-none (validate_filter_object allow es) (validate_items allow items) h).0
  ReachesItem-check_key allow _ _ (next k v items r) h =
      ReachesItem-check_key allow items k r (validate_items-tail allow v items h)

-- A key that may stand in a filter.
abbrev pub IsPermitted : Bool → String → Type 0
IsPermitted allow k =
    (is_forbidden k ≡ false)
    × (is_operator k ≡ true
        → (is_filter_op k ≡ true) ⊎ ((str_eq "$where" k ≡ true) × (allow ≡ true)))

check_key-IsPermitted : (allow : Bool) (k : String) → check_key allow k ≡ none → IsPermitted allow k
unfolding check_key
check_key-IsPermitted allow k h = (
  ground arith,
  λ operator. elim (Bool-cases (str_eq "$where" k)) [
    | inl e ↦ inr (e, ground arith)
    | inr e ↦ inl (ground arith)
  ],
)

-- Every key of a filter that `validateFilter` accepts, its own, of an object under a key other
-- than `$where`, or of an object in an array under such a key, and so on inside, is no forbidden
-- name; and if it begins with `$`, it is an allowed operator, or it is `$where` and the option
-- allows it.
pub validate_filter-IsPermitted :
    (allow : Bool) (filter : Entries) (k : String)
    → validate_filter allow (Input.object filter) ≡ none
    → Reaches filter k
    → IsPermitted allow k
validate_filter-IsPermitted allow filter k h reached =
    check_key-IsPermitted allow k (Reaches-check_key allow filter k reached h)

-- What is put into a filter is reached.
put-own : (key : String) (v : Input) (es : Entries) → Reaches (put key v es) key
unfolding put
put-own key v Entries.end = own key v Entries.end
put-own key v (Entries.entry other old rest) = elim (Bool-cases (str_eq other key)) [
  | inl same ↦ rw same (own key v rest)
  | inr differ ↦ rw differ (further key other old (put key v rest) (put-own key v rest))
]

put-under :
    (key : String) (v : Input) (es : Entries) (k : String)
    → str_eq "$where" key ≡ false
    → ReachesIn v k
    → Reaches (put key v es) k
unfolding put
put-under key v Entries.end k e r = under k key v Entries.end e r
put-under key v (Entries.entry other old rest) k e r = elim (Bool-cases (str_eq other key)) [
  | inl same ↦ rw same (under k key v rest e r)
  | inr differ ↦ rw differ (further k other old (put key v rest) (put-under key v rest k e r))
]

module _ (index_key : ℕ → String) where
  merged-own : (o : Option Input) (op : String) (v : Input) → Reaches (merged index_key o op v) op
  unfolding merged
  merged-own none op v = own op v Entries.end
  merged-own (some Input.null) op v = own op v Entries.end
  merged-own (some (Input.boolean b)) op v = own op v Entries.end
  merged-own (some (Input.number n)) op v = own op v Entries.end
  merged-own (some (Input.text s)) op v = own op v Entries.end
  merged-own (some (Input.regexp s)) op v = own op v Entries.end
  merged-own (some (Input.array items)) op v = put-own op v (spread index_key 0 items)
  merged-own (some (Input.object es)) op v = put-own op v es

  -- `validateFilter` rejects what the method `regex` of the filter builder makes of any filter,
  -- for any field but `$where` and any pattern.
  pub regex-rejected :
      (allow : Bool) (field : String) (value : Input) (filter : Entries)
      → str_eq "$where" field ≡ false
      → validate_filter allow (Input.object (condition index_key regex field value filter)) ≢ none
  unfolding condition add_condition check_key is_forbidden is_operator is_filter_op
  regex-rejected allow field value filter e accepted =
      let v = value_of regex value in
      let inner = merged index_key (get field filter) "$regex" v in
      let reached =
        put-under field (Input.object inner) filter "$regex" e
          (of_object "$regex" inner (merged-own (get field filter) "$regex" v)) in
      let passes : check_key allow "$regex" ≡ none =
        Reaches-check_key allow (put field (Input.object inner) filter) "$regex" reached accepted in
      cc
