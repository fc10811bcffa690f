-- ===== src/Client/Query/Builder/Conditions.antt =====
-- packages/oblivinx3x/src/query/FilterBuilder.ts: the conditions that a builder has collected.
use oblivinx.Base.{
  ℕ, ◌≡◌, refl, ◌∙◌, ap, String, Option, none, some, List, [], ◌∷◌, str_eq, if◌then◌else◌, arith,
  eq_iff, ◌&&◌, Bool-cases, inl, inr,
}
use oblivinx.Client.Query.{Input, Entries, get, put}
use oblivinx.Client.Query.Builder.{
  Condition, op_of, value_of, merged, add_condition, condition, create,
}

pub get-put :
    (key sought : String) (v : Input) (es : Entries)
    → get sought (put key v es) ≡ (if str_eq key sought then some v else get sought es)
unfolding get put
get-put key sought v Entries.end = refl
get-put key sought v (Entries.entry other old rest) =
    ground
      (arith, get-put key sought v rest, eq_iff other key, eq_iff other sought, eq_iff key sought)

-- The condition of a filter under a field and an operator.
abbrev pub condition_in : Option Input → String → Option Input
condition_in (some (Input.object es)) op = get op es
condition_in _ op = none

-- Every field of a filter that conditions built has an object.
abbrev IsBuilt : Option Input → Type 0
IsBuilt none = Unit
IsBuilt (some (Input.object es)) = Unit
IsBuilt (some _) = ⊥

-- The last condition on a field with an operator.
abbrev pub Calls : Type 0
Calls = List (Condition × (String × Input))

abbrev pub conditions : (ℕ → String) → Calls → Entries → Entries
conditions index_key [] filter = filter
conditions index_key ((c, (field, value)) ∷ calls) filter =
    conditions index_key calls (condition index_key c field value filter)

abbrev pub last_value : String → String → Calls → Option Input → Option Input
last_value field op [] before = before
last_value field op ((c, (other, value)) ∷ calls) before =
    last_value field op calls
      (if str_eq other field && str_eq (op_of c) op then some (value_of c value) else before)

merged-condition :
    (index_key : ℕ → String) (o : Option Input) (op sought : String) (v : Input)
    → IsBuilt o
    → get sought (merged index_key o op v)
      ≡ (if str_eq op sought then some v else condition_in o sought)
unfolding merged get
merged-condition index_key none op sought v built = refl
merged-condition index_key (some (Input.object es)) op sought v built = get-put op sought v es
merged-condition index_key (some Input.null) op sought v built = absurd built
merged-condition index_key (some (Input.boolean _)) op sought v built = absurd built
merged-condition index_key (some (Input.number _)) op sought v built = absurd built
merged-condition index_key (some (Input.text _)) op sought v built = absurd built
merged-condition index_key (some (Input.regexp _)) op sought v built = absurd built
merged-condition index_key (some (Input.array _)) op sought v built = absurd built

abbrev IsBuiltAll : Entries → Type 0
IsBuiltAll filter = (field : String) → IsBuilt (get field filter)

add_condition_lem :
    (index_key : ℕ → String) (field op : String) (v : Input) (filter : Entries)
    (other sought : String)
    → IsBuiltAll filter
    → (condition_in (get other (add_condition index_key field op v filter)) sought ≡ (
        if str_eq field other && str_eq op sought
        then some v
        else condition_in (get other filter) sought))
      × IsBuilt (get other (add_condition index_key field op v filter))
unfolding add_condition
add_condition_lem index_key field op v filter other sought built =
    let object = Input.object (merged index_key (get field filter) op v) in
    elim (Bool-cases (str_eq field other)) [
      | inl e ↦
          let same : field ≡ other = (eq_iff field other).0 e in
          rw (get-put field other object filter, e)
            (
              merged-condition index_key (get field filter) op sought v (built field)
                  ∙ ap
                      (λ f. if str_eq op sought then some v else condition_in (get f filter) sought)
                      same,
              tt,
            )
      | inr e ↦ rw (get-put field other object filter, e) (refl, built other)
    ]

conditions_lem :
    (index_key : ℕ → String) (calls : Calls) (filter : Entries) (field op : String)
    → IsBuiltAll filter
    → condition_in (get field (conditions index_key calls filter)) op
      ≡ last_value field op calls (condition_in (get field filter) op)
unfolding condition
conditions_lem index_key [] filter field op built = refl
conditions_lem index_key ((c, (other, value)) ∷ calls) filter field op built =
    let next = condition index_key c other value filter in
    conditions_lem index_key calls next field op
      (λ f. (add_condition_lem index_key other (op_of c) (value_of c value) filter f op built).1)
    ∙ ap (last_value field op calls)
        (add_condition_lem index_key other (op_of c) (value_of c value) filter field op built).0

-- After any conditions on a new filter builder, the filter has under each field and operator the
-- value of the last condition on that field with that operator, and nothing if there was none.
pub conditions-last_value :
    (index_key : ℕ → String) (calls : Calls) (field op : String)
    → condition_in (get field (conditions index_key calls create)) op
      ≡ last_value field op calls none
unfolding get
conditions-last_value index_key calls field op =
    conditions_lem index_key calls create field op (λ f. tt)
