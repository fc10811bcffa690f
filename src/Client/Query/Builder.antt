-- ===== src/Client/Query/Builder.antt =====
-- packages/oblivinx3x/src/query/FilterBuilder.ts. A builder is its filter: each method gives a new
-- one. `index_key` prints an index, for an array that is spread into an object.
pub mod Conditions
use oblivinx.Base.{
  ℕ, zero, suc, ◌+◌, Bool, true, false, String, Option, none, some, List, [], ◌∷◌, if◌then◌else◌,
}
use oblivinx.Client.Query.{Input, Inputs, Entries, get, put}

-- The methods that add a condition on a field.
pub data Condition : Type 0 where
  eq ne gt gte lt lte in_list nin exists type regex all size elem_match : Condition

abbrev pub op_of : Condition → String
op_of eq = "$eq"
op_of ne = "$ne"
op_of gt = "$gt"
op_of gte = "$gte"
op_of lt = "$lt"
op_of lte = "$lte"
op_of in_list = "$in"
op_of nin = "$nin"
op_of exists = "$exists"
op_of type = "$type"
op_of regex = "$regex"
op_of all = "$all"
op_of size = "$size"
op_of elem_match = "$elemMatch"

-- `regex` keeps the source of a regular expression; the others keep the value.
abbrev pub value_of : Condition → Input → Input
value_of regex (Input.regexp source) = Input.text source
value_of _ value = value

module _ (index_key : ℕ → String) where
  -- `{ ...array }`.
  unfoldable pub spread : ℕ → Inputs → Entries
  spread i Inputs.nil = Entries.end
  spread i (Inputs.cons value items) = Entries.entry (index_key i) value (spread (i + 1) items)

  -- `{ ...existing, [op]: value }` if `existing` is an object.
  unfoldable pub merged : Option Input → String → Input → Entries
  merged (some (Input.object entries)) op value = put op value entries
  merged (some (Input.array items)) op value = put op value (spread 0 items)
  merged _ op value = Entries.entry op value Entries.end

  -- `#addCondition`.
  unfoldable pub add_condition : String → String → Input → Entries → Entries
  add_condition field op value filter =
      put field (Input.object (merged (get field filter) op value)) filter

  unfoldable pub condition : Condition → String → Input → Entries → Entries
  condition c field value filter = add_condition field (op_of c) (value_of c value) filter

abbrev pub create : Entries
create = Entries.end

abbrev pub is_filled : Entries → Bool
is_filled Entries.end = false
is_filled _ = true

abbrev pub filled : List Entries → List Entries
filled [] = []
filled (f ∷ filters) = let rest = filled filters in if is_filled f then f ∷ rest else rest

abbrev pub inputs_of : List Entries → Inputs
inputs_of [] = Inputs.nil
inputs_of (f ∷ filters) = Inputs.cons (Input.object f) (inputs_of filters)

abbrev pub logical : String → List Entries → Entries
logical op clauses = Entries.entry op (Input.array (inputs_of clauses)) Entries.end

-- `clauses.length > 1 ? { $and: clauses } : clauses[0] ?? {}`.
abbrev pub and_of : List Entries → Entries
and_of [] = Entries.end
and_of (f ∷ []) = f
and_of (f ∷ g ∷ clauses) = logical "$and" (f ∷ g ∷ clauses)

unfoldable pub and : List Entries → Entries → Entries
and filters filter = and_of (filled (filter ∷ filters))

abbrev pub or : List Entries → Entries → Entries
or filters filter = logical "$or" (filter ∷ filters)

abbrev pub nor : List Entries → Entries → Entries
nor filters filter = logical "$nor" (filter ∷ filters)
