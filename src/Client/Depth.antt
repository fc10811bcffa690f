-- ===== src/Client/Depth.antt =====
-- packages/oblivinx3x/src/security/validator.ts: the depth of a value, and the fields that a document
-- may have.
pub mod Bounds
use oblivinx.Base.{
  ℕ, ◌+◌, Bool, true, false, String, Option, none, some, List, [], ◌∷◌, ◌++◌, if◌then◌else◌, ltb,
  leb, str_eq, ◌||◌, ◌&&◌, default_to, not,
}
use oblivinx.Base.Dict.{Dict, lookup}
use oblivinx.Base.Value.{Value, Items, Fields}

-- `validateDepth`: whether it returns; if not, it throws `InputDepthError`.
unfoldable mutual
  pub validate_depth : ℕ → ℕ → Value → Bool
  validate_depth max_depth current (Value.array items) =
      let nested = validate_items max_depth (current + 1) items in
      if ltb max_depth current then false else nested
  validate_depth max_depth current (Value.object fields) =
      let nested = validate_fields max_depth (current + 1) fields in
      if ltb max_depth current then false else nested
  validate_depth max_depth current Value.null = leb current max_depth
  validate_depth max_depth current (Value.boolean _) = leb current max_depth
  validate_depth max_depth current (Value.number _) = leb current max_depth
  validate_depth max_depth current (Value.text _) = leb current max_depth

  pub validate_items : ℕ → ℕ → Items → Bool
  validate_items max_depth current Items.nil = true
  validate_items max_depth current (Items.cons value items) =
      validate_depth max_depth current value && validate_items max_depth current items

  pub validate_fields : ℕ → ℕ → Fields → Bool
  validate_fields max_depth current Fields.end = true
  validate_fields max_depth current (Fields.field _ value fields) =
      validate_depth max_depth current value && validate_fields max_depth current fields

abbrev pub includes : List String → String → Bool
includes [] key = false
includes (other ∷ keys) key = str_eq other key || includes keys key

-- `validateAllowedFields`.
unfoldable pub validate_allowed_fields : Dict Value → List String → List String
validate_allowed_fields [] allowed = []
validate_allowed_fields ((key, _) ∷ doc) allowed =
    let rest = validate_allowed_fields doc allowed in
    if str_eq "_id" key || includes allowed key then rest else key ∷ rest

pub data InputError : Type 0 where
  too_deep too_large : InputError
  disallowed : List String → InputError

-- `InputValidationConfig`.
pub record InputValidationConfig : Type 0 where
  pub max_document_depth : Option ℕ
  pub max_document_size : Option ℕ
  pub allowed_fields : Option (Dict (List String))

abbrev pub check_fields : Dict Value → Option (List String) → Option InputError
check_fields doc none = none
check_fields doc (some allowed) = elim (validate_allowed_fields doc allowed) [
  | [] ↦ none
  | key ∷ keys ↦ some (disallowed (key ∷ keys))
]

-- The list of a collection, if both are given.
abbrev pub allowed_in : Option (Dict (List String)) → Option String → Option (List String)
allowed_in (some lists) (some collection) = lookup collection lists
allowed_in _ _ = none

abbrev pub fields_of : Dict Value → Fields
fields_of [] = Fields.end
fields_of ((key, value) ∷ doc) = Fields.field key value (fields_of doc)

-- `sanitizeInput`, which returns the document if it throws nothing (`none`). `size_of` gives the bytes
-- of the JSON text, and an empty name of a collection is `none`.
unfoldable pub sanitize_input :
    (Value → ℕ) → Dict Value → InputValidationConfig → Option String → Option InputError
sanitize_input size_of doc config collection =
    let value = Value.object (fields_of doc) in
    if not (validate_depth (default_to config.max_document_depth 20) 0 value)
    then some too_deep
    else if ltb (default_to config.max_document_size 16_777_216) (size_of value)
    then some too_large
    else check_fields doc (allowed_in config.allowed_fields collection)
