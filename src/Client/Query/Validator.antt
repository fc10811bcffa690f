-- ===== src/Client/Query/Validator.antt =====
-- packages/oblivinx3x/src/security/validation.ts: `QueryValidator`. The copy that a method returns is
-- equal to what it is given, so that its answer is whether it throws: `none`, or the error's code.
-- An object that is no plain one is not a value here.
pub mod Reach
use oblivinx.Base.{
  ℕ, zero, suc, Bool, true, false, String, Option, none, some, List, [], ◌∷◌, if◌then◌else◌, str_eq,
  ◌==◌, ◌||◌, ◌&&◌, not, ltb,
}
use oblivinx.Client.Query.{Input, Inputs, Entries}
use text.Mathlib.Text.{starts_with}
use Prim.Native.String
use Prim.Native.Char.{Char, code}

pub data QueryError : Type 0 where
  query_injection unknown_operator prototype_pollution : QueryError

-- `Set.has`.
abbrev pub has_key : List String → String → Bool
has_key [] key = false
has_key (other ∷ keys) key = str_eq other key || has_key keys key

-- `ALLOWED_FILTER_OPS`.
unfoldable pub is_filter_op : String → Bool
is_filter_op key =
    has_key
      ("$eq" ∷ "$ne" ∷ "$gt" ∷ "$gte" ∷ "$lt" ∷ "$lte" ∷ "$in" ∷ "$nin" ∷ "$and" ∷ "$or" ∷ "$nor"
        ∷ "$not" ∷ "$exists" ∷ "$type" ∷ "$all" ∷ "$elemMatch" ∷ "$size" ∷ [])
      key

-- `ALLOWED_UPDATE_TOP_OPS`.
unfoldable pub is_update_op : String → Bool
is_update_op key =
    has_key
      ("$set" ∷ "$unset" ∷ "$inc" ∷ "$mul" ∷ "$min" ∷ "$max" ∷ "$rename" ∷ "$push" ∷ "$pull"
        ∷ "$addToSet" ∷ "$pop" ∷ "$currentDate" ∷ "$setOnInsert" ∷ "$bit" ∷ [])
      key

-- `FORBIDDEN_KEYS`.
unfoldable pub is_forbidden : String → Bool
is_forbidden key = has_key ("__proto__" ∷ "constructor" ∷ "prototype" ∷ []) key

unfoldable pub is_operator : String → Bool
is_operator key = starts_with key "$"

-- One of `+`, `*`, `?` and `{`.
abbrev pub is_quantifier : Char → Bool
is_quantifier c = code c == 43 || code c == 42 || code c == 63 || code c == 123

abbrev pub quantifiers : String → ℕ
quantifiers String.[] = 0
quantifiers (String.◌∷◌ c s) =
    let rest = quantifiers s in if is_quantifier c then suc rest else rest

-- `assertSafeRegex`.
unfoldable pub assert_safe_regex : String → Option QueryError
assert_safe_regex pattern = if ltb 8 (quantifiers pattern) then some query_injection else none

-- What throws first.
abbrev pub first_of : Option QueryError → Option QueryError → Option QueryError
first_of none later = later
first_of (some e) later = some e

-- The test of one key; `allow_where` is the option.
unfoldable pub check_key : Bool → String → Option QueryError
check_key allow_where key =
    if is_forbidden key
    then some prototype_pollution
    else if str_eq "$where" key
    then if allow_where then none else some query_injection
    else if is_operator key && not (is_filter_op key)
    then some unknown_operator
    else none

-- The value of `$where` is not looked at, and neither is an array in an array.
unfoldable mutual
  -- `#validateFilterObject`.
  pub validate_filter_object : Bool → Entries → Option QueryError
  validate_filter_object allow Entries.end = none
  validate_filter_object allow (Entries.entry key value rest) =
      let nested = validate_value allow key value in
      let later = validate_filter_object allow rest in
      first_of (check_key allow key) (first_of (if str_eq "$where" key then none else nested) later)

  pub validate_value : Bool → String → Input → Option QueryError
  validate_value allow key (Input.object entries) = validate_filter_object allow entries
  validate_value allow key (Input.array items) = validate_items allow items
  validate_value allow key (Input.regexp source) = assert_safe_regex source
  validate_value allow key (Input.text s) =
      if str_eq "$regex" key then assert_safe_regex s else none
  validate_value allow key Input.null = none
  validate_value allow key (Input.boolean b) = none
  validate_value allow key (Input.number n) = none

  pub validate_items : Bool → Inputs → Option QueryError
  validate_items allow Inputs.nil = none
  validate_items allow (Inputs.cons (Input.object entries) items) =
      first_of (validate_filter_object allow entries) (validate_items allow items)
  validate_items allow (Inputs.cons _ items) = validate_items allow items

-- `validateFilter`.
abbrev pub validate_filter : Bool → Input → Option QueryError
validate_filter allow (Input.object entries) = validate_filter_object allow entries
validate_filter allow _ = some query_injection

-- The loop of `validateUpdate`, which looks at the keys of the update itself only.
unfoldable pub validate_update_keys : Entries → Option QueryError
validate_update_keys Entries.end = none
validate_update_keys (Entries.entry key _ rest) =
    let later = validate_update_keys rest in
    if is_forbidden key
    then some prototype_pollution
    else if is_operator key && not (is_update_op key)
    then some unknown_operator
    else later

abbrev pub validate_update : Input → Option QueryError
validate_update (Input.object entries) = validate_update_keys entries
validate_update _ = some query_injection

-- `#validateDocumentObject`; a document's key begins with no `$`.
abbrev pub check_field : String → Option QueryError
check_field key =
    if is_forbidden key
    then some prototype_pollution
    else if is_operator key
    then some query_injection
    else none

unfoldable mutual
  pub validate_document_object : Entries → Option QueryError
  validate_document_object Entries.end = none
  validate_document_object (Entries.entry key value rest) =
      first_of (check_field key) (first_of (validate_field value) (validate_document_object rest))

  pub validate_field : Input → Option QueryError
  validate_field (Input.object entries) = validate_document_object entries
  validate_field (Input.array items) = validate_elements items
  validate_field _ = none

  pub validate_elements : Inputs → Option QueryError
  validate_elements Inputs.nil = none
  validate_elements (Inputs.cons (Input.object entries) items) =
      first_of (validate_document_object entries) (validate_elements items)
  validate_elements (Inputs.cons _ items) = validate_elements items

-- `validateDocument`.
abbrev pub validate_document : Input → Option QueryError
validate_document (Input.object entries) = validate_document_object entries
validate_document _ = some query_injection
