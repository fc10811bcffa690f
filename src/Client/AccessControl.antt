-- ===== src/Client/AccessControl.antt =====
-- packages/oblivinx3x/src/security/access-control.ts: the permissions on collections, and the lists
-- that say which fields of a document may be read and written.
pub mod Fields
use oblivinx.Base.{
  Bool, true, false, String, Option, none, some, List, [], ◌∷◌, if◌then◌else◌, ◌||◌,
}
use oblivinx.Base.Dict.{Dict, lookup, insert}
use oblivinx.Base.Value.{Value}

pub data CollectionOperation : Type 0 where
  read write delete admin : CollectionOperation

abbrev pub same_operation : CollectionOperation → CollectionOperation → Bool
same_operation CollectionOperation.read CollectionOperation.read = true
same_operation CollectionOperation.write CollectionOperation.write = true
same_operation CollectionOperation.delete CollectionOperation.delete = true
same_operation CollectionOperation.admin CollectionOperation.admin = true
same_operation _ _ = false

-- `Set.has`.
abbrev pub allows : List CollectionOperation → CollectionOperation → Bool
allows [] op = false
allows (other ∷ ops) op = same_operation other op || allows ops op

abbrev pub check_found : Option (List CollectionOperation) → CollectionOperation → Bool
check_found none op = true
check_found (some ops) op = allows ops op || allows ops CollectionOperation.admin

-- `checkPermission`.
unfoldable pub check_permission :
    Dict (List CollectionOperation) → String → CollectionOperation → Bool
check_permission permissions collection op = check_found (lookup collection permissions) op

-- The set of a field: may it be read, and may it be written.
pub record FieldPermissions : Type 0 where
  pub reads : Bool
  pub writes : Bool

-- `FieldACL`.
abbrev pub FieldAcl : Type 0
FieldAcl = Dict (Dict FieldPermissions)

abbrev pub readable_found : Option FieldPermissions → Bool
readable_found none = true
readable_found (some perms) = perms.reads

abbrev pub readable_in : Option (Dict FieldPermissions) → String → Bool
readable_in none field = true
readable_in (some fields) field = readable_found (lookup field fields)

-- `isFieldReadable`.
unfoldable pub is_field_readable : FieldAcl → String → String → Bool
is_field_readable acl collection field = readable_in (lookup collection acl) field

abbrev pub writable_found : Option FieldPermissions → Bool
writable_found none = true
writable_found (some perms) = perms.writes

abbrev pub writable_in : Option (Dict FieldPermissions) → String → Bool
writable_in none field = true
writable_in (some fields) field = writable_found (lookup field fields)

-- `isFieldWritable`.
unfoldable pub is_field_writable : FieldAcl → String → String → Bool
is_field_writable acl collection field = writable_in (lookup collection acl) field

-- The loops of `filterDocumentByACL` and `sanitizeDocumentByACL`, which test each field.
unfoldable pub copy_if : (String → Bool) → Dict Value → Dict Value → Dict Value
copy_if test [] copied = copied
copy_if test ((key, value) ∷ doc) copied =
    copy_if test doc (if test key then insert key value copied else copied)

abbrev pub copy_found : Option (Dict FieldPermissions) → (String → Bool) → Dict Value → Dict Value
copy_found none test doc = doc
copy_found (some _) test doc = copy_if test doc []

-- `filterDocumentByACL`.
unfoldable pub filter_document_by_acl : FieldAcl → String → Dict Value → Dict Value
filter_document_by_acl acl collection doc =
    copy_found (lookup collection acl) (is_field_readable acl collection) doc

-- `sanitizeDocumentByACL`.
unfoldable pub sanitize_document_by_acl : FieldAcl → String → Dict Value → Dict Value
sanitize_document_by_acl acl collection doc =
    copy_found (lookup collection acl) (is_field_writable acl collection) doc
