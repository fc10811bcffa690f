-- ===== src/Client/AccessControl/Fields.antt =====
-- packages/oblivinx3x/src/security/access-control.ts: the fields that the filters leave.
use oblivinx.Base.{
  ◌≡◌, refl, Bool, true, String, Option, none, some, [], ◌∷◌, if◌then◌else◌, eq_iff, arith,
}
use oblivinx.Base.Dict.{Dict, lookup, insert, IsUnique, lookup-insert}
use oblivinx.Base.Value.{Value}
use oblivinx.Client.AccessControl.{
  FieldAcl, FieldPermissions, is_field_readable, is_field_writable, readable_in, writable_in,
  copy_if, copy_found, filter_document_by_acl, sanitize_document_by_acl,
}

abbrev first_of_two : Option Value → Option Value → Option Value
first_of_two none later = later
first_of_two (some v) later = some v

copy_if-lookup :
    (k : String) (test : String → Bool) (doc copied : Dict Value)
    → IsUnique doc
    → lookup k (copy_if test doc copied)
      ≡ (if test k then first_of_two (lookup k doc) (lookup k copied) else lookup k copied)
unfolding copy_if lookup
copy_if-lookup k test [] copied unique = ground arith
copy_if-lookup k test ((key, value) ∷ doc) copied unique =
    let next = if test key then insert key value copied else copied in
    ground (
      arith,
      copy_if-lookup k test doc next unique.1,
      lookup-insert key k value copied,
      eq_iff key k,
      unique.0,
    )

-- From an empty copy.
copy_if-empty :
    (k : String) (test : String → Bool) (doc : Dict Value)
    → IsUnique doc
    → lookup k (copy_if test doc []) ≡ (if test k then lookup k doc else none)
unfolding lookup
copy_if-empty k test doc unique = ground (arith, copy_if-lookup k test doc [] unique)

copy_found-lookup :
    (k : String) (o : Option (Dict FieldPermissions)) (test : String → Bool) (doc : Dict Value)
    → IsUnique doc
    → ((o ≡ none) → test k ≡ true)
    → lookup k (copy_found o test doc) ≡ (if test k then lookup k doc else none)
copy_found-lookup k none test doc unique open_to_all = rw (open_to_all refl) refl
copy_found-lookup k (some _) test doc unique open_to_all = copy_if-empty k test doc unique

-- In a document without a key that stands twice, `filterDocumentByACL` leaves exactly the fields
-- that may be read, and `sanitizeDocumentByACL` exactly those that may be written, with their
-- values.
pub filter_document_by_acl_lem :
    (acl : FieldAcl) (collection : String) (doc : Dict Value) (k : String)
    → IsUnique doc
    → (lookup k (filter_document_by_acl acl collection doc)
        ≡ (if is_field_readable acl collection k then lookup k doc else none))
      × (lookup k (sanitize_document_by_acl acl collection doc)
          ≡ (if is_field_writable acl collection k then lookup k doc else none))
unfolding filter_document_by_acl sanitize_document_by_acl is_field_readable is_field_writable
filter_document_by_acl_lem acl collection doc k unique = (
  copy_found-lookup k (lookup collection acl) (λ f. readable_in (lookup collection acl) f) doc
      unique (λ e. rw e refl),
  copy_found-lookup k (lookup collection acl) (λ f. writable_in (lookup collection acl) f) doc
      unique (λ e. rw e refl),
)
