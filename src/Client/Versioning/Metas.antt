-- ===== src/Client/Versioning/Metas.antt =====
-- packages/oblivinx3x/src/versioning/VersionedDocument.ts: documents with version fields.
use oblivinx.Base.{
  ℕ, ◌≡◌, refl, ◌∙◌, false, String, Option, none, some, if◌then◌else◌, str_eq, arith, ◌+◌,
  Bool-cases, inl, inr,
}
use oblivinx.Base.Dict.{
  lookup, insert, erase, IsUnique, lookup-insert, lookup-erase, insert-IsUnique,
}
use oblivinx.Base.Value.{Value}
use oblivinx.Client.Versioning.{
  Document, is_meta, is_version_key, compute_diff, apply_diff, optional_text, attach_version_meta,
  strip_version_meta,
}
use oblivinx.Client.Versioning.Diffs.{compute_diff_lem}

optional_text_lem :
    (k key : String) (o : Option String) (doc : Document)
    → str_eq key k ≡ false
    → lookup k (optional_text key o doc) ≡ lookup k doc
optional_text_lem k key none doc h = refl
optional_text_lem k key (some t) doc h = lookup-insert key k (Value.text t) doc ∙ ground arith

optional_text-IsUnique :
    (key : String) (o : Option String) (doc : Document)
    → IsUnique doc
    → IsUnique (optional_text key o doc)
optional_text-IsUnique key none doc h = h
optional_text-IsUnique key (some t) doc h = insert-IsUnique key (Value.text t) doc h

attach_version_meta-IsUnique :
    (now : ℕ) (doc : Document) (version : ℕ) (author tag : Option String)
    → IsUnique doc
    → IsUnique (attach_version_meta now doc version author tag)
unfolding attach_version_meta
attach_version_meta-IsUnique now doc version author tag h = optional_text-IsUnique "__tag" tag _ (
    optional_text-IsUnique "__author" author _ (
      insert-IsUnique "__versionedAt" (Value.number now) _
        (insert-IsUnique "__version" (Value.number version) doc h)))

strip_version_meta-lookup :
    (k : String) (doc : Document)
    → lookup k (strip_version_meta doc) ≡ (if is_version_key k then none else lookup k doc)
unfolding strip_version_meta is_version_key
strip_version_meta-lookup k doc =
    let one = erase "__version" doc in
    let two = erase "__versionedAt" one in
    let three = erase "__author" two in
    ground (
      arith,
      lookup-erase "__version" k doc,
      lookup-erase "__versionedAt" k one,
      lookup-erase "__author" k two,
      lookup-erase "__tag" k three,
    )

-- A field that is not one of the four is the document's.
attach_version_meta-lookup :
    (k : String) (now : ℕ) (doc : Document) (version : ℕ) (author tag : Option String)
    → is_version_key k ≡ false
    → lookup k (attach_version_meta now doc version author tag) ≡ lookup k doc
unfolding attach_version_meta is_version_key
attach_version_meta-lookup k now doc version author tag h =
    let first = insert "__version" (Value.number version) doc in
    let second = insert "__versionedAt" (Value.number now) first in
    optional_text_lem k "__tag" tag (optional_text "__author" author second) (ground arith)
    ∙ optional_text_lem k "__author" author second (ground arith)
    ∙ ground (
      arith,
      lookup-insert "__versionedAt" k (Value.number now) first,
      lookup-insert "__version" k (Value.number version) doc,
    )

is_meta_lem : (k : String) → is_version_key k ≡ false → is_meta k ≡ str_eq "_id" k
unfolding is_meta
is_meta_lem k h = rw h refl

-- If no key stands twice in either document, then after version fields are attached to both, the
-- difference applied to the older and the version fields stripped leave the fields of the newer
-- document, but for `_id`, which stays that of the older, and for fields named like a version
-- field, which are gone.
pub strip_version_meta-apply_diff :
    (k : String) (older newer : Document) (then_at now version : ℕ)
    (author tag later_author later_tag : Option String)
    → IsUnique older
    → IsUnique newer
    → let v = attach_version_meta then_at older version author tag in
      let w = attach_version_meta now newer (version + 1) later_author later_tag in
      lookup k (strip_version_meta (apply_diff v (compute_diff v w))) ≡ (
        if is_version_key k
        then none
        else if str_eq "_id" k
        then lookup k older
        else lookup k newer)
strip_version_meta-apply_diff k older newer then_at now version author tag later_author later_tag
      unique_older unique_newer =
    let v = attach_version_meta then_at older version author tag in
    let w = attach_version_meta now newer (version + 1) later_author later_tag in
    let restored =
      compute_diff_lem v w k
        (attach_version_meta-IsUnique then_at older version author tag unique_older)
        (attach_version_meta-IsUnique now newer (version + 1) later_author later_tag
          unique_newer) in
    strip_version_meta-lookup k (apply_diff v (compute_diff v w))
    ∙ (elim (Bool-cases (is_version_key k)) [
      | inl e ↦ rw e refl
      | inr e ↦
          let old = attach_version_meta-lookup k then_at older version author tag e in
          let new = attach_version_meta-lookup k now newer (version + 1) later_author later_tag e in
          rw (e, restored.0, is_meta_lem k e, old, new) refl
    ])
