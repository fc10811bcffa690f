-- ===== src/Client/Versioning.antt =====
-- packages/oblivinx3x/src/versioning/VersionedDocument.ts: the difference of two versions of a
-- document, what it does to a document, and the fields that a version adds. A document is a list of
-- its entries, and a value is a tree: that two values have the same JSON text is that the trees are
-- equal, with the fields in their order. The time of `Date.now()` is an argument.
pub mod Equal
pub mod Found
pub mod Diffs
pub mod Metas
use oblivinx.Base.{
  ℕ, ◌+◌, Bool, true, false, String, Option, none, some, List, [], ◌∷◌, if◌then◌else◌, str_eq, ◌==◌,
  ◌||◌, ◌&&◌, length, default_to,
}
use oblivinx.Base.Dict.{Dict, lookup, insert, erase, keys}
use oblivinx.Base.Value.{Value, Items, Fields}

abbrev pub Document : Type 0
Document = Dict Value

abbrev pub bool_eq : Bool → Bool → Bool
bool_eq true true = true
bool_eq false false = true
bool_eq _ _ = false

-- `deepEqual`.
unfoldable mutual
  pub deep_equal : Value → Value → Bool
  deep_equal Value.null Value.null = true
  deep_equal (Value.boolean a) (Value.boolean b) = bool_eq a b
  deep_equal (Value.number a) (Value.number b) = a == b
  deep_equal (Value.text a) (Value.text b) = str_eq a b
  deep_equal (Value.array a) (Value.array b) = items_equal a b
  deep_equal (Value.object a) (Value.object b) = fields_equal a b
  deep_equal _ _ = false

  pub items_equal : Items → Items → Bool
  items_equal Items.nil Items.nil = true
  items_equal (Items.cons v a) (Items.cons w b) = deep_equal v w && items_equal a b
  items_equal _ _ = false

  pub fields_equal : Fields → Fields → Bool
  fields_equal Fields.end Fields.end = true
  fields_equal (Fields.field k v a) (Fields.field j w b) =
      str_eq k j && (deep_equal v w && fields_equal a b)
  fields_equal _ _ = false

pub record FieldDiff : Type 0 where
  pub old : Value
  pub new : Value

pub record DocumentDiff : Type 0 where
  pub added : Dict Value
  pub modified : Dict FieldDiff
  pub removed : Dict Value
  pub change_count : ℕ

-- The keys that a version adds to a document.
unfoldable pub is_version_key : String → Bool
is_version_key k =
    str_eq "__version" k || str_eq "__versionedAt" k || str_eq "__author" k || str_eq "__tag" k

-- `metaFields.has(key)`.
unfoldable pub is_meta : String → Bool
is_meta k = is_version_key k || str_eq "_id" k

-- A key of both versions.
abbrev pub note_change : String → Value → Value → Dict FieldDiff → Dict FieldDiff
note_change key old new modified =
    if deep_equal old new then modified else insert key (record { old = old; new = new }) modified

abbrev pub note_key :
    String → Value → Option Value → Dict Value × Dict FieldDiff → Dict Value × Dict FieldDiff
note_key key new none (added, modified) = (insert key new added, modified)
note_key key new (some old) (added, modified) = (added, note_change key old new modified)

-- The loop over the keys of the newer version.
unfoldable pub find_changes :
    Document → Document → Dict Value × Dict FieldDiff → Dict Value × Dict FieldDiff
find_changes older [] found = found
find_changes older ((key, new) ∷ newer) found =
    find_changes older newer
      (if is_meta key then found else note_key key new (lookup key older) found)

abbrev pub note_removed : String → Value → Option Value → Dict Value → Dict Value
note_removed key old none removed = insert key old removed
note_removed key old (some _) removed = removed

-- The loop over the keys of the older version.
unfoldable pub find_removed : Document → Document → Dict Value → Dict Value
find_removed newer [] removed = removed
find_removed newer ((key, old) ∷ older) removed =
    find_removed newer older
      (if is_meta key then removed else note_removed key old (lookup key newer) removed)

-- `computeDiff`.
unfoldable pub compute_diff : Document → Document → DocumentDiff
compute_diff older newer =
    let (added, modified) = find_changes older newer ([], []) in
    let removed = find_removed newer older [] in
    record {
      added = added;
      modified = modified;
      removed = removed;
      change_count = length (keys added) + length (keys modified) + length (keys removed);
    }

unfoldable pub delete_all : List String → Document → Document
delete_all [] doc = doc
delete_all (key ∷ rest) doc = delete_all rest (erase key doc)

unfoldable pub modify_all : Dict FieldDiff → Document → Document
modify_all [] doc = doc
modify_all ((key, diff) ∷ rest) doc = modify_all rest (insert key diff.new doc)

unfoldable pub add_all : Dict Value → Document → Document
add_all [] doc = doc
add_all ((key, value) ∷ rest) doc = add_all rest (insert key value doc)

-- `applyDiff`.
unfoldable pub apply_diff : Document → DocumentDiff → Document
apply_diff base diff =
    add_all diff.added (modify_all diff.modified (delete_all (keys diff.removed) base))

unfoldable pub swap_all : Dict FieldDiff → Dict FieldDiff → Dict FieldDiff
swap_all [] swapped = swapped
swap_all ((key, diff) ∷ rest) swapped =
    swap_all rest (insert key (record { old = diff.new; new = diff.old }) swapped)

-- `reverseDiff`.
unfoldable pub reverse_diff : DocumentDiff → DocumentDiff
reverse_diff diff = record {
  added = diff.removed;
  modified = swap_all diff.modified [];
  removed = diff.added;
  change_count = diff.change_count;
}

abbrev pub optional_text : String → Option String → Document → Document
optional_text key none doc = doc
optional_text key (some t) doc = insert key (Value.text t) doc

-- `attachVersionMeta`, with the fields of `createVersionMeta`.
unfoldable pub attach_version_meta : ℕ → Document → ℕ → Option String → Option String → Document
attach_version_meta now doc version author tag = optional_text "__tag" tag (
    optional_text "__author" author
      (insert "__versionedAt" (Value.number now) (insert "__version" (Value.number version) doc)))

-- `stripVersionMeta`.
unfoldable pub strip_version_meta : Document → Document
strip_version_meta doc =
    erase "__tag" (erase "__author" (erase "__versionedAt" (erase "__version" doc)))

abbrev pub is_number : Option Value → Bool
is_number (some (Value.number _)) = true
is_number _ = false

-- `isVersioned`.
abbrev pub is_versioned : Document → Bool
is_versioned doc = is_number (lookup "__version" doc)

-- `VersionInfo` of types/index.ts; `null` and a field that is missing are both `none`.
pub record VersionInfo : Type 0 where
  pub version : ℕ
  pub created_at : ℕ
  pub author : Option String
  pub tag : Option String
  pub change_count : Option ℕ

pub record TimelineEntry : Type 0 where
  pub version : ℕ
  pub created_at : ℕ
  pub author : Option String
  pub tag : Option String
  pub change_count : ℕ

-- `buildTimeline`, with dates as milliseconds.
unfoldable pub build_timeline : List VersionInfo → List TimelineEntry
build_timeline [] = []
build_timeline (v ∷ versions) =
    record {
      version = v.version;
      created_at = v.created_at;
      author = v.author;
      tag = v.tag;
      change_count = default_to v.change_count 0;
    }
    ∷ build_timeline versions

pub data VersioningMode : Type 0 where
  diff snapshot : VersioningMode

-- The fields of `VersioningConfig` that the builder sets.
pub record VersioningConfig : Type 0 where
  pub mode : VersioningMode
  pub max_versions : Option ℕ
  pub retain_for : Option String
  pub track_author : Option Bool

-- `VersioningConfigBuilder`, which is the configuration so far: `diffMode` and `snapshotMode`.
abbrev pub with_mode : VersioningMode → VersioningConfig
with_mode mode = record { mode = mode; max_versions = none; retain_for = none; track_author = none }

abbrev pub with_max_versions : ℕ → VersioningConfig → VersioningConfig
with_max_versions n config = record config { max_versions = some n }

abbrev pub with_retention : String → VersioningConfig → VersioningConfig
with_retention duration config = record config { retain_for = some duration }

abbrev pub with_author : Option Bool → VersioningConfig → VersioningConfig
with_author enabled config = record config { track_author = some (default_to enabled true) }
