-- ===== src/Client/Versioning/Found.antt =====
-- packages/oblivinx3x/src/versioning/VersionedDocument.ts: what `computeDiff` finds
-- under a key.
use oblivinx.Base.{
  ◌≡◌, String, Option, none, some, [], ◌∷◌, if◌then◌else◌, str_eq, eq_iff, arith, Bool-cases,
  Option-cases, inl, inr,
}
use oblivinx.Base.Dict.{Dict, lookup, IsUnique, lookup-insert, insert-IsUnique}
use oblivinx.Base.Value.{Value}
use oblivinx.Client.Versioning.{
  Document, FieldDiff, deep_equal, is_meta, note_change, note_key, find_changes, note_removed,
  find_removed,
}

-- What a loop over the newer version finds under a key, after what was found before.
abbrev pub added_of : Option Value → Option Value → Option Value → Option Value
added_of none (some new) before = some new
added_of _ _ before = before

abbrev pub modified_of : Option Value → Option Value → Option FieldDiff → Option FieldDiff
modified_of (some old) (some new) before =
    if deep_equal old new then before else some (record { old = old; new = new })
modified_of _ _ before = before

note_key_lem :
    (k key : String) (new : Value) (o : Option Value) (found : Dict Value × Dict FieldDiff)
    → (lookup k (note_key key new o found).0
        ≡ (if str_eq key k then added_of o (some new) (lookup k found.0) else lookup k found.0))
      × (lookup k (note_key key new o found).1 ≡ (
          if str_eq key k then modified_of o (some new) (lookup k found.1) else lookup k found.1))
note_key_lem k key new none (added, modified) = (lookup-insert key k new added, ground arith)
note_key_lem k key new (some old) (added, modified) =
    let write = lookup-insert key k (record { old = old; new = new }) modified in
    (ground arith, ground (arith, write))

pub find_changes_lem :
    (k : String) (older newer : Document) (found : Dict Value × Dict FieldDiff)
    → IsUnique newer
    → (lookup k (find_changes older newer found).0 ≡ (
        if is_meta k
        then lookup k found.0
        else added_of (lookup k older) (lookup k newer) (lookup k found.0)))
      × (lookup k (find_changes older newer found).1 ≡ (
          if is_meta k
          then lookup k found.1
          else modified_of (lookup k older) (lookup k newer) (lookup k found.1)))
unfolding find_changes lookup
find_changes_lem k older [] found unique = (ground arith, ground arith)
find_changes_lem k older ((key, new) ∷ newer) found unique =
    let next = if is_meta key then found else note_key key new (lookup key older) found in
    let later = find_changes_lem k older newer next unique.1 in
    let note = note_key_lem k key new (lookup key older) found in
    (
      ground (arith, later.0, note.0, eq_iff key k, unique.0),
      ground (arith, later.1, note.1, eq_iff key k, unique.0),
    )

abbrev pub removed_of : Option Value → Option Value → Option Value → Option Value
removed_of (some old) none before = some old
removed_of _ _ before = before

note_removed_lem :
    (k key : String) (old : Value) (o : Option Value) (removed : Dict Value)
    → lookup k (note_removed key old o removed)
      ≡ (if str_eq key k then removed_of (some old) o (lookup k removed) else lookup k removed)
note_removed_lem k key old none removed = lookup-insert key k old removed
note_removed_lem k key old (some _) removed = ground arith

pub find_removed_lem :
    (k : String) (newer older : Document) (removed : Dict Value)
    → IsUnique older
    → lookup k (find_removed newer older removed) ≡ (
        if is_meta k
        then lookup k removed
        else removed_of (lookup k older) (lookup k newer) (lookup k removed))
unfolding find_removed lookup
find_removed_lem k newer [] removed unique = ground arith
find_removed_lem k newer ((key, old) ∷ older) removed unique =
    let next = if is_meta key then removed else note_removed key old (lookup key newer) removed in
    let later = find_removed_lem k newer older next unique.1 in
    let note = note_removed_lem k key old (lookup key newer) removed in
    ground (arith, later, note, eq_iff key k, unique.0)

note_change-IsUnique :
    (key : String) (old new : Value) (modified : Dict FieldDiff)
    → IsUnique modified
    → IsUnique (note_change key old new modified)
note_change-IsUnique key old new modified h = elim (Bool-cases (deep_equal old new)) [
  | inl e ↦ rw e h
  | inr e ↦ rw e (insert-IsUnique key (record { old = old; new = new }) modified h)
]

abbrev pub AreUnique : Dict Value × Dict FieldDiff → Type 0
AreUnique found = IsUnique found.0 × IsUnique found.1

note_key-AreUnique :
    (key : String) (new : Value) (o : Option Value) (found : Dict Value × Dict FieldDiff)
    → AreUnique found
    → AreUnique (note_key key new o found)
note_key-AreUnique key new none (added, modified) h = (insert-IsUnique key new added h.0, h.1)
note_key-AreUnique key new (some old) (added, modified) h =
    (h.0, note_change-IsUnique key old new modified h.1)

pub find_changes-AreUnique :
    (older newer : Document) (found : Dict Value × Dict FieldDiff)
    → AreUnique found
    → AreUnique (find_changes older newer found)
unfolding find_changes
find_changes-AreUnique older [] found h = h
find_changes-AreUnique older ((key, new) ∷ newer) found h =
    find_changes-AreUnique older newer
      (if is_meta key then found else note_key key new (lookup key older) found)
      (elim (Bool-cases (is_meta key)) [
        | inl e ↦ rw e h
        | inr e ↦ rw e (note_key-AreUnique key new (lookup key older) found h)
      ])

pub find_removed-IsUnique :
    (newer older : Document) (removed : Dict Value)
    → IsUnique removed
    → IsUnique (find_removed newer older removed)
unfolding find_removed
find_removed-IsUnique newer [] removed h = h
find_removed-IsUnique newer ((key, old) ∷ older) removed h =
    find_removed-IsUnique newer older
      (if is_meta key then removed else note_removed key old (lookup key newer) removed)
      (elim (Bool-cases (is_meta key)) [
        | inl e ↦ rw e h
        | inr e ↦ rw e (elim (Option-cases (lookup key newer)) [
          | inl none_there ↦ rw none_there (insert-IsUnique key old removed h)
          | inr (v, there) ↦ rw there h
        ])
      ])
