-- ===== src/Client/Versioning/Diffs.antt =====
-- packages/oblivinx3x/src/versioning/VersionedDocument.ts: a difference that is applied.
use oblivinx.Base.{
  ◌≡◌, refl, sym, ap, ◌∙◌, Bool, true, false, String, Option, none, some, [], ◌∷◌, if◌then◌else◌,
  eq_iff, arith, Bool-cases, inl, inr, is_some,
}
use oblivinx.Base.Dict.{
  Dict, lookup, insert, erase, has, keys, IsUnique, lookup-insert, lookup-erase, insert-IsUnique,
}
use oblivinx.Base.Value.{Value}
use oblivinx.Client.Versioning.{
  Document, FieldDiff, DocumentDiff, deep_equal, is_meta, find_changes, compute_diff, delete_all,
  modify_all, add_all, apply_diff, swap_all, reverse_diff,
}
use oblivinx.Client.Versioning.Equal.{deep_equal_lem}
use oblivinx.Client.Versioning.Found.{
  added_of, modified_of, removed_of, find_changes_lem, find_removed_lem, find_changes-AreUnique,
  find_removed-IsUnique,
}

-- What a document has under a key once the changes of a map are made.
abbrev then_or : Option Value → Option Value → Option Value
then_or none before = before
then_or (some new) before = some new

abbrev new_of : Option FieldDiff → Option Value
new_of none = none
new_of (some diff) = some diff.new

abbrev swap : Option FieldDiff → Option FieldDiff
swap none = none
swap (some diff) = some (record { old = diff.new; new = diff.old })

delete_all_lem :
    (k : String) (m : Dict Value) (doc : Document)
    → lookup k (delete_all (keys m) doc) ≡ (if has k m then none else lookup k doc)
unfolding delete_all lookup
delete_all_lem k [] doc = refl
delete_all_lem k ((key, v) ∷ m) doc =
    ground (arith, delete_all_lem k m (erase key doc), lookup-erase key k doc)

modify_all_lem :
    (k : String) (m : Dict FieldDiff) (doc : Document)
    → IsUnique m
    → lookup k (modify_all m doc) ≡ then_or (new_of (lookup k m)) (lookup k doc)
unfolding modify_all lookup
modify_all_lem k [] doc unique = refl
modify_all_lem k ((key, diff) ∷ m) doc unique = ground (
  arith,
  modify_all_lem k m (insert key diff.new doc) unique.1,
  lookup-insert key k diff.new doc,
  eq_iff key k,
  unique.0,
)

add_all_lem :
    (k : String) (m : Dict Value) (doc : Document)
    → IsUnique m
    → lookup k (add_all m doc) ≡ then_or (lookup k m) (lookup k doc)
unfolding add_all lookup
add_all_lem k [] doc unique = refl
add_all_lem k ((key, value) ∷ m) doc unique = ground (
  arith,
  add_all_lem k m (insert key value doc) unique.1,
  lookup-insert key k value doc,
  eq_iff key k,
  unique.0,
)

pub apply_diff-lookup :
    (k : String) (base : Document) (diff : DocumentDiff)
    → IsUnique diff.added
    → IsUnique diff.modified
    → lookup k (apply_diff base diff)
      ≡ then_or (lookup k diff.added) (
          then_or
            (new_of (lookup k diff.modified))
            (if has k diff.removed then none else lookup k base))
unfolding apply_diff
apply_diff-lookup k base diff added modified =
    add_all_lem k diff.added _ added
    ∙ ap (then_or (lookup k diff.added)) (
        modify_all_lem k diff.modified _ modified
        ∙ ap (then_or (new_of (lookup k diff.modified))) (delete_all_lem k diff.removed base))

settle :
    (meta : Bool) (old new : Option Value)
    → then_or (if meta then none else added_of old new none) (
        then_or
          (new_of (if meta then none else modified_of old new none))
          (if is_some (if meta then none else removed_of old new none) then none else old))
      ≡ (if meta then old else new)
settle true old new = refl
settle false none none = refl
settle false none (some v) = refl
settle false (some o) none = refl
settle false (some o) (some v) = elim (Bool-cases (deep_equal o v)) [
  | inl e ↦ rw e (ap some (deep_equal_lem o v e))
  | inr e ↦ rw e refl
]

-- The other way round.
settle_back :
    (meta : Bool) (old new : Option Value)
    → then_or (if meta then none else removed_of old new none) (
        then_or
          (new_of (swap (if meta then none else modified_of old new none)))
          (if is_some (if meta then none else added_of old new none) then none else new))
      ≡ (if meta then new else old)
settle_back true old new = refl
settle_back false none none = refl
settle_back false none (some v) = refl
settle_back false (some o) none = refl
settle_back false (some o) (some v) = elim (Bool-cases (deep_equal o v)) [
  | inl e ↦ rw e (ap some (sym (deep_equal_lem o v e)))
  | inr e ↦ rw e refl
]

swap_all_lem :
    (k : String) (m swapped : Dict FieldDiff)
    → IsUnique m
    → IsUnique swapped
    → (lookup k (swap_all m swapped)
        ≡ elim (lookup k m) [ none ↦ lookup k swapped | some diff ↦ swap (some diff) ])
      × IsUnique (swap_all m swapped)
unfolding swap_all lookup
swap_all_lem k [] swapped unique later = (refl, later)
swap_all_lem k ((key, diff) ∷ m) swapped unique later =
    let turned : FieldDiff = record { old = diff.new; new = diff.old } in
    let (found, one_each) =
      swap_all_lem k m (insert key turned swapped) unique.1
        (insert-IsUnique key turned swapped later) in
    (ground (arith, found, lookup-insert key k turned swapped, eq_iff key k, unique.0), one_each)

apply_diff-compute_diff :
    (older newer : Document) (k : String)
    → IsUnique older
    → IsUnique newer
    → lookup k (apply_diff older (compute_diff older newer))
      ≡ (if is_meta k then lookup k older else lookup k newer)
unfolding compute_diff lookup
apply_diff-compute_diff older newer k unique_older unique_newer =
    let changes = find_changes_lem k older newer ([], []) unique_newer in
    let gone = find_removed_lem k newer older [] unique_older in
    let (added, modified) = find_changes-AreUnique older newer ([], []) (tt, tt) in
    apply_diff-lookup k older (compute_diff older newer) added modified
    ∙ rw (changes.0, changes.1, gone) (settle (is_meta k) (lookup k older) (lookup k newer))

apply_diff-reverse_diff :
    (older newer : Document) (k : String)
    → IsUnique older
    → IsUnique newer
    → lookup k (apply_diff newer (reverse_diff (compute_diff older newer)))
      ≡ (if is_meta k then lookup k newer else lookup k older)
unfolding compute_diff reverse_diff lookup
apply_diff-reverse_diff older newer k unique_older unique_newer =
    let changes = find_changes_lem k older newer ([], []) unique_newer in
    let gone = find_removed_lem k newer older [] unique_older in
    let (added, modified) = find_changes-AreUnique older newer ([], []) (tt, tt) in
    let (swapped, one_each) = swap_all_lem k (find_changes older newer ([], [])).1 [] modified tt in
    let swapped' : lookup k (swap_all (find_changes older newer ([], [])).1 [])
        ≡ swap (lookup k (find_changes older newer ([], [])).1) =
      ground (arith, swapped) in
    apply_diff-lookup k newer (reverse_diff (compute_diff older newer))
      (find_removed-IsUnique newer older [] tt) one_each
    ∙ rw (swapped', changes.0, changes.1, gone)
        (settle_back (is_meta k) (lookup k older) (lookup k newer))

-- If no key stands twice in either version, then the difference of two versions, applied to the
-- older, gives what the newer has under every key but the version fields and `_id`, and what the
-- older has under these; and the reversed difference, applied to the newer, gives what the older
-- has under every other key.
pub compute_diff_lem :
    (older newer : Document) (k : String)
    → IsUnique older
    → IsUnique newer
    → let diff = compute_diff older newer in
      (lookup k (apply_diff older diff) ≡ (if is_meta k then lookup k older else lookup k newer))
      × (lookup k (apply_diff newer (reverse_diff diff))
          ≡ (if is_meta k then lookup k newer else lookup k older))
compute_diff_lem older newer k unique_older unique_newer = (
  apply_diff-compute_diff older newer k unique_older unique_newer,
  apply_diff-reverse_diff older newer k unique_older unique_newer,
)
