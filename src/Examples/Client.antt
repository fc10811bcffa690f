-- ===== src/Examples/Client.antt =====
-- packages/oblivinx3x/src: versions, access lists, the audit log and the rate limiter.
use oblivinx.Base.{
  ◌≡◌, ◌≤◌, ◌*◌, ◌+◌, ◌-◌, ◌/◌, refl, String, none, some, List, [], ◌∷◌, ◌++◌, true, false, arith,
  ℕ,
}
use oblivinx.Base.Dict.{lookup, IsUnique}
use oblivinx.Base.Value.{Value}
use oblivinx.Client.Versioning.{
  Document, is_meta, is_version_key, compute_diff, apply_diff, reverse_diff,
}
use oblivinx.Client.Versioning.Diffs.{compute_diff_lem}
use oblivinx.Client.AccessControl.{FieldAcl}
use oblivinx.Client.AuditLog.{Entry, Operation, new_logger, new_backend}
use oblivinx.Client.AuditLog.Kept.{newest, wanted, log_all, log_all_lem}
use oblivinx.Client.RateLimiter.{AccessKind, new_limiter, configure}
use oblivinx.Client.RateLimiter.Bounds.{Calls, run, run_lem}

abbrev first_version : Document
first_version =
    ("_id", Value.number 1)
    ∷ ("name", Value.text "Alice")
    ∷ ("age", Value.number 28)
    ∷ ("city", Value.text "Jakarta")
    ∷ []

abbrev second_version : Document
second_version =
    ("_id", Value.number 2)
    ∷ ("name", Value.text "Alice")
    ∷ ("age", Value.number 29)
    ∷ ("role", Value.text "admin")
    ∷ []

first_version-IsUnique : IsUnique first_version
unfolding lookup
first_version-IsUnique = (refl, (refl, (refl, (refl, tt))))

second_version-IsUnique : IsUnique second_version
unfolding lookup
second_version-IsUnique = (refl, (refl, (refl, (refl, tt))))

compute_diff_lem_example :
    (lookup "role" (apply_diff first_version (compute_diff first_version second_version))
      ≡ lookup "role" second_version)
    × (lookup "role"
          (apply_diff second_version (reverse_diff (compute_diff first_version second_version)))
        ≡ lookup "role" first_version)
unfolding lookup is_meta is_version_key
compute_diff_lem_example =
    compute_diff_lem first_version second_version "role" first_version-IsUnique
      second_version-IsUnique

abbrev acl : FieldAcl
acl =
    (
      "users",
      ("age", record { reads = true; writes = false })
          ∷ ("city", record { reads = false; writes = true })
          ∷ [],
    )
    ∷ []

abbrev entry_of : Operation → String → Entry
entry_of op collection = record {
  operation = op;
  collection = collection;
  document_id = none;
  filter = none;
  session_id = none;
  metadata = none;
}

abbrev calls : List (ℕ × Entry)
calls =
    (1, entry_of Operation.insert "a")
    ∷ (2, entry_of Operation.find "a")
    ∷ (3, entry_of Operation.update "b")
    ∷ (4, entry_of Operation.delete "c")
    ∷ []

log_all_lem_example :
    let l = new_logger none (some (new_backend (some 2))) none in
    (log_all calls l).backend.events ≡ newest 2 ([] ++ wanted true l.events calls)
log_all_lem_example =
    log_all_lem calls (new_logger none (some (new_backend (some 2))) none) (omega arith)

abbrev bursts : Calls
bursts =
    ("a", (AccessKind.read, 100))
    ∷ ("a", (AccessKind.write, 100))
    ∷ ("a", (AccessKind.read, 100))
    ∷ ("b", (AccessKind.read, 600))
    ∷ ("a", (AccessKind.read, 700))
    ∷ []

run_lem_example :
    let here =
      (run "a" AccessKind.read
        (("a", (AccessKind.read, 5)) ∷ [])
        (configure (some 1) none new_limiter)).1 in
    (run "a" AccessKind.read bursts here).0 * 1_000 ≤ (1 + (1 + 19) / 20) * 1_000 + (900 - 100) * 1
run_lem_example =
    run_lem (some 1) none "a" AccessKind.read (("a", (AccessKind.read, 5)) ∷ []) bursts 0 100 900
      (omega arith, omega arith)
      (omega arith, (omega arith, (omega arith, (omega arith, (omega arith, omega arith)))))
