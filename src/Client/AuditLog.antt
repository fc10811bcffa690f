-- ===== src/Client/AuditLog.antt =====
-- packages/oblivinx3x/src/security/audit-log.ts: the logger and its backend in memory. The time of
-- `Date.now()` is an argument.
pub mod Kept
use oblivinx.Base.{
  ℕ, ◌+◌, ◌-◌, Bool, true, false, String, Option, none, some, List, [], ◌∷◌, ◌++◌, if◌then◌else◌,
  ltb, length, drop, default_to, ◌||◌, ◌&&◌,
}
use oblivinx.Base.Value.{Fields}

pub data Operation : Type 0 where
  insert update delete find : Operation

abbrev pub same_operation : Operation → Operation → Bool
same_operation Operation.insert Operation.insert = true
same_operation Operation.update Operation.update = true
same_operation Operation.delete Operation.delete = true
same_operation Operation.find Operation.find = true
same_operation _ _ = false

-- `Set.has`.
abbrev pub includes : List Operation → Operation → Bool
includes [] op = false
includes (other ∷ ops) op = same_operation other op || includes ops op

-- `Omit<AuditEvent, 'timestamp'>`.
pub record Entry : Type 0 where
  pub operation : Operation
  pub collection : String
  pub document_id : Option String
  pub filter : Option Fields
  pub session_id : Option String
  pub metadata : Option Fields

pub record AuditEvent : Type 0 where
  pub timestamp : ℕ
  pub entry : Entry

pub record Backend : Type 0 where
  pub events : List AuditEvent
  pub max_size : ℕ

abbrev pub new_backend : Option ℕ → Backend
new_backend max_size = record { events = []; max_size = default_to max_size 10_000 }

-- `append`: `shift` takes the oldest event off.
unfoldable pub append : AuditEvent → Backend → Backend
append event b =
    let longer = b.events ++ event ∷ [] in
    record b { events = if ltb b.max_size (length longer) then drop 1 longer else longer }

abbrev pub flush : Backend → Backend
flush b = record b { events = [] }

pub record Logger : Type 0 where
  pub backend : Backend
  pub enabled : Bool
  pub events : List Operation

abbrev pub new_logger : Option Bool → Option Backend → Option (List Operation) → Logger
new_logger enabled backend events = record {
  enabled = default_to enabled true;
  backend = default_to backend (new_backend none);
  events = default_to events (Operation.insert ∷ Operation.update ∷ Operation.delete ∷ []);
}

abbrev pub log_if : Bool → ℕ → Entry → Logger → Logger
log_if true now entry l = record l {
  backend = append (record { timestamp = now; entry = entry }) l.backend;
}
log_if false now entry l = l

unfoldable pub log : ℕ → Entry → Logger → Logger
log now entry l = log_if (l.enabled && includes l.events entry.operation) now entry l
