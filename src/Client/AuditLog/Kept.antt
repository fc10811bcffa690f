-- ===== src/Client/AuditLog/Kept.antt =====
-- packages/oblivinx3x/src/security/audit-log.ts: the events that are kept after any calls of `log`.
use oblivinx.Base.{
  ℕ, zero, suc, ◌-◌, ◌≤◌, ◌≡◌, refl, ◌∙◌, ap, sym, Bool, true, false, List, [], ◌∷◌, ◌++◌,
  if◌then◌else◌, ltb, length, length-append, drop, arith, if-true, if-false, Bool-cases, inl, inr,
  ◌&&◌,
}
use oblivinx.Client.AuditLog.{
  AuditEvent, Entry, Operation, Backend, Logger, append, log, log_if, includes,
}
use mathlib.Core.List.{append_assoc, append-nil}

drop-append : {A : Type 0} (n : ℕ) (l m : List A) → n ≤ length l → drop n (l ++ m) ≡ drop n l ++ m
drop-append zero l m h = refl
drop-append (suc n) [] m h = absurd (omega arith)
drop-append (suc n) (_ ∷ l) m h = drop-append n l m (omega arith)

length-drop : {A : Type 0} (n : ℕ) (l : List A) → length (drop n l) ≡ length l - n
length-drop zero l = omega arith
length-drop (suc n) [] = omega arith
length-drop (suc n) (_ ∷ l) = omega (arith, length-drop n l)

drop-one : {A : Type 0} (n : ℕ) (l : List A) → drop 1 (drop n l) ≡ drop (suc n) l
drop-one zero l = refl
drop-one (suc n) [] = refl
drop-one (suc n) (_ ∷ l) = drop-one n l

-- The newest `n`.
abbrev pub newest : ℕ → List AuditEvent → List AuditEvent
newest n all = drop (length all - n) all

append-newest :
    (event : AuditEvent) (b : Backend) (all : List AuditEvent)
    → b.events ≡ newest b.max_size all
    → (append event b).events ≡ newest b.max_size (all ++ event ∷ [])
unfolding append
append-newest event b all h =
    let n = b.max_size in
    let more : List AuditEvent = all ++ event ∷ [] in
    let longer : b.events ++ event ∷ [] ≡ drop (length all - n) more =
      ap (λ l. l ++ event ∷ []) h
      ∙ sym (drop-append (length all - n) all (event ∷ []) (omega arith)) in
    let size : length more ≡ suc (length all) = omega (arith, length-append all (event ∷ [])) in
    let kept = length-drop (length all - n) more in
    elim (Bool-cases (ltb n (length (b.events ++ event ∷ [])))) [
      | inl e ↦
          let full : n ≤ length all = ground (arith, ap length longer, kept, size) in
          let next : suc (length all - n) ≡ length more - n = omega (arith, size) in
          if-true _ _ e
          ∙ ap (drop 1) longer
          ∙ drop-one (length all - n) more
          ∙ ap (λ i. drop i more) next
      | inr e ↦
          let room : length more ≤ n = ground (arith, ap length longer, kept, size) in
          let next : length all - n ≡ length more - n = omega (arith, size) in
          if-false _ _ e ∙ longer ∙ ap (λ i. drop i more) next
    ]

abbrev pub Calls : Type 0
Calls = List (ℕ × Entry)

abbrev pub log_all : Calls → Logger → Logger
log_all [] l = l
log_all ((now, entry) ∷ calls) l = log_all calls (log now entry l)

-- The events of the calls that the logger is for.
abbrev pub wanted : Bool → List Operation → Calls → List AuditEvent
wanted enabled ops [] = []
wanted enabled ops ((now, entry) ∷ calls) =
    let rest = wanted enabled ops calls in
    if enabled && includes ops entry.operation
    then record { timestamp = now; entry = entry } ∷ rest
    else rest

-- The logger writes what it is for, so far.
abbrev Keeps : Calls → Logger → List AuditEvent → Type 0
Keeps calls l all =
    (log_all calls l).backend.events
    ≡ newest l.backend.max_size (all ++ wanted l.enabled l.events calls)

log_if-Keeps :
    (b : Bool) (now : ℕ) (entry : Entry) (calls : Calls) (l : Logger) (all : List AuditEvent)
    → ((m : Logger) (known : List AuditEvent)
        → m.backend.events ≡ newest m.backend.max_size known
        → Keeps calls m known)
    → l.backend.events ≡ newest l.backend.max_size all
    → (log_all calls (log_if b now entry l)).backend.events
      ≡ newest l.backend.max_size (
          all
          ++ (if b
              then record { timestamp = now; entry = entry } ∷ wanted l.enabled l.events calls
              else wanted l.enabled l.events calls))
unfolding append
log_if-Keeps true now entry calls l all later h =
    let event : AuditEvent = record { timestamp = now; entry = entry } in
    later (record l { backend = append event l.backend }) (all ++ event ∷ [])
      (append-newest event l.backend all h)
    ∙ ap (newest l.backend.max_size)
        (append_assoc all (event ∷ []) (wanted l.enabled l.events calls))
log_if-Keeps false now entry calls l all later h = later l all h

log_all-Keeps :
    (calls : Calls) (l : Logger) (all : List AuditEvent)
    → l.backend.events ≡ newest l.backend.max_size all
    → Keeps calls l all
unfolding log
log_all-Keeps [] l all h = rw append-nil h
log_all-Keeps ((now, entry) ∷ calls) l all h =
    log_if-Keeps (l.enabled && includes l.events entry.operation) now entry calls l all
      (λ m known k. log_all-Keeps calls m known k) h

-- After any calls of `log` on a logger whose backend in memory holds at most its maximum, the
-- backend holds the newest events, as many as the maximum, of those it held and those of the calls
-- that the logger is enabled for, oldest first.
pub log_all_lem :
    (calls : Calls) (l : Logger)
    → length l.backend.events ≤ l.backend.max_size
    → (log_all calls l).backend.events
      ≡ newest l.backend.max_size (l.backend.events ++ wanted l.enabled l.events calls)
log_all_lem calls l fits =
    let none_over : length l.backend.events - l.backend.max_size ≡ 0 = omega arith in
    log_all-Keeps calls l l.backend.events (rw none_over refl)
