-- ===== src/Engine/Keeps.antt =====
-- core/JobQueue.ts: what a handler leaves of the heap, the jobs in flight and the log.
use oblivinx.Base.{
  ◌≡◌, refl, ◌∙◌, ap, sym, Option, some, List, [], ◌++◌, Bool, true, false, ◌>>=◌, if◌then◌else◌,
}
use mathlib.Core.List.{append_assoc, append-nil}
use oblivinx.Job.{Job}
use oblivinx.Adapter
use oblivinx.Adapter.{MemoryAdapter}
use oblivinx.Adapter.Total.{IsOrdered, push-Returns}
use oblivinx.Wal.Truncated.{Record}
use oblivinx.Engine.State.{Engine}

-- A `do` step whose action returned.
pub bind-some {ℓ κ} :
    {A : Type ℓ} {B : Type κ} (f : A → Option B) {o : Option A} {a : A}
    → o ≡ some a
    → (o >>= f) ≡ f a
bind-some f h = ap (λ o. o >>= f) h

-- The log is only appended to.
abbrev pub Grows : List Record → List Record → Type 0
Grows l m = (tail : List Record) × (m ≡ l ++ tail)

pub Grows-not : (l : List Record) → Grows l l
Grows-not l = ([], sym (append-nil l))

pub Grows-trans : (l m n : List Record) → Grows l m → Grows m n → Grows l n
Grows-trans l m n (xs, h) (ys, k) = (xs ++ ys, k ∙ ap (λ r. r ++ ys) h ∙ append_assoc l xs ys)

-- `if (persistence.enabled && wal)`.
pub Grows-if : (b : Bool) (l ws : List Record) → Grows l (if b then l ++ ws else l)
Grows-if true l ws = (ws, refl)
Grows-if false l ws = Grows-not l

pub Grows-twice :
    (b : Bool) (l ws vs : List Record)
    → Grows l (if b then (if b then l ++ ws else l) ++ vs else (if b then l ++ ws else l))
Grows-twice true l ws vs = (ws ++ vs, append_assoc l ws vs)
Grows-twice false l ws vs = Grows-not l

module _ {P : Type 0} where
  -- The handler did not touch the jobs in flight, and left an ordered heap.
  abbrev pub Keeps : Engine P → Engine P → Type 0
  Keeps e f =
      IsOrdered f.adapter
      × (f.cfg ≡ e.cfg)
      × (f.running ≡ e.running)
      × (f.in_flight ≡ e.in_flight)
      × (f.registry ≡ e.registry)
      × (f.is_closed ≡ e.is_closed)
      × Grows e.log f.log

  abbrev pub ReturnsKept : Engine P → Option (Engine P) → Type 0
  ReturnsKept e r = (f : Engine P) × (r ≡ some f) × Keeps e f

  pub Keeps-trans : (e f g : Engine P) → Keeps e f → Keeps f g → Keeps e g
  Keeps-trans e f g (a, b, c, d, r, k, l) (a', b', c', d', r', k', l') =
      (a', b' ∙ b, c' ∙ c, d' ∙ d, r' ∙ r, k' ∙ k, Grows-trans e.log f.log g.log l l')

  -- The same, with more in the log.
  pub Keeps-log :
      (e f : Engine P) (log : List Record)
      → Keeps e f
      → Grows f.log log
      → Keeps e (record f { log = log })
  Keeps-log e f log (a, b, c, d, r, k, l) g = (a, b, c, d, r, k, Grows-trans e.log f.log log l g)

  pub with_adapter-Keeps :
      (e : Engine P) (a : MemoryAdapter) → IsOrdered a → Keeps e (record e { adapter = a })
  with_adapter-Keeps e a h = (h, refl, refl, refl, refl, refl, Grows-not e.log)

  pub push-Keeps :
      (job : Job) (e : Engine P)
      → IsOrdered e.adapter
      → (a : MemoryAdapter) × (Adapter.push job e.adapter ≡ some a)
        × Keeps e (record e { adapter = a })
  push-Keeps job e h =
      let (a, returns, ordered, more) = push-Returns job e.adapter h in
      (a, returns, with_adapter-Keeps e a ordered)
