-- ===== src/Examples/Codec.antt =====
-- Lines of the log that are entries without what JSON drops, the retry policy of a job.
use oblivinx.Base.{◌≡◌, refl, sym, ap, Bool, false, Option, none, some}
use oblivinx.Job.{RetryPolicy}
use oblivinx.Wal.{WalData, WalEntry, of_job, of_dlq_entry}
use oblivinx.Wal.Numbered.{IsPlainData, IsCodec}

abbrev without_policy : WalData → WalData
without_policy (of_job job) = of_job (record job { retry_policy = none })
without_policy (of_dlq_entry e) =
    of_dlq_entry (record e { job = record e.job { retry_policy = none } })
without_policy d = d

abbrev pub encode : WalEntry → WalEntry
encode e = record e { data_of = without_policy e.data_of }

abbrev pub decode : WalEntry → Option WalEntry
decode e = some e

abbrev pub is_blank : WalEntry → Bool
is_blank e = false

without_policy-plain : (d : WalData) → IsPlainData d → without_policy d ≡ d
without_policy-plain (of_job job) h =
    ap (λ (p : Option RetryPolicy). of_job (record job { retry_policy = p })) (sym h)
without_policy-plain (of_dlq_entry e) h =
    ap
      (λ (p : Option RetryPolicy).
        of_dlq_entry (record e { job = record e.job { retry_policy = p } }))
      (sym h)
without_policy-plain _ h = refl

pub codec : IsCodec encode decode is_blank
codec = record {
  reads_back = λ e h.
      ap (λ (d : WalData). some (record e { data_of = d })) (without_policy-plain e.data_of h);
  not_blank = λ e. refl;
}
