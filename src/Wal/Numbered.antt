-- ===== src/Wal/Numbered.antt =====
-- persistence/WALWriter.ts, `append`, `readAll` and `readAfter` on a log without gaps.
use oblivinx.Base.{
  ℕ, suc, ◌+◌, ◌-◌, ◌≡◌, refl, ap, Bool, true, false, Option, none, some, List, [], ◌∷◌, map, arith,
  All, keep_if, drop, drop-nil, not, ltb, Bool-cases, inl, inr,
}
use oblivinx.Wal.{
  WalData, WalEntry, WalWriter, of_job, of_dlq_entry, read_all, read_after, parse_lines, is_above,
}

-- Nothing in the entry that `JSON.stringify` drops: a retry policy is an object with methods.
abbrev pub IsPlainData : WalData → Type 0
IsPlainData (of_job job) = job.retry_policy ≡ none
IsPlainData (of_dlq_entry e) = e.job.retry_policy ≡ none
IsPlainData _ = Unit

abbrev pub IsPlain : WalEntry → Type 0
IsPlain e = IsPlainData e.data_of

-- The entries are numbered from `from` on, up to but without `to`.
abbrev pub Numbered : ℕ → List WalEntry → ℕ → Type 0
Numbered from [] to = from ≡ to
Numbered from (e ∷ es) to = (e.seq ≡ from) × Numbered (from + 1) es to

-- The entries above `base` are all but the first ones.
pub keep_if-Numbered :
    (base from to : ℕ) (es : List WalEntry)
    → Numbered from es to
    → keep_if (λ e. is_above (some base) e.seq) es ≡ drop (base + 1 - from) es
keep_if-Numbered base from to [] h = rw drop-nil
keep_if-Numbered base from to (e ∷ es) h = elim (Bool-cases (ltb base e.seq)) [
  | inl above ↦
      let none_left : base + 1 - from ≡ 0 = ground arith in
      let none_next : base + 1 - (from + 1) ≡ 0 = omega arith in
      rw (above, none_left)
        (ap (◌∷◌ e) (rw none_next at (keep_if-Numbered base (from + 1) to es h.1)))
  | inr skipped ↦
      let one_more : base + 1 - from ≡ suc (base + 1 - (from + 1)) = ground arith in
      rw (skipped, one_more) (keep_if-Numbered base (from + 1) to es h.1)
]

module _ {Line : Type 0} (encode : WalEntry → Line) (decode : Line → Option WalEntry)
    (is_blank : Line → Bool) where
  -- What the queue relies on: a line of plain data reads back, and is not empty.
  pub record IsCodec : Type 0 where
    pub reads_back : (e : WalEntry) → IsPlain e → decode (encode e) ≡ some e
    pub not_blank : (e : WalEntry) → is_blank (encode e) ≡ false

  -- The open writer's file holds the entries `es`, and its stream nothing.
  pub record Logged (w : WalWriter Line) (es : List WalEntry) : Type 0 where
    pub enabled : w.enabled ≡ true
    pub open_stream : w.stream ≡ some []
    pub lines : w.file ≡ some (map encode es)
    pub plain : All IsPlain es
    pub numbered : Numbered 0 es w.seq

module _ {Line : Type 0} (encode : WalEntry → Line) (decode : Line → Option WalEntry)
    (is_blank : Line → Bool) (codec : IsCodec encode decode is_blank) where
  pub parse-encoded :
      (es : List WalEntry)
      → All IsPlain es
      → parse_lines decode is_blank (keep_if (λ l. not (is_blank l)) (map encode es)) ≡ es
  unfolding parse_lines
  parse-encoded [] h = refl
  parse-encoded (e ∷ es) h =
      rw (codec.not_blank e, codec.reads_back e h.0) (ap (◌∷◌ e) (parse-encoded es h.1))

  -- If the writer's file holds some plain entries, `readAll` returns exactly those entries, in
  -- order.
  pub read_all-lines :
      (w : WalWriter Line) (es : List WalEntry)
      → w.enabled ≡ true
      → w.file ≡ some (map encode es)
      → All IsPlain es
      → read_all decode is_blank w ≡ es
  unfolding read_all
  read_all-lines w es enabled lines plain = rw (enabled, lines) (parse-encoded es plain)

  -- If these entries are numbered, `readAfter` of a number returns all of them but those up to
  -- that number, in order.
  pub read_after-lines :
      (w : WalWriter Line) (es : List WalEntry) (base to : ℕ)
      → w.enabled ≡ true
      → w.file ≡ some (map encode es)
      → All IsPlain es
      → Numbered 0 es to
      → read_after decode is_blank (some base) w ≡ drop (base + 1) es
  unfolding read_after
  read_after-lines w es base to enabled lines plain numbered =
      let all : base + 1 - 0 ≡ base + 1 = omega arith in
      rw (read_all-lines w es enabled lines plain, ← all) (keep_if-Numbered base 0 to es numbered)
