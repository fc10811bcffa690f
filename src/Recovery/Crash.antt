-- ===== src/Recovery/Crash.antt =====
-- persistence/WALWriter.ts and persistence/Recovery.ts: a log that one process wrote, and the next
-- one reads when it starts. The stream writes its lines in order, so what a crash leaves is the first
-- ones of all that were appended.
use oblivinx.Base.{
  ℕ, zero, suc, ◌+◌, ◌≡◌, refl, sym, ap, ◌∙◌, Bool, true, Option, none, some, List, [], ◌∷◌, ◌++◌,
  map, All, keep_if, take, default_to,
}
use oblivinx.Adapter.{empty_adapter}
use oblivinx.Wal.{
  WalEntry, WalWriter, initialize, new_writer, close, read_all, read_after, is_above, entry_at,
}
use oblivinx.Wal.Numbered.{IsCodec, parse-encoded}
use oblivinx.Wal.Restart.{initialize_empty-Logged}
use oblivinx.Wal.Truncated.{
  Record, IsPlainRecord, append_all, entries_from, append_all-file, append_all-stream,
  close-append_all, entries_from-IsPlain,
}
use oblivinx.Recovery.{recover, run}

keep_if-above : (es : List WalEntry) → keep_if (λ (e : WalEntry). is_above none e.seq) es ≡ es
keep_if-above [] = refl
keep_if-above (e ∷ es) = ap (◌∷◌ e) (keep_if-above es)

take-entries_from :
    {Line : Type 0} (encode : WalEntry → Line) (n seq : ℕ) (rs : List Record)
    → take n (map encode (entries_from seq rs)) ≡ map encode (entries_from seq (take n rs))
unfolding entries_from
take-entries_from encode zero seq rs = refl
take-entries_from encode (suc n) seq [] = refl
take-entries_from encode (suc n) seq (r ∷ rs) =
    ap (λ lines. encode (entry_at r.now r.op r.job_id r.data_of seq) ∷ lines)
      (take-entries_from encode n (seq + 1) rs)

module _ {Line : Type 0} where
  file_of_stream : ℕ → Option (List Line) → Option (List Line) → Option (List Line)
  file_of_stream n file none = file
  file_of_stream n file (some held) = some (default_to file [] ++ take n held)

  -- The file after a crash, before which the stream had written the first `n` of its lines.
  unfoldable pub crash : ℕ → WalWriter Line → Option (List Line)
  unfolding file_of_stream
  crash n w = file_of_stream n w.file w.stream

module _ {Line : Type 0} (encode : WalEntry → Line) (decode : Line → Option WalEntry)
    (is_blank : Line → Bool) where
  -- The writer of a first process, which began without a file, after its appends.
  abbrev pub written : List Record → WalWriter Line
  written rs = append_all encode rs (initialize decode is_blank (new_writer true none))

  -- The writer of the next process, initialized on a file.
  abbrev pub reopened : Option (List Line) → WalWriter Line
  reopened file = initialize decode is_blank (new_writer true file)

module _ {Line : Type 0} (encode : WalEntry → Line) (decode : Line → Option WalEntry)
    (is_blank : Line → Bool) (codec : IsCodec encode decode is_blank) where
  -- Of the appends, the crash leaves the first `n`.
  crash-written :
      (n : ℕ) (rs : List Record)
      → crash n (written encode decode is_blank rs) ≡ some (map encode (entries_from 0 (take n rs)))
  unfolding crash
  crash-written n rs =
      let opened = initialize_empty-Logged encode decode is_blank codec in
      let first : WalWriter Line = initialize decode is_blank (new_writer true none) in
      let held = append_all-stream encode rs first [] opened.enabled opened.open_stream in
      let file = append_all-file encode rs first ∙ opened.lines in
      let numbered = ap (λ m. map encode (entries_from m rs)) (sym opened.numbered) in
      rw (held, file, numbered) (ap some (take-entries_from encode n 0 rs))

  close-written :
      (rs : List Record)
      → (close (written encode decode is_blank rs)).file ≡ some (map encode (entries_from 0 rs))
  close-written rs =
      let opened = initialize_empty-Logged encode decode is_blank codec in
      let first : WalWriter Line = initialize decode is_blank (new_writer true none) in
      (close-append_all encode rs first [] opened.enabled opened.open_stream opened.lines).1
      ∙ ap (λ m. some (map encode (entries_from m rs))) (sym opened.numbered)

  read_all-file :
      (file : Option (List Line)) (rs : List Record)
      → file ≡ some (map encode (entries_from 0 rs))
      → All IsPlainRecord rs
      → read_all decode is_blank (reopened encode decode is_blank file) ≡ entries_from 0 rs
  unfolding read_all initialize
  read_all-file file rs lines plain = rw lines (
      parse-encoded encode decode is_blank codec (entries_from 0 rs)
        (entries_from-IsPlain 0 rs plain))

  -- What the next process reads after a `close`.
  pub read_all-closed :
      (rs : List Record)
      → All IsPlainRecord rs
      → read_all decode is_blank
          (reopened encode decode is_blank (close (written encode decode is_blank rs)).file)
        ≡ entries_from 0 rs
  read_all-closed rs = read_all-file _ rs (close-written rs)

  -- After a crash, and without a snapshot, the next process replays the appends that were written.
  pub run-crash :
      (n : ℕ) (rs : List Record)
      → All IsPlainRecord (take n rs)
      → run decode is_blank none
          (reopened encode decode is_blank (crash n (written encode decode is_blank rs)))
          empty_adapter
        ≡ recover none (entries_from 0 (take n rs)) empty_adapter
  unfolding run read_after
  run-crash n rs p =
      ap (λ es. recover none es empty_adapter)
        (keep_if-above _ ∙ read_all-file _ (take n rs) (crash-written n rs) p)
