-- ===== src/Wal/Truncated.antt =====
-- persistence/WALWriter.ts, `truncate` and the appends after it.
use oblivinx.Base.{
  ℕ, ◌+◌, ◌≤◌, ◌≡◌, ◌∙◌, ap, refl, subst, Bool, true, String, Option, some, List, [], ◌∷◌, ◌++◌,
  map, arith, length, drop, drop-all, All, if-true, default_to,
}
use mathlib.Core.List.{append_assoc, append-nil}
use oblivinx.Wal.{
  WalOperation, WalData, WalEntry, WalWriter, append, entry_at, truncate, close, read_after,
  stream_write,
}
use oblivinx.Wal.Numbered.{IsPlainData, IsPlain, Numbered, IsCodec, read_after-lines}

-- One call of `append`: its time, operation, id and data.
pub record Record : Type 0 where
  pub now : ℕ
  pub op : WalOperation
  pub job_id : String
  pub data_of : WalData

abbrev pub IsPlainRecord : Record → Type 0
IsPlainRecord r = IsPlainData r.data_of

module _ {Line : Type 0} (encode : WalEntry → Line) where
  -- A run of calls of `append`.
  unfoldable pub append_all : List Record → WalWriter Line → WalWriter Line
  append_all [] w = w
  append_all (r ∷ rs) w = append_all rs (append encode r.now r.op r.job_id r.data_of w).1

-- The entries that such a run writes.
unfoldable pub entries_from : ℕ → List Record → List WalEntry
entries_from seq [] = []
entries_from seq (r ∷ rs) = entry_at r.now r.op r.job_id r.data_of seq ∷ entries_from (seq + 1) rs

length-entries_from : (seq : ℕ) (rs : List Record) → length (entries_from seq rs) ≡ length rs
unfolding entries_from
length-entries_from seq [] = refl
length-entries_from seq (r ∷ rs) = omega (arith, length-entries_from (seq + 1) rs)

-- `truncate` leaves an open writer of an empty file, whatever the old stream holds.
truncated :
    {Line : Type 0} (w : WalWriter Line)
    → w.enabled ≡ true
    → ((truncate w).enabled ≡ true)
      × ((truncate w).stream ≡ some [])
      × ((truncate w).file ≡ some [])
      × ((truncate w).seq ≡ 0)
unfolding truncate
truncated w h = rw h (refl, refl, refl, refl)

Numbered-entries_from :
    (seq : ℕ) (rs : List Record) → Numbered seq (entries_from seq rs) (seq + length rs)
unfolding entries_from
Numbered-entries_from seq [] = omega arith
Numbered-entries_from seq (r ∷ rs) =
    let moved : seq + 1 + length rs ≡ seq + length (r ∷ rs) = omega arith in
    (
      refl,
      subst (Numbered (seq + 1) (entries_from (seq + 1) rs)) moved
          (Numbered-entries_from (seq + 1) rs),
    )

pub entries_from-IsPlain :
    (seq : ℕ) (rs : List Record) → All IsPlainRecord rs → All IsPlain (entries_from seq rs)
unfolding entries_from
entries_from-IsPlain seq [] p = tt
entries_from-IsPlain seq (r ∷ rs) p = (p.0, entries_from-IsPlain (seq + 1) rs p.1)

module _ {Line : Type 0} (encode : WalEntry → Line) where
  pub append_all-enabled :
      (rs : List Record) (w : WalWriter Line) → (append_all encode rs w).enabled ≡ w.enabled
  unfolding append_all append
  append_all-enabled [] w = refl
  append_all-enabled (r ∷ rs) w =
      append_all-enabled rs (append encode r.now r.op r.job_id r.data_of w).1

  -- A run of appends leaves the file as it is.
  pub append_all-file :
      (rs : List Record) (w : WalWriter Line) → (append_all encode rs w).file ≡ w.file
  unfolding append_all append
  append_all-file [] w = refl
  append_all-file (r ∷ rs) w = append_all-file rs (append encode r.now r.op r.job_id r.data_of w).1

  -- The stream holds the lines, in order, after those that it held.
  pub append_all-stream :
      (rs : List Record) (w : WalWriter Line) (held : List Line)
      → w.enabled ≡ true
      → w.stream ≡ some held
      → (append_all encode rs w).stream ≡ some (held ++ map encode (entries_from w.seq rs))
  unfolding append_all append entries_from
  append_all-stream [] w held enabled open_stream = rw append-nil open_stream
  append_all-stream (r ∷ rs) w held enabled open_stream =
      let entry = entry_at r.now r.op r.job_id r.data_of w.seq in
      append_all-stream rs (append encode r.now r.op r.job_id r.data_of w).1
        (held ++ encode entry ∷ []) enabled
        (if-true _ _ enabled ∙ ap (stream_write (encode entry)) open_stream)
      ∙ ap some (append_assoc held (encode entry ∷ []) _)

  -- `close` writes them to the file.
  pub close-append_all :
      (rs : List Record) (w : WalWriter Line) (lines : List Line)
      → w.enabled ≡ true
      → w.stream ≡ some []
      → w.file ≡ some lines
      → ((close (append_all encode rs w)).enabled ≡ true)
        × ((close (append_all encode rs w)).file
            ≡ some (lines ++ map encode (entries_from w.seq rs)))
  unfolding close
  close-append_all rs w lines enabled open_stream file =
      rw (append_all-stream rs w [] enabled open_stream) (
        append_all-enabled rs w ∙ enabled,
        ap
            (λ (f : Option (List Line)).
              some (default_to f [] ++ map encode (entries_from w.seq rs)))
            (append_all-file rs w ∙ file),
      )

module _ {Line : Type 0} (encode : WalEntry → Line) (decode : Line → Option WalEntry)
    (is_blank : Line → Bool) (codec : IsCodec encode decode is_blank) where
  -- After `truncate`, any run of appends of plain data and a `close`, `readAfter` of a number
  -- `base` leaves out the first `base + 1` entries of the run: the numbers start again at 0,
  -- whatever was in the log before.
  pub read_after-truncate :
      (rs : List Record) (w : WalWriter Line) (base : ℕ)
      → All IsPlainRecord rs
      → w.enabled ≡ true
      → read_after decode is_blank (some base) (close (append_all encode rs (truncate w)))
        ≡ drop (base + 1) (entries_from 0 rs)
  read_after-truncate rs w base p enabled =
      let (on, open_stream, file, seq) = truncated w enabled in
      let (on_closed, lines) = close-append_all encode rs (truncate w) [] on open_stream file in
      read_after-lines encode decode is_blank codec (close (append_all encode rs (truncate w))) _
        base (0 + length rs) on_closed (lines ∙ ap (λ n. some (map encode (entries_from n rs))) seq)
        (entries_from-IsPlain 0 rs p) (Numbered-entries_from 0 rs)

  -- So the first `base + 1` entries that are written after the snapshot are never replayed.
  pub read_after-truncate_none :
      (rs : List Record) (w : WalWriter Line) (base : ℕ)
      → All IsPlainRecord rs
      → w.enabled ≡ true
      → length rs ≤ base + 1
      → read_after decode is_blank (some base) (close (append_all encode rs (truncate w))) ≡ []
  read_after-truncate_none rs w base p enabled few =
      rw (read_after-truncate rs w base p enabled)
        (drop-all (base + 1) (entries_from 0 rs) (omega (arith, length-entries_from 0 rs)))
