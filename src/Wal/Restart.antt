-- ===== src/Wal/Restart.antt =====
-- persistence/WALWriter.ts, `initialize` on the file of another writer, and `truncate`.
use oblivinx.Base.{
  ℕ, ◌+◌, ◌≡◌, refl, Bool, true, Option, none, List, [], ◌∷◌, map, arith, All, keep_if, not, last,
  ap,
}
use oblivinx.Wal.{WalEntry, WalWriter, initialize, new_writer, truncate, seq_after, decode_last}
use oblivinx.Wal.Numbered.{IsPlain, Numbered, IsCodec, Logged}

module _ {Line : Type 0} (encode : WalEntry → Line) (decode : Line → Option WalEntry)
    (is_blank : Line → Bool) (codec : IsCodec encode decode is_blank) where
  keep-encoded :
      (es : List WalEntry) → keep_if (λ l. not (is_blank l)) (map encode es) ≡ map encode es
  keep-encoded [] = refl
  keep-encoded (e ∷ es) = rw (codec.not_blank e) (ap (◌∷◌ (encode e)) (keep-encoded es))

  -- The number that `initialize` takes up is the one after the last entry.
  seq-last_cons :
      (d from to : ℕ) (e : WalEntry) (es : List WalEntry)
      → All IsPlain (e ∷ es)
      → Numbered from (e ∷ es) to
      → seq_after decode is_blank (decode_last decode is_blank (last (map encode (e ∷ es)))) d ≡ to
  unfolding seq_after decode_last
  seq-last_cons d from to e [] p h = rw (codec.reads_back e p.0) (omega arith)
  seq-last_cons d from to e (f ∷ es) p h = seq-last_cons d (from + 1) to f es p.1 h.1

  seq-last :
      (to : ℕ) (es : List WalEntry)
      → All IsPlain es
      → Numbered 0 es to
      → seq_after decode is_blank (decode_last decode is_blank (last (map encode es))) 0 ≡ to
  unfolding seq_after decode_last
  seq-last to [] p h = h
  seq-last to (e ∷ es) p h = seq-last_cons 0 0 to e es p h

  -- A new writer that is initialized on the file of a writer whose file holds some plain, numbered
  -- entries holds the same entries, and goes on with their numbers.
  pub initialize-Logged :
      (w : WalWriter Line) (es : List WalEntry)
      → Logged encode decode is_blank w es
      → Logged encode decode is_blank (initialize decode is_blank (new_writer true w.file)) es
  unfolding initialize
  initialize-Logged w es logged =
      rw (logged.lines, keep-encoded es)
        (record {
          enabled = refl;
          open_stream = refl;
          lines = refl;
          plain = logged.plain;
          numbered = rw (seq-last w.seq es logged.plain logged.numbered) logged.numbered;
        })

  -- A first start, without a file, begins an empty log.
  pub initialize_empty-Logged :
      Logged encode decode is_blank (initialize decode is_blank (new_writer true none)) []
  unfolding initialize seq_after decode_last
  initialize_empty-Logged = record {
    enabled = refl;
    open_stream = refl;
    lines = refl;
    plain = tt;
    numbered = refl;
  }

  pub truncate-Logged :
      (w : WalWriter Line) (es : List WalEntry)
      → Logged encode decode is_blank w es
      → Logged encode decode is_blank (truncate w) []
  unfolding truncate
  truncate-Logged w es logged =
      rw logged.enabled
        (record { enabled = refl; open_stream = refl; lines = refl; plain = tt; numbered = refl })
