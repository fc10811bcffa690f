-- ===== src/Wal.antt =====
-- packages/queueovn/src/persistence/WALWriter.ts: the write-ahead log. The file is the list of its
-- lines, or `none` if it does not exist; `JSON.stringify` and `JSON.parse` of one line are the
-- parameters `encode` and `decode` (`none`: the line does not parse), and `is_blank` is the test of
-- `filter(Boolean)`. A stream is open or not, and an open one holds the lines that it has not yet
-- written to the file; what a process that ends leaves is the file alone. `Date.now()` is an
-- argument.
pub mod Numbered
pub mod Restart
pub mod Truncated
use oblivinx.Base.{
  ℕ, zero, ◌+◌, Bool, true, false, String, Option, none, some, List, [], ◌∷◌, ◌++◌, ltb, not, ◌||◌,
  ◌&&◌, if◌then◌else◌, default_to, keep_if, last,
}
use oblivinx.Base.Value.{Fields}
use oblivinx.Base.Dict.{Dict}
use oblivinx.Job.{Job, JobResult}

pub data WalOperation : Type 0 where
  enqueue activate complete fail retry expire dlq : WalOperation
  chain_register chain_advance chain_complete dag_register dag_complete_dep : WalOperation
  dlq_add dlq_remove : WalOperation

-- `ChainStep` of types/flow.types.ts.
pub record ChainStep : Type 0 where
  pub type : String
  pub payload : Fields
  pub priority : Option ℕ
  pub delay : Option ℕ
  pub max_attempts : Option ℕ
  pub max_duration : Option ℕ
  pub ttl : Option ℕ

-- `SerializedDAGNode` of core/FlowController.ts; the `DAGNode` that it stands for has the same
-- fields, the completed ones as a set.
pub record DagNode : Type 0 where
  pub id : String
  pub job_id : String
  pub type : String
  pub deps : List String
  pub completed_deps : List String

-- `SerializedDLQEntry` of plugins/DeadLetterQueue.ts.
pub record SerializedDlqEntry : Type 0 where
  pub job : Job
  pub error_message : String
  pub error_name : String
  pub captured_at : ℕ

-- What the `data` of an entry holds, by the operation that writes it.
pub data WalData : Type 0 where
  nothing : WalData
  of_job : Job → WalData
  of_result : JobResult → WalData
  of_chain : List ChainStep → ℕ → WalData
  of_index : ℕ → WalData
  of_nodes : Dict DagNode → WalData
  of_dependency : String → String → WalData
  of_dlq_entry : SerializedDlqEntry → WalData

pub record WalEntry : Type 0 where
  pub seq : ℕ
  pub op : WalOperation
  pub job_id : String
  pub timestamp : ℕ
  pub data_of : WalData

pub record WalWriter (Line : Type 0) : Type 0 where
  pub enabled : Bool
  pub stream : Option (List Line)
  pub file : Option (List Line)
  pub seq : ℕ

module _ {Line : Type 0} where
  -- A new writer on a path, with what stands there.
  abbrev pub new_writer : Bool → Option (List Line) → WalWriter Line
  new_writer enabled file = record { enabled = enabled; stream = none; file = file; seq = 0 }

  -- A line that is written to the stream is held by it.
  abbrev pub stream_write : Line → Option (List Line) → Option (List Line)
  stream_write line none = none
  stream_write line (some held) = some (held ++ line ∷ [])

  -- The stream's `end`: it writes the lines that it holds.
  abbrev pub end_stream : Option (List Line) → WalWriter Line → WalWriter Line
  end_stream none w = w
  end_stream (some held) w = record w { stream = none; file = some (default_to w.file [] ++ held) }

  -- The end of the old stream writes what it holds, and then the file is emptied.
  unfoldable pub truncate : WalWriter Line → WalWriter Line
  truncate w = if not w.enabled then w else record w { stream = some []; file = some []; seq = 0 }

  unfoldable pub close : WalWriter Line → WalWriter Line
  close w = end_stream w.stream w

abbrev pub entry_at : ℕ → WalOperation → String → WalData → ℕ → WalEntry
entry_at now op job_id data_of seq = record {
  seq = seq;
  op = op;
  job_id = job_id;
  timestamp = now;
  data_of = data_of;
}

module _ {Line : Type 0} (encode : WalEntry → Line) where
  -- `append`, which also returns the entry.
  unfoldable pub append :
      ℕ → WalOperation → String → WalData → WalWriter Line → WalEntry × WalWriter Line
  append now op job_id data_of w =
      let entry = entry_at now op job_id data_of w.seq in
      (
        entry,
        record w {
          seq = w.seq + 1;
          stream = if w.enabled then stream_write (encode entry) w.stream else w.stream;
        },
      )

-- `try { entries.push(JSON.parse(line)) } catch {}`.
abbrev pub push_parsed : Option WalEntry → List WalEntry → List WalEntry
push_parsed none rest = rest
push_parsed (some entry) rest = entry ∷ rest

-- `seq > base`, where the base -1 of a queue without a snapshot is `none`.
abbrev pub is_above : Option ℕ → ℕ → Bool
is_above none seq = true
is_above (some base) seq = ltb base seq

module _ {Line : Type 0} (decode : Line → Option WalEntry) (is_blank : Line → Bool) where
  -- The sequence number after the last line, if that line parses.
  seq_after : Option WalEntry → ℕ → ℕ
  seq_after none seq = seq
  seq_after (some entry) seq = entry.seq + 1

  decode_last : Option Line → Option WalEntry
  decode_last none = none
  decode_last (some line) = decode line

  unfoldable pub initialize : WalWriter Line → WalWriter Line
  unfolding seq_after decode_last
  initialize w =
      let lines = keep_if (λ line. not (is_blank line)) (default_to w.file []) in
      if not w.enabled then w else record w {
        seq = seq_after (decode_last (last lines)) w.seq;
        stream = some [];
        file = some (default_to w.file []);
      }

  -- The lines that parse, in order.
  unfoldable pub parse_lines : List Line → List WalEntry
  parse_lines [] = []
  parse_lines (line ∷ lines) = push_parsed (decode line) (parse_lines lines)

  unfoldable pub read_all : WalWriter Line → List WalEntry
  unfolding parse_lines
  read_all w =
      if not w.enabled
      then []
      else parse_lines (keep_if (λ line. not (is_blank line)) (default_to w.file []))

  unfoldable pub read_after : Option ℕ → WalWriter Line → List WalEntry
  unfolding read_all
  read_after base w = keep_if (λ e. is_above base e.seq) (read_all w)
