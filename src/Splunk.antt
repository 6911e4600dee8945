-- ===== src/Splunk.antt =====
-- libraries/bb_monitor_utils/splunk/splunk_utils.cpp: the events that a Splunk logger posts, JSON documents
-- one behind the other. `parse_stream` is `ParseStream` with `kParseStopWhenDoneFlag`: a document and the
-- rest of the text; `members` are the members of an object; `stod` answers `none` where it throws;
-- `log_id` is the digest of the parts and the timestamp, written as a UUID.
pub mod Terminates
mod Tests
use bb_monitor.Base.{
  ℕ, zero, suc, Bool, true, false, Option, none, some, List, [], ◌∷◌, ◌++◌, Bytes, codes, length, ℤ,
  pos,
}
use bb_monitor.Base.Text.{until}
use bb_monitor.Messages.{Label, LogLine}
use bb_monitor.Datadog.{Rapidjson, string_at, text_label}

-- A text that is not there leaves the field empty.
abbrev pub or_empty_text : Option Bytes → Bytes
or_empty_text none = []
or_empty_text (some s) = s

-- The parts of the digest: source, host, line, and the keys and values of the labels.
abbrev pub label_parts : List Label → Bytes
label_parts [] = []
label_parts (l ∷ ls) = l.key ++ (l.value ++ label_parts ls)

module _ {V D : Type 0} (j : Rapidjson V D) (parse_stream : Bytes → Option (V × Bytes))
    (members : V → List (Bytes × V)) (stod : Bytes → Option D) (log_id : Bytes → ℤ → Bytes) where
  -- The object under a name.
  abbrev pub object_at : Bytes → V → Option V
  object_at field d = elim (j.find field d) [
    | none ↦ none
    | some v ↦ elim (j.is_object v) [ true ↦ some v | false ↦ none ]
  ]

  abbrev pub attr_labels : List (Bytes × V) → List Label
  attr_labels [] = []
  attr_labels ((name, v) ∷ dict) = text_label j name (j.as_string v) ++ attr_labels dict

  abbrev pub event_labels : V → List Label
  event_labels ev =
      text_label j (codes "tag") (string_at j (codes "tag") ev)
      ++ elim (object_at (codes "attrs") ev) [ none ↦ [] | some dict ↦ attr_labels (members dict) ]

  -- The time of an event: what it says is read, and then the clock's reading is stored. `none` is the
  -- exception of `stod`.
  abbrev pub time_of_event : ℤ → V → Option ℤ
  time_of_event now d = elim (j.find (codes "time") d) [
    | none ↦ some (pos 0)
    | some t ↦ elim (j.as_string t) [
      | none ↦ some now
      | some time ↦ elim (stod time) [ none ↦ none | some ts_d ↦ some now ]
    ]
  ]

  abbrev pub event_line : ℤ → V → V → LogLine
  event_line ts d ev =
      let line = or_empty_text (string_at j (codes "line") ev) in
      let source = or_empty_text (string_at j (codes "source") ev) in
      let host = or_empty_text (string_at j (codes "host") d) in
      let labels = event_labels ev in
      record {
        id = log_id (source ++ (host ++ (line ++ label_parts labels))) ts;
        agent = codes "splunk";
        host = host;
        source = source;
        labels = labels;
        timestamp_ns = ts;
        line = line;
      }

  -- The lines that a document gives, `none` for an exception.
  abbrev pub document_lines : ℤ → V → Option (List LogLine)
  document_lines now d = elim (j.is_object d) [
    | false ↦ some []
    | true ↦ elim (object_at (codes "event") d) [
      | none ↦ some []
      | some ev ↦ elim (time_of_event now d) [
        | none ↦ none
        | some ts ↦ some (event_line ts d ev ∷ [])
      ]
    ]
  ]

  -- The loop, with a bound on its rounds and the readings of the clock, one for each document.
  unfoldable pub events_from : ℕ → (ℕ → ℤ) → Bytes → List LogLine → Option (List LogLine)
  events_from zero now s result = some result
  events_from (suc n) now s result = elim (parse_stream s) [
    | none ↦ some result
    | some (d, rest) ↦ elim (document_lines (now 0) d) [
      | none ↦ none
      | some lines ↦ events_from n (λ i. now (suc i)) rest (result ++ lines)
    ]
  ]

  unfoldable pub parse_splunk_event : (ℕ → ℤ) → Bytes → Option (List LogLine)
  parse_splunk_event now buffer = let s = until 0 buffer in events_from (suc (length s)) now s []
