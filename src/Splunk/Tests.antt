-- ===== src/Splunk/Tests.antt =====
-- splunk_utils.cpp at a concrete text: each byte is a document, its first event.
use bb_monitor.Base.{
  ℕ, ℤ, pos, ◌≡◌, refl, Bool, true, false, Option, none, some, List, [], ◌∷◌, Bytes, bytes_eq,
  codes, if◌then◌else◌,
}
use bb_monitor.Messages.{LogLine}
use bb_monitor.Datadog.{Rapidjson}
use bb_monitor.Splunk.{parse_splunk_event, events_from}

data Node : Type 0 where
  top : Node
  event : Node
  text : Node

abbrev find : Bytes → Node → Option Node
find field top =
    if bytes_eq field (codes "event")
    then some event
    else if bytes_eq field (codes "time")
    then some text
    else none
find field event = if bytes_eq field (codes "line") then some text else none
find field text = none

abbrev is_object : Node → Bool
is_object top = true
is_object event = true
is_object text = false

abbrev as_string : Node → Option Bytes
as_string text = some (codes "12")
as_string v = none

abbrev json : Rapidjson Node ℕ
json = record {
  parse = λ s. none;
  is_object = is_object;
  find = find;
  as_array = λ v. none;
  as_string = as_string;
  as_int = λ v. none;
  as_int64 = λ v. none;
  as_double = λ v. none;
}

abbrev parse_stream : Bytes → Option (Node × Bytes)
parse_stream [] = none
parse_stream (c ∷ s) = some (top, s)

abbrev log_line : ℤ → LogLine
log_line ts = record {
  id = codes "12";
  agent = codes "splunk";
  host = [];
  source = [];
  labels = [];
  timestamp_ns = ts;
  line = codes "12";
}

-- The time of an event is the clock's, not the one that it says.
clock_time :
    parse_splunk_event json parse_stream
      (λ v. [])
      (λ s. some 12)
      (λ s ts. s)
      (λ i. pos 77)
      (codes "ab")
    ≡ some (log_line (pos 77) ∷ log_line (pos 77) ∷ [])
unfolding parse_splunk_event events_from bytes_eq bb_monitor.Base.Text.cut
clock_time = refl

-- A time that is no number ends the parser with the exception of `stod`.
no_number :
    parse_splunk_event json parse_stream
      (λ v. [])
      (λ s. none)
      (λ s ts. s)
      (λ i. pos 77)
      (codes "ab")
    ≡ none
unfolding parse_splunk_event events_from bytes_eq bb_monitor.Base.Text.cut
no_number = refl
