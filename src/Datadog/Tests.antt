-- ===== src/Datadog/Tests.antt =====
-- The parsers of avro_json_parsing.cpp and pb_json_parsing.cpp on a concrete document. A value is its
-- name, and a `double` is a ℕ.
use bb_monitor.Base.{
  ℕ, zero, suc, ◌≡◌, refl, ◌⊎◌, Bool, true, false, Option, none, some, List, [], ◌∷◌, map, Bytes,
  bytes_eq, codes, ℤ, pos, get_elem?, ◌==◌, if◌then◌else◌, ◌||◌,
}
use bb_monitor.Outcome.{ok, ◌>>=◌}
use bb_monitor.Messages.{Label, Metric, double_value, not_set}
use bb_monitor.Datadog.{Rapidjson, tag_label}
use bb_monitor.Ingestion.Sink.{KRecord}
use bb_monitor.Ingestion.Metrics.Stored.{metric_records}
use bb_monitor.Datadog.Series.{parse_datadog_series2avro}
use bb_monitor.Datadog.Pb.{parse_datadog_series2pb, pb_serie, pb_start, pb_points}
use bb_monitor.Datadog.Checks.{parse_datadog_check_run2avro}
use bb_monitor.Datadog.Influx.{get_influx_tags, get_prometheus_tags}
use bb_monitor.Datadog.Served.{valued, series2avro-series2pb}
use bb_monitor.Datadog.Points.{at_point, pb_serie-at_point}

-- {"series": [{"metric": "system.load.1", "points": [[100, 3.0], [200, null]]}]}, and as an array
-- [{"check": "up", "timestamp": 100}].
pub data Node : Type 0 where
  root : Node
  series : Node
  serie : Node
  metric : Node
  points : Node
  point : Node
  seconds : Node
  three : Node
  unread : Node
  checks : Node
  check : Node

abbrev find : Bytes → Node → Option Node
find field serie =
    if bytes_eq field (codes "metric")
    then some metric
    else if bytes_eq field (codes "points")
    then some points
    else none
find field check =
    if bytes_eq field (codes "check")
    then some metric
    else if bytes_eq field (codes "timestamp")
    then some seconds
    else none
find field root = if bytes_eq field (codes "series") then some series else none
find field v = none

abbrev as_array : Node → Option (List Node)
as_array series = some (serie ∷ [])
as_array points = some (point ∷ [])
as_array point = some (seconds ∷ three ∷ [])
as_array unread = some (seconds ∷ root ∷ [])
as_array checks = some (check ∷ [])
as_array v = none

abbrev is_object : Node → Bool
is_object root = true
is_object serie = true
is_object check = true
is_object v = false

abbrev as_string : Node → Option Bytes
as_string metric = some (codes "system.load.1")
as_string v = none

abbrev as_int : Node → Option ℤ
as_int seconds = some (pos 100)
as_int v = none

abbrev as_double : Node → Option ℕ
as_double three = some 3
as_double v = none

abbrev pub json : Node → Rapidjson Node ℕ
json top = record {
  parse = λ s. some top;
  is_object = is_object;
  find = find;
  as_array = as_array;
  as_string = as_string;
  as_int = as_int;
  as_int64 = as_int;
  as_double = as_double;
}

series2avro-series2pb_example :
    (do ms ← parse_datadog_series2avro (json root) []; ok (valued ms)) ≡ (do
      ms ← parse_datadog_series2pb (json root) []
      ok (map KRecord.value (metric_records ms (λ i. pos 7))))
series2avro-series2pb_example = series2avro-series2pb (json root) [] (λ i. pos 7)

pb_serie-at_point_example :
    pb_serie (json root) serie
    ≡ map (at_point (pb_start (json root) (codes "system.load.1") serie)) ((pos 100, 3) ∷ [])
unfolding bytes_eq
pb_serie-at_point_example =
    pb_serie-at_point (json root) serie (codes "system.load.1") ((pos 100, 3) ∷ []) refl refl refl

abbrev check_metric : Metric ℕ
check_metric = record {
  ns = [];
  name = codes "system.load.1";
  labels = [];
  sample = not_set;
  timestamp = pos 1000;
}

-- A check is never pushed by the Avro version.
no_checks : parse_datadog_check_run2avro (json checks) [] ≡ []
unfolding parse_datadog_check_run2avro bytes_eq
no_checks = refl

-- A point whose value is not read repeats the value of the point before.
stale_value :
    map Metric.sample (pb_points (json root) (pb_start (json root) [] serie) (point ∷ unread ∷ []))
    ≡ double_value 3 ∷ double_value 3 ∷ []
unfolding pb_points
stale_value = refl

tags :
    tag_label (codes "jmx name:G1 Young")
    ≡ some (record { key = codes "jmx_name"; value = codes "G1_Young" })
unfolding bb_monitor.Base.Text.cut
tags = refl

abbrev two_labels : List Label
two_labels =
    record { key = codes "a"; value = codes "1" }
    ∷ record { key = codes "b"; value = codes "2" }
    ∷ []

influx : get_influx_tags two_labels ≡ codes "a=1,b=2"
influx = refl

prometheus : get_prometheus_tags two_labels ≡ codes "{a=\"1\",b=\"2\"}"
prometheus = refl
