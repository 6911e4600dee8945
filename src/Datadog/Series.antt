-- ===== src/Datadog/Series.antt =====
-- `parse_datadog_series2avro` (avro_json_parsing.cpp).
use bb_monitor.Base.{true, false, none, some, List, [], ◌∷◌, ◌++◌, Bytes, codes, pos}
use bb_monitor.Base.Text.{until}
use bb_monitor.Outcome.{Outcome, ok, undefined, ◌>>=◌}
use bb_monitor.Messages.{AvroMetric, AvroValue, null, long, double}
use bb_monitor.Datadog.{
  Rapidjson, string_at, array_at, split_name, serie_labels, as_pair, timestamp_of,
}

module _ {V D : Type 0} (j : Rapidjson V D) where
  -- The elements of "series". `HasMember` of a document that is no object is undefined.
  abbrev pub series_of : Bytes → Outcome (List V)
  series_of buffer = elim (j.parse (until 0 buffer)) [
    | none ↦ ok []
    | some d ↦ elim (j.is_object d) [
      | false ↦ undefined
      | true ↦ ok (array_at j (codes "series") d)
    ]
  ]

  abbrev pub avro_sample : AvroValue D → V → AvroValue D
  avro_sample before v = elim (j.as_double v) [
    | some d ↦ double d
    | none ↦ elim (j.as_int v) [
      | some n ↦ long n
      | none ↦ elim (j.as_int64 v) [ some n ↦ long n | none ↦ before ]
    ]
  ]

  abbrev pub avro_point : AvroMetric D → V × V → AvroMetric D
  avro_point m (t, v) = record m {
    timestamp = timestamp_of j m.timestamp t;
    value = avro_sample m.value v;
  }

  -- The loop over the points. All points write to one metric, of which a copy is pushed.
  unfoldable pub avro_points : AvroMetric D → List V → List (AvroMetric D)
  avro_points m [] = []
  avro_points m (pa ∷ points) = elim (as_pair j pa) [
    | none ↦ avro_points m points
    | some p ↦ avro_point m p ∷ avro_points (avro_point m p) points
  ]

  -- The metric before its points.
  abbrev pub avro_start : Bytes → V → AvroMetric D
  avro_start raw_name s =
      let (ns, name) = split_name raw_name in
      record { ns = ns; name = name; labels = serie_labels j s; value = null; timestamp = pos 0 }

  abbrev pub avro_serie : V → List (AvroMetric D)
  avro_serie s = elim (j.is_object s) [
    | false ↦ []
    | true ↦ elim (string_at j (codes "metric") s) [
      | none ↦ []
      | some raw_name ↦ avro_points (avro_start raw_name s) (array_at j (codes "points") s)
    ]
  ]

  abbrev pub avro_series : List V → List (AvroMetric D)
  avro_series [] = []
  avro_series (s ∷ serie) = avro_serie s ++ avro_series serie

  unfoldable pub parse_datadog_series2avro : Bytes → Outcome (List (AvroMetric D))
  parse_datadog_series2avro buffer = do serie ← series_of buffer; ok (avro_series serie)
