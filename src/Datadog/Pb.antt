-- ===== src/Datadog/Pb.antt =====
-- `parse_datadog_series2pb` (pb_json_parsing.cpp).
use bb_monitor.Base.{
  true, false, Option, none, some, List, [], ◌∷◌, ◌++◌, Bytes, codes, ℤ, pos, length, get_elem?,
  ◌==◌, if◌then◌else◌,
}
use bb_monitor.Base.Decimal.{to_string}
use bb_monitor.Base.Text.{cut, until}
use bb_monitor.Outcome.{Outcome, ok, undefined}
use bb_monitor.Messages.{Metric, Sample, long_value, double_value, not_set}
use bb_monitor.Datadog.{Rapidjson, string_at, int_at, array_at, replace, seconds_to_ms}

module _ {D : Type 0} where
  abbrev pub new_metric : Metric D
  new_metric = record { ns = []; name = []; labels = []; sample = not_set; timestamp = pos 0 }

  -- The namespace and the name, by the first dot.
  abbrev pub set_name : Bytes → Metric D → Metric D
  set_name raw_name m = elim (cut 46 raw_name) [
    | some (ns, metric_name) ↦ record m { ns = ns; name = replace 46 95 metric_name }
    | none ↦ record m { ns = codes "undef"; name = replace 46 95 raw_name }
  ]

  abbrev pub add_label : Bytes → Bytes → Metric D → Metric D
  add_label key value m = record m { labels = m.labels ++ record { key = key; value = value } ∷ [] }

  abbrev pub add_text : Bytes → Option Bytes → Metric D → Metric D
  add_text key none m = m
  add_text key (some value) m = add_label key value m

  abbrev pub add_interval : Option ℤ → Metric D → Metric D
  add_interval none m = m
  add_interval (some n) m = add_label (codes "dd_interval") (to_string n) m

module _ {V D : Type 0} (j : Rapidjson V D) where
  -- The body of the loop over the tags.
  abbrev pub add_tag : V → Metric D → Metric D
  add_tag t m = elim (j.as_string t) [
    | none ↦ m
    | some s ↦ elim (cut 58 s) [
      | none ↦ m
      | some (label_name, label_value) ↦
          add_label (replace 32 95 label_name) (replace 32 95 label_value) m
    ]
  ]

  abbrev pub add_tags : List V → Metric D → Metric D
  add_tags [] m = m
  add_tags (t ∷ ts) m = add_tags ts (add_tag t m)

  -- The labels for host, type, interval and device.
  abbrev pub add_fields : V → Metric D → Metric D
  add_fields s m = add_text (codes "dd_device") (string_at j (codes "device") s) (
      add_interval (int_at j (codes "interval") s) (
        add_text (codes "dd_type") (string_at j (codes "type") s)
          (add_text (codes "dd_host") (string_at j (codes "host") s) m)))

  -- The metric before its points.
  abbrev pub pb_start : Bytes → V → Metric D
  pb_start raw_name s =
      add_fields s (add_tags (array_at j (codes "tags") s) (set_name raw_name new_metric))

  abbrev pub pb_sample : Sample D → V → Sample D
  pb_sample before v = elim (j.as_double v) [
    | some d ↦ double_value d
    | none ↦ elim (j.as_int v) [
      | some n ↦ long_value n
      | none ↦ elim (j.as_int64 v) [ some n ↦ long_value n | none ↦ before ]
    ]
  ]

  abbrev pub pb_point : Metric D → V × V → Metric D
  pb_point m (t, v) = record m {
    timestamp = elim (j.as_int t) [ none ↦ m.timestamp | some n ↦ seconds_to_ms n ];
    sample = pb_sample m.sample v;
  }

  -- `pa.Size() == 2`, and `pa[0]` and `pa[1]`.
  abbrev pub two_of : List V → Option (V × V)
  two_of vs =
      if length vs == 2
      then elim (get_elem? vs 0) [
        | none ↦ none
        | some t ↦ elim (get_elem? vs 1) [ none ↦ none | some v ↦ some (t, v) ]
      ]
      else none

  abbrev pub array_of_two : V → Option (V × V)
  array_of_two pa = elim (j.as_array pa) [ none ↦ none | some vs ↦ two_of vs ]

  -- The loop over the points. All points write to one metric, of which a copy is pushed.
  unfoldable pub pb_points : Metric D → List V → List (Metric D)
  pb_points m [] = []
  pb_points m (pa ∷ points) = elim (array_of_two pa) [
    | none ↦ pb_points m points
    | some p ↦ pb_point m p ∷ pb_points (pb_point m p) points
  ]

  abbrev pub pb_serie : V → List (Metric D)
  pb_serie s = elim (j.is_object s) [
    | false ↦ []
    | true ↦ elim (string_at j (codes "metric") s) [
      | none ↦ []
      | some raw_name ↦ pb_points (pb_start raw_name s) (array_at j (codes "points") s)
    ]
  ]

  abbrev pub pb_series : List V → List (Metric D)
  pb_series [] = []
  pb_series (s ∷ serie) = pb_serie s ++ pb_series serie

  unfoldable pub parse_datadog_series2pb : Bytes → Outcome (List (Metric D))
  parse_datadog_series2pb buffer = elim (j.parse (until 0 buffer)) [
    | none ↦ ok []
    | some d ↦ elim (j.is_object d) [
      | false ↦ undefined
      | true ↦ ok (pb_series (array_at j (codes "series") d))
    ]
  ]
