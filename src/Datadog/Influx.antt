-- ===== src/Datadog/Influx.antt =====
-- `to_influx_string` and `get_prometheus_tags` (avro_json_parsing.cpp).
use bb_monitor.Base.{List, [], ◌∷◌, ◌++◌, Bytes, codes}
use bb_monitor.Base.Decimal.{to_string}
use bb_monitor.Messages.{Label, AvroMetric, AvroValue, null, long, double, position}

-- `s.pop_back()`, of a text that is not empty.
abbrev pub pop_back : Bytes → Bytes
pop_back [] = []
pop_back (c ∷ []) = []
pop_back (c ∷ (d ∷ s)) = c ∷ pop_back (d ∷ s)

-- The loop of `get_influx_tags`: key=value, with a comma behind each.
abbrev pub influx_tags : List Label → Bytes
influx_tags [] = []
influx_tags (l ∷ ls) = (l.key ++ 61 ∷ (l.value ++ 44 ∷ [])) ++ influx_tags ls

abbrev pub get_influx_tags : List Label → Bytes
get_influx_tags ls = pop_back (influx_tags ls)

-- The loop of `get_prometheus_tags`: key="value", with a comma behind each.
abbrev pub prometheus_tags : List Label → Bytes
prometheus_tags [] = []
prometheus_tags (l ∷ ls) = (l.key ++ 61 ∷ 34 ∷ (l.value ++ 34 ∷ 44 ∷ [])) ++ prometheus_tags ls

abbrev pub get_prometheus_tags : List Label → Bytes
get_prometheus_tags [] = []
get_prometheus_tags (l ∷ ls) = pop_back (123 ∷ prometheus_tags (l ∷ ls)) ++ 125 ∷ []

module _ {D : Type 0} (double_to_string : D → Bytes) where
  abbrev pub value_string : AvroValue D → Bytes
  value_string null = codes "NaN"
  value_string (long n) = to_string n
  value_string (double d) = double_to_string d
  value_string (position lat lon) = []

  abbrev pub to_influx_string : AvroMetric D → Bytes
  to_influx_string m =
      m.ns
      ++ 44
        ∷ (get_influx_tags m.labels
            ++ 32
              ∷ (m.name
                  ++ 61 ∷ (value_string m.value ++ 32 ∷ (to_string m.timestamp ++ codes "000000"))))
