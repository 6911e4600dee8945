-- ===== src/Datadog/Checks.antt =====
-- `parse_datadog_check_run2avro` (avro_json_parsing.cpp) and `parse_datadog_check_run2pb`
-- (pb_json_parsing.cpp).
use bb_monitor.Base.{ℕ, suc, true, false, Option, none, some, List, [], ◌∷◌, Bytes, codes, ℤ, pos}
use bb_monitor.Base.Text.{until}
use bb_monitor.Messages.{Metric, long_value, not_set, AvroMetric, null, long}
use bb_monitor.Datadog.{Rapidjson, string_at, int_at, check_labels, seconds_to_ms}

-- `IsInt()` of a number that is one, as an integer, where `GetInt()` was meant.
abbrev pub is_int : ℤ → ℤ
is_int n = pos 1

module _ {V D : Type 0} (j : Rapidjson V D) where
  abbrev pub checks_of : Bytes → List V
  checks_of buffer = elim (j.parse (until 0 buffer)) [
    | none ↦ []
    | some d ↦ elim (j.as_array d) [ none ↦ [] | some checks ↦ checks ]
  ]

  -- What the Avro version makes of a check.
  abbrev pub avro_check : V → Option (AvroMetric D)
  avro_check c = elim (j.is_object c) [
    | false ↦ none
    | true ↦ elim (string_at j (codes "check") c) [
      | none ↦ none
      | some name ↦ some (record {
        ns = [];
        name = name;
        labels = check_labels j c;
        value = elim (int_at j (codes "status") c) [ none ↦ null | some n ↦ long (is_int n) ];
        timestamp = elim (int_at j (codes "timestamp") c) [ none ↦ pos 0 | some n ↦ is_int n ];
      })
    ]
  ]

  -- The loop makes a metric of each check, and pushes none of them.
  abbrev pub avro_checks : List V → List (AvroMetric D) → List (AvroMetric D)
  avro_checks [] result = result
  avro_checks (c ∷ checks) result = elim (avro_check c) [
    | none ↦ avro_checks checks result
    | some m ↦ avro_checks checks result
  ]

  unfoldable pub parse_datadog_check_run2avro : Bytes → List (AvroMetric D)
  parse_datadog_check_run2avro buffer = avro_checks (checks_of buffer) []

  abbrev pub pb_check : ℤ → V → Option (Metric D)
  pb_check now c = elim (j.is_object c) [
    | false ↦ none
    | true ↦ elim (string_at j (codes "check") c) [
      | none ↦ none
      | some name ↦ some (record {
        ns = [];
        name = name;
        labels = check_labels j c;
        sample = elim (int_at j (codes "status") c) [ none ↦ not_set | some n ↦ long_value n ];
        timestamp = elim (int_at j (codes "timestamp") c) [
          | none ↦ now
          | some n ↦ seconds_to_ms (is_int n)
        ];
      })
    ]
  ]

  -- With the readings of the clock, one for each metric.
  unfoldable pub pb_checks : (ℕ → ℤ) → List V → List (Metric D)
  pb_checks now [] = []
  pb_checks now (c ∷ checks) = elim (pb_check (now 0) c) [
    | none ↦ pb_checks now checks
    | some m ↦ m ∷ pb_checks (λ i. now (suc i)) checks
  ]

  unfoldable pub parse_datadog_check_run2pb : (ℕ → ℤ) → Bytes → List (Metric D)
  parse_datadog_check_run2pb now buffer = pb_checks now (checks_of buffer)
