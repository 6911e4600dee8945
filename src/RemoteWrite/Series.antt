-- ===== src/RemoteWrite/Series.antt =====
-- The time series that prometheus_sink.cpp and prometheus_sink2.cpp make of a metric. `D` is `double`.
use bb_monitor.Base.{
  ℕ, zero, suc, ◌-◌, Bool, true, false, Option, none, some, List, [], ◌∷◌, ◌++◌, Bytes, codes, ℤ,
  pos, negsuc, leb, int_leb, is_empty, if◌then◌else◌,
}
use bb_monitor.Messages.{Label, AvroValue, null, long, double, position, AvroMetric}
use bb_monitor.RemoteWrite.{Exporter}

pub record Point (D : Type 0) : Type 0 where
  pub timestamp : ℤ
  pub value : D

pub record TimeSeries (D : Type 0) : Type 0 where
  pub labels : List Label
  pub samples : List (Point D)

abbrev pub minus : ℕ → ℕ → ℤ
minus a b = if leb b a then pos (a - b) else negsuc (b - a - 1)

abbrev pub min_ts : ℤ → ℕ → ℤ
min_ts (pos zero) now = pos 0
min_ts (pos (suc age)) now = minus now (suc age)
min_ts (negsuc n) now = pos 0

abbrev pub ns_name : Bytes → Bytes → Bytes
ns_name ns name = if is_empty ns then name else ns ++ codes "_" ++ name

abbrev pub name_label : Bytes → Label
name_label value = record { key = codes "__name__"; value = value }

-- What `record.get<T>` answers for the fields of a metric, `none` where it throws; the value comes with
-- whether it is a union. Where `event_v->record()` throws, the value is `none`.
pub data Datum (D : Type 0) : Type 0 where
  avro_long : ℤ → Datum D
  avro_int : ℤ → Datum D
  avro_double : D → Datum D
  other : Datum D

pub record GenericMetric (D : Type 0) : Type 0 where
  pub value : Option (Bool × Datum D)
  pub timestamp : Option ℤ
  pub ns : Option Bytes
  pub name : Option Bytes
  pub labels : Option (List (Option (Option Bytes × Option Bytes)))

module _ {D : Type 0} (is_finite : D → Bool) (to_double : ℤ → D) where
  -- `std::isfinite(metrics_value)`; `none` is NAN.
  abbrev pub finite : Option D → Option D
  finite none = none
  finite (some d) = if is_finite d then some d else none

  abbrev pub metrics_value : AvroValue D → Option D
  metrics_value null = none
  metrics_value (long n) = finite (some (to_double n))
  metrics_value (double d) = finite (some d)
  metrics_value (position lat lng) = none

  abbrev pub time_series : AvroMetric D → D → TimeSeries D
  time_series m d = record {
    labels = name_label (ns_name m.ns m.name) ∷ m.labels;
    samples = record { timestamp = m.timestamp; value = d } ∷ [];
  }

  abbrev pub metric_series : ℤ → AvroMetric D → List (TimeSeries D)
  metric_series least m =
      if int_leb m.timestamp least
      then []
      else elim (metrics_value m.value) [ none ↦ [] | some d ↦ time_series m d ∷ [] ]

  abbrev pub event_series : ℤ → Option (AvroMetric D) → List (TimeSeries D)
  event_series least none = []
  event_series least (some m) = metric_series least m

  -- prometheus_sink2.cpp
  abbrev pub avro_exporter : ℤ → Exporter (Option (AvroMetric D)) (TimeSeries D)
  avro_exporter max_exported_age = record {
    series = λ now e. event_series (min_ts max_exported_age now) e;
    is_kept = λ e. true;
    sends_empty = false;
    counts = true;
  }

  abbrev pub generic_value : Bool × Datum D → Option D
  generic_value (false, d) = none
  generic_value (true, avro_long n) = finite (some (to_double n))
  generic_value (true, avro_int n) = finite (some (to_double n))
  generic_value (true, avro_double d) = finite (some d)
  generic_value (true, other) = none

  -- The loop over the labels: those added before it ends or an exception leaves it, and whether it
  -- ends. A label is added first and then filled.
  abbrev pub copy_labels : List (Option (Option Bytes × Option Bytes)) → List Label × Bool
  copy_labels [] = ([], true)
  copy_labels (none ∷ ls) = copy_labels ls
  copy_labels (some (none, value) ∷ ls) = (record { key = []; value = [] } ∷ [], false)
  copy_labels (some (some key, none) ∷ ls) = (record { key = key; value = [] } ∷ [], false)
  copy_labels (some (some key, some value) ∷ ls) =
      let (copied, ended) = copy_labels ls in (record { key = key; value = value } ∷ copied, ended)

  -- The series that is left in the request when an exception leaves the block.
  abbrev pub partial_series : List Label → List (TimeSeries D) × Bool
  partial_series labels = (record { labels = labels; samples = [] } ∷ [], false)

  abbrev pub named_series : ℤ → D → Bytes → GenericMetric D → List (TimeSeries D) × Bool
  named_series timestamp d name g = elim g.labels [
    | none ↦ partial_series (name_label name ∷ [])
    | some ls ↦
        let (copied, ended) = copy_labels ls in
        if ended
        then (
          record {
            labels = name_label name ∷ copied;
            samples = record { timestamp = timestamp; value = d } ∷ [];
          }
              ∷ [],
          true,
        )
        else partial_series (name_label name ∷ copied)
  ]

  abbrev pub finite_series : ℤ → D → GenericMetric D → List (TimeSeries D) × Bool
  finite_series timestamp d g = elim g.ns [
    | none ↦ partial_series (name_label [] ∷ [])
    | some ns ↦ elim g.name [
      | none ↦ partial_series (name_label [] ∷ [])
      | some name ↦ named_series timestamp d (ns_name ns name) g
    ]
  ]

  -- The `try` block: the series it adds, and whether it reaches `in_batch.push_back`.
  abbrev pub generic_series : GenericMetric D → List (TimeSeries D) × Bool
  generic_series g = elim g.value [
    | none ↦ ([], false)
    | some datum ↦ elim g.timestamp [
      | none ↦ ([], false)
      | some timestamp ↦ elim (generic_value datum) [
        | none ↦ ([], true)
        | some d ↦ finite_series timestamp d g
      ]
    ]
  ]

  abbrev pub generic_event : Option (GenericMetric D) → List (TimeSeries D) × Bool
  generic_event none = ([], false)
  generic_event (some g) = generic_series g

  -- prometheus_sink.cpp
  abbrev pub generic_exporter : Exporter (Option (GenericMetric D)) (TimeSeries D)
  generic_exporter = record {
    series = λ now e. (generic_event e).0;
    is_kept = λ e. (generic_event e).1;
    sends_empty = true;
    counts = false;
  }
