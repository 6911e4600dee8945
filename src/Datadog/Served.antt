-- ===== src/Datadog/Served.antt =====
-- The metrics that the two versions of the series parser make (avro_json_parsing.cpp, pb_json_parsing.cpp),
-- and what the calls of the ingestion service store of them (put_metrics_call_data.h,
-- put_metrics2_call_data.h).
use bb_monitor.Base.{
  ◌≡◌, refl, sym, ap, ◌∙◌, Option, none, some, List, [], ◌∷◌, ◌++◌, map, Bytes, arith, Option-cases,
  inl, inr, codes, ℕ, suc, ℤ,
}
use bb_monitor.Base.Text.{until}
use bb_monitor.Outcome.{ok, ◌>>=◌}
use bb_monitor.Messages.{Label, Metric, Sample, AvroMetric, AvroValue, null, long, double, position}
use bb_monitor.Ingestion.Call.{copy_label}
use bb_monitor.Ingestion.Metrics.{avro_metric, avro_value}
use bb_monitor.Datadog.{Rapidjson, as_pair, serie_labels, string_at, array_at}
use bb_monitor.Datadog.Series.{
  avro_sample, avro_point, avro_points, avro_serie, avro_series, avro_start,
  parse_datadog_series2avro,
}
use bb_monitor.Datadog.Pb.{
  pb_sample, pb_point, pb_points, pb_start, pb_serie, pb_series, parse_datadog_series2pb,
}
use bb_monitor.Datadog.Points.{array_of_two-as_pair}
use bb_monitor.Datadog.Agreement.{pb_start-split_name}
use bb_monitor.Ingestion.Sink.{KRecord}
use bb_monitor.Ingestion.Metrics.Stored.{metric_records}

abbrev or_null : {D : Type 0} → Option (AvroValue D) → AvroValue D
or_null none = null
or_null (some v) = v

-- The Avro metric, with null for a sample that is not set.
abbrev with_null : {D : Type 0} → Metric D → AvroMetric D
with_null m = avro_metric m (or_null (avro_value m.sample))

-- The metrics with a value.
abbrev pub valued : {D : Type 0} → List (AvroMetric D) → List (AvroMetric D)
valued [] = []
valued (m ∷ ms) = elim m.value [
  | null ↦ valued ms
  | long n ↦ m ∷ valued ms
  | double d ↦ m ∷ valued ms
  | position lat lon ↦ m ∷ valued ms
]

-- The records that the service stores for a bundle are those with a value.
valued-with_null :
    {D : Type 0} (ms : List (Metric D)) (now : ℕ → ℤ)
    → valued (map with_null ms) ≡ map KRecord.value (metric_records ms now)
valued-with_null [] now = refl
valued-with_null (m ∷ ms) now =
    let rest = valued-with_null ms (λ i. now (suc i)) in
    elim (Option-cases (avro_value m.sample)) [
      | inl e ↦ ground (arith, e, rest)
      | inr (v, e) ↦ ground (arith, e, rest)
    ]

map-copy_label : (ls : List Label) → map copy_label ls ≡ ls
map-copy_label [] = refl
map-copy_label (l ∷ ls) = ap (λ k. l ∷ k) (map-copy_label ls)

map-append : {A B : Type 0} (f : A → B) (xs ys : List A) → map f (xs ++ ys) ≡ map f xs ++ map f ys
map-append f [] ys = refl
map-append f (x ∷ xs) ys = ap (λ zs. f x ∷ zs) (map-append f xs ys)

module _ {V D : Type 0} (j : Rapidjson V D) where
  with_null-pb_sample :
      (before : Sample D) (v : V)
      → or_null (avro_value (pb_sample j before v)) ≡ avro_sample j (or_null (avro_value before)) v
  with_null-pb_sample before v = ground arith

  with_null-pb_point :
      (m : Metric D) (p : V × V) → with_null (pb_point j m p) ≡ avro_point j (with_null m) p
  with_null-pb_point m (t, v) = ground (arith, with_null-pb_sample m.sample v)

  with_null-pb_points :
      (points : List V) (m : Metric D)
      → map with_null (pb_points j m points) ≡ avro_points j (with_null m) points
  unfolding avro_points pb_points
  with_null-pb_points [] m = refl
  with_null-pb_points (pa ∷ points) m = elim (Option-cases (as_pair j pa)) [
    | inl e ↦ ground (arith, e, array_of_two-as_pair j pa, with_null-pb_points points m)
    | inr (p, e) ↦ ground (
      arith,
      e,
      array_of_two-as_pair j pa,
      with_null-pb_point m p,
      with_null-pb_points points (pb_point j m p),
    )
  ]

  with_null-pb_serie : (s : V) → map with_null (pb_serie j s) ≡ avro_serie j s
  with_null-pb_serie s = elim (Option-cases (string_at j (codes "metric") s)) [
    | inl e ↦ ground (arith, e)
    | inr (raw_name, e) ↦
        let start =
          ap with_null (pb_start-split_name j raw_name s)
          ∙ ap (λ ls. record (avro_start j raw_name s) { labels = ls })
              (map-copy_label (serie_labels j s)) in
        let points = array_at j (codes "points") s in
        let made =
          with_null-pb_points points (pb_start j raw_name s)
          ∙ ap (λ m. avro_points j m points) start in
        ground (arith, e, made)
  ]

  with_null-pb_series : (serie : List V) → map with_null (pb_series j serie) ≡ avro_series j serie
  with_null-pb_series [] = refl
  with_null-pb_series (s ∷ serie) =
      map-append with_null (pb_serie j s) (pb_series j serie)
      ∙ cc (with_null-pb_serie s, with_null-pb_series serie)

  -- The Avro version and the Protobuf version are undefined behaviour on the same texts (the document is
  -- no object). On all others, the metrics of the Avro version that have a value are, in order, the
  -- values of the records that the calls of the ingestion service store for a bundle of the metrics of
  -- the Protobuf version.
  pub series2avro-series2pb :
      (buffer : Bytes) (now : ℕ → ℤ)
      → (do ms ← parse_datadog_series2avro j buffer; ok (valued ms))
        ≡ (do ms ← parse_datadog_series2pb j buffer; ok (map KRecord.value (metric_records ms now)))
  unfolding parse_datadog_series2avro parse_datadog_series2pb
  series2avro-series2pb buffer now = elim (Option-cases (j.parse (until 0 buffer))) [
    | inl e ↦ ground (arith, e)
    | inr (d, e) ↦
        let serie = array_at j (codes "series") d in
        let same =
          ap valued (sym (with_null-pb_series serie)) ∙ valued-with_null (pb_series j serie) now in
        ground (arith, e, same)
  ]
