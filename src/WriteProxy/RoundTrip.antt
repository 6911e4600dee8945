-- ===== src/WriteProxy/RoundTrip.antt =====
-- What the sink of prometheus_sink2.cpp writes, as the write proxy reads it.
use bb_monitor.Base.{
  ◌∙◌, ℕ, Option, none, some, int_leb, if◌then◌else◌, Option-cases, inl, inr, ◌≡◌, refl, sym, ap,
  Bool, true, ◌&&◌, not, List, [], ◌∷◌, ◌++◌, Bytes, bytes_eq, codes, is_empty, ℤ, arith,
  append_assoc, append-nil,
}
use bb_monitor.Messages.{Label, Metric, double_value, AvroMetric}
use bb_monitor.RemoteWrite.Series.{
  TimeSeries, min_ts, ns_name, time_series, metrics_value, event_series, avro_exporter,
}
use bb_monitor.RemoteWrite.Batch.{all_series}
use bb_monitor.WriteProxy.{
  http_post, request_accepted, empty_metric, write_labels, write_samples, write_series,
  request_handler,
}

-- No label has a key that the proxy treats on its own.
abbrev pub all_plain : List Label → Bool
all_plain [] = true
all_plain (l ∷ ls) =
    (not (bytes_eq l.key (codes "__name__")) && not (bytes_eq l.key (codes "prometheus_replica")))
    && all_plain ls

module _ {D : Type 0} where
  write_labels-plain :
      (ls : List Label) (m : Metric D)
      → all_plain ls ≡ true
      → write_labels m ls ≡ record m { labels = m.labels ++ ls }
  unfolding write_labels
  write_labels-plain [] m h = ap (λ ls. record m { labels = ls }) (sym (append-nil m.labels))
  write_labels-plain (l ∷ ls) m h = ground (
    arith,
    h,
    write_labels-plain ls (record m { labels = m.labels ++ l ∷ [] }),
    append_assoc m.labels (l ∷ []) ls,
  )

  -- An event without a value counts as written.
  abbrev pub is_written : Option (AvroMetric D) → Bool
  is_written none = true
  is_written (some m) = not (is_empty (ns_name m.ns m.name)) && all_plain m.labels

  abbrev pub all_written : List (Option (AvroMetric D)) → Bool
  all_written [] = true
  all_written (e ∷ es) = is_written e && all_written es

  -- The metric with its namespace and name joined into the name, and no namespace.
  abbrev pub joined : AvroMetric D → D → Metric D
  joined m d = record {
    ns = [];
    name = ns_name m.ns m.name;
    labels = m.labels;
    sample = double_value d;
    timestamp = m.timestamp;
  }

module _ {D : Type 0} (is_finite : D → Bool) (to_double : ℤ → D) where
  write_samples-joined :
      (m : AvroMetric D) (d : D)
      → is_written (some m) ≡ true
      → write_samples
          (time_series is_finite to_double m d).labels
          empty_metric
          (time_series is_finite to_double m d).samples
        ≡ joined m d ∷ []
  unfolding write_samples write_labels bytes_eq
  write_samples-joined m d h =
      let named : Metric D = record empty_metric { name = ns_name m.ns m.name } in
      ground (arith, h, write_labels-plain m.labels named (ground (arith, h)))

  -- A metric that is newer than `least` and has a finite number for its value, a long one converted.
  abbrev pub joined_event : ℤ → Option (AvroMetric D) → List (Metric D)
  joined_event least none = []
  joined_event least (some m) =
      if int_leb m.timestamp least
      then []
      else elim (metrics_value is_finite to_double m.value) [ none ↦ [] | some d ↦ joined m d ∷ [] ]

  abbrev pub joined_events : ℤ → List (Option (AvroMetric D)) → List (Metric D)
  joined_events least [] = []
  joined_events least (e ∷ es) = joined_event least e ++ joined_events least es

  write_series-append :
      (xs ys : List (TimeSeries D)) → write_series (xs ++ ys) ≡ write_series xs ++ write_series ys
  write_series-append [] ys = refl
  write_series-append (x ∷ xs) ys =
      ap (λ ms. write_samples x.labels empty_metric x.samples ++ ms) (write_series-append xs ys)
      ∙ sym (
          append_assoc (write_samples x.labels empty_metric x.samples) (write_series xs)
            (write_series ys))

  write_series-joined_event :
      (least : ℤ) (e : Option (AvroMetric D))
      → is_written e ≡ true
      → write_series (event_series is_finite to_double least e) ≡ joined_event least e
  write_series-joined_event least none h = refl
  write_series-joined_event least (some m) h =
      elim (Option-cases (metrics_value is_finite to_double m.value)) [
        | inl e ↦ ground (arith, e)
        | inr (d, e) ↦ ground (arith, e, write_samples-joined m d h)
      ]

  write_series-joined_events :
      (max_exported_age : ℤ) (now : ℕ) (es : List (Option (AvroMetric D)))
      → all_written es ≡ true
      → write_series (all_series (avro_exporter is_finite to_double max_exported_age) now es)
        ≡ joined_events (min_ts max_exported_age now) es
  write_series-joined_events age now [] h = refl
  write_series-joined_events age now (e ∷ es) h =
      let least = min_ts age now in
      write_series-append (event_series is_finite to_double least e)
        (all_series (avro_exporter is_finite to_double age) now es)
      ∙ cc (
        write_series-joined_event least e (ground (arith, h)),
        write_series-joined_events age now es (ground (arith, h)),
      )

  -- A snappy-encoded POST whose body is parsed into the series that the sink of prometheus_sink2.cpp
  -- makes of a batch of events is accepted, and inserts, in order, one metric for each event that is
  -- not too old for the sink and has a finite number for its value: the namespace and the name joined
  -- into the name and the namespace empty, all its labels, its own value as a `double`, and its time.
  -- Every event with a metric is to have a name and no label called __name__ or prometheus_replica.
  pub request_handler-joined :
      (parsed : Bytes → List (TimeSeries D)) (body : Bytes) (max_exported_age : ℤ) (now : ℕ)
      (es : List (Option (AvroMetric D)))
      → parsed body ≡ all_series (avro_exporter is_finite to_double max_exported_age) now es
      → all_written es ≡ true
      → request_handler parsed (record {
        path = codes "/api/v1/prom/write";
        method = http_post;
        content_encoding = some (codes "snappy");
        body = body;
      })
        ≡ some (joined_events (min_ts max_exported_age now) es, request_accepted)
  unfolding request_handler bytes_eq
  request_handler-joined parsed body age now es e h =
      ground (arith, e, write_series-joined_events age now es h)
