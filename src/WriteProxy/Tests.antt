-- ===== src/WriteProxy/Tests.antt =====
-- The write proxy (bb-monitor-promstore-write-proxy/main.cpp) at concrete requests. A `double` is a ℕ.
use bb_monitor.Base.{
  ℕ, ℤ, pos, ◌≡◌, refl, Bool, true, Option, none, some, List, [], ◌∷◌, map, Bytes, bytes_eq, codes,
}
use bb_monitor.Messages.{Label, AvroMetric, null, double}
use bb_monitor.RemoteWrite.Series.{TimeSeries, avro_exporter}
use bb_monitor.RemoteWrite.Batch.{all_series}
use bb_monitor.WriteProxy.{
  http_post, request_accepted, write_series, write_samples, write_labels, request_handler,
}
use bb_monitor.WriteProxy.RoundTrip.{joined, request_handler-joined}

abbrev is_finite : ℕ → Bool
is_finite d = true

abbrev to_double : ℤ → ℕ
to_double n = 5

abbrev load_metric : AvroMetric ℕ
load_metric = record {
  ns = codes "node";
  name = codes "load";
  labels = record { key = codes "host"; value = codes "web" } ∷ [];
  value = double 3;
  timestamp = pos 9000;
}

-- A metric that is sent, one without a value, one that is too old, and an event without a metric.
abbrev four_events : List (Option (AvroMetric ℕ))
four_events =
    some load_metric
    ∷ some (record load_metric { value = null })
    ∷ some (record load_metric { timestamp = pos 2000 })
    ∷ none
    ∷ []

request_handler-joined_example :
    request_handler
      (λ body. all_series (avro_exporter is_finite to_double (pos 5000)) 10000 four_events)
      (record {
        path = codes "/api/v1/prom/write";
        method = http_post;
        content_encoding = some (codes "snappy");
        body = [];
      })
    ≡ some (joined load_metric 3 ∷ [], request_accepted)
unfolding bytes_eq
request_handler-joined_example =
    request_handler-joined is_finite to_double
      (λ body. all_series (avro_exporter is_finite to_double (pos 5000)) 10000 four_events) []
      (pos 5000) 10000 four_events refl refl

-- A POST without a Content-Encoding ends in an exception.
no_encoding :
    (body : Bytes)
    → request_handler
        (λ b. all_series (avro_exporter is_finite to_double (pos 5000)) 10000 four_events)
        (record {
          path = codes "/api/v1/prom/write";
          method = http_post;
          content_encoding = none;
          body = body;
        })
      ≡ none
unfolding request_handler bytes_eq
no_encoding body = refl

abbrev host : Label
host = record { key = codes "host"; value = codes "web" }

abbrev two_samples : TimeSeries ℕ
two_samples = record {
  labels = record { key = codes "__name__"; value = codes "up" } ∷ host ∷ [];
  samples = record { timestamp = pos 1; value = 1 } ∷ record { timestamp = pos 2; value = 1 } ∷ [];
}

-- The labels of a series are added again for each sample.
repeated_labels :
    map (λ m. m.labels) (write_series (two_samples ∷ [])) ≡ (host ∷ []) ∷ (host ∷ host ∷ []) ∷ []
unfolding write_samples write_labels bytes_eq
repeated_labels = refl
