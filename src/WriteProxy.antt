-- ===== src/WriteProxy.antt =====
-- programs/client-proxies/bb-monitor-promstore-write-proxy/main.cpp: the remote write of Prometheus, as
-- metrics for the service. `parsed` stands for `decompress_snappy` and `ParseFromString`.
pub mod RoundTrip
mod Tests
use bb_monitor.Base.{
  Bool, true, false, Option, none, some, List, [], ◌∷◌, ◌++◌, Bytes, bytes_eq, codes, is_empty, pos,
  if◌then◌else◌,
}
use bb_monitor.Messages.{Label, Metric, Sample, double_value, not_set}
use bb_monitor.RemoteWrite.Series.{Point, TimeSeries}

pub data Method : Type 0 where
  http_post : Method
  http_delete : Method
  other : Method

pub data Handling : Type 0 where
  request_accepted : Handling
  request_rejected : Handling

-- A header that is not sent is `none`.
pub record Request : Type 0 where
  pub path : Bytes
  pub method : Method
  pub content_encoding : Option Bytes
  pub body : Bytes

module _ {D : Type 0} where
  abbrev pub empty_metric : Metric D
  empty_metric = record { ns = []; name = []; labels = []; sample = not_set; timestamp = pos 0 }

  -- The body of the loop over the labels.
  abbrev pub write_label : Metric D → Label → Metric D
  write_label m l =
      if bytes_eq l.key (codes "__name__")
      then record m { ns = []; name = l.value }
      else if bytes_eq l.key (codes "prometheus_replica")
      then m
      else record m { labels = m.labels ++ l ∷ [] }

  unfoldable pub write_labels : Metric D → List Label → Metric D
  write_labels m [] = m
  write_labels m (l ∷ ls) = write_labels (write_label m l) ls

  abbrev pub write_sample : List Label → Metric D → Point D → Metric D
  write_sample labels m p = record (write_labels m labels) {
    timestamp = p.timestamp;
    sample = double_value p.value;
  }

  abbrev pub insert_named : Metric D → List (Metric D) → List (Metric D)
  insert_named m stream = if is_empty m.name then stream else m ∷ stream

  -- The loop over the samples, which all write to one metric.
  unfoldable pub write_samples : List Label → Metric D → List (Point D) → List (Metric D)
  write_samples labels m [] = []
  write_samples labels m (p ∷ ps) =
      insert_named (write_sample labels m p) (write_samples labels (write_sample labels m p) ps)

  abbrev pub write_series : List (TimeSeries D) → List (Metric D)
  write_series [] = []
  write_series (ts ∷ series) =
      write_samples ts.labels empty_metric ts.samples ++ write_series series

  -- What is inserted into the stream, and the answer; `none` is the exception of `get_field`, which
  -- throws if the field is not there.
  unfoldable pub request_handler :
      (Bytes → List (TimeSeries D)) → Request → Option (List (Metric D) × Handling)
  request_handler parsed req = elim (bytes_eq req.path (codes "/api/v1/prom/write")) [
    | false ↦ some ([], request_rejected)
    | true ↦ elim req.method [
      | http_post ↦ elim req.content_encoding [
        | none ↦ none
        | some encoding ↦ some (
          if bytes_eq encoding (codes "snappy") then write_series (parsed req.body) else [],
          request_accepted,
        )
      ]
      | http_delete ↦ some ([], request_accepted)
      | other ↦ some ([], request_rejected)
    ]
  ]
