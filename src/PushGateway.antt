-- ===== src/PushGateway.antt =====
-- programs/client-proxies/bb-monitor-prom-pushgateway-proxy/main.cpp: metrics in Prometheus' text format,
-- pushed to "/metrics/job/<job>" or "/metrics/job/<job>/instance/<instance>". The date in a response and
-- the server's name are left out.
pub mod RoundTrip
mod Tests
use bb_monitor.Base.{
  ℕ, zero, suc, Bool, true, false, ◌&&◌, ◌||◌, Option, none, some, List, [], ◌∷◌, ◌++◌, Bytes,
  bytes_eq, codes, is_empty, ℤ, length, take, drop, ltb, if◌then◌else◌,
}
use bb_monitor.Base.Text.{cut}
use bb_monitor.Messages.{Label, Metric}
use bb_monitor.Prometheus.{parse_prometheus_line_format_2_bb_metrics}
use bb_monitor.Proxies.{
  HttpMethod, get, post, put, delete, options, unlisted, HttpRequest, Response, created,
}
use bb_monitor.WriteProxy.{Handling, request_accepted, request_rejected}

-- What is inserted into the stream, the response if there is one, and what the server is told.
pub record Pushed (D : Type 0) : Type 0 where
  pub metrics : List (Metric D)
  pub response : Option Response
  pub handling : Handling

abbrev pub rejected : {D : Type 0} → Pushed D
rejected = record { metrics = []; response = none; handling = request_rejected }

-- The job and the instance of a path behind its prefix.
abbrev pub target_of : Bytes → Option (Bytes × Bytes)
target_of path = elim (cut 47 path) [
  | some (job_id, after) ↦ elim (cut 47 after) [
    | none ↦ none
    | some (segment, instance_id) ↦ some (job_id, instance_id)
  ]
  | none ↦ if is_empty path then none else some (path, [])
]

abbrev pub is_job_path : Bytes → Bool
is_job_path path = ltb 13 (length path) && bytes_eq (take 13 path) (codes "/metrics/job/")

module _ {D : Type 0} (atof : Bytes → D) (sort : List Label → List Label) (now : ℕ → ℤ) where
  abbrev pub push : HttpRequest → Pushed D
  push req = elim (target_of (drop 13 req.path)) [
    | none ↦ rejected
    | some (job_id, instance_id) ↦ record {
      metrics = parse_prometheus_line_format_2_bb_metrics atof sort now job_id instance_id req.body;
      response = some created;
      handling = request_accepted;
    }
  ]

  abbrev pub push_by : HttpMethod → HttpRequest → Pushed D
  push_by post req = push req
  push_by put req = push req
  push_by delete req = record { metrics = []; response = none; handling = request_accepted }
  push_by _ req = rejected

  unfoldable pub push_request_handler : HttpRequest → Pushed D
  push_request_handler req = if is_job_path req.path then push_by req.method req else rejected
