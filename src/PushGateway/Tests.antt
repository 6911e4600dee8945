-- ===== src/PushGateway/Tests.antt =====
-- Pushes to the pushgateway (bb-monitor-prom-pushgateway-proxy/main.cpp). A value keeps its text.
use bb_monitor.Base.{◌≡◌, refl, inr, none, some, List, [], ◌∷◌, Bytes, bytes_eq, codes, pos, ◌+◌}
use bb_monitor.Base.Text.{cut}
use bb_monitor.Proxies.{post, delete, put, created}
use bb_monitor.WriteProxy.{request_accepted}
use bb_monitor.Prometheus.Sorted.{insertion_sort}
use bb_monitor.Prometheus.RoundTrip.{Row}
use bb_monitor.PushGateway.{push_request_handler, rejected}
use bb_monitor.PushGateway.RoundTrip.{
  job_path, render_rows, row_metrics, push_request_handler-render,
}

abbrev raw : Bytes → Bytes
raw s = s

-- Two lines: with tags and a time, and a name with a value only.
abbrev two_rows : List Row
two_rows =
    record {
      name = codes "hits";
      labels = some (record { key = codes "code"; value = codes "200" } ∷ []);
      value = codes "1027";
      ts = some (codes "1395");
    }
    ∷ record { name = codes "up"; labels = none; value = codes "1"; ts = none }
    ∷ []

push_request_handler-render_example :
    push_request_handler raw insertion_sort
      (λ i. pos (5 + i))
      (record {
        method = put;
        path = job_path (codes "api") (some (codes "h1"));
        content_encoding = none;
        body = render_rows two_rows;
      })
    ≡ record {
      metrics =
          row_metrics raw insertion_sort (λ i. pos (5 + i)) (codes "api") (codes "h1") two_rows;
      response = some created;
      handling = request_accepted;
    }
push_request_handler-render_example =
    push_request_handler-render raw insertion_sort (λ i. pos (5 + i)) put (codes "api")
      (some (codes "h1")) none two_rows (inr refl) refl refl

-- A DELETE is accepted and never answered.
unanswered_delete :
    push_request_handler raw insertion_sort
      (λ i. pos 5)
      (record {
        method = delete;
        path = codes "/metrics/job/api";
        content_encoding = none;
        body = [];
      })
    ≡ record { metrics = []; response = none; handling = request_accepted }
unfolding push_request_handler bytes_eq
unanswered_delete = refl

-- A path with one more slash is rejected.
cut_off_path :
    push_request_handler raw insertion_sort
      (λ i. pos 5)
      (record {
        method = post;
        path = codes "/metrics/job/api/instance";
        content_encoding = none;
        body = [];
      })
    ≡ rejected
unfolding push_request_handler bytes_eq cut
cut_off_path = refl
