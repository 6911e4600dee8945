-- ===== src/Proxies/Tests.antt =====
-- Requests to the metrics proxy and to the Splunk proxy. A path is matched by its bytes.
use bb_monitor.Base.{
  ℕ, zero, suc, ◌+◌, ◌*◌, ◌^◌, ◌≤◌, ◌<◌, ◌≡◌, refl, Bool, true, false, ◌&&◌, ◌⊎◌, inl, inr, Option,
  none, some, List, [], ◌∷◌, map, Bytes, bytes_eq, codes, ℤ, pos, arith, if◌then◌else◌,
}
use bb_monitor.Outcome.{ok}
use bb_monitor.Messages.{Metric, double_value}
use bb_monitor.Compression.{returned}
use bb_monitor.Compression.Tests.{shifting, shifting-IsZlib}
use bb_monitor.Datadog.Pb.{parse_datadog_series2pb, pb_points}
use bb_monitor.Datadog.Tests.{root, json}
use bb_monitor.Proxies.{
  HttpMethod, get, post, options, same_method, HttpRequest, responded, Route, Express, created,
  status_ok, metrics_request_handler, splunk_request_handler,
}
use bb_monitor.Proxies.Bodies.{gzip, request, encode}
use bb_monitor.Proxies.Routes.{IsExpress, metrics_request_handler-encode}

abbrev first_of : {A : Type 0} → List (Route A) → A → HttpMethod → Bytes → A
first_of [] other method path = other
first_of (r ∷ rs) other method path =
    if same_method r.route_method method && bytes_eq r.route_path path
    then r.handler
    else first_of rs other method path

abbrev exact : {A : Type 0} → Express A
exact = record { path_matches = bytes_eq; dispatch = first_of }

exact-IsExpress : {A : Type 0} → IsExpress {A = A} exact
exact-IsExpress = record {
  no_route = λ other method path. refl;
  first_route = λ r rs other method path. refl;
}

abbrev load_metric : Metric ℕ
load_metric = record {
  ns = codes "system";
  name = codes "load_1";
  labels = [];
  sample = double_value 3;
  timestamp = pos 100000;
}

parsed_series : parse_datadog_series2pb (json root) (codes "x") ≡ ok (load_metric ∷ [])
unfolding parse_datadog_series2pb pb_points bytes_eq bb_monitor.Base.Text.cut
parsed_series = refl

metrics_request_handler-encode_example :
    (body : Bytes) × (enough : ℕ) × ((n : ℕ) (garbage garbage' : Bytes)
      → enough ≤ n
      → (encode shifting (λ s. (true, s)) (λ s. s) n garbage (gzip (pos 6)) (codes "x")
          ≡ returned body)
        × (metrics_request_handler shifting
              (λ s. (true, s))
              n
              garbage'
              (json root)
              (λ i. pos 5)
              exact
              (request post (codes "/api/v1/series") (gzip (pos 6)) body)
            ≡ responded (inl load_metric ∷ []) created))
unfolding bytes_eq
metrics_request_handler-encode_example =
    metrics_request_handler-encode shifting (λ s. (true, s)) (json root) (λ i. pos 5) exact
      exact-IsExpress (λ s. s) shifting-IsZlib (λ s. refl) (gzip (pos 6)) (codes "x")
      (codes "/api/v1/series") (load_metric ∷ []) refl (omega arith) refl parsed_series

abbrev health_check : HttpRequest
health_check = record { method = get; path = codes "/healthz"; content_encoding = none; body = [] }

healthy :
    metrics_request_handler shifting
      (λ s. (true, s))
      3
      []
      (json root)
      (λ i. pos 5)
      exact
      health_check
    ≡ responded [] status_ok
unfolding metrics_request_handler bytes_eq
healthy = refl

splunk_options :
    splunk_request_handler shifting
      (λ s. (true, s))
      3
      []
      (λ s. none)
      exact
      (record { method = options; path = codes "/x"; content_encoding = none; body = [] })
    ≡ responded [] (record {
      status_code = 200;
      headers = (codes "allow", codes "POST") ∷ [];
      body = 13 ∷ 10 ∷ [];
    })
unfolding splunk_request_handler bytes_eq
splunk_options = refl
