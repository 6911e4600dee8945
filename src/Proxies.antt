-- ===== src/Proxies.antt =====
-- programs/client-proxies/bb-monitor-dd-metrics-proxy/main.cpp and bb-monitor-splunk-hec-proxy/main.cpp:
-- what the Datadog agent and Docker's Splunk logger post, put into streams. The router of restinio is the
-- record `Express`, snappy is `uncompress`, zlib the record `Zlib`; the clock's readings are `now`.
pub mod Bodies
pub mod Routes
mod Tests
use bb_monitor.Base.{
  ℕ, zero, suc, Bool, true, false, Option, none, some, List, [], ◌∷◌, ◌++◌, map, Bytes, bytes_eq,
  codes, ℤ, ◌⊎◌, inl, inr, if◌then◌else◌,
}
use bb_monitor.Outcome.{Outcome, ok, skipped, undefined}
use bb_monitor.Compression.{
  Zlib, Result, returned, thrown, running, decompress_deflate, decompress_gzip, decompress_snappy,
}
use bb_monitor.Messages.{Metric, Intake, LogLine}
use bb_monitor.Datadog.{Rapidjson}
use bb_monitor.Datadog.Pb.{parse_datadog_series2pb}
use bb_monitor.Datadog.Checks.{parse_datadog_check_run2pb}
use bb_monitor.Splunk.{parse_splunk_event}

pub data HttpMethod : Type 0 where
  get : HttpMethod
  post : HttpMethod
  put : HttpMethod
  delete : HttpMethod
  options : HttpMethod
  unlisted : HttpMethod

abbrev pub same_method : HttpMethod → HttpMethod → Bool
same_method get get = true
same_method post post = true
same_method put put = true
same_method delete delete = true
same_method options options = true
same_method unlisted unlisted = true
same_method m n = false

pub record HttpRequest : Type 0 where
  pub method : HttpMethod
  pub path : Bytes
  pub content_encoding : Option Bytes
  pub body : Bytes

pub record Response : Type 0 where
  pub status_code : ℕ
  pub headers : List (Bytes × Bytes)
  pub body : Bytes

-- What a handler comes to: a response, behind what it put into the stream; a request that no route takes;
-- an exception; and the two ways in which a library's part does not end well.
pub data Reaction (M : Type 0) : Type 0 where
  responded : List M → Response → Reaction M
  not_handled : Reaction M
  threw : Reaction M
  undefined_behaviour : Reaction M
  unfinished : Reaction M

pub record Route (A : Type 0) : Type 0 where
  pub route_method : HttpMethod
  pub route_path : Bytes
  pub handler : A

-- `express_router_t`: whether a route takes a path, and the handler among the routes and the one behind
-- them.
pub record Express (A : Type 0) : Type 0 where
  pub path_matches : Bytes → Bytes → Bool
  pub dispatch : List (Route A) → A → HttpMethod → Bytes → A

abbrev pub plain_text : List (Bytes × Bytes)
plain_text = (codes "content-type", codes "text/plain; charset=utf-8") ∷ []

abbrev pub line_end : Bytes
line_end = 13 ∷ 10 ∷ []

abbrev pub created : Response
created = record { status_code = 201; headers = plain_text; body = line_end }

abbrev pub status_ok : Response
status_ok = record { status_code = 200; headers = plain_text; body = line_end }

-- `parse` is `parse_splunk_event`, `none` its exception.
abbrev pub insert_events : (Bytes → Option (List LogLine)) → Bytes → Reaction LogLine
insert_events parse body = elim (parse body) [
  | none ↦ threw
  | some v ↦ responded v (record { status_code = 200; headers = []; body = [] })
]

abbrev pub non_matched : HttpMethod → Reaction LogLine
non_matched options =
    responded []
      (record { status_code = 200; headers = (codes "allow", codes "POST") ∷ []; body = line_end })
non_matched _ =
    responded []
      (record { status_code = 404; headers = (codes "connection", codes "close") ∷ []; body = [] })

module _ {V D : Type 0} (j : Rapidjson V D) (now : ℕ → ℤ) where
  abbrev pub insert_series : Bytes → Reaction (Metric D ⊎ Intake)
  insert_series body = elim (parse_datadog_series2pb j body) [
    | ok v ↦ responded (map inl v) created
    | skipped ↦ undefined_behaviour
    | undefined ↦ undefined_behaviour
  ]

  abbrev pub insert_check_run : Bytes → Reaction (Metric D ⊎ Intake)
  insert_check_run body = responded (map inl (parse_datadog_check_run2pb j now body)) created

  abbrev pub insert_intake : Bytes → Reaction (Metric D ⊎ Intake)
  insert_intake body =
      responded (inr (record { agent = codes "datadog"; content = body; timestamp = now 0 }) ∷ [])
        created

  -- A route that does nothing yet.
  abbrev pub not_implemented : Bytes → Route (Reaction (Metric D ⊎ Intake))
  not_implemented path = record {
    route_method = post;
    route_path = path;
    handler = responded [] created;
  }

module _ {S : Type 0} (zlib : Zlib S) (uncompress : Bytes → Bool × Bytes) (n : ℕ)
    (garbage : Bytes) where
  unfoldable pub get_decompressed_body : HttpRequest → Result
  get_decompressed_body req = elim req.content_encoding [
    | none ↦ returned req.body
    | some encoding ↦
        if bytes_eq encoding (codes "deflate")
        then decompress_deflate zlib n garbage req.body
        else if bytes_eq encoding (codes "snappy")
        then returned (decompress_snappy uncompress req.body)
        else if bytes_eq encoding (codes "gzip")
        then decompress_gzip zlib n garbage req.body
        else returned req.body
  ]

  -- A handler that goes on with the body.
  abbrev pub with_body : {M : Type 0} → HttpRequest → (Bytes → Reaction M) → Reaction M
  with_body req handle = elim (get_decompressed_body req) [
    | returned body ↦ handle body
    | thrown ↦ threw
    | running ↦ unfinished
  ]

  module _ {V D : Type 0} (j : Rapidjson V D) (now : ℕ → ℤ) where
    abbrev pub metrics_routes : HttpRequest → List (Route (Reaction (Metric D ⊎ Intake)))
    metrics_routes req =
        record {
          route_method = post;
          route_path = codes "/api/v1/series";
          handler = with_body req (insert_series j now);
        }
        ∷ record {
          route_method = post;
          route_path = codes "/api/v1/check_run";
          handler = with_body req (insert_check_run j now);
        }
        ∷ record {
          route_method = post;
          route_path = codes "/intake/";
          handler = with_body req (insert_intake j now);
        }
        ∷ not_implemented j now (codes "/api/v1/validate")
        ∷ not_implemented j now (codes "/api/v1/comments")
        ∷ not_implemented j now (codes "/api/v1/events")
        ∷ not_implemented j now (codes "/api/v1/tags/hosts")
        ∷ not_implemented j now (codes "/api/v1/container")
        ∷ record {
          route_method = get;
          route_path = codes "/healthz";
          handler = responded [] status_ok;
        }
        ∷ []

    unfoldable pub metrics_request_handler :
        Express (Reaction (Metric D ⊎ Intake)) → HttpRequest → Reaction (Metric D ⊎ Intake)
    metrics_request_handler router req =
        router.dispatch (metrics_routes req) not_handled req.method req.path

  module _ (parse : Bytes → Option (List LogLine)) where
    abbrev pub splunk_routes : HttpRequest → List (Route (Reaction LogLine))
    splunk_routes req =
        record {
          route_method = post;
          route_path = codes "/services/collector/event/1.0";
          handler = with_body req (insert_events parse);
        }
        ∷ record {
          route_method = get;
          route_path = codes "/healthz";
          handler = responded [] status_ok;
        }
        ∷ []

    unfoldable pub splunk_request_handler :
        Express (Reaction LogLine) → HttpRequest → Reaction LogLine
    splunk_request_handler router req =
        router.dispatch (splunk_routes req) (non_matched req.method) req.method req.path
