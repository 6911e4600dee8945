-- ===== src/Ingestion/Tests.antt =====
-- The ingestion service on concrete calls: one account for each of the three topics, the identity for
-- the digest, ℕ for `double`.
use bb_monitor.Base.{
  ℕ, ◌+◌, ◌≡◌, ◌↔◌, refl, true, false, Option, none, some, List, [], ◌∷◌, ◌++◌, Bytes, codes, ℤ,
  pos, bytes_key, int_key, nat_key, bytes_eq, length,
}
use bb_monitor.Base.Maps.{lookup, assign}
use bb_monitor.Outcome.{Outcome, ok, skipped, undefined}
use bb_monitor.Authorizer.{AuthData, Authorizer, authorize_write}
use bb_monitor.Messages.{AvroMetric, Metric, LogLine, Intake, long_value, not_set}
use bb_monitor.ApiKey.{Metadata, get_api_key, get_api_secret, get_forwarded_for}
use bb_monitor.Ingestion.Sink.{Sink, SinkTable, on_sink, open_sink, new_sink, count_session}
use bb_monitor.Ingestion.Sink.Updates.{append_all}
use bb_monitor.Ingestion.Factory.{
  SinkFactory, find_or_open, get_metrics_sink, get_log_sink, get_intake_sink, metrics_labels,
  log_labels, intake_labels,
}
use bb_monitor.Ingestion.Factory.Caching.{IsCoherent, get_metrics_sink_shared}
use bb_monitor.Ingestion.Call.{
  CallKind, put_metrics, put_metrics2, put_logs2, CallData, new_call, Input, Reply, finish_with,
  reading, finish,
}
use bb_monitor.Ingestion.Metrics.{
  push_metrics, push_metric, process_put_metrics, process_put_metrics2,
}
use bb_monitor.Ingestion.Metrics.Stored.{
  metric_records, all_records, unset, process_put_metrics2-served, read_bundles,
  read_bundles-stored,
}
use bb_monitor.Ingestion.Logs.{process_put_logs2, push_logs}
use bb_monitor.Ingestion.Loop.{
  served_kinds, Server, Event, event, init_server, process_state, handle_event, handle_rpcs,
}
use bb_monitor.Ingestion.Loop.Objects.{total}
use bb_monitor.Ingestion.Loop.Acceptors.{waits, handle_rpcs-acceptors}
use bb_monitor.Ingestion.Loop.Progress.{handle_event-live}
use bb_monitor.Ingestion.Loop.Tallies.{holds}
use bb_monitor.Ingestion.Loop.Sessions.{handle_rpcs-sessions}

abbrev digest : Bytes → Bytes
digest b = b

abbrev account : ℤ → Bytes → AuthData
account id topic = record {
  id = id;
  tenant_id = pos 3;
  api_key = codes "key";
  secret_access_key_hash = codes "s3";
  read_access = true;
  write_access = true;
  topic_name = topic;
  kafka_topic = codes "acme-" ++ topic;
}

abbrev accounts : Authorizer
accounts = record {
  authdata =
      (pos 1, account (pos 1) (codes "metrics"))
      ∷ (pos 2, account (pos 2) (codes "logs"))
      ∷ (pos 3, account (pos 3) (codes "intake"))
      ∷ [];
  apikey2id =
      (codes "metrics#key#s3", pos 1)
      ∷ (codes "logs#key#s3", pos 2)
      ∷ (codes "intake#key#s3", pos 3)
      ∷ [];
}

abbrev no_sinks : {V : Type 0} → SinkTable V
no_sinks = record { cache = []; sinks = []; next = 0 }

abbrev fresh_factory : SinkFactory ℕ
fresh_factory = record {
  labels = [];
  authorizer = accounts;
  metrics = no_sinks;
  logs = no_sinks;
  intake = no_sinks;
}

abbrev acme_headers : Metadata
acme_headers = (codes "api-key", codes "key") ∷ (codes "secret-access-key", codes "s3") ∷ []

abbrev load_metric : Metric ℕ
load_metric = record {
  ns = codes "host";
  name = codes "load";
  labels = [];
  sample = long_value (pos 5);
  timestamp = pos 100;
}

abbrev log_line : LogLine
log_line = record {
  id = codes "id1";
  agent = codes "splunk";
  host = codes "h";
  source = codes "stdout";
  labels = [];
  timestamp_ns = pos 9;
  line = codes "up";
}

abbrev intake_message : Intake
intake_message = record { agent = codes "datadog"; content = codes "{}"; timestamp = pos 9 }

abbrev acme_input : Input ℕ
acme_input = record {
  metadata = acme_headers;
  metrics = load_metric ∷ record load_metric { sample = not_set } ∷ [];
  logs = log_line ∷ log_line ∷ [];
  intakes = intake_message ∷ intake_message ∷ [];
  now = λ i. pos (1000 + i);
}

no_sinks-IsCoherent : {V : Type 0} → IsCoherent (no_sinks {V = V})
unfolding lookup
no_sinks-IsCoherent = record { cached = λ k h e. cc e; fresh = λ h above. refl }

abbrev with_metrics : SinkFactory ℕ
with_metrics = record fresh_factory {
  metrics =
      open_sink (codes "acme-metrics") (pos 3) (metrics_labels [] (codes "acme-metrics") (pos 3))
        no_sinks;
}

metrics_first :
    get_metrics_sink digest fresh_factory (codes "key") (codes "s3") ≡ (some 0, with_metrics)
unfolding get_metrics_sink find_or_open lookup authorize_write bytes_eq
metrics_first = refl

metrics_again :
    get_metrics_sink digest with_metrics (codes "key") (codes "s3") ≡ (some 0, with_metrics)
unfolding get_metrics_sink find_or_open lookup authorize_write bytes_eq open_sink assign
metrics_again = refl

abbrev with_logs : SinkFactory ℕ
with_logs = record fresh_factory {
  logs = open_sink (codes "acme-logs") (pos 3) (log_labels (codes "acme-logs") (pos 3)) no_sinks;
}

logs_first : get_log_sink digest fresh_factory (codes "key") (codes "s3") ≡ (some 0, with_logs)
unfolding get_log_sink find_or_open lookup authorize_write bytes_eq
logs_first = refl

logs_again : get_log_sink digest with_logs (codes "key") (codes "s3") ≡ (some 0, with_logs)
unfolding get_log_sink find_or_open lookup authorize_write bytes_eq open_sink assign
logs_again = refl

abbrev with_intake : SinkFactory ℕ
with_intake = record fresh_factory {
  intake = open_sink (codes "acme-intake") (pos 3) (intake_labels (codes "acme-intake")) no_sinks;
}

intake_first :
    get_intake_sink digest fresh_factory (codes "key") (codes "s3") ≡ (some 0, with_intake)
unfolding get_intake_sink find_or_open lookup authorize_write bytes_eq
intake_first = refl

intake_again : get_intake_sink digest with_intake (codes "key") (codes "s3") ≡ (some 0, with_intake)
unfolding get_intake_sink find_or_open lookup authorize_write bytes_eq open_sink assign
intake_again = refl

get_metrics_sink_shared_example :
    IsCoherent with_metrics.metrics
    × ((◌≡◌ {A = ℕ} 0 0) ↔ (
        (authorize_write digest accounts (codes "key") (codes "s3") (codes "metrics")).0
        ≡ (authorize_write digest accounts (codes "key") (codes "s3") (codes "metrics")).0))
get_metrics_sink_shared_example =
    get_metrics_sink_shared digest fresh_factory (codes "key") (codes "s3") (codes "key")
      (codes "s3") {h = 0} {h' = 0} {g = with_metrics} {g' = with_metrics} no_sinks-IsCoherent
      metrics_first metrics_again

process_put_metrics2-served_example :
    (process_put_metrics2 digest (new_call put_metrics2) acme_input fresh_factory
      ≡ ok (record {
        call = some (record (new_call put_metrics2) {
          status = finish;
          source_ip = get_forwarded_for acme_headers;
          msg_count = 0 + 2;
        });
        factory = record with_metrics {
          metrics =
              on_sink 0
                (append_all (metric_records acme_input.metrics acme_input.now))
                (on_sink 0 count_session with_metrics.metrics);
        };
        spawned = true;
        reply = finish_with (0 + 2);
      }))
    × (length (metric_records acme_input.metrics acme_input.now) + unset acme_input.metrics ≡ 2)
process_put_metrics2-served_example =
    process_put_metrics2-served digest (new_call put_metrics2) acme_input fresh_factory 0
      with_metrics refl (unfold get_api_key get_api_secret bytes_eq in metrics_first)

abbrev reading_call : CallData
reading_call = record (new_call put_metrics) { status = reading; sink = some 0 }

read_bundles-stored_example :
    read_bundles digest (acme_input ∷ acme_input ∷ []) reading_call with_metrics
    ≡ ok (
      record reading_call { msg_count = 0 + 4 },
      record with_metrics {
        metrics =
            on_sink 0
              (append_all (all_records (acme_input ∷ acme_input ∷ [])))
              with_metrics.metrics;
      },
    )
read_bundles-stored_example =
    read_bundles-stored digest (acme_input ∷ acme_input ∷ []) reading_call with_metrics 0 refl refl

-- A stream of metrics is let in and reads one bundle, and a single log call is served.
abbrev some_events : List (Event ℕ)
some_events = event 0 true acme_input ∷ event 0 true acme_input ∷ event 1 true acme_input ∷ []

abbrev some_kinds : List CallKind
some_kinds = put_metrics ∷ put_logs2 ∷ []

abbrev got : Server ℕ → Outcome (Server ℕ) → Server ℕ
got s (ok t) = t
got s skipped = s
got s undefined = s

abbrev later : Server ℕ
later =
    let s = init_server digest some_kinds fresh_factory in got s (handle_rpcs digest some_events s)

events_handled :
    handle_rpcs digest some_events (init_server digest some_kinds fresh_factory) ≡ ok later
unfolding handle_rpcs handle_event init_server process_state process_put_metrics process_put_logs2
    get_metrics_sink get_log_sink find_or_open authorize_write lookup assign bytes_eq open_sink
    on_sink push_metrics push_metric push_logs get_api_key get_api_secret
events_handled = refl

handle_rpcs-acceptors_example : total (waits put_logs2) later.calls ≡ 1
handle_rpcs-acceptors_example =
    handle_rpcs-acceptors digest put_logs2 some_kinds fresh_factory some_events later events_handled

spawned_call : lookup 2 later.calls ≡ some (new_call put_metrics)
unfolding handle_rpcs handle_event init_server process_state process_put_metrics process_put_logs2
    get_metrics_sink get_log_sink find_or_open authorize_write lookup assign bytes_eq open_sink
    on_sink push_metrics push_metric push_logs get_api_key get_api_secret
spawned_call = refl

handle_event-live_example :
    (r : Server ℕ × Reply) × (handle_event digest (event 2 false acme_input) later ≡ ok r)
handle_event-live_example =
    handle_event-live digest some_kinds fresh_factory some_events later 2 (new_call put_metrics)
      false acme_input events_handled spawned_call

abbrev metrics_sink : Option (Sink (AvroMetric ℕ)) → Sink (AvroMetric ℕ)
metrics_sink none = new_sink [] (pos 0) []
metrics_sink (some s) = s

sink_found :
    lookup 0 later.factory.metrics.sinks
    ≡ some (metrics_sink (lookup 0 later.factory.metrics.sinks))
unfolding handle_rpcs handle_event init_server process_state process_put_metrics process_put_logs2
    get_metrics_sink get_log_sink find_or_open authorize_write lookup assign bytes_eq open_sink
    on_sink push_metrics push_metric push_logs get_api_key get_api_secret
sink_found = refl

-- Before any event one object of each served class waits, and none of the others.
served_waiting : total (waits put_logs2) (init_server digest served_kinds fresh_factory).calls ≡ 1
unfolding init_server
served_waiting = refl

streams_waiting :
    total (waits put_metrics) (init_server digest served_kinds fresh_factory).calls ≡ 0
unfolding init_server
streams_waiting = refl

handle_rpcs-sessions_example :
    (metrics_sink (lookup 0 later.factory.metrics.sinks)).active_session_count
    ≡ pos (total (holds 0) later.calls)
unfolding lookup
handle_rpcs-sessions_example =
    handle_rpcs-sessions digest some_kinds fresh_factory some_events later 0
      (metrics_sink (lookup 0 later.factory.metrics.sinks)) no_sinks-IsCoherent (λ j. refl)
      events_handled sink_found
