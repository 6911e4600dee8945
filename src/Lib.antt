-- ===== src/Lib.antt =====
-- bb-monitor collects metrics, log lines and intake messages. This library models the ingestion
-- service, programs/saas-services/bb-monitor-ingestion-srv, with the authorizer that it asks,
-- libraries/bb_monitor_srv_utils/grpc_topic_authorizer.cpp, and the sinks of
-- libraries/bb_monitor_client_utils through which the agents send to the service, and how the log
-- proxy of the Datadog agent reads its input. The other proxies, the text format of Prometheus, the
-- sinks that write to a Prometheus server, the Avro codecs and the access to Postgres are modelled
-- too.
--
-- How the parts interact: the loop `HandleRpcs` takes the tag of a call object from gRPC's
-- completion queue and drives that object one step. The step reads the headers of the call, asks
-- the factory for a sink, which asks the authorizer for the Kafka topic and tenant of the account,
-- and pushes the messages of the bundle into the queue of the sink. The authorizer learns the
-- accounts from the records of a Kafka topic. A thread of the sink hands the queue over to
-- librdkafka, which reports each delivery; the memory of a message lives until then. On the side of
-- an agent, a client sink collects events into bundles, sends one at a time, and keeps the events
-- of a bundle that was not accepted. The proxies of programs/client-proxies take what other agents
-- post, unpack and parse it, and put it into the streams that end in the client sinks.
--
--   Base            bytes, decimal text, lists, and maps as lists of entries
--   Outcome         a handler's result: a value, an early return, or undefined behaviour
--   Authorizer      grpc_topic_authorizer.{h,cpp}: `load` and `on_auth_record` are the visitor,
--                   `authorize_read` and `authorize_write` the queries
--   ApiKey          libraries/bb_monitor_srv_utils/grpc_apikey_auth.cpp
--   Messages        proto/bb_monitor_sink.proto and libraries/bb_monitor_utils/avro
--   Ingestion.Sink     bb_kafka_sink.h as the calls see it
--   Ingestion.Factory  kafka_sink_facory.cpp: `get_metrics_sink`, `get_log_sink`, `get_intake_sink`
--   Ingestion.Call     call_data.h
--   Ingestion.Metrics, Ingestion.Logs, Ingestion.Intakes
--                   put_metrics*_call_data.h, put_logs*_call_data.h, put_intake*_call_data.h:
--                   `process_<class>` is `process_state` of that class
--   Ingestion.Loop     main.cpp: `handle_event` is one round of `HandleRpcs`, `handle_rpcs` the loop
--   Delivery        bb_kafka_sink.h: `process_queue` is `process`, `handle_event` is `handle_event`
--                   and `flush_queue` the first loop of `flush`; Delivery.Partitioned puts the
--                   Avro codecs in, and looks at one partition
--   Delivery.Producer  bb_kafka_producer.cpp: `produce`, `dr_cb`, `delete_user_data`
--   ClientSink      libraries/bb_monitor_client_utils/bb_{metric,log,intake}_sink.cpp: `take_turn`
--                   and `on_answer` are `_thread` before and after the call to the server
--   KvFilter        libraries/bb_monitor_client_utils/kv_filter.cpp: `kv_match` is `match`
--   LogProxy        programs/client-proxies/bb-monitor-dd-log-proxy/main.cpp: `handle_read` of a session
--   LogProxy.Line   the same file: `handle_line`
--   Prometheus      libraries/bb_monitor_client_utils/prometheus_utils.cpp and
--                   libraries/bb_monitor_srv_utils/avro_prometheus_utils.cpp
--   Avro            libraries/bb_monitor_utils/avro: `encode_<record>` and `decode_<record>` are `encode`
--                   and `decode` of `codec_traits`, `Decoder` tells a resolving decoder from others
--   Compression     libraries/bb_monitor_utils/compression.cpp: `blocks` is the loop of its functions
--   Postgres        libraries/bb_monitor_srv_utils/postgres_asio.cpp, pg_worker.cpp and, in
--                   Postgres.Values, pg_utils.cpp
--   Proxies         programs/client-proxies/bb-monitor-dd-metrics-proxy/main.cpp and
--                   bb-monitor-splunk-hec-proxy/main.cpp: `metrics_request_handler` and
--                   `splunk_request_handler` are the routers that `create_request_handler` makes
--   PgText          libraries/bb_monitor_utils/grpc_utils.cpp: `to_pg_array` and `to_pg_map` are the two
--                   `to_pg`, `pg2proto_array` and `pg2proto_map` the two `pg2proto`
--   PushGateway     programs/client-proxies/bb-monitor-prom-pushgateway-proxy/main.cpp:
--                   `push_request_handler` is `request_handler`
--   Splunk          libraries/bb_monitor_utils/splunk/splunk_utils.cpp
--   WriteProxy      programs/client-proxies/bb-monitor-promstore-write-proxy/main.cpp
--   Elastic         libraries/bb_monitor_client_utils/elasticsearch_log_sink.cpp
--   Resolver        libraries/bb_monitor_srv_utils/service_resolver.cpp: `ares_srv_callback` and what
--                   becomes of its answers
--   Datadog         libraries/bb_monitor_client_utils/avro_json_parsing.cpp and, in Datadog.Pb,
--                   pb_json_parsing.cpp
--   RemoteWrite     libraries/bb_monitor_client_utils/prometheus_sink.cpp and prometheus_sink2.cpp:
--                   `take_turn` and `on_answer` are `_thread` before and after an answer of the server
--
-- Conventions. A std::map is a list of entries with distinct keys: the code looks up, assigns and
-- erases, and never iterates. A shared_ptr to a sink is a number, the key of the sink in a
-- `SinkTable`, so that the cache and the calls see one sink. A call object is named by its tag. A
-- sequence of events is a list, and the loop is recursion on it. The bounds on rounds are those of
-- `match_from` in KvFilter and of `tags_from` and `lines_from` in Prometheus, the length of the
-- text and one, since each round but the last takes a byte; that of `events_from` in Splunk too, if
-- each JSON document takes one. `blocks` in Compression needs as many rounds as zlib fills blocks,
-- `fetch` in Postgres one more than a reply has results, and `flush_queue` in Delivery as many as
-- messages are queued, if each round sends one; a bound that is met shows in the result.
-- `std::string` is a list of byte values.
-- Counters are ℕ, without the 64-bit wrap-around of `_msg_count`.
--
-- Parameters. `md5` is any function: the digest routine is a copy of another project's library. `D`
-- stands for `double`, which the code carries along; `is_finite` and `to_double` are what the sinks
-- for Prometheus do with it. What gRPC delivers (tag, flag, headers, request) and the readings of
-- the clock are arguments of a step, and so are librdkafka's answers and reports and the status of
-- a client's call. The schema registry and a sink's codecs are the record `Codecs`, the Avro library
-- the record `Primitives`, zlib `Zlib`, libpq `Libpq`, restinio's router `Express`, and rapidjson's
-- values `Rapidjson`; what a theorem takes from their documentation is a record named Is... beside
-- the theorem. `sort` is `std::sort` of labels, and
-- `IsSort` what it promises, which leaves the order of equal keys open. `atof` and `log_id`, the
-- digest that names a log line, are any functions. librdkafka is taken to report a message that it has accepted once, and to leave the
-- memory of one that it refuses to the caller, as its documentation says.
--
-- Interleavings. Each of the threads' actions is one step: a push, a run of `process`, a report, a
-- turn of a client's thread before its call and after it. Steps come in any order.
--
-- Not modelled: the threads and the push of counters to a gateway, option parsing,
-- set-up of gRPC and Kafka, closing of the producer and of the sinks, the sockets of the resolver,
-- and the exporters of programs/clients, which connect a source to a sink.
pub mod Base
pub mod Outcome
pub mod Authorizer
pub mod Messages
pub mod ApiKey
pub mod Ingestion
pub mod ClientSink
pub mod Delivery
pub mod KvFilter
pub mod LogProxy
pub mod Prometheus
pub mod RemoteWrite
pub mod Datadog
pub mod Elastic
pub mod Resolver
pub mod WriteProxy
pub mod Splunk
pub mod Avro
pub mod Compression
pub mod Postgres
pub mod Proxies
pub mod PushGateway
pub mod PgText
