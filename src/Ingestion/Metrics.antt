-- ===== src/Ingestion/Metrics.antt =====
-- put_metrics_call_data.h (a stream of bundles) and put_metrics2_call_data.h (one bundle).
pub mod Stored
use bb_monitor.Base.{
  ℕ, suc, ◌+◌, Bool, true, false, Option, none, some, List, [], ◌∷◌, ◌++◌, map, Bytes, codes, ℤ,
  length,
}
use bb_monitor.Outcome.{Outcome, ok, skipped, undefined, ◌>>=◌, deref}
use bb_monitor.Messages.{
  Label, Sample, long_value, double_value, lat_lon_value, not_set, Metric, AvroValue, AvroMetric,
}
use bb_monitor.ApiKey.{get_api_key, get_api_secret, get_forwarded_for}
use bb_monitor.Ingestion.Sink.{
  Sink, SinkTable, on_sink, push_back, begin_session, end_session, count_session,
}
use bb_monitor.Ingestion.Factory.{SinkFactory, get_metrics_sink}
use bb_monitor.Ingestion.Call.{
  CallStatus, start, reading, reading_failed, writing, finish, CallData, Input, finish_with_error,
  read_next, finish_with, Effect, goes_on, delete_this, abort, auth_error, copy_label,
}

module _ {D : Type 0} where
  abbrev pub avro_metric : Metric D → AvroValue D → AvroMetric D
  avro_metric m v = record {
    ns = m.ns;
    name = m.name;
    labels = map copy_label m.labels;
    value = v;
    timestamp = m.timestamp;
  }

  -- The value that the switch on the oneof sets; `none` is its default case, which pushes nothing.
  abbrev pub avro_value : Sample D → Option (AvroValue D)
  avro_value (long_value v) = some (AvroValue.long v)
  avro_value (double_value v) = some (AvroValue.double v)
  avro_value (lat_lon_value lat lon) = some (AvroValue.position lat lon)
  avro_value not_set = none

  -- The body of the loop over a bundle, with the clock's reading.
  unfoldable pub push_metric :
      Option ℕ → Metric D → ℤ → SinkTable (AvroMetric D) → Outcome (SinkTable (AvroMetric D))
  push_metric sink m now t = elim (avro_value m.sample) [
    | none ↦ ok t
    | some v ↦ do
      h ← deref sink
      ok (on_sink h (push_back (m.ns ++ m.name) (avro_metric m v) now) t)
  ]

  unfoldable pub push_metrics :
      Option ℕ
      → List (Metric D)
      → (ℕ → ℤ)
      → SinkTable (AvroMetric D)
      → Outcome (SinkTable (AvroMetric D))
  push_metrics sink [] now t = ok t
  push_metrics sink (m ∷ ms) now t = do
    u ← push_metric sink m (now 0) t
    push_metrics sink ms (λ i. now (suc i)) u

module _ {D : Type 0} (md5 : Bytes → Bytes) where
  -- `put_metrics_call_data::process_state`, with the destructor under `delete this`.
  unfoldable pub process_put_metrics : CallData → Input D → SinkFactory D → Outcome (Effect D)
  process_put_metrics c i f = elim c.status [
    | start ↦
        let api_key = get_api_key i.metadata in
        let (sink, g) = get_metrics_sink md5 f api_key (get_api_secret i.metadata) in
        let d = record c { sink = sink; source_ip = get_forwarded_for i.metadata } in
        elim sink [
          | none ↦ ok (
              goes_on (record d { status = finish }) g true
                (finish_with_error (auth_error api_key)))
          | some h ↦ ok (
              goes_on (record d { status = reading })
                (record g { metrics = on_sink h begin_session g.metrics }) true read_next)
        ]
    | reading ↦ do
      t ← push_metrics c.sink i.metrics i.now f.metrics
      ok (
          goes_on (record c { msg_count = c.msg_count + length i.metrics })
            (record f { metrics = t }) false read_next)
    | reading_failed ↦ ok (goes_on (record c { status = finish }) f false (finish_with c.msg_count))
    | finish ↦ ok (
        delete_this (elim c.sink [
          | none ↦ f
          | some h ↦ record f { metrics = on_sink h end_session f.metrics }
        ]))
    | writing ↦ ok (abort c f)
  ]

  -- `put_metrics2_call_data::process_state`.
  unfoldable pub process_put_metrics2 : CallData → Input D → SinkFactory D → Outcome (Effect D)
  process_put_metrics2 c i f = elim c.status [
    | start ↦
        let api_key = get_api_key i.metadata in
        let (sink, g) = get_metrics_sink md5 f api_key (get_api_secret i.metadata) in
        let d = record c { source_ip = get_forwarded_for i.metadata; status = finish } in
        elim sink [
          | none ↦ ok (goes_on d g true (finish_with_error (auth_error api_key)))
          | some h ↦ do
            t ← push_metrics (some h) i.metrics i.now (on_sink h count_session g.metrics)
            let count = c.msg_count + length i.metrics
            ok (
                goes_on (record d { msg_count = count }) (record g { metrics = t }) true
                  (finish_with count))
        ]
    | reading_failed ↦ ok (goes_on (record c { status = finish }) f false (finish_with 0))
    | _ ↦ ok (delete_this f)
  ]
