-- ===== src/Ingestion/Metrics/Stored.antt =====
-- What the metrics calls store and acknowledge (put_metrics_call_data.h, put_metrics2_call_data.h).
use bb_monitor.Base.{
  ◌⊎◌, ℕ, suc, ◌+◌, ◌≡◌, refl, ap, sym, List, [], ◌∷◌, ◌++◌, none, some, Bytes, ℤ, arith, length,
  Option-cases, inl, inr, true, false,
}
use bb_monitor.Outcome.{Outcome, ok, deref, ◌>>=◌, undefined}
use bb_monitor.Messages.{Metric, AvroMetric}
use bb_monitor.ApiKey.{get_api_key, get_api_secret, get_forwarded_for}
use bb_monitor.Ingestion.Sink.{SinkTable, KRecord, on_sink, count_session}
use bb_monitor.Ingestion.Sink.Updates.{append_all, on_sink-append_all, on_sink-append_nil}
use bb_monitor.Ingestion.Factory.{SinkFactory, get_metrics_sink}
use bb_monitor.Ingestion.Call.{
  start, reading, finish, CallData, Input, goes_on, finish_with, read_next,
}
use bb_monitor.Ingestion.Metrics.{
  avro_value, avro_metric, push_metric, push_metrics, process_put_metrics, process_put_metrics2,
}

module _ {D : Type 0} where
  -- The records for a bundle: one for each metric whose sample is set, in order, under namespace and
  -- name, with the clock's reading for that metric.
  abbrev pub metric_records : List (Metric D) → (ℕ → ℤ) → List (KRecord (AvroMetric D))
  metric_records [] now = []
  metric_records (m ∷ ms) now =
      let rest = metric_records ms (λ i. now (suc i)) in
      elim (avro_value m.sample) [
        | none ↦ rest
        | some v ↦
            record { key = m.ns ++ m.name; value = avro_metric m v; event_time = now 0 } ∷ rest
      ]

  pub push_metrics-records :
      (h : ℕ) (ms : List (Metric D)) (now : ℕ → ℤ) (t : SinkTable (AvroMetric D))
      → push_metrics (some h) ms now t ≡ ok (on_sink h (append_all (metric_records ms now)) t)
  unfolding push_metrics push_metric
  push_metrics-records h [] now t = ap ok (sym (on_sink-append_nil h t))
  push_metrics-records h (m ∷ ms) now t = elim (Option-cases (avro_value m.sample)) [
    | inl e ↦ ground (arith, e, push_metrics-records h ms (λ i. now (suc i)) t)
    | inr (v, e) ↦
        let r : KRecord (AvroMetric D) = record {
          key = m.ns ++ m.name;
          value = avro_metric m v;
          event_time = now 0;
        } in
        let later = λ (i : ℕ). now (suc i) in
        let u = on_sink h (append_all (r ∷ [])) t in
        ground (
          arith,
          e,
          push_metrics-records h ms later u,
          on_sink-append_all h (r ∷ []) (metric_records ms later) t,
        )
  ]

  pub push_metrics-none :
      (ms : List (Metric D)) (now : ℕ → ℤ) (t : SinkTable (AvroMetric D))
      → (push_metrics none ms now t ≡ ok t) ⊎ (push_metrics none ms now t ≡ undefined)
  unfolding push_metrics push_metric
  push_metrics-none [] now t = inl refl
  push_metrics-none (m ∷ ms) now t = ground (arith, push_metrics-none ms (λ i. now (suc i)) t)

  -- The metrics of a bundle that carry no sample.
  abbrev pub unset : List (Metric D) → ℕ
  unset [] = 0
  unset (m ∷ ms) = elim (avro_value m.sample) [ none ↦ suc (unset ms) | some v ↦ unset ms ]

  length-metric_records :
      (ms : List (Metric D)) (now : ℕ → ℤ) → length (metric_records ms now) + unset ms ≡ length ms
  length-metric_records [] now = omega arith
  length-metric_records (m ∷ ms) now = ground (arith, length-metric_records ms (λ i. now (suc i)))

  abbrev pub all_records : List (Input D) → List (KRecord (AvroMetric D))
  all_records [] = []
  all_records (i ∷ is) = metric_records i.metrics i.now ++ all_records is

  abbrev pub all_metrics : List (Input D) → ℕ
  all_metrics [] = 0
  all_metrics (i ∷ is) = length i.metrics + all_metrics is

module _ {D : Type 0} (md5 : Bytes → Bytes) where
  -- A single call that is let in stores the records of its bundle behind what the sink has queued,
  -- counts one session, is answered by the number of metrics in the bundle, and is finished; the
  -- records are as many as the metrics that carry a sample.
  pub process_put_metrics2-served :
      (c : CallData) (i : Input D) (f : SinkFactory D) (h : ℕ) (g : SinkFactory D)
      → c.status ≡ start
      → get_metrics_sink md5 f (get_api_key i.metadata) (get_api_secret i.metadata) ≡ (some h, g)
      → (process_put_metrics2 md5 c i f
          ≡ ok (record {
            call = some (record c {
              status = finish;
              source_ip = get_forwarded_for i.metadata;
              msg_count = c.msg_count + length i.metrics;
            });
            factory = record g {
              metrics =
                  on_sink h
                    (append_all (metric_records i.metrics i.now))
                    (on_sink h count_session g.metrics);
            };
            spawned = true;
            reply = finish_with (c.msg_count + length i.metrics);
          }))
        × (length (metric_records i.metrics i.now) + unset i.metrics ≡ length i.metrics)
  unfolding process_put_metrics2
  process_put_metrics2-served c i f h g e s = (
    ground (arith, push_metrics-records h i.metrics i.now (on_sink h count_session g.metrics)),
    length-metric_records i.metrics i.now,
  )

  -- The reads of one stream, one after the other, on its call object.
  unfoldable pub read_bundles :
      List (Input D) → CallData → SinkFactory D → Outcome (CallData × SinkFactory D)
  read_bundles [] c f = ok (c, f)
  read_bundles (i ∷ is) c f = do
    e ← process_put_metrics md5 c i f
    d ← deref e.call
    read_bundles is d e.factory

  process_put_metrics-reading :
      (c : CallData) (i : Input D) (f : SinkFactory D) (h : ℕ)
      → c.status ≡ reading
      → c.sink ≡ some h
      → process_put_metrics md5 c i f
        ≡ ok (
            goes_on
              (record c { msg_count = c.msg_count + length i.metrics })
              (record f {
                metrics = on_sink h (append_all (metric_records i.metrics i.now)) f.metrics;
              })
              false
              read_next)
  unfolding process_put_metrics
  process_put_metrics-reading c i f h e s =
      ground (arith, push_metrics-records h i.metrics i.now f.metrics)

  -- A stream that has been let in stores the records of its bundles in the order in which they come,
  -- whatever other records the sink holds, and its count is the number of metrics received.
  pub read_bundles-stored :
      (is : List (Input D)) (c : CallData) (f : SinkFactory D) (h : ℕ)
      → c.status ≡ reading
      → c.sink ≡ some h
      → read_bundles is c f
        ≡ ok (
          record c { msg_count = c.msg_count + all_metrics is },
          record f { metrics = on_sink h (append_all (all_records is)) f.metrics },
        )
  unfolding read_bundles
  read_bundles-stored [] c f h e s = ground (arith, on_sink-append_nil h f.metrics)
  read_bundles-stored (i ∷ is) c f h e s =
      let d = record c { msg_count = c.msg_count + length i.metrics } in
      let t = on_sink h (append_all (metric_records i.metrics i.now)) f.metrics in
      ground (
        arith,
        process_put_metrics-reading c i f h e s,
        read_bundles-stored is d (record f { metrics = t }) h e s,
        on_sink-append_all h (metric_records i.metrics i.now) (all_records is) f.metrics,
      )
