-- ===== src/Delivery/Partitioned.antt =====
-- A sink of metrics (bb_kafka_sink.h) with the Avro codecs (bb_avro_metrics.h), by the partitions that
-- bb_kafka_producer.cpp chooses. `frame` is what kspp's `avro_serdes` writes around a value, `unframe` what takes it off.
mod Tests
use bb_monitor.Base.{
  ℕ, ◌==◌, if◌then◌else◌, false, ◌≡◌, refl, sym, ap, ◌∙◌, Bool, true, ◌&&◌, Option, some, List, [],
  ◌∷◌, ◌++◌, map, Bytes, length, length-map, arith, append-nil,
}
use mathlib.Core.List.{map-append}
use bb_monitor.Ingestion.Sink.{KRecord}
use bb_monitor.Messages.{AvroMetric}
use bb_monitor.Avro.{Primitives, plain, bind, decode_metric, encode_metric}
use bb_monitor.Avro.RoundTrip.{is_int64, is_int64_value, IsCodec}
use bb_monitor.Avro.Metrics.{written_metric, encode_metric-written, decode_metric-written}
use bb_monitor.Delivery.{Outlet, Codecs, OutletStep, new_outlet, run_outlet}
use bb_monitor.Delivery.Producer.{done, Wire, partitioner_cb}
use bb_monitor.Delivery.Order.{encode, pushed_records, run_outlet_ordered}

abbrev pub all_int64 : {D : Type 0} → List (KRecord (AvroMetric D)) → Bool
all_int64 [] = true
all_int64 (r ∷ rs) = is_int64_value r.value.value && is_int64 r.value.timestamp && all_int64 rs

-- The sink's codec for a value is the Avro encoding of the metric, framed.
pub record IsAvro {D : Type 0} (p : Primitives D) (codecs : Codecs (AvroMetric D))
    (frame : Bytes → Bytes) (unframe : Bytes → Option Bytes) : Type 0 where
  pub framed :
      (m : AvroMetric D) (b : Bytes) → encode_metric p m ≡ some b → codecs.encode_value m ≡ frame b
  pub unframed : (b : Bytes) → unframe (frame b) ≡ some b

-- The messages for a partition out of so many.
abbrev pub messages_of : ℕ → ℕ → List Wire → List Wire
messages_of count k [] = []
messages_of count k (w ∷ ws) =
    let rest = messages_of count k ws in if partitioner_cb w.hash count == k then w ∷ rest else rest

messages_of-append :
    (count k : ℕ) (ws more : List Wire)
    → messages_of count k (ws ++ more) ≡ messages_of count k ws ++ messages_of count k more
messages_of-append count k [] more = refl
messages_of-append count k (w ∷ ws) more = ground (arith, messages_of-append count k ws more)

module _ {V : Type 0} (codecs : Codecs V) where
  -- The records whose key has the hash of the partition.
  abbrev pub records_of : ℕ → ℕ → List (KRecord V) → List (KRecord V)
  records_of count k [] = []
  records_of count k (r ∷ rs) =
      let rest = records_of count k rs in
      if partitioner_cb (codecs.partition_hash r.key) count == k then r ∷ rest else rest

  messages_of-encode :
      (count k : ℕ) (rs : List (KRecord V))
      → messages_of count k (map (encode codecs) rs) ≡ map (encode codecs) (records_of count k rs)
  messages_of-encode count k [] = refl
  messages_of-encode count k (r ∷ rs) = ground (arith, messages_of-encode count k rs)

  -- What librdkafka has taken for a partition, and behind it what is queued for it.
  messages_of-run_outlet :
      (steps : List (OutletStep V)) (topic : Bytes) (o : Outlet V) (count k : ℕ)
      → run_outlet codecs steps (new_outlet topic) ≡ done o
      → messages_of count k o.impl.accepted ++ map (encode codecs) (records_of count k o.queue)
        ≡ map (encode codecs) (records_of count k (pushed_records codecs steps))
  messages_of-run_outlet steps topic o count k h =
      ap (λ l. messages_of count k o.impl.accepted ++ l) (sym (messages_of-encode count k o.queue))
      ∙ sym (messages_of-append count k o.impl.accepted (map (encode codecs) o.queue))
      ∙ ap (messages_of count k) (run_outlet_ordered codecs steps topic o h)
      ∙ messages_of-encode count k (pushed_records codecs steps)

all_int64-records_of :
    {D : Type 0} (codecs : Codecs (AvroMetric D)) (count k : ℕ) (rs : List (KRecord (AvroMetric D)))
    → all_int64 rs ≡ true
    → all_int64 (records_of codecs count k rs) ≡ true
all_int64-records_of codecs count k [] h = refl
all_int64-records_of codecs count k (r ∷ rs) h =
    ground (arith, h, all_int64-records_of codecs count k rs (ground (arith, h)))

module _ {D : Type 0} (p : Primitives D) (nought : D) (unframe : Bytes → Option Bytes)
    (blank : AvroMetric D) where
  -- The metric that is decoded from the value of a message.
  abbrev pub decoded : Wire → Option (AvroMetric D)
  decoded w = bind w.value (λ framed.
      bind (unframe framed) (λ b. bind (decode_metric p nought plain b blank) (λ q. some q.0)))

  module _ (c : IsCodec p) (codecs : Codecs (AvroMetric D)) (frame : Bytes → Bytes)
      (a : IsAvro p codecs frame unframe) where
    decoded-encode :
        (r : KRecord (AvroMetric D))
        → (is_int64_value r.value.value && is_int64 r.value.timestamp) ≡ true
        → decoded (encode codecs r) ≡ some r.value
    decoded-encode r h =
        let b = written_metric p plain r.value in
        let read =
          ap (λ d. decode_metric p nought plain d blank) (sym (append-nil b))
          ∙ decode_metric-written c nought plain r.value [] blank refl h in
        ground (arith, a.framed r.value b (encode_metric-written p r.value), a.unframed b, read)

    decoded-encode_all :
        (rs : List (KRecord (AvroMetric D)))
        → all_int64 rs ≡ true
        → map decoded (map (encode codecs) rs) ≡ map (λ r. some r.value) rs
    decoded-encode_all [] h = refl
    decoded-encode_all (r ∷ rs) h =
        ground
          (arith, decoded-encode r (ground (arith, h)), decoded-encode_all rs (ground (arith, h)))

    -- If the sink goes on, then, for every number of partitions and each of them, the messages that
    -- librdkafka has taken for the partition, those in flight included, decode in order to the metrics
    -- that were pushed into the sink with a key of the partition, without a gap; what is missing at the
    -- end is as many as are still queued for it. The long values and the timestamps fit in 64 bits.
    -- What the brokers do with the messages is not stated.
    pub decoded-run_outlet :
        (steps : List (OutletStep (AvroMetric D))) (topic : Bytes) (o : Outlet (AvroMetric D))
        (count k : ℕ)
        → run_outlet codecs steps (new_outlet topic) ≡ done o
        → all_int64 (pushed_records codecs steps) ≡ true
        → (untaken : List (Option (AvroMetric D))) × (map decoded
                (messages_of count k o.impl.accepted)
              ++ untaken
            ≡ map (λ r. some r.value) (records_of codecs count k (pushed_records codecs steps)))
          × (length untaken ≡ length (records_of codecs count k o.queue))
    decoded-run_outlet steps topic o count k h fits =
        let taken = messages_of count k o.impl.accepted in
        let queued = map (encode codecs) (records_of codecs count k o.queue) in
        let pushed = records_of codecs count k (pushed_records codecs steps) in
        (
          map decoded queued,
          sym (map-append decoded taken queued)
              ∙ ap (map decoded) (messages_of-run_outlet codecs steps topic o count k h)
              ∙ decoded-encode_all pushed
                  (all_int64-records_of codecs count k (pushed_records codecs steps) fits),
          length-map decoded queued
              ∙ length-map (encode codecs) (records_of codecs count k o.queue),
        )
