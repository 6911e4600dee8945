-- ===== src/Delivery.antt =====
-- programs/saas-services/bb-monitor-ingestion-srv: what the background thread of a sink does with its
-- queue (bb_kafka_sink.h), and the producer under it (bb_kafka_producer.cpp) with the blocks of memory
-- that it frees. librdkafka is what it answers to `produce`, and when it reports a delivery.
pub mod Producer
pub mod Ownership
pub mod Flush
pub mod Order
pub mod Partitioned
mod Tests
use bb_monitor.Base.{
  ℕ, zero, suc, ◌+◌, ◌≡◌, Bool, true, false, Option, none, some, List, [], ◌∷◌, ◌++◌, Bytes, codes,
  ℤ, length,
}
use bb_monitor.Ingestion.Sink.{KRecord}
use bb_monitor.Delivery.Producer.{
  Result, done, fatal, undefined, ◌>>=◌, KafkaProducer, ErrorCode, err_no_error, malloc, free_mode,
  produce, dr_cb, empty_producer,
}

-- The members of bb_kafka_sink that the thread uses; an unregistered schema has no id. `push_back`
-- makes records with a value only.
pub record Outlet (V : Type 0) : Type 0 where
  pub topic : Bytes
  pub queue : List (KRecord V)
  pub key_schema_id : Option ℕ
  pub val_schema_id : Option ℕ
  pub impl : KafkaProducer
  pub kafka_processed_count : ℕ

-- What the sink asks of the Avro codecs and the schema registry.
pub record Codecs (V : Type 0) : Type 0 where
  pub register_schema : Bytes → Option ℕ
  pub encode_key : Bytes → Bytes
  pub encode_value : V → Bytes
  pub partition_hash : Bytes → ℕ

pub data OutletStep (V : Type 0) : Type 0 where
  push_back : KRecord V → OutletStep V
  process : (ℕ → ErrorCode) → OutletStep V
  report : ℕ → Bool → OutletStep V

module _ {V : Type 0} where
  abbrev pub new_outlet : Bytes → Outlet V
  new_outlet topic = record {
    topic = topic;
    queue = [];
    key_schema_id = none;
    val_schema_id = none;
    impl = empty_producer;
    kafka_processed_count = 0;
  }

module _ {V : Type 0} (codecs : Codecs V) where
  -- `if (id < 0) id = register_schema(...)`; a failed registration is a `LOG(FATAL)`.
  abbrev pub schema_id : Option ℕ → Bytes → Result ℕ
  schema_id (some id) name = done id
  schema_id none name = elim (codecs.register_schema name) [ none ↦ fatal | some id ↦ done id ]

  pub handle_event : ErrorCode → KRecord V → Outlet V → Result (ErrorCode × Outlet V)
  handle_event ec r o = do
    key_id ← schema_id o.key_schema_id (o.topic ++ codes "-key")
    val_id ← schema_id o.val_schema_id (o.topic ++ codes "-value")
    let key = codecs.encode_key r.key
    let val = codecs.encode_value r.value
    let (kp, with_key) = malloc key o.impl
    let (vp, with_both) = malloc val with_key
    q ←
        produce ec (codecs.partition_hash r.key) free_mode (some kp) (length key) (some vp)
          (length val) r.event_time with_both
    let (code, impl) = q
    done (code, record o { key_schema_id = some key_id; val_schema_id = some val_id; impl = impl })

  -- The loop of `process`, with librdkafka's answers, from the count so far.
  pub drain : (ℕ → ErrorCode) → List (KRecord V) → ℕ → Outlet V → Result (ℕ × Outlet V)
  drain answers [] count o = done (count, o)
  drain answers (r ∷ rs) count o = do
    p ← handle_event (answers 0) r o
    elim p.0 [
      | err_no_error ↦
          drain (λ i. answers (suc i)) rs (suc count)
            (record p.1 { queue = rs; kafka_processed_count = suc p.1.kafka_processed_count })
      | _ ↦ done (count, p.1)
    ]

  pub process_queue : (ℕ → ErrorCode) → Outlet V → Result (ℕ × Outlet V)
  process_queue answers o = drain answers o.queue 0 o

  pub outlet_step : OutletStep V → Outlet V → Result (Outlet V)
  outlet_step (push_back r) o = done (record o { queue = o.queue ++ r ∷ [] })
  outlet_step (process answers) o = do p ← process_queue answers o; done p.1
  outlet_step (report i failed) o = do impl ← dr_cb i failed o.impl; done (record o { impl = impl })

  pub run_outlet : List (OutletStep V) → Outlet V → Result (Outlet V)
  run_outlet [] o = done o
  run_outlet (a ∷ steps) o = do p ← outlet_step a o; run_outlet steps p

  -- `poll`, with the reports that librdkafka makes meanwhile.
  pub poll : List (ℕ × Bool) → Outlet V → Result (Outlet V)
  poll [] o = done o
  poll ((i, failed) ∷ reports) o = do p ← outlet_step (report i failed) o; poll reports p

  abbrev pub eof : Outlet V → Bool
  eof o = elim o.queue [ [] ↦ true | _ ∷ _ ↦ false ]

  -- The first loop of `flush`, with a bound on its rounds, and the answers and reports of each round;
  -- whether it came to the end of the queue.
  pub flush_queue :
      ℕ → (ℕ → (ℕ → ErrorCode) × List (ℕ × Bool)) → Outlet V → Result (Bool × Outlet V)
  flush_queue zero rounds o = done (eof o, o)
  flush_queue (suc n) rounds o = elim (eof o) [
    | true ↦ done (true, o)
    | false ↦ do
      p ← process_queue (rounds 0).0 o
      q ← poll (rounds 0).1 p.1
      flush_queue n (λ i. rounds (suc i)) q
  ]
