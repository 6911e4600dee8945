-- ===== src/Ingestion/Factory.antt =====
-- kafka_sink_factory.h and kafka_sink_facory.cpp: from the credentials of a call to the one sink of
-- the physical topic. The three methods differ in the topic, the cache and the labels.
pub mod Caching
pub mod Sessions
use bb_monitor.Base.{
  ℕ, Option, none, some, List, [], ◌∷◌, Bytes, codes, ℤ, pos, int_eq, if◌then◌else◌, bytes_key,
}
use bb_monitor.Base.Decimal.{to_string}
use bb_monitor.Base.Maps.{lookup, insert_all}
use bb_monitor.Authorizer.{Authorizer, authorize_write}
use bb_monitor.Messages.{AvroMetric, AvroLogline, AvroIntake}
use bb_monitor.Ingestion.Sink.{SinkTable, open_sink}

pub record SinkFactory (D : Type 0) : Type 0 where
  pub labels : List (Bytes × Bytes)
  pub authorizer : Authorizer
  pub metrics : SinkTable (AvroMetric D)
  pub logs : SinkTable AvroLogline
  pub intake : SinkTable AvroIntake

-- The tail of the three methods: the sink that the cache has for the topic, or a new one.
unfoldable pub find_or_open :
    {V : Type 0} → Bytes → ℤ → List (Bytes × Bytes) → SinkTable V → ℕ × SinkTable V
find_or_open topic tenant labels t = elim (lookup topic t.cache) [
  | some h ↦ (h, t)
  | none ↦ (t.next, open_sink topic tenant labels t)
]

-- The labels of a metrics sink; those of the service are added where the name is free.
pub metrics_labels : List (Bytes × Bytes) → Bytes → ℤ → List (Bytes × Bytes)
metrics_labels service topic tenant = insert_all service (
    (codes "client_id", to_string tenant)
    ∷ (codes "logical_topic", codes "metrics")
    ∷ (codes "physical_topic", topic)
    ∷ (codes "processor", codes "sink")
    ∷ [])

pub log_labels : Bytes → ℤ → List (Bytes × Bytes)
log_labels topic tenant =
    (codes "client_id", to_string tenant)
    ∷ (codes "logical_topic", codes "logs")
    ∷ (codes "physical_topic", topic)
    ∷ (codes "usage", codes "sink")
    ∷ []

pub intake_labels : Bytes → List (Bytes × Bytes)
intake_labels topic =
    (codes "logical_topic", codes "intake")
    ∷ (codes "physical_topic", topic)
    ∷ (codes "usage", codes "sink")
    ∷ []

module _ {D : Type 0} (md5 : Bytes → Bytes) where
  unfoldable pub get_metrics_sink : SinkFactory D → Bytes → Bytes → Option ℕ × SinkFactory D
  get_metrics_sink f api_key secret_api_key =
      let (topic, tenant) =
        authorize_write md5 f.authorizer api_key secret_api_key (codes "metrics") in
      if int_eq tenant (pos 0)
      then (none, f)
      else let (h, t) =
          find_or_open topic tenant (metrics_labels f.labels topic tenant) f.metrics in
        (some h, record f { metrics = t })

  unfoldable pub get_log_sink : SinkFactory D → Bytes → Bytes → Option ℕ × SinkFactory D
  get_log_sink f api_key secret_api_key =
      let (topic, tenant) =
        authorize_write md5 f.authorizer api_key secret_api_key (codes "logs") in
      if int_eq tenant (pos 0)
      then (none, f)
      else let (h, t) = find_or_open topic tenant (log_labels topic tenant) f.logs in
        (some h, record f { logs = t })

  unfoldable pub get_intake_sink : SinkFactory D → Bytes → Bytes → Option ℕ × SinkFactory D
  get_intake_sink f api_key secret_api_key =
      let (topic, tenant) =
        authorize_write md5 f.authorizer api_key secret_api_key (codes "intake") in
      if int_eq tenant (pos 0)
      then (none, f)
      else let (h, t) = find_or_open topic tenant (intake_labels topic) f.intake in
        (some h, record f { intake = t })
