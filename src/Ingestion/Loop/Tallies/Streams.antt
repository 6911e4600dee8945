-- ===== src/Ingestion/Loop/Tallies/Streams.antt =====
-- The gauge of active metrics sessions across one step of a metrics call: put_metrics_call_data.h
-- raises it in START and lowers it in the destructor; put_metrics2_call_data.h leaves it alone.
use bb_monitor.Base.{
  ◌⊎◌, ℕ, ◌+◌, ◌≡◌, refl, ◌∙◌, List, Option, some, Bytes, pos, nat_key, arith, inl, inr,
  Option-cases, Bool-cases,
}
use bb_monitor.Base.Maps.{lookup}
use bb_monitor.Outcome.{ok}
use bb_monitor.Messages.{AvroMetric}
use bb_monitor.ApiKey.{get_api_key, get_api_secret}
use bb_monitor.Ingestion.Sink.{
  Sink, SinkTable, KRecord, on_sink, begin_session, end_session, count_session,
}
use bb_monitor.Ingestion.Sink.Updates.{append_all}
use bb_monitor.Ingestion.Factory.{SinkFactory, get_metrics_sink}
use bb_monitor.Ingestion.Factory.Caching.{IsCoherent}
use bb_monitor.Ingestion.Factory.Sessions.{
  active, active_kept, active-begin_session, active-end_session, on_sink-IsCoherent,
  get_metrics_sink-active, get_metrics_sink-active,
}
use bb_monitor.Ingestion.Call.{
  start, reading, reading_failed, writing, finish, put_metrics, put_metrics2, CallData, Input,
  Effect,
}
use bb_monitor.Ingestion.Metrics.{process_put_metrics, process_put_metrics2}
use bb_monitor.Ingestion.Metrics.Stored.{push_metrics-records, push_metrics-none, metric_records}
use bb_monitor.Ingestion.Loop.Acceptors.{is_start}
use bb_monitor.Ingestion.Loop.Objects.{weight}
use bb_monitor.Ingestion.Loop.Tallies.{holds, Tallies, status-cases}

-- Storing records and counting a session of a single call.
stored-IsCoherent :
    {V : Type 0} (j : ℕ) (rs : List (KRecord V)) (t : SinkTable V)
    → IsCoherent t
    → IsCoherent (on_sink j (append_all rs) (on_sink j count_session t))
stored-IsCoherent j rs t v =
    on_sink-IsCoherent j (append_all rs) (on_sink j count_session t) (λ s. refl)
      (on_sink-IsCoherent j count_session t (λ s. refl) v)

stored-active :
    {V : Type 0} (h j : ℕ) (rs : List (KRecord V)) (t : SinkTable V)
    → active h (on_sink j (append_all rs) (on_sink j count_session t)) ≡ active h t
stored-active h j rs t =
    active_kept h j (append_all rs) (on_sink j count_session t) (λ s. refl)
    ∙ active_kept h j count_session t (λ s. refl)

module _ {D : Type 0} (md5 : Bytes → Bytes) (c : CallData) (i : Input D) (f : SinkFactory D) where
  -- What `get_metrics_sink` answers for the credentials of the call.
  abbrev answer : Option ℕ × SinkFactory D
  answer = get_metrics_sink md5 f (get_api_key i.metadata) (get_api_secret i.metadata)

  answer_keeps :
      IsCoherent f.metrics
      → IsCoherent answer.1.metrics
        × ((j : ℕ) → active j answer.1.metrics ≡ active j f.metrics)
        × ((h : ℕ)
            → answer.0 ≡ some h
            → (s : Sink (AvroMetric D)) × (lookup h answer.1.metrics.sinks ≡ some s))
  answer_keeps v =
      get_metrics_sink-active md5 f (get_api_key i.metadata) (get_api_secret i.metadata) answer.0
        answer.1 v refl

  -- A single metrics call ends with the table as it was, as the factory left it, or with the records
  -- stored and a session counted.
  put_metrics2-table :
      (e : Effect D)
      → process_put_metrics2 md5 c i f ≡ ok e
      → (e.factory.metrics ≡ f.metrics)
        ⊎ (e.factory.metrics ≡ answer.1.metrics)
        ⊎ ((h : ℕ) × (e.factory.metrics
              ≡ on_sink h
                  (append_all (metric_records i.metrics i.now))
                  (on_sink h count_session answer.1.metrics)))
  unfolding process_put_metrics2
  put_metrics2-table e p = elim (Option-cases answer.0) [
    | inl o ↦ ground (arith, o)
    | inr (h, o) ↦ elim (Bool-cases (is_start c.status)) [
      | inl first ↦
          let counted = on_sink h count_session answer.1.metrics in
          inr (inr (h, ground (arith, o, push_metrics-records h i.metrics i.now counted)))
      | inr later ↦ inl (ground arith)
    ]
  ]

  put_metrics2-weight :
      (e : Effect D) (h : ℕ)
      → process_put_metrics2 md5 c i f ≡ ok e
      → c.kind ≡ put_metrics2
      → (holds h c ≡ 0) × (weight (holds h) e.call ≡ 0)
  unfolding process_put_metrics2
  put_metrics2-weight e h p k = ground arith

  pub put_metrics2-Tallies :
      (e : Effect D) (h n : ℕ)
      → process_put_metrics2 md5 c i f ≡ ok e
      → c.kind ≡ put_metrics2
      → Tallies h n (some c) f.metrics
      → Tallies h n e.call e.factory.metrics
  put_metrics2-Tallies e h n p k (v, a) =
      let (coherent, gauge, _) = answer_keeps v in
      let (mine, its) = put_metrics2-weight e h p k in
      let records = metric_records i.metrics i.now in
      elim (put_metrics2-table e p) [
        | inl t ↦ rw t (v, ground (arith, a, mine, its))
        | inr (inl t) ↦ rw t (coherent, ground (arith, a, mine, its, gauge h))
        | inr (inr (j, t)) ↦ rw t (
          stored-IsCoherent j records answer.1.metrics coherent,
          ground (arith, a, mine, its, gauge h, stored-active h j records answer.1.metrics),
        )
      ]

  module _ (e : Effect D) (h n : ℕ) (p : process_put_metrics md5 c i f ≡ ok e)
      (k : c.kind ≡ put_metrics) (v : IsCoherent f.metrics)
      (a : active h f.metrics ≡ pos (holds h c + n)) where
    put_metrics_started : c.status ≡ start → Tallies h n e.call e.factory.metrics
    unfolding process_put_metrics
    put_metrics_started st =
        let (coherent, gauge, there) = answer_keeps v in
        elim (Option-cases answer.0) [
          | inl o ↦
              let same : e.factory.metrics ≡ answer.1.metrics = ground (arith, st, p, o) in
              rw same (coherent, ground (arith, gauge h))
          | inr (j, o) ↦
              let (s, found) = there j o in
              let same : e.factory.metrics ≡ on_sink j begin_session answer.1.metrics =
                ground (arith, st, p, o) in
              rw same (
                on_sink-IsCoherent j begin_session answer.1.metrics (λ s. refl) coherent,
                ground (arith, o, gauge h, active-begin_session h j s answer.1.metrics found),
              )
        ]

    put_metrics_read : c.status ≡ reading → Tallies h n e.call e.factory.metrics
    unfolding process_put_metrics
    put_metrics_read st = elim (Option-cases c.sink) [
      | inl o ↦
          let same : e.factory.metrics ≡ f.metrics =
            ground (arith, st, p, o, push_metrics-none i.metrics i.now f.metrics) in
          rw same (v, ground (arith, o, push_metrics-none i.metrics i.now f.metrics))
      | inr (j, o) ↦
          let rs = metric_records i.metrics i.now in
          let same : e.factory.metrics ≡ on_sink j (append_all rs) f.metrics =
            ground (arith, st, p, o, push_metrics-records j i.metrics i.now f.metrics) in
          rw same (
            on_sink-IsCoherent j (append_all rs) f.metrics (λ s. refl) v,
            ground (
              arith,
              o,
              active_kept h j (append_all rs) f.metrics (λ s. refl),
              push_metrics-records j i.metrics i.now f.metrics,
            ),
          )
    ]

    put_metrics_finished : c.status ≡ finish → Tallies h n e.call e.factory.metrics
    unfolding process_put_metrics
    put_metrics_finished st = elim (Option-cases c.sink) [
      | inl o ↦
          let same : e.factory.metrics ≡ f.metrics = ground (arith, st, p, o) in
          rw same (v, ground (arith, o))
      | inr (j, o) ↦
          let same : e.factory.metrics ≡ on_sink j end_session f.metrics =
            ground (arith, st, p, o) in
          rw same (
            on_sink-IsCoherent j end_session f.metrics (λ s. refl) v,
            ground (arith, o, active-end_session h j n f.metrics),
          )
    ]

    put_metrics_waiting :
        (c.status ≡ reading_failed) ⊎ (c.status ≡ writing) → Tallies h n e.call e.factory.metrics
    unfolding process_put_metrics
    put_metrics_waiting st =
        let same : e.factory.metrics ≡ f.metrics = ground (arith, st, p) in
        rw same (v, ground arith)

  pub put_metrics-Tallies :
      (e : Effect D) (h n : ℕ)
      → process_put_metrics md5 c i f ≡ ok e
      → c.kind ≡ put_metrics
      → Tallies h n (some c) f.metrics
      → Tallies h n e.call e.factory.metrics
  put_metrics-Tallies e h n p k (v, a) = elim (status-cases c.status) [
    | inl st ↦ put_metrics_started e h n p k v a st
    | inr (inl st) ↦ put_metrics_read e h n p k v a st
    | inr (inr (inl st)) ↦ put_metrics_finished e h n p k v a st
    | inr (inr (inr st)) ↦ put_metrics_waiting e h n p k v a st
  ]
