-- ===== src/Ingestion/Loop/Tallies.antt =====
-- The gauge of active metrics sessions against one step of a call: what is counted, and the calls that
-- leave the metrics sinks alone (put_logs*_call_data.h, put_intake*_call_data.h).
pub mod Streams
use mathlib.Core.Path.{subst}
use bb_monitor.Base.{
  ◌⊎◌, ℕ, zero, suc, ◌+◌, ◌-◌, ◌≡◌, refl, ◌∙◌, sym, ap, Bool, true, false, ◌&&◌, not, List, [], ◌∷◌,
  Option, none, some, Bytes, ℤ, pos, nat_key, arith, ◌==◌, if◌then◌else◌, inl, inr, Option-cases,
  Bool-cases,
}
use bb_monitor.Base.Maps.{lookup}
use bb_monitor.Outcome.{Outcome, ok, skipped, undefined, deref, ◌>>=◌, bind-eq-ok}
use bb_monitor.Messages.{AvroMetric}
use bb_monitor.ApiKey.{get_api_key, get_api_secret}
use bb_monitor.Ingestion.Sink.{
  Sink, SinkTable, KRecord, on_sink, begin_session, end_session, count_session,
}
use bb_monitor.Ingestion.Sink.Updates.{append_all}
use bb_monitor.Ingestion.Factory.{SinkFactory, get_metrics_sink, get_log_sink, get_intake_sink}
use bb_monitor.Ingestion.Factory.Caching.{IsCoherent}
use bb_monitor.Ingestion.Factory.Sessions.{
  active, active_kept, active-begin_session, active-end_session, on_sink-IsCoherent,
  get_metrics_sink-active, get_log_sink-metrics, get_intake_sink-metrics, get_metrics_sink-active,
}
use bb_monitor.Ingestion.Call.{
  CallStatus, start, reading, reading_failed, writing, finish, CallKind, put_metrics, put_metrics2,
  put_logs, put_logs2, put_intake, put_intake2, CallData, new_call, Input, Reply, Effect, kind_eq,
}
use bb_monitor.Ingestion.Metrics.{process_put_metrics, process_put_metrics2}
use bb_monitor.Ingestion.Metrics.Stored.{push_metrics-records, push_metrics-none, metric_records}
use bb_monitor.Ingestion.Logs.{process_put_logs, process_put_logs2}
use bb_monitor.Ingestion.Intakes.{process_put_intake, process_put_intake2}
use bb_monitor.Ingestion.Loop.{
  Server, Event, after_ok, process_state, settle, handle_event, handle_rpcs, init_server, spawn_all,
}
use bb_monitor.Ingestion.Loop.Acceptors.{is_start, after_ok-kind}
use bb_monitor.Ingestion.Loop.Rounds.{handle_event-Round}
use bb_monitor.Ingestion.Loop.Objects.{
  Below, total, weight, total-settle, settle-Below, le-total, spawn_all-Below,
}

-- 1 for a metrics stream that has been let in to sink `h`.
abbrev pub holds : ℕ → CallData → ℕ
holds h c =
    if kind_eq put_metrics c.kind && not (is_start c.status)
    then elim c.sink [ none ↦ 0 | some j ↦ if j == h then 1 else 0 ]
    else 0

pub status-cases :
    (st : CallStatus)
    → (st ≡ start) ⊎ (st ≡ reading) ⊎ (st ≡ finish) ⊎ ((st ≡ reading_failed) ⊎ (st ≡ writing))
status-cases st = ground arith

-- The gauge of each sink is the number of its streams; `n` counts those that a step does not drive.
abbrev pub Tallies : {D : Type 0} → ℕ → ℕ → Option CallData → SinkTable (AvroMetric D) → Type 0
Tallies h n o t = IsCoherent t × (active h t ≡ pos (weight (holds h) o + n))

module _ {D : Type 0} (md5 : Bytes → Bytes) (c : CallData) (i : Input D) (f : SinkFactory D) where
  -- The log and intake calls do not touch the table of metrics sinks.
  pub Untouched : CallKind → Effect D → Type 0
  Untouched kind e =
      (e.factory.metrics ≡ f.metrics)
      × ((h : ℕ) → c.kind ≡ kind → (holds h c ≡ 0) × (weight (holds h) e.call ≡ 0))

  pub put_logs-Untouched : (e : Effect D) → process_put_logs md5 c i f ≡ ok e → Untouched put_logs e
  unfolding process_put_logs Untouched
  put_logs-Untouched e p = (
    ground (arith, get_log_sink-metrics md5 f (get_api_key i.metadata) (get_api_secret i.metadata)),
    λ h k. ground arith,
  )

  pub put_logs2-Untouched :
      (e : Effect D) → process_put_logs2 md5 c i f ≡ ok e → Untouched put_logs2 e
  unfolding process_put_logs2 Untouched
  put_logs2-Untouched e p = (
    ground (arith, get_log_sink-metrics md5 f (get_api_key i.metadata) (get_api_secret i.metadata)),
    λ h k. ground arith,
  )

  pub put_intake-Untouched :
      (e : Effect D) → process_put_intake md5 c i f ≡ ok e → Untouched put_intake e
  unfolding process_put_intake Untouched
  put_intake-Untouched e p = (
    ground
        (arith, get_intake_sink-metrics md5 f (get_api_key i.metadata) (get_api_secret i.metadata)),
    λ h k. ground arith,
  )

  pub put_intake2-Untouched :
      (e : Effect D) → process_put_intake2 md5 c i f ≡ ok e → Untouched put_intake2 e
  unfolding process_put_intake2 Untouched
  put_intake2-Untouched e p = (
    ground
        (arith, get_intake_sink-metrics md5 f (get_api_key i.metadata) (get_api_secret i.metadata)),
    λ h k. ground arith,
  )

  pub Untouched-Tallies :
      (kind : CallKind) (e : Effect D) (h n : ℕ)
      → Untouched kind e
      → c.kind ≡ kind
      → Tallies h n (some c) f.metrics
      → Tallies h n e.call e.factory.metrics
  unfolding Untouched
  Untouched-Tallies kind e h n u k v =
      let (mine, its) = u.1 h k in rw u.0 (v.0, ground (arith, v.1, mine, its))
