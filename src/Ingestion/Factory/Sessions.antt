-- ===== src/Ingestion/Factory/Sessions.antt =====
-- The gauge of active sessions of the sinks in one table (bb_kafka_sink.h), over the changes that the
-- calls and the factory make to the table.
use bb_monitor.Base.{
  ℕ, ◌+◌, ◌≡◌, refl, List, Bytes, codes, ℤ, pos, Option, none, some, nat_key, bytes_key, arith, inl,
  inr, ◌==◌, if◌then◌else◌, Option-cases,
}
use bb_monitor.Base.Maps.{lookup, lookup-assign}
use bb_monitor.Authorizer.{authorize_write}
use bb_monitor.Messages.{AvroMetric}
use bb_monitor.Ingestion.Sink.{
  Sink, SinkTable, on_sink, open_sink, new_sink, begin_session, end_session, incr,
}
use bb_monitor.Ingestion.Sink.Updates.{lookup-on_sink}
use bb_monitor.Ingestion.Factory.{
  SinkFactory, find_or_open, metrics_labels, get_metrics_sink, get_log_sink, get_intake_sink,
}
use bb_monitor.Ingestion.Factory.Caching.{
  IsCoherent, find_or_open-cached, get_metrics_sink-find_or_open,
}

-- The gauge of sink `h`; no sink counts as 0.
abbrev pub active : {V : Type 0} → ℕ → SinkTable V → ℤ
active h t = elim (lookup h t.sinks) [ none ↦ pos 0 | some s ↦ s.active_session_count ]

module _ {V : Type 0} where
  pub active_kept :
      (j h : ℕ) (f : Sink V → Sink V) (t : SinkTable V)
      → ((s : Sink V) → (f s).active_session_count ≡ s.active_session_count)
      → active j (on_sink h f t) ≡ active j t
  active_kept j h f t keep = elim (Option-cases (lookup j t.sinks)) [
    | inl e ↦ ground (arith, e, lookup-on_sink j h f t)
    | inr (s, e) ↦ ground (arith, e, lookup-on_sink j h f t, keep s)
  ]

  pub active-begin_session :
      (j h : ℕ) (s : Sink V) (t : SinkTable V)
      → lookup h t.sinks ≡ some s
      → active j (on_sink h begin_session t) ≡ (if h == j then incr (active j t) else active j t)
  active-begin_session j h s t e = ground (arith, e, lookup-on_sink j h begin_session t)

  -- The gauge counts down from a positive number.
  pub active-end_session :
      (j h n : ℕ) (t : SinkTable V)
      → active j t ≡ pos ((if h == j then 1 else 0) + n)
      → active j (on_sink h end_session t) ≡ pos n
  active-end_session j h n t e = elim (Option-cases (lookup j t.sinks)) [
    | inl f ↦ ground (arith, e, f, lookup-on_sink j h end_session t)
    | inr (s, f) ↦ ground (arith, e, f, lookup-on_sink j h end_session t)
  ]

  pub on_sink-IsCoherent :
      (h : ℕ) (f : Sink V → Sink V) (t : SinkTable V)
      → ((s : Sink V) → (f s).topic ≡ s.topic)
      → IsCoherent t
      → IsCoherent (on_sink h f t)
  unfolding on_sink
  on_sink-IsCoherent h f t keep c = record {
    cached = λ k j e.
        let (below, s, found, named) = c.cached k j (ground (arith, e)) in
        (
          ground (arith, below),
          (if h == j then f s else s),
          ground (arith, found, lookup-on_sink j h f t),
          ground (arith, named, keep s),
        );
    fresh = λ j above. ground (arith, c.fresh j (ground (arith, above)), lookup-on_sink j h f t);
  }

  pub find_or_open-active :
      (topic : Bytes) (tenant : ℤ) (labels : List (Bytes × Bytes)) (t : SinkTable V) (j : ℕ)
      → IsCoherent t
      → active j (find_or_open topic tenant labels t).1 ≡ active j t
  unfolding find_or_open open_sink
  find_or_open-active topic tenant labels t j c = elim (Option-cases (lookup topic t.cache)) [
    | inl e ↦
        ground
          (arith, e, c.fresh t.next, lookup-assign j t.next (new_sink topic tenant labels) t.sinks)
    | inr (h, e) ↦ ground (arith, e)
  ]

module _ {D : Type 0} (md5 : Bytes → Bytes) (f : SinkFactory D) (key secret : Bytes) where
  get_metrics_sink-none :
      {g : SinkFactory D} → get_metrics_sink md5 f key secret ≡ (none, g) → g ≡ f
  unfolding get_metrics_sink
  get_metrics_sink-none e = ground arith

  -- Handing out a metrics sink changes no gauge, and the sink is there.
  pub get_metrics_sink-active :
      (o : Option ℕ) (g : SinkFactory D)
      → IsCoherent f.metrics
      → get_metrics_sink md5 f key secret ≡ (o, g)
      → IsCoherent g.metrics
        × ((j : ℕ) → active j g.metrics ≡ active j f.metrics)
        × ((h : ℕ) → o ≡ some h → (s : Sink (AvroMetric D)) × (lookup h g.metrics.sinks ≡ some s))
  get_metrics_sink-active none g c e = rw (get_metrics_sink-none e) (c, λ j. refl, λ h x. cc)
  get_metrics_sink-active (some h) g c e =
      let (topic, tenant) = authorize_write md5 f.authorizer key secret (codes "metrics") in
      let labels = metrics_labels f.labels topic tenant in
      let (at, step) = get_metrics_sink-find_or_open md5 f key secret e in
      let (coherent, cached, _) = find_or_open-cached topic tenant labels f.metrics c in
      let (_, s, found, _) =
        coherent.cached topic (find_or_open topic tenant labels f.metrics).0 cached in
      rw step (
        coherent,
        (λ j. find_or_open-active topic tenant labels f.metrics j c),
        λ k x. (s, ground (arith, found, x, at)),
      )

  pub get_log_sink-metrics : (get_log_sink md5 f key secret).1.metrics ≡ f.metrics
  unfolding get_log_sink
  get_log_sink-metrics = ground arith

  pub get_intake_sink-metrics : (get_intake_sink md5 f key secret).1.metrics ≡ f.metrics
  unfolding get_intake_sink
  get_intake_sink-metrics = ground arith
