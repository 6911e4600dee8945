-- ===== src/Ingestion/Factory/Caching.antt =====
-- The caches of kafka_sink_facory.cpp: one sink for each physical topic.
use bb_monitor.Base.{
  ℕ, ◌≤◌, ◌<◌, ◌≡◌, ◌↔◌, inl, inr, ap, sym, ◌∙◌, none, some, List, Bytes, codes, ℤ, pos, bytes_key,
  nat_key, bytes_eq, bytes_eq_iff, arith, Option-cases, Bool-cases,
}
use bb_monitor.Base.Maps.{lookup, lookup-assign, lookup-assign_self}
use bb_monitor.Authorizer.{authorize_write}
use bb_monitor.Ingestion.Sink.{Sink, SinkTable, open_sink, new_sink}
use bb_monitor.Ingestion.Factory.{
  SinkFactory, find_or_open, metrics_labels, log_labels, intake_labels, get_metrics_sink,
  get_log_sink, get_intake_sink,
}

-- Every cached handle points to a sink for its topic, and the handles from `next` on are unused.
pub record IsCoherent {V : Type 0} (t : SinkTable V) : Type 0 where
  pub cached :
      (topic : Bytes) (h : ℕ)
      → lookup topic t.cache ≡ some h
      → (h < t.next) × (s : Sink V) × (lookup h t.sinks ≡ some s) × (s.topic ≡ topic)
  pub fresh : (h : ℕ) → t.next ≤ h → lookup h t.sinks ≡ none

module _ {V : Type 0} (topic : Bytes) (tenant : ℤ) (labels : List (Bytes × Bytes)) where
  pub open_sink-IsCoherent :
      (t : SinkTable V) → IsCoherent t → IsCoherent (open_sink topic tenant labels t)
  unfolding open_sink
  open_sink-IsCoherent t c = record {
    cached = λ k h e. elim (Bool-cases (bytes_eq topic k)) [
      | inl same ↦ (
        ground (arith, lookup-assign k topic t.next t.cache),
        new_sink topic tenant labels,
        ground (
          arith,
          lookup-assign k topic t.next t.cache,
          lookup-assign h t.next (new_sink topic tenant labels) t.sinks,
        ),
        (bytes_eq_iff topic k).0 same,
      )
      | inr other ↦
          let old : lookup k t.cache ≡ some h =
            ground (arith, lookup-assign k topic t.next t.cache) in
          let (below, s, found, named) = c.cached k h old in
          (
            omega arith,
            s,
            ground (arith, lookup-assign h t.next (new_sink topic tenant labels) t.sinks),
            named,
          )
    ];
    fresh = λ h above. ground (
      arith,
      c.fresh h (omega arith),
      lookup-assign h t.next (new_sink topic tenant labels) t.sinks,
    );
  }

  -- What the tail of the three methods hands back: the sink that the cache now has for the topic.
  pub find_or_open-cached :
      (t : SinkTable V)
      → IsCoherent t
      → let (h, u) = find_or_open topic tenant labels t in
        IsCoherent u
        × (lookup topic u.cache ≡ some h)
        × ((k : Bytes) (j : ℕ) → lookup k t.cache ≡ some j → lookup k u.cache ≡ some j)
  unfolding find_or_open open_sink
  find_or_open-cached t c = elim (Option-cases (lookup topic t.cache)) [
    | inl e ↦
        rw (e, find_or_open)
          (
            open_sink-IsCoherent t c,
            lookup-assign_self topic t.next t.cache,
            λ k j f.
                ground (arith, e, f, lookup-assign k topic t.next t.cache, bytes_eq_iff topic k),
          )
    | inr (h, e) ↦ rw (e, find_or_open) (c, e, λ k j f. f)
  ]

-- One sink does not stand for two topics.
pub cached_injective :
    {V : Type 0} (t : SinkTable V) (k l : Bytes) (h : ℕ)
    → IsCoherent t
    → lookup k t.cache ≡ some h
    → lookup l t.cache ≡ some h
    → k ≡ l
cached_injective t k l h c e f =
    let (_, s, found, named) = c.cached k h e in let (_, s', found', named') = c.cached l h f in cc

module _ {V : Type 0} (topic topic' : Bytes) (tenant tenant' : ℤ) where
  find_or_open_shared :
      (labels labels' : List (Bytes × Bytes)) (t : SinkTable V)
      → IsCoherent t
      → let (h, u) = find_or_open topic tenant labels t in
        let (h', u') = find_or_open topic' tenant' labels' u in
        IsCoherent u' × ((h ≡ h') ↔ (topic ≡ topic'))
  find_or_open_shared labels labels' t c =
      let (h, u) = find_or_open topic tenant labels t in
      let (h', u') = find_or_open topic' tenant' labels' u in
      let (c₁, at, _) = find_or_open-cached topic tenant labels t c in
      let (c₂, at', kept) = find_or_open-cached topic' tenant' labels' u c₁ in
      let first = kept topic h at in
      (
        c₂,
        (
          λ e. cached_injective u' topic topic' h c₂ first (at' ∙ ap some (sym e)),
          λ e. let both : some h ≡ some h' = sym first ∙ ap (λ k. lookup k u'.cache) e ∙ at' in cc,
        ),
      )

module _ {D : Type 0} (md5 : Bytes → Bytes) where
  -- A call without write access to the metrics gets no sink and leaves the factory as it was.
  pub get_metrics_sink_refused :
      (f : SinkFactory D) (api_key secret : Bytes)
      → (authorize_write md5 f.authorizer api_key secret (codes "metrics")).1 ≡ pos 0
      → get_metrics_sink md5 f api_key secret ≡ (none, f)
  unfolding get_metrics_sink
  get_metrics_sink_refused f api_key secret e = ground arith

  pub get_metrics_sink-find_or_open :
      (f : SinkFactory D) (api_key secret : Bytes) {h : ℕ} {g : SinkFactory D}
      → get_metrics_sink md5 f api_key secret ≡ (some h, g)
      → let (topic, tenant) = authorize_write md5 f.authorizer api_key secret (codes "metrics") in
        (h ≡ (find_or_open topic tenant (metrics_labels f.labels topic tenant) f.metrics).0)
        × (g ≡ record f {
          metrics = (find_or_open topic tenant (metrics_labels f.labels topic tenant) f.metrics).1;
        })
  unfolding get_metrics_sink
  get_metrics_sink-find_or_open f api_key secret e = ground arith

  -- From a factory with a coherent cache, two metrics calls that are let in, one after the other, share a
  -- sink exactly when they write to the same physical topic, and the cache stays coherent.
  pub get_metrics_sink_shared :
      (f : SinkFactory D) (key secret key' secret' : Bytes) {h h' : ℕ} {g g' : SinkFactory D}
      → IsCoherent f.metrics
      → get_metrics_sink md5 f key secret ≡ (some h, g)
      → get_metrics_sink md5 g key' secret' ≡ (some h', g')
      → IsCoherent g'.metrics
        × ((h ≡ h') ↔ (
            (authorize_write md5 f.authorizer key secret (codes "metrics")).0
            ≡ (authorize_write md5 f.authorizer key' secret' (codes "metrics")).0))
  get_metrics_sink_shared f key secret key' secret' {h} {h'} {g} {g'} c e e' =
      let (topic, tenant) = authorize_write md5 f.authorizer key secret (codes "metrics") in
      let (topic', tenant') = authorize_write md5 f.authorizer key' secret' (codes "metrics") in
      let (at, step) = get_metrics_sink-find_or_open f key secret e in
      let (at', step') = get_metrics_sink-find_or_open g key' secret' e' in
      rw (step', at', at, step)
        (find_or_open_shared topic topic' tenant tenant' (metrics_labels f.labels topic tenant)
          (metrics_labels f.labels topic' tenant') f.metrics c)

  -- A call without write access to the logs gets no sink and leaves the factory as it was.
  pub get_log_sink_refused :
      (f : SinkFactory D) (api_key secret : Bytes)
      → (authorize_write md5 f.authorizer api_key secret (codes "logs")).1 ≡ pos 0
      → get_log_sink md5 f api_key secret ≡ (none, f)
  unfolding get_log_sink
  get_log_sink_refused f api_key secret e = ground arith

  pub get_log_sink-find_or_open :
      (f : SinkFactory D) (api_key secret : Bytes) {h : ℕ} {g : SinkFactory D}
      → get_log_sink md5 f api_key secret ≡ (some h, g)
      → let (topic, tenant) = authorize_write md5 f.authorizer api_key secret (codes "logs") in
        (h ≡ (find_or_open topic tenant (log_labels topic tenant) f.logs).0)
        × (g ≡ record f { logs = (find_or_open topic tenant (log_labels topic tenant) f.logs).1 })
  unfolding get_log_sink
  get_log_sink-find_or_open f api_key secret e = ground arith

  -- From a factory with a coherent cache, two log calls that are let in, one after the other, share a
  -- sink exactly when they write to the same physical topic, and the cache stays coherent.
  pub get_log_sink_shared :
      (f : SinkFactory D) (key secret key' secret' : Bytes) {h h' : ℕ} {g g' : SinkFactory D}
      → IsCoherent f.logs
      → get_log_sink md5 f key secret ≡ (some h, g)
      → get_log_sink md5 g key' secret' ≡ (some h', g')
      → IsCoherent g'.logs
        × ((h ≡ h') ↔ (
            (authorize_write md5 f.authorizer key secret (codes "logs")).0
            ≡ (authorize_write md5 f.authorizer key' secret' (codes "logs")).0))
  get_log_sink_shared f key secret key' secret' {h} {h'} {g} {g'} c e e' =
      let (topic, tenant) = authorize_write md5 f.authorizer key secret (codes "logs") in
      let (topic', tenant') = authorize_write md5 f.authorizer key' secret' (codes "logs") in
      let (at, step) = get_log_sink-find_or_open f key secret e in
      let (at', step') = get_log_sink-find_or_open g key' secret' e' in
      rw (step', at', at, step)
        (find_or_open_shared topic topic' tenant tenant' (log_labels topic tenant)
          (log_labels topic' tenant') f.logs c)

  -- A call without write access to the intake gets no sink and leaves the factory as it was.
  pub get_intake_sink_refused :
      (f : SinkFactory D) (api_key secret : Bytes)
      → (authorize_write md5 f.authorizer api_key secret (codes "intake")).1 ≡ pos 0
      → get_intake_sink md5 f api_key secret ≡ (none, f)
  unfolding get_intake_sink
  get_intake_sink_refused f api_key secret e = ground arith

  pub get_intake_sink-find_or_open :
      (f : SinkFactory D) (api_key secret : Bytes) {h : ℕ} {g : SinkFactory D}
      → get_intake_sink md5 f api_key secret ≡ (some h, g)
      → let (topic, tenant) = authorize_write md5 f.authorizer api_key secret (codes "intake") in
        (h ≡ (find_or_open topic tenant (intake_labels topic) f.intake).0)
        × (g ≡ record f { intake = (find_or_open topic tenant (intake_labels topic) f.intake).1 })
  unfolding get_intake_sink
  get_intake_sink-find_or_open f api_key secret e = ground arith

  -- From a factory with a coherent cache, two intake calls that are let in, one after the other, share a
  -- sink exactly when they write to the same physical topic, and the cache stays coherent.
  pub get_intake_sink_shared :
      (f : SinkFactory D) (key secret key' secret' : Bytes) {h h' : ℕ} {g g' : SinkFactory D}
      → IsCoherent f.intake
      → get_intake_sink md5 f key secret ≡ (some h, g)
      → get_intake_sink md5 g key' secret' ≡ (some h', g')
      → IsCoherent g'.intake
        × ((h ≡ h') ↔ (
            (authorize_write md5 f.authorizer key secret (codes "intake")).0
            ≡ (authorize_write md5 f.authorizer key' secret' (codes "intake")).0))
  get_intake_sink_shared f key secret key' secret' {h} {h'} {g} {g'} c e e' =
      let (topic, tenant) = authorize_write md5 f.authorizer key secret (codes "intake") in
      let (topic', tenant') = authorize_write md5 f.authorizer key' secret' (codes "intake") in
      let (at, step) = get_intake_sink-find_or_open f key secret e in
      let (at', step') = get_intake_sink-find_or_open g key' secret' e' in
      rw (step', at', at, step)
        (find_or_open_shared topic topic' tenant tenant' (intake_labels topic)
          (intake_labels topic') f.intake c)
