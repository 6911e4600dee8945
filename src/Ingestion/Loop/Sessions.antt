-- ===== src/Ingestion/Loop/Sessions.antt =====
-- The gauge of active metrics sessions against the live objects, over the rounds of the loop.
use bb_monitor.Base.{ℕ, suc, ◌-◌, ◌≡◌, refl, Bool, List, [], ◌∷◌, some, Bytes, pos, nat_key, arith}
use bb_monitor.Base.Maps.{lookup}
use bb_monitor.Outcome.{ok, bind-eq-ok}
use bb_monitor.Messages.{AvroMetric}
use bb_monitor.Ingestion.Sink.{Sink}
use bb_monitor.Ingestion.Factory.{SinkFactory}
use bb_monitor.Ingestion.Factory.Caching.{IsCoherent}
use bb_monitor.Ingestion.Factory.Sessions.{active}
use bb_monitor.Ingestion.Call.{
  CallKind, put_metrics, put_metrics2, put_logs, put_logs2, put_intake, put_intake2, CallData,
  new_call, Input, Reply, Effect,
}
use bb_monitor.Ingestion.Loop.{
  Server, Event, after_ok, process_state, handle_event, handle_rpcs, init_server, spawn_all,
}
use bb_monitor.Ingestion.Loop.Acceptors.{after_ok-kind}
use bb_monitor.Ingestion.Loop.Rounds.{handle_event-Round}
use bb_monitor.Ingestion.Loop.Objects.{
  Below, total, total-settle, settle-Below, le-total, spawn_all-Below,
}
use bb_monitor.Ingestion.Loop.Tallies.{
  holds, Tallies, put_logs-Untouched, put_logs2-Untouched, put_intake-Untouched,
  put_intake2-Untouched, Untouched-Tallies,
}
use bb_monitor.Ingestion.Loop.Tallies.Streams.{put_metrics-Tallies, put_metrics2-Tallies}

module _ {D : Type 0} (md5 : Bytes → Bytes) (c : CallData) (i : Input D) (f : SinkFactory D) where
  process_state-Tallies :
      (kind : CallKind) (e : Effect D) (h n : ℕ)
      → process_state md5 kind c i f ≡ ok e
      → c.kind ≡ kind
      → Tallies h n (some c) f.metrics
      → Tallies h n e.call e.factory.metrics
  unfolding process_state
  process_state-Tallies put_metrics e h n p k = put_metrics-Tallies md5 c i f e h n p k
  process_state-Tallies put_metrics2 e h n p k = put_metrics2-Tallies md5 c i f e h n p k
  process_state-Tallies put_logs e h n p k =
      Untouched-Tallies md5 c i f put_logs e h n (put_logs-Untouched md5 c i f e p) k
  process_state-Tallies put_logs2 e h n p k =
      Untouched-Tallies md5 c i f put_logs2 e h n (put_logs2-Untouched md5 c i f e p) k
  process_state-Tallies put_intake e h n p k =
      Untouched-Tallies md5 c i f put_intake e h n (put_intake-Untouched md5 c i f e p) k
  process_state-Tallies put_intake2 e h n p k =
      Untouched-Tallies md5 c i f put_intake2 e h n (put_intake2-Untouched md5 c i f e p) k

-- The tags are distinct, the factory's cache of metrics sinks is coherent, and the gauge of each
-- metrics sink is the number of streams that have been let in to it and not deleted yet.
pub record IsTallied {D : Type 0} (s : Server D) : Type 0 where
  pub tags : Below s.next_tag s.calls
  pub coherent : IsCoherent s.factory.metrics
  pub gauges : (h : ℕ) → active h s.factory.metrics ≡ pos (total (holds h) s.calls)

after_ok-holds : (h : ℕ) (fine : Bool) (c : CallData) → holds h (after_ok fine c) ≡ holds h c
after_ok-holds h fine c = ground arith

spawn_all-holds :
    (h : ℕ) (kinds : List CallKind) (n : ℕ) (calls : List (ℕ × CallData))
    → total (holds h) (spawn_all kinds (n, calls)).1 ≡ total (holds h) calls
spawn_all-holds h [] n calls = refl
spawn_all-holds h (k ∷ ks) n calls =
    ground (arith, spawn_all-holds h ks (suc n) ((n, new_call k) ∷ calls))

module _ {D : Type 0} (md5 : Bytes → Bytes) where
  -- A round of the loop keeps the gauge of every metrics sink at the number of its live streams.
  pub handle_event-IsTallied :
      (ev : Event D) (s t : Server D) (r : Reply)
      → IsTallied s
      → handle_event md5 ev s ≡ ok (t, r)
      → IsTallied t
  handle_event-IsTallied ev s t r v h =
      let q = handle_event-Round md5 ev s t r h in
      let c = after_ok q.fine q.call in
      let tallied = λ (j : ℕ).
        process_state-Tallies md5 c q.input s.factory q.call.kind q.effect j
          (total (holds j) s.calls - holds j q.call) q.step (after_ok-kind q.fine q.call)
          (
            v.coherent,
            ground (
              arith,
              v.gauges j,
              after_ok-holds j q.fine q.call,
              le-total (holds j) q.tag q.call s.calls q.found,
            ),
          ) in
      rw q.moved (record {
        tags = settle-Below q.tag q.call q.effect s q.found v.tags;
        coherent = (tallied 0).0;
        gauges = λ j. ground (
          arith,
          (tallied j).1,
          total-settle (holds j) q.tag q.call q.effect s v.tags q.found,
          le-total (holds j) q.tag q.call s.calls q.found,
        );
      })

  handle_rpcs-IsTallied :
      (es : List (Event D)) (s t : Server D)
      → IsTallied s
      → handle_rpcs md5 es s ≡ ok t
      → IsTallied t
  unfolding handle_rpcs
  handle_rpcs-IsTallied [] s t v h = let same : s ≡ t = ground arith in rw (← same) v
  handle_rpcs-IsTallied (ev ∷ es) s t v h =
      let ((u, r), first, rest) =
        bind-eq-ok (handle_event md5 ev s) (λ p. handle_rpcs md5 es p.0) h in
      handle_rpcs-IsTallied es u t (handle_event-IsTallied ev s u r v first) rest

  init_server-IsTallied :
      (kinds : List CallKind) (f : SinkFactory D)
      → IsCoherent f.metrics
      → ((h : ℕ) → active h f.metrics ≡ pos 0)
      → IsTallied (init_server md5 kinds f)
  unfolding init_server
  init_server-IsTallied kinds f v idle = record {
    tags = spawn_all-Below kinds 0 [] tt;
    coherent = v;
    gauges = λ h. ground (arith, idle h, spawn_all-holds h kinds 0 []);
  }

  -- From a factory with a coherent cache and idle sinks, and after any events that the loop handled, the gauge of active
  -- sessions of each metrics sink is the number of live streams that were let in to it.
  pub handle_rpcs-sessions :
      (kinds : List CallKind) (f : SinkFactory D) (es : List (Event D)) (t : Server D) (h : ℕ)
      (s : Sink (AvroMetric D))
      → IsCoherent f.metrics
      → ((j : ℕ) → active j f.metrics ≡ pos 0)
      → handle_rpcs md5 es (init_server md5 kinds f) ≡ ok t
      → lookup h t.factory.metrics.sinks ≡ some s
      → s.active_session_count ≡ pos (total (holds h) t.calls)
  handle_rpcs-sessions kinds f es t h s v idle run found =
      let tallied = handle_rpcs-IsTallied es _ t (init_server-IsTallied kinds f v idle) run in
      ground (arith, tallied.gauges h, found)
