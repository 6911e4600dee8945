-- ===== src/Ingestion/Loop/Progress.antt =====
-- The call objects never dereference a null sink (the READING cases of the streaming calls), so the
-- loop of `HandleRpcs` handles every event of a live object.
use bb_monitor.Base.{ℕ, suc, ◌≡◌, refl, Bool, List, [], ◌∷◌, none, some, Bytes, nat_key, arith}
use bb_monitor.Base.Maps.{lookup}
use bb_monitor.Outcome.{Outcome, ok, skipped, undefined, bind-eq-ok}
use bb_monitor.Ingestion.Factory.{SinkFactory}
use bb_monitor.Ingestion.Call.{
  reading, CallKind, put_metrics, put_metrics2, put_logs, put_logs2, put_intake, put_intake2,
  CallData, new_call, Input, Reply, Effect,
}
use bb_monitor.Ingestion.Metrics.{process_put_metrics, process_put_metrics2}
use bb_monitor.Ingestion.Metrics.Stored.{push_metrics-records}
use bb_monitor.Ingestion.Logs.{process_put_logs, process_put_logs2}
use bb_monitor.Ingestion.Logs.Stored.{push_logs-records}
use bb_monitor.Ingestion.Intakes.{process_put_intake, process_put_intake2}
use bb_monitor.Ingestion.Intakes.Stored.{push_intakes-records}
use bb_monitor.Ingestion.Loop.{
  Server, Event, event, after_ok, process_state, settle, handle_event, handle_rpcs, init_server,
  spawn_all,
}
use bb_monitor.Ingestion.Loop.Rounds.{handle_event-Round}
use bb_monitor.Ingestion.Loop.Objects.{
  Below, total, weight, total-settle, settle-Below, spawn_all-Below, le-total,
}

-- 1 for an object that reads and has no sink.
abbrev pub unready : CallData → ℕ
unready c = elim c.status [ reading ↦ elim c.sink [ none ↦ 1 | some h ↦ 0 ] | _ ↦ 0 ]

abbrev Returns : {D : Type 0} → Outcome (Effect D) → Type 0
Returns (ok e) = weight unready e.call ≡ 0
Returns skipped = ⊥
Returns undefined = ⊥

module _ {D : Type 0} (md5 : Bytes → Bytes) (c : CallData) (i : Input D) (f : SinkFactory D) where
  put_metrics-Returns : unready c ≡ 0 → Returns (process_put_metrics md5 c i f)
  unfolding process_put_metrics
  put_metrics-Returns h = grind (arith, push_metrics-records)

  put_metrics2-Returns : unready c ≡ 0 → Returns (process_put_metrics2 md5 c i f)
  unfolding process_put_metrics2
  put_metrics2-Returns h = grind (arith, push_metrics-records)

  put_logs-Returns : unready c ≡ 0 → Returns (process_put_logs md5 c i f)
  unfolding process_put_logs
  put_logs-Returns h = grind (arith, push_logs-records)

  put_logs2-Returns : unready c ≡ 0 → Returns (process_put_logs2 md5 c i f)
  unfolding process_put_logs2
  put_logs2-Returns h = grind (arith, push_logs-records)

  put_intake-Returns : unready c ≡ 0 → Returns (process_put_intake md5 c i f)
  unfolding process_put_intake
  put_intake-Returns h = grind (arith, push_intakes-records)

  put_intake2-Returns : unready c ≡ 0 → Returns (process_put_intake2 md5 c i f)
  unfolding process_put_intake2
  put_intake2-Returns h = grind (arith, push_intakes-records)

  process_state-Returns : (kind : CallKind) → unready c ≡ 0 → Returns (process_state md5 kind c i f)
  unfolding process_state
  process_state-Returns put_metrics = put_metrics-Returns
  process_state-Returns put_metrics2 = put_metrics2-Returns
  process_state-Returns put_logs = put_logs-Returns
  process_state-Returns put_logs2 = put_logs2-Returns
  process_state-Returns put_intake = put_intake-Returns
  process_state-Returns put_intake2 = put_intake2-Returns

-- The tags are distinct, and every object that reads has a sink.
pub record IsSafe {D : Type 0} (s : Server D) : Type 0 where
  pub tags : Below s.next_tag s.calls
  pub ready : total unready s.calls ≡ 0

Returns-ok :
    {D : Type 0} (o : Outcome (Effect D))
    → Returns o
    → (e : Effect D) × (o ≡ ok e) × (weight unready e.call ≡ 0)
Returns-ok (ok e) h = (e, refl, h)
Returns-ok skipped h = absurd h
Returns-ok undefined h = absurd h

after_ok-unready : (fine : Bool) (c : CallData) → unready c ≡ 0 → unready (after_ok fine c) ≡ 0
after_ok-unready fine c h = ground arith

spawn_all-ready :
    (kinds : List CallKind) (n : ℕ) (calls : List (ℕ × CallData))
    → total unready calls ≡ 0
    → total unready (spawn_all kinds (n, calls)).1 ≡ 0
spawn_all-ready [] n calls h = h
spawn_all-ready (k ∷ ks) n calls h =
    spawn_all-ready ks (suc n) ((n, new_call k) ∷ calls) (omega arith)

module _ {D : Type 0} (md5 : Bytes → Bytes) where
  handle_event_step :
      (tag : ℕ) (fine : Bool) (i : Input D) (c : CallData) (s : Server D)
      → IsSafe s
      → lookup tag s.calls ≡ some c
      → (e : Effect D) × (process_state md5 c.kind (after_ok fine c) i s.factory ≡ ok e)
        × IsSafe (settle tag c.kind e s)
  handle_event_step tag fine i c s v found =
      let calm : unready c ≡ 0 = omega (arith, v.ready, le-total unready tag c s.calls found) in
      let (e, step, still) = Returns-ok (process_state md5 c.kind (after_ok fine c) i s.factory) (
        process_state-Returns md5 (after_ok fine c) i s.factory c.kind
          (after_ok-unready fine c calm)) in
      (
        e,
        step,
        record {
          tags = settle-Below tag c e s found v.tags;
          ready = ground (arith, v.ready, still, calm, total-settle unready tag c e s v.tags found);
        },
      )

  handle_event-IsSafe :
      (ev : Event D) (s t : Server D) (r : Reply)
      → IsSafe s
      → handle_event md5 ev s ≡ ok (t, r)
      → IsSafe t
  handle_event-IsSafe ev s t r v h =
      let q = handle_event-Round md5 ev s t r h in
      let (e, step, safe) = handle_event_step q.tag q.fine q.input q.call s v q.found in
      let same : q.effect ≡ e = ground (arith, q.step, step) in rw (q.moved, same) safe

  handle_rpcs-IsSafe :
      (es : List (Event D)) (s t : Server D) → IsSafe s → handle_rpcs md5 es s ≡ ok t → IsSafe t
  unfolding handle_rpcs
  handle_rpcs-IsSafe [] s t v h = let same : s ≡ t = ground arith in rw (← same) v
  handle_rpcs-IsSafe (ev ∷ es) s t v h =
      let ((u, r), first, rest) =
        bind-eq-ok (handle_event md5 ev s) (λ p. handle_rpcs md5 es p.0) h in
      handle_rpcs-IsSafe es u t (handle_event-IsSafe ev s u r v first) rest

  init_server-IsSafe :
      (kinds : List CallKind) (f : SinkFactory D) → IsSafe (init_server md5 kinds f)
  unfolding init_server
  init_server-IsSafe kinds f = record {
    tags = spawn_all-Below kinds 0 [] tt;
    ready = spawn_all-ready kinds 0 [] refl;
  }

  -- After any events that the loop handled, it handles every event of a live object, failed or not,
  -- without dereferencing a null sink.
  pub handle_event-live :
      (kinds : List CallKind) (f : SinkFactory D) (es : List (Event D)) (s : Server D) (tag : ℕ)
      (c : CallData) (fine : Bool) (i : Input D)
      → handle_rpcs md5 es (init_server md5 kinds f) ≡ ok s
      → lookup tag s.calls ≡ some c
      → (r : Server D × Reply) × (handle_event md5 (event tag fine i) s ≡ ok r)
  unfolding handle_event
  handle_event-live kinds f es s tag c fine i h found =
      let v = handle_rpcs-IsSafe es _ s (init_server-IsSafe kinds f) h in
      let (e, step, _) = handle_event_step tag fine i c s v found in
      ((settle tag c.kind e s, e.reply), ground (arith, found, step))
