-- ===== src/Ingestion/Loop/Acceptors.antt =====
-- `HandleRpcs` never runs out of objects that wait for a call (main.cpp and the START cases of the
-- six call objects).
use bb_monitor.Base.{
  ℕ, suc, ◌+◌, ◌≡◌, ◌∙◌, Bool, true, false, ◌&&◌, List, [], ◌∷◌, Bytes, nat_key, arith,
  if◌then◌else◌,
}
use mathlib.Core.Path.{subst}
use bb_monitor.Outcome.{ok, bind-eq-ok}
use bb_monitor.Ingestion.Factory.{SinkFactory}
use bb_monitor.Ingestion.Call.{
  CallStatus, start, CallKind, put_metrics, put_metrics2, put_logs, put_logs2, put_intake,
  put_intake2, CallData, new_call, Input, Reply, Effect, kind_eq,
}
use bb_monitor.Ingestion.Metrics.{process_put_metrics, process_put_metrics2}
use bb_monitor.Ingestion.Logs.{process_put_logs, process_put_logs2}
use bb_monitor.Ingestion.Intakes.{process_put_intake, process_put_intake2}
use bb_monitor.Ingestion.Loop.{
  Server, Event, after_ok, process_state, handle_event, handle_rpcs, init_server, spawn_all,
}
use bb_monitor.Ingestion.Loop.Rounds.{handle_event-Round}
use bb_monitor.Ingestion.Loop.Objects.{
  Below, total, weight, total-settle, settle-Below, spawn_all-Below,
}

abbrev pub is_start : CallStatus → Bool
is_start start = true
is_start _ = false

-- 1 for an object of class `k` that no call has reached yet.
abbrev pub waits : CallKind → CallData → ℕ
waits k c = if kind_eq k c.kind && is_start c.status then 1 else 0

after_ok-waits : (k : CallKind) (ok? : Bool) (c : CallData) → waits k (after_ok ok? c) ≡ waits k c
after_ok-waits k ok? c = ground arith

pub after_ok-kind : (ok? : Bool) (c : CallData) → (after_ok ok? c).kind ≡ c.kind
after_ok-kind ok? c = ground arith

module _ {D : Type 0} (md5 : Bytes → Bytes) where
  -- What a step leaves of the waiting objects: as many as before.
  abbrev Replaces : CallKind → CallKind → CallData → Effect D → Type 0
  Replaces k kind c e =
      weight (waits k) e.call + (if e.spawned then waits k (new_call kind) else 0) ≡ waits k c

  put_metrics-Replaces :
      (k : CallKind) (c : CallData) (i : Input D) (f : SinkFactory D) {e : Effect D}
      → process_put_metrics md5 c i f ≡ ok e
      → Replaces k c.kind c e
  unfolding process_put_metrics
  put_metrics-Replaces k c i f h = ground arith

  put_metrics2-Replaces :
      (k : CallKind) (c : CallData) (i : Input D) (f : SinkFactory D) {e : Effect D}
      → process_put_metrics2 md5 c i f ≡ ok e
      → Replaces k c.kind c e
  unfolding process_put_metrics2
  put_metrics2-Replaces k c i f h = ground arith

  put_logs-Replaces :
      (k : CallKind) (c : CallData) (i : Input D) (f : SinkFactory D) {e : Effect D}
      → process_put_logs md5 c i f ≡ ok e
      → Replaces k c.kind c e
  unfolding process_put_logs
  put_logs-Replaces k c i f h = ground arith

  put_logs2-Replaces :
      (k : CallKind) (c : CallData) (i : Input D) (f : SinkFactory D) {e : Effect D}
      → process_put_logs2 md5 c i f ≡ ok e
      → Replaces k c.kind c e
  unfolding process_put_logs2
  put_logs2-Replaces k c i f h = ground arith

  put_intake-Replaces :
      (k : CallKind) (c : CallData) (i : Input D) (f : SinkFactory D) {e : Effect D}
      → process_put_intake md5 c i f ≡ ok e
      → Replaces k c.kind c e
  unfolding process_put_intake
  put_intake-Replaces k c i f h = ground arith

  put_intake2-Replaces :
      (k : CallKind) (c : CallData) (i : Input D) (f : SinkFactory D) {e : Effect D}
      → process_put_intake2 md5 c i f ≡ ok e
      → Replaces k c.kind c e
  unfolding process_put_intake2
  put_intake2-Replaces k c i f h = ground arith

  process_state-Replaces :
      (k kind : CallKind) (c : CallData) (i : Input D) (f : SinkFactory D) {e : Effect D}
      → process_state md5 kind c i f ≡ ok e
      → Replaces k c.kind c e
  unfolding process_state
  process_state-Replaces k put_metrics c i f h = put_metrics-Replaces k c i f h
  process_state-Replaces k put_metrics2 c i f h = put_metrics2-Replaces k c i f h
  process_state-Replaces k put_logs c i f h = put_logs-Replaces k c i f h
  process_state-Replaces k put_logs2 c i f h = put_logs2-Replaces k c i f h
  process_state-Replaces k put_intake c i f h = put_intake-Replaces k c i f h
  process_state-Replaces k put_intake2 c i f h = put_intake2-Replaces k c i f h

  -- A round of the loop keeps, for each class, the number of objects that wait for a call.
  pub handle_event-waits :
      (k : CallKind) (ev : Event D) (s t : Server D) (r : Reply)
      → Below s.next_tag s.calls
      → handle_event md5 ev s ≡ ok (t, r)
      → Below t.next_tag t.calls × (total (waits k) t.calls ≡ total (waits k) s.calls)
  handle_event-waits k ev s t r b h =
      let q = handle_event-Round md5 ev s t r h in
      let c = after_ok q.fine q.call in
      let replaced : Replaces k q.call.kind c q.effect =
        subst (λ j. Replaces k j c q.effect) (after_ok-kind q.fine q.call)
          (process_state-Replaces k q.call.kind c q.input s.factory q.step) in
      rw q.moved (
        settle-Below q.tag q.call q.effect s q.found b,
        omega (
          arith,
          total-settle (waits k) q.tag q.call q.effect s b q.found,
          replaced,
          after_ok-waits k q.fine q.call,
        ),
      )

  handle_rpcs-waits :
      (k : CallKind) (es : List (Event D)) (s t : Server D)
      → Below s.next_tag s.calls
      → handle_rpcs md5 es s ≡ ok t
      → total (waits k) t.calls ≡ total (waits k) s.calls
  unfolding handle_rpcs
  handle_rpcs-waits k [] s t b h = ground arith
  handle_rpcs-waits k (ev ∷ es) s t b h =
      let ((u, r), first, rest) =
        bind-eq-ok (handle_event md5 ev s) (λ p. handle_rpcs md5 es p.0) h in
      let (below, same) = handle_event-waits k ev s u r b first in
      handle_rpcs-waits k es u t below rest ∙ same

abbrev pub count_kind : CallKind → List CallKind → ℕ
count_kind k [] = 0
count_kind k (j ∷ js) = (if kind_eq k j then 1 else 0) + count_kind k js

spawn_all-waits :
    (k : CallKind) (kinds : List CallKind) (n : ℕ) (calls : List (ℕ × CallData))
    → total (waits k) (spawn_all kinds (n, calls)).1 ≡ count_kind k kinds + total (waits k) calls
spawn_all-waits k [] n calls = omega arith
spawn_all-waits k (j ∷ js) n calls =
    ground (arith, spawn_all-waits k js (suc n) ((n, new_call j) ∷ calls))

-- After any events that the loop handled, as many objects of each class wait for a call as were made
-- before the loop.
pub handle_rpcs-acceptors :
    {D : Type 0} (md5 : Bytes → Bytes) (k : CallKind) (kinds : List CallKind) (f : SinkFactory D)
    (es : List (Event D)) (t : Server D)
    → handle_rpcs md5 es (init_server md5 kinds f) ≡ ok t
    → total (waits k) t.calls ≡ count_kind k kinds
unfolding init_server
handle_rpcs-acceptors md5 k kinds f es t h = omega (
  arith,
  handle_rpcs-waits md5 k es _ t (spawn_all-Below kinds 0 [] tt) h,
  spawn_all-waits k kinds 0 [],
)
