-- ===== src/Ingestion/Loop/Rounds.antt =====
-- One round of `HandleRpcs`, split into the object that the event is for, its step, and the new server.
use bb_monitor.Base.{ℕ, ◌≡◌, Bool, some, Bytes, nat_key, inl, inr, arith, Option-cases}
use bb_monitor.Base.Maps.{lookup}
use bb_monitor.Outcome.{Outcome, ok, bind-eq-ok}
use bb_monitor.Ingestion.Call.{CallData, Input, Reply, Effect}
use bb_monitor.Ingestion.Loop.{
  Server, Event, shutdown, event, after_ok, process_state, settle, handle_event,
}

pub record Round {D : Type 0} (md5 : Bytes → Bytes) (s t : Server D) : Type 0 where
  pub tag : ℕ
  pub fine : Bool
  pub input : Input D
  pub call : CallData
  pub effect : Effect D
  pub found : lookup tag s.calls ≡ some call
  pub step : process_state md5 call.kind (after_ok fine call) input s.factory ≡ ok effect
  pub moved : t ≡ settle tag call.kind effect s

module _ {D : Type 0} (md5 : Bytes → Bytes) where
  pub handle_event-Round :
      (ev : Event D) (s t : Server D) (r : Reply)
      → handle_event md5 ev s ≡ ok (t, r)
      → Round md5 s t
  unfolding handle_event
  handle_event-Round shutdown s t r h = cc
  handle_event-Round (event tag fine i) s t r h = elim (Option-cases (lookup tag s.calls)) [
    | inl e ↦ absurd (ground arith)
    | inr (c, found) ↦
        let finish : Effect D → Outcome (Server D × Reply) =
          λ e. ok (settle tag c.kind e s, e.reply) in
        let (e, step, done) =
          bind-eq-ok (process_state md5 c.kind (after_ok fine c) i s.factory) finish {b = (t, r)}
            (ground arith) in
        record {
          tag = tag;
          fine = fine;
          input = i;
          call = c;
          effect = e;
          found = found;
          step = step;
          moved = ground arith;
        }
  ]
