-- ===== src/Ingestion/Loop.antt =====
-- main.cpp, `ServerImpl::HandleRpcs`: the completion queue hands over the tag of a call object, which
-- is then driven one step. A tag is the object's address: the key of its entry in `calls`.
pub mod Rounds
pub mod Objects
pub mod Acceptors
pub mod Progress
pub mod Tallies
pub mod Sessions
use bb_monitor.Base.{
  ℕ, suc, Bool, true, false, Option, none, some, List, [], ◌∷◌, Bytes, nat_key, if◌then◌else◌,
}
use bb_monitor.Base.Maps.{lookup, assign, erase}
use bb_monitor.Outcome.{Outcome, ok, skipped, undefined, ◌>>=◌, deref}
use bb_monitor.Ingestion.Factory.{SinkFactory}
use bb_monitor.Ingestion.Call.{
  CallStatus, start, reading, reading_failed, CallKind, put_metrics, put_metrics2, put_logs,
  put_logs2, put_intake, put_intake2, CallData, new_call, Input, Reply, Effect,
}
use bb_monitor.Ingestion.Metrics.{process_put_metrics, process_put_metrics2}
use bb_monitor.Ingestion.Logs.{process_put_logs, process_put_logs2}
use bb_monitor.Ingestion.Intakes.{process_put_intake, process_put_intake2}

-- The newest object stands first.
pub record Server (D : Type 0) : Type 0 where
  pub factory : SinkFactory D
  pub calls : List (ℕ × CallData)
  pub next_tag : ℕ

-- What `cq_->Next` answers: the queue is shut down (the tag stays null), or an event of a call.
pub data Event (D : Type 0) : Type 0 where
  shutdown : Event D
  event : ℕ → Bool → Input D → Event D

abbrev pub spawn : CallKind → ℕ × List (ℕ × CallData) → ℕ × List (ℕ × CallData)
spawn kind (next, calls) = (suc next, (next, new_call kind) ∷ calls)

-- `if (!ok && p->get_state() == READING) p->set_state(READING_FAILED)`
abbrev pub after_ok : Bool → CallData → CallData
after_ok true c = c
after_ok false c = elim c.status [ reading ↦ record c { status = reading_failed } | _ ↦ c ]

abbrev pub spawn_all : List CallKind → ℕ × List (ℕ × CallData) → ℕ × List (ℕ × CallData)
spawn_all [] s = s
spawn_all (k ∷ ks) s = spawn_all ks (spawn k s)

-- The objects that `HandleRpcs` makes before its loop: the three single calls.
abbrev pub served_kinds : List CallKind
served_kinds = put_metrics2 ∷ put_intake2 ∷ put_logs2 ∷ []

-- The live objects after one call of `process_state` on the object at `tag`.
abbrev pub kept_calls : ℕ → Option CallData → List (ℕ × CallData) → List (ℕ × CallData)
kept_calls tag none calls = erase tag calls
kept_calls tag (some c) calls = assign tag c calls

abbrev pub settle : {D : Type 0} → ℕ → CallKind → Effect D → Server D → Server D
settle tag kind e s =
    let calls = kept_calls tag e.call s.calls in
    let (next, all) = if e.spawned then spawn kind (s.next_tag, calls) else (s.next_tag, calls) in
    record { factory = e.factory; calls = all; next_tag = next }

module _ {D : Type 0} (md5 : Bytes → Bytes) where
  -- The virtual call `process_state()`.
  unfoldable pub process_state : CallKind → CallData → Input D → SinkFactory D → Outcome (Effect D)
  process_state put_metrics = process_put_metrics md5
  process_state put_metrics2 = process_put_metrics2 md5
  process_state put_logs = process_put_logs md5
  process_state put_logs2 = process_put_logs2 md5
  process_state put_intake = process_put_intake md5
  process_state put_intake2 = process_put_intake2 md5

  unfoldable pub init_server : List CallKind → SinkFactory D → Server D
  init_server kinds f =
      let (next, calls) = spawn_all kinds (0, []) in
      record { factory = f; calls = calls; next_tag = next }

  -- One round of the loop, with what it asks of gRPC.
  unfoldable pub handle_event : Event D → Server D → Outcome (Server D × Reply)
  handle_event shutdown s = undefined
  handle_event (event tag ok? i) s = do
    c ← deref (lookup tag s.calls)
    e ← process_state c.kind (after_ok ok? c) i s.factory
    ok (settle tag c.kind e s, e.reply)

  -- The loop over a sequence of events.
  unfoldable pub handle_rpcs : List (Event D) → Server D → Outcome (Server D)
  handle_rpcs [] s = ok s
  handle_rpcs (e ∷ es) s = do r ← handle_event e s; handle_rpcs es r.0
