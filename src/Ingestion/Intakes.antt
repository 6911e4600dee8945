-- ===== src/Ingestion/Intakes.antt =====
-- put_intake_call_data.h (a stream of bundles) and put_intake2_call_data.h (one bundle).
pub mod Stored
use bb_monitor.Base.{ℕ, suc, ◌+◌, Bool, true, false, Option, none, some, List, [], ◌∷◌, Bytes, ℤ}
use bb_monitor.Outcome.{Outcome, ok, skipped, undefined, ◌>>=◌, deref}
use bb_monitor.Messages.{Intake, AvroIntake}
use bb_monitor.ApiKey.{get_api_key, get_api_secret, get_forwarded_for}
use bb_monitor.Ingestion.Sink.{
  SinkTable, on_sink, push_back, begin_session, end_session, count_session,
}
use bb_monitor.Ingestion.Factory.{SinkFactory, get_intake_sink}
use bb_monitor.Ingestion.Call.{
  CallStatus, start, reading, reading_failed, writing, finish, CallData, Input, finish_with_error,
  read_next, finish_with, Effect, goes_on, delete_this, abort, auth_error,
}

abbrev pub avro_intake : Intake → AvroIntake
avro_intake m = record { agent = m.agent; content = m.content; timestamp = m.timestamp }

-- The loop over a bundle, with the clock's readings.
unfoldable pub push_intakes :
    Option ℕ → List Intake → (ℕ → ℤ) → SinkTable AvroIntake → Outcome (SinkTable AvroIntake)
push_intakes sink [] now t = ok t
push_intakes sink (m ∷ ms) now t = do
  h ← deref sink
  push_intakes sink ms (λ i. now (suc i)) (on_sink h (push_back [] (avro_intake m) (now 0)) t)

module _ {D : Type 0} (md5 : Bytes → Bytes) where
  -- `put_intake_call_data::process_state`, with the destructor under `delete this`. The counter is
  -- raised behind the loop: once for a bundle.
  unfoldable pub process_put_intake : CallData → Input D → SinkFactory D → Outcome (Effect D)
  process_put_intake c i f = elim c.status [
    | start ↦
        let api_key = get_api_key i.metadata in
        let (sink, g) = get_intake_sink md5 f api_key (get_api_secret i.metadata) in
        let d = record c { sink = sink; source_ip = get_forwarded_for i.metadata } in
        elim sink [
          | none ↦ ok (
              goes_on (record d { status = finish }) g true
                (finish_with_error (auth_error api_key)))
          | some h ↦ ok (
              goes_on (record d { status = reading })
                (record g { intake = on_sink h begin_session g.intake }) true read_next)
        ]
    | reading ↦ do
      t ← push_intakes c.sink i.intakes i.now f.intake
      ok (
          goes_on (record c { msg_count = c.msg_count + 1 }) (record f { intake = t }) false
            read_next)
    | reading_failed ↦ ok (goes_on (record c { status = finish }) f false (finish_with c.msg_count))
    | finish ↦ ok (
        delete_this (elim c.sink [
          | none ↦ f
          | some h ↦ record f { intake = on_sink h end_session f.intake }
        ]))
    | writing ↦ ok (abort c f)
  ]

  -- `put_intake2_call_data::process_state`.
  unfoldable pub process_put_intake2 : CallData → Input D → SinkFactory D → Outcome (Effect D)
  process_put_intake2 c i f = elim c.status [
    | start ↦
        let api_key = get_api_key i.metadata in
        let (sink, g) = get_intake_sink md5 f api_key (get_api_secret i.metadata) in
        let d = record c { source_ip = get_forwarded_for i.metadata; status = finish } in
        elim sink [
          | none ↦ ok (goes_on d g true (finish_with_error (auth_error api_key)))
          | some h ↦ do
            t ← push_intakes (some h) i.intakes i.now (on_sink h count_session g.intake)
            let count = c.msg_count + 1
            ok (
                goes_on (record d { msg_count = count }) (record g { intake = t }) true
                  (finish_with count))
        ]
    | reading_failed ↦ ok (goes_on (record c { status = finish }) f false (finish_with c.msg_count))
    | _ ↦ ok (delete_this f)
  ]
