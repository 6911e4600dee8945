-- ===== src/Ingestion/Logs.antt =====
-- put_logs_call_data.h (a stream of bundles) and put_logs2_call_data.h (one bundle).
pub mod Stored
use bb_monitor.Base.{
  ℕ, suc, ◌+◌, Bool, true, false, Option, none, some, List, [], ◌∷◌, ◌++◌, map, Bytes, codes, ℤ,
  length,
}
use bb_monitor.Outcome.{Outcome, ok, skipped, undefined, ◌>>=◌, deref}
use bb_monitor.Messages.{LogLine, AvroLogline}
use bb_monitor.ApiKey.{get_api_key, get_api_secret, get_forwarded_for}
use bb_monitor.Ingestion.Sink.{SinkTable, on_sink, push_back, count_session}
use bb_monitor.Ingestion.Factory.{SinkFactory, get_log_sink}
use bb_monitor.Ingestion.Call.{
  CallStatus, start, reading, reading_failed, writing, finish, CallData, Input, finish_with_error,
  read_next, finish_with, Effect, goes_on, delete_this, abort, auth_error, copy_label,
}

abbrev pub avro_logline : LogLine → AvroLogline
avro_logline l = record {
  id = l.id;
  agent = l.agent;
  host = l.host;
  source = l.source;
  timestamp_ns = l.timestamp_ns;
  tags = map copy_label l.labels;
  line = l.line;
}

-- The loop over a bundle, with the clock's readings.
unfoldable pub push_logs :
    Option ℕ → List LogLine → (ℕ → ℤ) → SinkTable AvroLogline → Outcome (SinkTable AvroLogline)
push_logs sink [] now t = ok t
push_logs sink (l ∷ ls) now t = do
  h ← deref sink
  push_logs sink ls (λ i. now (suc i)) (on_sink h (push_back l.id (avro_logline l) (now 0)) t)

module _ {D : Type 0} (md5 : Bytes → Bytes) where
  -- `put_logs_call_data::process_state`, with the destructor under `delete this`.
  unfoldable pub process_put_logs : CallData → Input D → SinkFactory D → Outcome (Effect D)
  process_put_logs c i f = elim c.status [
    | start ↦
        let api_key = get_api_key i.metadata in
        let (sink, g) = get_log_sink md5 f api_key (get_api_secret i.metadata) in
        let d = record c { sink = sink; source_ip = get_forwarded_for i.metadata } in
        elim sink [
          | none ↦ ok (
              goes_on (record d { status = finish }) g true
                (finish_with_error (auth_error api_key)))
          | some h ↦ ok (goes_on (record d { status = reading }) g true read_next)
        ]
    | reading ↦ do
      t ← push_logs c.sink i.logs i.now f.logs
      ok (
          goes_on (record c { msg_count = c.msg_count + length i.logs }) (record f { logs = t })
            false read_next)
    | reading_failed ↦ ok (goes_on (record c { status = finish }) f false (finish_with c.msg_count))
    | finish ↦ ok (delete_this f)
    | writing ↦ ok (abort c f)
  ]

  -- `put_logs2_call_data::process_state`.
  unfoldable pub process_put_logs2 : CallData → Input D → SinkFactory D → Outcome (Effect D)
  process_put_logs2 c i f = elim c.status [
    | start ↦
        let api_key = get_api_key i.metadata in
        let (sink, g) = get_log_sink md5 f api_key (get_api_secret i.metadata) in
        let d = record c { source_ip = get_forwarded_for i.metadata; status = finish } in
        elim sink [
          | none ↦ ok (goes_on d g true (finish_with_error (auth_error api_key)))
          | some h ↦ do
            t ← push_logs (some h) i.logs i.now (on_sink h count_session g.logs)
            let count = c.msg_count + length i.logs
            ok (
                goes_on (record d { msg_count = count }) (record g { logs = t }) true
                  (finish_with count))
        ]
    | reading_failed ↦ ok (goes_on (record c { status = finish }) f false (finish_with c.msg_count))
    | _ ↦ ok (delete_this f)
  ]
