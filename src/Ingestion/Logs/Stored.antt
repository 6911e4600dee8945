-- ===== src/Ingestion/Logs/Stored.antt =====
-- What the log calls store and acknowledge (put_logs_call_data.h, put_logs2_call_data.h).
use bb_monitor.Base.{
  ℕ, suc, ◌+◌, ◌≡◌, ap, sym, List, [], ◌∷◌, some, Bytes, ℤ, arith, length, true, false,
}
use bb_monitor.Outcome.{ok}
use bb_monitor.Messages.{LogLine, AvroLogline}
use bb_monitor.ApiKey.{get_api_key, get_api_secret, get_forwarded_for}
use bb_monitor.Ingestion.Sink.{SinkTable, KRecord, on_sink, count_session}
use bb_monitor.Ingestion.Sink.Updates.{append_all, on_sink-append_all, on_sink-append_nil}
use bb_monitor.Ingestion.Factory.{SinkFactory, get_log_sink}
use bb_monitor.Ingestion.Call.{start, reading, finish, CallData, Input, finish_with, read_next}
use bb_monitor.Ingestion.Logs.{avro_logline, push_logs, process_put_logs, process_put_logs2}

-- The records for a bundle, in order, each under the line's id.
abbrev pub log_records : List LogLine → (ℕ → ℤ) → List (KRecord AvroLogline)
log_records [] now = []
log_records (l ∷ ls) now =
    record { key = l.id; value = avro_logline l; event_time = now 0 }
    ∷ log_records ls (λ i. now (suc i))

pub push_logs-records :
    (h : ℕ) (ls : List LogLine) (now : ℕ → ℤ) (t : SinkTable AvroLogline)
    → push_logs (some h) ls now t ≡ ok (on_sink h (append_all (log_records ls now)) t)
unfolding push_logs
push_logs-records h [] now t = ap ok (sym (on_sink-append_nil h t))
push_logs-records h (l ∷ ls) now t =
    let r : KRecord AvroLogline = record {
      key = l.id;
      value = avro_logline l;
      event_time = now 0;
    } in
    let later = λ (i : ℕ). now (suc i) in
    let u = on_sink h (append_all (r ∷ [])) t in
    ground (
      arith,
      push_logs-records h ls later u,
      on_sink-append_all h (r ∷ []) (log_records ls later) t,
    )

module _ {D : Type 0} (md5 : Bytes → Bytes) where
  -- A single call that is let in stores one record for each line of its bundle behind what the sink
  -- has queued, counts one session, is answered by the number of lines, and is finished.
  pub process_put_logs2-served :
      (c : CallData) (i : Input D) (f : SinkFactory D) (h : ℕ) (g : SinkFactory D)
      → c.status ≡ start
      → get_log_sink md5 f (get_api_key i.metadata) (get_api_secret i.metadata) ≡ (some h, g)
      → process_put_logs2 md5 c i f
        ≡ ok (record {
          call = some (record c {
            status = finish;
            source_ip = get_forwarded_for i.metadata;
            msg_count = c.msg_count + length i.logs;
          });
          factory = record g {
            logs =
                on_sink h (append_all (log_records i.logs i.now)) (on_sink h count_session g.logs);
          };
          spawned = true;
          reply = finish_with (c.msg_count + length i.logs);
        })
  unfolding process_put_logs2
  process_put_logs2-served c i f h g e s =
      ground (arith, push_logs-records h i.logs i.now (on_sink h count_session g.logs))

  -- One read of a stream of logs stores one record for each line, in order, adds their number to the
  -- count, and asks for the next bundle.
  pub process_put_logs-reading :
      (c : CallData) (i : Input D) (f : SinkFactory D) (h : ℕ)
      → c.status ≡ reading
      → c.sink ≡ some h
      → process_put_logs md5 c i f
        ≡ ok (record {
          call = some (record c { msg_count = c.msg_count + length i.logs });
          factory = record f { logs = on_sink h (append_all (log_records i.logs i.now)) f.logs };
          spawned = false;
          reply = read_next;
        })
  unfolding process_put_logs
  process_put_logs-reading c i f h e s = ground (arith, push_logs-records h i.logs i.now f.logs)
