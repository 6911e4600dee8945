-- ===== src/Ingestion/Intakes/Stored.antt =====
-- What the intake calls store and acknowledge (put_intake_call_data.h, put_intake2_call_data.h).
use bb_monitor.Base.{ℕ, suc, ◌+◌, ◌≡◌, ap, sym, List, [], ◌∷◌, some, Bytes, ℤ, arith, true, false}
use bb_monitor.Outcome.{ok}
use bb_monitor.Messages.{Intake, AvroIntake}
use bb_monitor.ApiKey.{get_api_key, get_api_secret, get_forwarded_for}
use bb_monitor.Ingestion.Sink.{SinkTable, KRecord, on_sink, count_session}
use bb_monitor.Ingestion.Sink.Updates.{append_all, on_sink-append_all, on_sink-append_nil}
use bb_monitor.Ingestion.Factory.{SinkFactory, get_intake_sink}
use bb_monitor.Ingestion.Call.{start, reading, finish, CallData, Input, finish_with, read_next}
use bb_monitor.Ingestion.Intakes.{
  avro_intake, push_intakes, process_put_intake, process_put_intake2,
}

-- The records for a bundle, in order, all under the empty key.
abbrev pub intake_records : List Intake → (ℕ → ℤ) → List (KRecord AvroIntake)
intake_records [] now = []
intake_records (m ∷ ms) now =
    record { key = []; value = avro_intake m; event_time = now 0 }
    ∷ intake_records ms (λ i. now (suc i))

pub push_intakes-records :
    (h : ℕ) (ms : List Intake) (now : ℕ → ℤ) (t : SinkTable AvroIntake)
    → push_intakes (some h) ms now t ≡ ok (on_sink h (append_all (intake_records ms now)) t)
unfolding push_intakes
push_intakes-records h [] now t = ap ok (sym (on_sink-append_nil h t))
push_intakes-records h (m ∷ ms) now t =
    let r : KRecord AvroIntake = record { key = []; value = avro_intake m; event_time = now 0 } in
    let later = λ (i : ℕ). now (suc i) in
    let u = on_sink h (append_all (r ∷ [])) t in
    ground (
      arith,
      push_intakes-records h ms later u,
      on_sink-append_all h (r ∷ []) (intake_records ms later) t,
    )

module _ {D : Type 0} (md5 : Bytes → Bytes) where
  -- A single intake call that is let in stores one record for each message of its bundle, but raises
  -- its count by one: a fresh call is answered by 1, however many messages the bundle holds.
  pub process_put_intake2-served :
      (c : CallData) (i : Input D) (f : SinkFactory D) (h : ℕ) (g : SinkFactory D)
      → c.status ≡ start
      → get_intake_sink md5 f (get_api_key i.metadata) (get_api_secret i.metadata) ≡ (some h, g)
      → process_put_intake2 md5 c i f
        ≡ ok (record {
          call = some (record c {
            status = finish;
            source_ip = get_forwarded_for i.metadata;
            msg_count = c.msg_count + 1;
          });
          factory = record g {
            intake =
                on_sink h
                  (append_all (intake_records i.intakes i.now))
                  (on_sink h count_session g.intake);
          };
          spawned = true;
          reply = finish_with (c.msg_count + 1);
        })
  unfolding process_put_intake2
  process_put_intake2-served c i f h g e s =
      ground (arith, push_intakes-records h i.intakes i.now (on_sink h count_session g.intake))

  -- One read of a stream of intakes stores one record for each message, in order, adds one to the
  -- count, and asks for the next bundle.
  pub process_put_intake-reading :
      (c : CallData) (i : Input D) (f : SinkFactory D) (h : ℕ)
      → c.status ≡ reading
      → c.sink ≡ some h
      → process_put_intake md5 c i f
        ≡ ok (record {
          call = some (record c { msg_count = c.msg_count + 1 });
          factory = record f {
            intake = on_sink h (append_all (intake_records i.intakes i.now)) f.intake;
          };
          spawned = false;
          reply = read_next;
        })
  unfolding process_put_intake
  process_put_intake-reading c i f h e s =
      ground (arith, push_intakes-records h i.intakes i.now f.intake)
