-- ===== src/Delivery/Partitioned/Tests.antt =====
-- A sink of metrics on concrete steps, with a library that writes a number as one element.
use bb_monitor.Base.{
  ℕ, zero, suc, ◌≡◌, refl, ap, Option, none, some, List, [], ◌∷◌, ◌++◌, Bytes, codes, map, pos,
  false, length,
}
use bb_monitor.Base.Maps.{lookup, assign, erase}
use bb_monitor.Ingestion.Sink.{KRecord}
use bb_monitor.Messages.{AvroMetric}
use bb_monitor.Avro.{encode_metric}
use bb_monitor.Avro.Tests.{elementwise, elementwise-IsCodec, located_metric, blank_metric}
use bb_monitor.Delivery.{
  Outlet, Codecs, OutletStep, push_back, process, report, new_outlet, handle_event, drain,
  process_queue, outlet_step, run_outlet,
}
use bb_monitor.Delivery.Producer.{
  Result, done, fatal, undefined, ErrorCode, err_no_error, err_queue_full, produce, dr_cb,
  delete_user_data,
}
use bb_monitor.Delivery.Partitioned.{IsAvro, decoded, messages_of, records_of, decoded-run_outlet}

abbrev or_nothing : Option Bytes → Bytes
or_nothing none = []
or_nothing (some b) = b

abbrev without_magic : Bytes → Option Bytes
without_magic [] = none
without_magic (x ∷ b) = some b

abbrev avro_codecs : Codecs (AvroMetric ℕ)
avro_codecs = record {
  register_schema = λ name. some (length name);
  encode_key = λ key. key;
  encode_value = λ m. 0 ∷ or_nothing (encode_metric elementwise m);
  partition_hash = length;
}

avro_codecs-IsAvro : IsAvro elementwise avro_codecs (λ b. 0 ∷ b) without_magic
avro_codecs-IsAvro = record { framed = λ m b e. ap (λ r. 0 ∷ or_nothing r) e; unframed = λ b. refl }

abbrev keyed : AvroMetric ℕ → KRecord (AvroMetric ℕ)
keyed m = record { key = codes "k"; value = m; event_time = pos 7 }

abbrev one_at_a_time : ℕ → ErrorCode
one_at_a_time zero = err_no_error
one_at_a_time (suc i) = err_queue_full

abbrev metric_steps : List (OutletStep (AvroMetric ℕ))
metric_steps =
    push_back (keyed located_metric)
    ∷ push_back (keyed blank_metric)
    ∷ process one_at_a_time
    ∷ report 0 false
    ∷ []

abbrev outlet_of : Result (Outlet (AvroMetric ℕ)) → Outlet (AvroMetric ℕ)
outlet_of (done o) = o
outlet_of fatal = new_outlet []
outlet_of undefined = new_outlet []

abbrev metrics_at_the_end : Outlet (AvroMetric ℕ)
metrics_at_the_end = outlet_of (run_outlet avro_codecs metric_steps (new_outlet (codes "t")))

metric_steps_done :
    run_outlet avro_codecs metric_steps (new_outlet (codes "t")) ≡ done metrics_at_the_end
unfolding run_outlet outlet_step process_queue drain handle_event produce dr_cb delete_user_data
    lookup assign erase
metric_steps_done = refl

-- Both records have a key of length 1, which is partition 1 of 2.
decoded-run_outlet_example :
    (untaken : List (Option (AvroMetric ℕ))) × (map
          (decoded elementwise 0 without_magic blank_metric)
          (messages_of 2 1 metrics_at_the_end.impl.accepted)
        ++ untaken
      ≡ some located_metric ∷ some blank_metric ∷ [])
    × (length untaken ≡ length (records_of avro_codecs 2 1 metrics_at_the_end.queue))
decoded-run_outlet_example =
    decoded-run_outlet elementwise 0 without_magic blank_metric elementwise-IsCodec avro_codecs
      (λ b. 0 ∷ b) avro_codecs-IsAvro metric_steps (codes "t") metrics_at_the_end 2 1
      metric_steps_done refl

one_untaken : length metrics_at_the_end.queue ≡ 1
unfolding run_outlet outlet_step process_queue drain handle_event produce dr_cb delete_user_data
    lookup assign erase
one_untaken = refl
