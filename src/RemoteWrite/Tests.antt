-- ===== src/RemoteWrite/Tests.antt =====
-- The sinks of prometheus_sink.cpp and prometheus_sink2.cpp at concrete events. A `double` is a ℕ here.
use bb_monitor.Base.{
  ℕ, ℤ, pos, ◌≡◌, refl, ◌++◌, Bool, true, false, Option, none, some, List, [], ◌∷◌, codes, arith,
}
use bb_monitor.Messages.{AvroMetric, null, double}
use bb_monitor.RemoteWrite.{
  Answer, http_timeout, http_error, http_ok, Step, push, process, turn, answer, RemoteSink,
  empty_sink, empty_ledger, run, take_turn, eof,
}
use bb_monitor.RemoteWrite.Series.{
  TimeSeries, GenericMetric, avro_long, avro_exporter, generic_exporter, generic_event,
}
use bb_monitor.RemoteWrite.Batch.{take_batch, take_turn-take}
use bb_monitor.RemoteWrite.Conserved.{kept, run-avro_conserved, run-generic_conserved}
use bb_monitor.RemoteWrite.Drained.{Round, rounds_of, pushes, run-drained}

abbrev is_finite : ℕ → Bool
is_finite d = true

abbrev to_double : ℤ → ℕ
to_double n = 5

abbrev load_metric : Option (AvroMetric ℕ)
load_metric = some (record {
  ns = codes "node";
  name = codes "load";
  labels = [];
  value = double 3;
  timestamp = pos 9000;
})

abbrev unset : Option (AvroMetric ℕ)
unset =
    some (record { ns = []; name = codes "up"; labels = []; value = null; timestamp = pos 9000 })

abbrev sink : RemoteSink (Option (AvroMetric ℕ)) (TimeSeries ℕ)
sink = record empty_sink { queue = load_metric ∷ unset ∷ load_metric ∷ [] }

take_turn-take_example :
    take_turn (avro_exporter is_finite to_double (pos 5000)) 2 10000 sink
    ≡ take_batch (avro_exporter is_finite to_double (pos 5000)) 2 10000 sink
take_turn-take_example = take_turn-take is_finite to_double (pos 5000) 2 10000 sink refl refl

abbrev steps : List (Step (Option (AvroMetric ℕ)))
steps =
    push load_metric ∷ turn 10000 ∷ answer http_timeout ∷ push none ∷ answer http_ok ∷ process ∷ []

run-avro_conserved_example :
    let (s, l) =
      run (avro_exporter is_finite to_double (pos 5000)) 2 steps (empty_sink, empty_ledger) in
    l.pushed ≡ l.processed ++ (s.pending_for_delete ++ (s.in_batch ++ s.queue))
run-avro_conserved_example = run-avro_conserved is_finite to_double 2 (pos 5000) steps

abbrev rounds : List Round
rounds =
    record { now = 10000; timeouts = 3; is_fine = true }
    ∷ record { now = 20000; timeouts = 0; is_fine = false }
    ∷ []

run-drained_example :
    let (s, l) =
      run
        (avro_exporter is_finite to_double (pos 5000))
        2
        (pushes (load_metric ∷ unset ∷ load_metric ∷ []) ++ (rounds_of rounds ++ process ∷ []))
        (empty_sink, empty_ledger) in
    (l.processed ≡ load_metric ∷ unset ∷ load_metric ∷ []) × (eof s ≡ true)
run-drained_example =
    run-drained is_finite to_double (pos 5000) 2 (load_metric ∷ unset ∷ load_metric ∷ []) rounds
      (omega arith)

abbrev nameless : Option (GenericMetric ℕ)
nameless = some (record {
  value = some (true, avro_long (pos 1));
  timestamp = some (pos 9000);
  ns = some [];
  name = none;
  labels = some [];
})

abbrev generic_steps : List (Step (Option (GenericMetric ℕ)))
generic_steps = push none ∷ push nameless ∷ turn 10000 ∷ answer http_ok ∷ process ∷ []

run-generic_conserved_example :
    let (s, l) =
      run (generic_exporter is_finite to_double) 2 generic_steps (empty_sink, empty_ledger) in
    let is_readable : Option (GenericMetric ℕ) → Bool =
      λ e. (generic_event is_finite to_double e).1 in
    kept is_readable l.pushed
    ≡ l.processed ++ (s.pending_for_delete ++ (s.in_batch ++ kept is_readable s.queue))
run-generic_conserved_example = run-generic_conserved is_finite to_double 2 generic_steps

-- A record without a name is sent as a series without a name and without a sample.
nameless_series :
    (generic_event is_finite to_double nameless).0
    ≡ record { labels = record { key = codes "__name__"; value = [] } ∷ []; samples = [] } ∷ []
nameless_series = refl

-- With the request of its only event under way the sink says that it is at its end.
eof_in_flight :
    eof
      (run
        (avro_exporter is_finite to_double (pos 0))
        2
        (push load_metric ∷ turn 10000 ∷ [])
        (empty_sink, empty_ledger)).0
    ≡ true
unfolding bb_monitor.RemoteWrite.fill
eof_in_flight = refl
