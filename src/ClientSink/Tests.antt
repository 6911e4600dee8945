-- ===== src/ClientSink/Tests.antt =====
-- The client sinks (bb_metric_sink.cpp, bb_log_sink.cpp, bb_intake_sink.cpp) on concrete steps, with
-- numbers for messages.
use bb_monitor.Base.{ℕ, ◌≡◌, refl, true, false, Option, none, some, List, [], ◌∷◌, ◌+◌}
use bb_monitor.ClientSink.{
  ClientSink, Step, push, process, turn, answer, empty_sink, step, run, run_metric_sink,
  run_log_sink, run_intake_sink,
}
use bb_monitor.ClientSink.Bundles.{tally}
use bb_monitor.ClientSink.Conserved.{accounted, run-accounted}
use bb_monitor.ClientSink.Acknowledged.{IsAccurate, run-IsAccurate}
use bb_monitor.ClientSink.Ordered.{in_line, run_ordered}

abbrev at : ℕ → ℕ → ℕ
at t i = t + i

-- Two events go into a call that fails, a third is pushed meanwhile; later the sink purges to one
-- event, tries again, and is answered.
abbrev a_bad_day : List (Step ℕ)
a_bad_day =
    push (some 1)
    ∷ push none
    ∷ turn (at 5)
    ∷ push (some 3)
    ∷ answer false 10
    ∷ turn (at 20)
    ∷ turn (at 90000)
    ∷ answer true 90010
    ∷ process
    ∷ []

abbrev a_good_day : List (Step ℕ)
a_good_day = push (some 1) ∷ push (some 2) ∷ turn (at 5) ∷ push (some 3) ∷ answer true 10 ∷ []

abbrev one_each : Option ℕ → ℕ
one_each e = 1

bad_day_purged : (run_metric_sink 1 a_bad_day).1.purged ≡ none ∷ some 1 ∷ []
unfolding run step
bad_day_purged = refl

bad_day_acked : (run_log_sink a_bad_day).1.acked ≡ 1 ∷ 3 ∷ []
unfolding run step
bad_day_acked = refl

good_day_acked : (run_intake_sink a_good_day).1.acked ≡ 1 ∷ 2 ∷ []
unfolding run step
good_day_acked = refl

run-accounted_example :
    tally one_each (run_metric_sink 1 a_bad_day).1.pushed
    ≡ accounted one_each (run_metric_sink 1 a_bad_day)
run-accounted_example = run-accounted one_each (some 1) 5000 a_bad_day

run-IsAccurate_example : IsAccurate 1000 (run_log_sink a_bad_day)
run-IsAccurate_example = run-IsAccurate none 1000 a_bad_day

run_ordered_example : in_line (run_intake_sink a_good_day) ≡ (run_intake_sink a_good_day).1.pushed
run_ordered_example = run_ordered 1000 a_good_day refl

abbrev calling : ClientSink ℕ
calling = record empty_sink {
  queue = some 3 ∷ [];
  in_rpc = some 1 ∷ some 2 ∷ [];
  bundle = some (1 ∷ 2 ∷ []);
}

abbrev filled : ClientSink ℕ
filled = record empty_sink { queue = none ∷ some 4 ∷ [] }
