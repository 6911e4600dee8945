-- ===== src/Delivery/Tests.antt =====
-- A sink's queue and producer (bb_kafka_sink.h, bb_kafka_producer.cpp) on concrete steps.
use bb_monitor.Base.{
  ℕ, zero, suc, ◌≡◌, ◌⊎◌, refl, some, List, [], ◌∷◌, ◌++◌, Bytes, codes, map, pos, Bool, true,
  false, length, Option, none, arith,
}
use bb_monitor.Base.Maps.{lookup, assign, erase}
use bb_monitor.Ingestion.Sink.{KRecord}
use bb_monitor.Delivery.{
  Outlet, Codecs, OutletStep, push_back, process, report, new_outlet, handle_event, drain,
  process_queue, outlet_step, run_outlet, poll, flush_queue,
}
use bb_monitor.Delivery.Producer.{
  Result, done, fatal, undefined, ErrorCode, err_no_error, err_queue_full, err_other, produce,
  dr_cb, delete_user_data,
}
use bb_monitor.Delivery.Ownership.{IsOwned}
use bb_monitor.Delivery.Flush.{flush_queue-drained}
use bb_monitor.Delivery.Order.{encode, run_outlet-IsOwned, run_outlet_ordered}

abbrev plain : Codecs Bytes
plain = record {
  register_schema = λ name. some (length name);
  encode_key = λ key. key;
  encode_value = λ value. 0 ∷ value;
  partition_hash = length;
}

abbrev event : Bytes → KRecord Bytes
event value = record { key = codes "k"; value = value; event_time = pos 7 }

-- librdkafka takes one message and is then full.
abbrev full_after_one : ℕ → ErrorCode
full_after_one zero = err_no_error
full_after_one (suc i) = err_queue_full

abbrev some_steps : List (OutletStep Bytes)
some_steps =
    push_back (event (codes "a"))
    ∷ push_back (event (codes "b"))
    ∷ process full_after_one
    ∷ push_back (event (codes "c"))
    ∷ process full_after_one
    ∷ report 0 false
    ∷ []

abbrev got : Result (Outlet Bytes) → Outlet Bytes
got (done o) = o
got fatal = new_outlet []
got undefined = new_outlet []

abbrev at_the_end : Outlet Bytes
at_the_end = got (run_outlet plain some_steps (new_outlet (codes "t")))

steps_done : run_outlet plain some_steps (new_outlet (codes "t")) ≡ done at_the_end
unfolding run_outlet outlet_step process_queue drain handle_event produce dr_cb delete_user_data
    lookup assign erase
steps_done = refl

one_left : at_the_end.queue ≡ event (codes "c") ∷ []
unfolding run_outlet outlet_step process_queue drain handle_event produce dr_cb delete_user_data
    lookup assign erase
one_left = refl

run_outlet-IsOwned_example :
    (run_outlet plain some_steps (new_outlet (codes "t")) ≡ fatal)
    ⊎ ((o : Outlet Bytes) × (run_outlet plain some_steps (new_outlet (codes "t")) ≡ done o)
        × IsOwned o.impl)
run_outlet-IsOwned_example = run_outlet-IsOwned plain some_steps (codes "t")

run_outlet_ordered_example :
    at_the_end.impl.accepted ++ map (encode plain) at_the_end.queue
    ≡ map (encode plain) (event (codes "a") ∷ event (codes "b") ∷ event (codes "c") ∷ [])
run_outlet_ordered_example = run_outlet_ordered plain some_steps (codes "t") at_the_end steps_done

abbrev two_queued : Outlet Bytes
two_queued = record (new_outlet (codes "t")) { queue = event (codes "a") ∷ event (codes "b") ∷ [] }

two_queued-IsOwned : IsOwned two_queued.impl
unfolding lookup
two_queued-IsOwned = record { exact = λ a. refl; fresh = λ a above. refl }

abbrev one_each : ℕ → (ℕ → ErrorCode) × List (ℕ × Bool)
one_each i = (full_after_one, (0, false) ∷ [])

flush_queue-drained_example :
    (flush_queue plain 2 one_each two_queued ≡ fatal)
    ⊎ ((p : Outlet Bytes) × (flush_queue plain 2 one_each two_queued ≡ done (true, p))
        × (p.queue ≡ [])
        × (p.impl.accepted ≡ map (encode plain) (event (codes "a") ∷ event (codes "b") ∷ [])))
flush_queue-drained_example =
    flush_queue-drained plain 2 one_each two_queued two_queued-IsOwned (omega arith) (λ i. refl)

abbrev got_flushed : Result (Bool × Outlet Bytes) → Option Bool
got_flushed (done p) = some p.0
got_flushed fatal = none
got_flushed undefined = none

-- A permanent error keeps `flush` in its loop, whatever the bound.
never_flushed :
    got_flushed (flush_queue plain 3 (λ i. ((λ k. err_other 3), [])) two_queued) ≡ some false
unfolding flush_queue process_queue drain handle_event produce delete_user_data poll lookup assign
    erase
never_flushed = refl
