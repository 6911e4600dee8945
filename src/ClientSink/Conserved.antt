-- ===== src/ClientSink/Conserved.antt =====
-- No event of a client sink is lost or sent into two places (bb_metric_sink.cpp, bb_log_sink.cpp,
-- bb_intake_sink.cpp).
use bb_monitor.Base.{
  ℕ, ◌+◌, ◌≡◌, refl, Bool, Option, none, some, List, [], ◌∷◌, length, arith, ap, ◌-◌,
}
use bb_monitor.ClientSink.{
  ClientSink, Ledger, Step, push, process, turn, answer, empty_sink, empty_ledger, fill, collect,
  purge, take_turn, on_answer, step, run,
}
use bb_monitor.ClientSink.Bundles.{tally, tally-append, tally-requeue, tally-take-drop, fill_order}

module _ {M : Type 0} (w : Option M → ℕ) where
  -- The weight of the events that a sink holds.
  abbrev pub held : ClientSink M → ℕ
  held s = tally w s.queue + (tally w s.in_rpc + tally w s.pending_for_delete)

  -- The weight of the events in the sink and of those that have left it.
  abbrev pub accounted : ClientSink M × Ledger M → ℕ
  accounted (s, l) = tally w l.processed + (tally w l.purged + held s)

  held-collect : (n : ℕ) (s : ClientSink M) → held (collect n s) ≡ held s
  held-collect n s =
      let (rest, taken, b) = fill n s.queue s.in_rpc [] in
      omega (
        arith,
        ap (tally w) (fill_order n s.queue s.in_rpc []),
        tally-append w taken rest,
        tally-append w s.in_rpc s.queue,
      )

  held-purge :
      (max : ℕ) (now : ℕ → ℕ) (s : ClientSink M)
      → let (lost, t) = purge max now s in tally w lost + held t ≡ held s
  held-purge max now s = ground (arith, tally-take-drop w (length s.queue - max) s.queue)

  held-take_turn :
      (max : Option ℕ) (n : ℕ) (now : ℕ → ℕ) (s : ClientSink M)
      → let (lost, t) = take_turn max n now s in tally w lost + held t ≡ held s
  held-take_turn none n now s = ground (arith, held-collect n s)
  held-take_turn (some max) n now s = ground (arith, held-collect n s, held-purge max now s)

  held-on_answer : (fine : Bool) (now : ℕ) (s : ClientSink M) → held (on_answer fine now s) ≡ held s
  held-on_answer fine now s =
      ground (arith, tally-append w s.pending_for_delete s.in_rpc, tally-requeue w s.in_rpc s.queue)

  step_conserved :
      (max : Option ℕ) (n : ℕ) (a : Step M) (p : ClientSink M × Ledger M)
      → tally w p.1.pushed ≡ accounted p
      → tally w (step max n a p).1.pushed ≡ accounted (step max n a p)
  unfolding step
  step_conserved max n (push e) (s, l) h =
      omega (arith, h, tally-append w s.queue (e ∷ []), tally-append w l.pushed (e ∷ []))
  step_conserved max n process (s, l) h =
      omega (arith, h, tally-append w l.processed s.pending_for_delete)
  step_conserved max n (turn now) (s, l) h =
      let (lost, t) = take_turn max n now s in
      omega (arith, h, held-take_turn max n now s, tally-append w l.purged lost)
  step_conserved max n (answer fine now) (s, l) h = omega (arith, h, held-on_answer fine now s)

  pub run_conserved :
      (max : Option ℕ) (n : ℕ) (steps : List (Step M)) (p : ClientSink M × Ledger M)
      → tally w p.1.pushed ≡ accounted p
      → tally w (run max n steps p).1.pushed ≡ accounted (run max n steps p)
  unfolding run
  run_conserved max n [] p h = h
  run_conserved max n (a ∷ steps) p h =
      run_conserved max n steps (step max n a p) (step_conserved max n a p h)

  -- Whatever the steps, with failed calls, retries and purges, the events that were pushed weigh as
  -- much as those processed, purged, queued, in a call and pending for delete together, for every
  -- weight of events: each event is in one of these places, once.
  pub run-accounted :
      (max : Option ℕ) (n : ℕ) (steps : List (Step M))
      → let p = run max n steps (empty_sink, empty_ledger) in tally w p.1.pushed ≡ accounted p
  run-accounted max n steps = run_conserved max n steps (empty_sink, empty_ledger) refl
