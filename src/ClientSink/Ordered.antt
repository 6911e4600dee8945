-- ===== src/ClientSink/Ordered.antt =====
-- The order of the events of a client sink (bb_log_sink.cpp, bb_intake_sink.cpp, bb_metric_sink.cpp):
-- kept by calls that succeed, reversed by a call that fails.
use bb_monitor.Base.{
  ℕ, ◌≡◌, refl, sym, ap, ◌∙◌, Bool, true, false, Option, none, some, List, [], ◌∷◌, ◌++◌, arith,
  append_assoc, reverse, ◌&&◌, ◌+◌, ◌<◌, inl, inr, Option-cases,
}
use bb_monitor.ClientSink.{
  ClientSink, Ledger, Step, push, process, turn, answer, empty_sink, empty_ledger, requeue,
  take_turn, on_answer, step, run,
}
use bb_monitor.ClientSink.Bundles.{fill_order}
use mathlib.Core.List.{reverse-cons}

module _ {M : Type 0} where
  -- No call of the steps fails.
  abbrev pub all_answered : List (Step M) → Bool
  all_answered [] = true
  all_answered (answer fine now ∷ steps) = fine && all_answered steps
  all_answered (push e ∷ steps) = all_answered steps
  all_answered (process ∷ steps) = all_answered steps
  all_answered (turn now ∷ steps) = all_answered steps

  -- The events in the order in which they leave.
  abbrev pub in_line : ClientSink M × Ledger M → List (Option M)
  in_line (s, l) = l.processed ++ (s.pending_for_delete ++ (s.in_rpc ++ s.queue))

  requeue-reverse : (es q : List (Option M)) → requeue es q ≡ reverse es ++ q
  requeue-reverse [] q = refl
  requeue-reverse (e ∷ es) q =
      requeue-reverse es (e ∷ q)
      ∙ sym (append_assoc (reverse es) (e ∷ []) q)
      ∙ ap (λ r. r ++ q) (sym (reverse-cons e es))

  in_line-take_turn :
      (n : ℕ) (now : ℕ → ℕ) (s : ClientSink M)
      → let (lost, t) = take_turn none n now s in
        (t.pending_for_delete ≡ s.pending_for_delete) × (t.in_rpc ++ t.queue ≡ s.in_rpc ++ s.queue)
  in_line-take_turn n now s = ground (arith, fill_order n s.queue s.in_rpc [])

  step-in_line :
      (n : ℕ) (a : Step M) (p : ClientSink M × Ledger M)
      → all_answered (a ∷ []) ≡ true
      → in_line p ≡ p.1.pushed
      → in_line (step none n a p) ≡ (step none n a p).1.pushed
  unfolding step
  step-in_line n (push e) (s, l) k h = rw (← h) (
      sym (
        append_assoc l.processed (s.pending_for_delete ++ (s.in_rpc ++ s.queue)) (e ∷ [])
        ∙ ap (λ q. l.processed ++ q)
            (append_assoc s.pending_for_delete (s.in_rpc ++ s.queue) (e ∷ [])
              ∙ ap (λ q. s.pending_for_delete ++ q) (append_assoc s.in_rpc s.queue (e ∷ [])))))
  step-in_line n process (s, l) k h =
      append_assoc l.processed s.pending_for_delete (s.in_rpc ++ s.queue) ∙ h
  step-in_line n (turn now) (s, l) k h =
      let (kept, same) = in_line-take_turn n now s in rw (kept, same) h
  step-in_line n (answer fine now) (s, l) k h = elim (Option-cases s.bundle) [
    | inl e ↦ ground (arith, e, h)
    | inr (b, e) ↦ ground (arith, e, k, h, append_assoc s.pending_for_delete s.in_rpc s.queue)
  ]

  run-in_line :
      (n : ℕ) (steps : List (Step M)) (p : ClientSink M × Ledger M)
      → all_answered steps ≡ true
      → in_line p ≡ p.1.pushed
      → in_line (run none n steps p) ≡ (run none n steps p).1.pushed
  unfolding run
  run-in_line n [] p k h = h
  run-in_line n (a ∷ steps) p k h =
      run-in_line n steps (step none n a p) (ground arith) (step-in_line n a p (ground arith) h)

  -- As long as every call succeeds, a sink without a limit is first in, first out: the events
  -- processed, pending for delete, in a call and queued are the events pushed, in the order in which
  -- they were pushed.
  pub run_ordered :
      (n : ℕ) (steps : List (Step M))
      → all_answered steps ≡ true
      → let p = run none n steps (empty_sink, empty_ledger) in in_line p ≡ p.1.pushed
  run_ordered n steps k = run-in_line n steps (empty_sink, empty_ledger) k refl

  -- A call that fails puts its events back in front of the queue in reverse order, deletes none, and
  -- makes the sink wait: a next turn within 60 s of the failure starts no call.
  pub on_answer_failed :
      (max : Option ℕ) (n now : ℕ) (later : ℕ → ℕ) (s : ClientSink M) (b : List M)
      → s.bundle ≡ some b
      → later 0 < now + 60000
      → let t = on_answer false now s in
        (t.queue ≡ reverse s.in_rpc ++ s.queue)
        × (t.pending_for_delete ≡ s.pending_for_delete)
        × ((take_turn max n later t).1.bundle ≡ none)
  on_answer_failed max n now later s b e soon = (
    ground (arith, e, requeue-reverse s.in_rpc s.queue),
    ground (arith, e),
    ground (arith, e, soon),
  )
