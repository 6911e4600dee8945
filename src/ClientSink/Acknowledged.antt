-- ===== src/ClientSink/Acknowledged.antt =====
-- What the client sinks hand over for deletion (bb_metric_sink.cpp, bb_log_sink.cpp,
-- bb_intake_sink.cpp).
use bb_monitor.Base.{
  ℕ, ◌≡◌, ◌≤◌, refl, sym, ap, ◌∙◌, Bool, Option, none, some, List, [], ◌∷◌, ◌++◌, length, arith,
  append_assoc, append-nil,
}
use bb_monitor.ClientSink.{
  ClientSink, Ledger, Step, push, process, turn, answer, empty_sink, empty_ledger, fill, collect,
  request, take_turn, on_answer, acked_by, step, run,
}
use bb_monitor.ClientSink.Bundles.{values, values-append, fill-values, length-fill}

module _ {M : Type 0} where
  abbrev pub in_flight : Option (List M) → List M
  in_flight none = []
  in_flight (some b) = b

  in_flight-request : (b : List M) → in_flight (request b) ≡ b
  in_flight-request [] = refl
  in_flight-request (m ∷ ms) = refl

  -- The pending call carries the values of its events, in a bundle of at most the batch size, and the
  -- events that have left carry what was acknowledged.
  pub record IsAccurate (batch_size : ℕ) (p : ClientSink M × Ledger M) : Type 0 where
    pub calling : values p.0.in_rpc ≡ in_flight p.0.bundle
    pub small : length (in_flight p.0.bundle) ≤ batch_size
    pub left : values (p.1.processed ++ p.0.pending_for_delete) ≡ p.1.acked

  collect-calling :
      (n : ℕ) (s : ClientSink M)
      → values s.in_rpc ≡ []
      → (values (collect n s).in_rpc ≡ in_flight (collect n s).bundle)
        × (length (in_flight (collect n s).bundle) ≤ n)
  collect-calling n s h =
      let (_, _, b) = fill n s.queue s.in_rpc [] in
      (
        fill-values n s.queue s.in_rpc [] h ∙ sym (in_flight-request b),
        omega (
          arith,
          ap length (in_flight-request b),
          length-fill n s.queue s.in_rpc [] (omega arith),
        ),
      )

  take_turn-calling :
      (max : Option ℕ) (n : ℕ) (now : ℕ → ℕ) (s : ClientSink M)
      → values s.in_rpc ≡ in_flight s.bundle
      → length (in_flight s.bundle) ≤ n
      → let t = (take_turn max n now s).1 in
        (values t.in_rpc ≡ in_flight t.bundle)
        × (length (in_flight t.bundle) ≤ n)
        × (t.pending_for_delete ≡ s.pending_for_delete)
  take_turn-calling none n now s h k = ground (arith, h, k, collect-calling n s)
  take_turn-calling (some max) n now s h k = ground (arith, h, k, collect-calling n s)

  answer-left :
      (fine : Bool) (now : ℕ) (s : ClientSink M) (processed : List (Option M)) (acked : List M)
      → values s.in_rpc ≡ in_flight s.bundle
      → values (processed ++ s.pending_for_delete) ≡ acked
      → values (processed ++ (on_answer fine now s).pending_for_delete)
        ≡ acked ++ acked_by fine s.bundle
  answer-left fine now s processed acked h k = ground (
    arith,
    h,
    k,
    append-nil acked,
    append_assoc processed s.pending_for_delete s.in_rpc,
    values-append (processed ++ s.pending_for_delete) s.in_rpc,
  )

  step-IsAccurate :
      (max : Option ℕ) (n : ℕ) (a : Step M) (p : ClientSink M × Ledger M)
      → IsAccurate n p
      → IsAccurate n (step max n a p)
  unfolding step
  step-IsAccurate max n (push e) (s, l) v = record {
    calling = v.calling;
    small = v.small;
    left = v.left;
  }
  step-IsAccurate max n process (s, l) v = record {
    calling = v.calling;
    small = v.small;
    left = ap values (append-nil (l.processed ++ s.pending_for_delete)) ∙ v.left;
  }
  step-IsAccurate max n (turn now) (s, l) v =
      let (calling, small, kept) = take_turn-calling max n now s v.calling v.small in
      record {
        calling = calling;
        small = small;
        left = ap (λ q. values (l.processed ++ q)) kept ∙ v.left;
      }
  step-IsAccurate max n (answer fine now) (s, l) v = record {
    calling = ground (arith, v.calling);
    small = ground (arith, v.small);
    left = answer-left fine now s l.processed l.acked v.calling v.left;
  }

  run-IsAccurate_onwards :
      (max : Option ℕ) (n : ℕ) (steps : List (Step M)) (p : ClientSink M × Ledger M)
      → IsAccurate n p
      → IsAccurate n (run max n steps p)
  unfolding run
  run-IsAccurate_onwards max n [] p v = v
  run-IsAccurate_onwards max n (a ∷ steps) p v =
      run-IsAccurate_onwards max n steps (step max n a p) (step-IsAccurate max n a p v)

  -- Whatever the steps, the events that were handed over for deletion carry exactly the bundles that
  -- the server acknowledged, in that order; the bundle of a pending call carries the values of the
  -- events taken for it, and is no larger than the batch size.
  pub run-IsAccurate :
      (max : Option ℕ) (n : ℕ) (steps : List (Step M))
      → IsAccurate n (run max n steps (empty_sink, empty_ledger))
  run-IsAccurate max n steps =
      run-IsAccurate_onwards max n steps (empty_sink, empty_ledger)
        (record { calling = refl; small = omega arith; left = refl })
