-- ===== src/ClientSink/Eof.antt =====
-- When `flush` of a client sink may return (bb_metric_sink.cpp, bb_log_sink.cpp, bb_intake_sink.cpp).
use bb_monitor.Base.{
  ℕ, ◌+◌, ◌≤◌, ◌≡◌, ◌≢◌, refl, sym, ap, ◌∙◌, true, Option, none, some, List, [], ◌∷◌, ◌++◌, length,
  arith, append-nil,
}
use bb_monitor.ClientSink.{ClientSink, with_value, fill, collect, request, take_turn, eof}
use bb_monitor.ClientSink.Bundles.{values, fill-values, fill_order, length-with_value}

module _ {M : Type 0} where
  fill_all :
      (n : ℕ) (q in_rpc : List (Option M)) (b : List M)
      → length b + length q ≤ n
      → (fill n q in_rpc b).0 ≡ []
  fill_all n [] in_rpc b h = refl
  fill_all n (e ∷ q) in_rpc b h =
      ground (arith, h, length-with_value b e, fill_all n q (in_rpc ++ e ∷ []) (with_value b e))

  request-some : (b : List M) → b ≢ [] → request b ≡ some b
  request-some [] h = absurd (h refl)
  request-some (m ∷ ms) h = refl

  collect_all :
      (n : ℕ) (s : ClientSink M)
      → s.in_rpc ≡ []
      → length s.queue ≤ n
      → ((collect n s).queue ≡ []) × ((collect n s).bundle ≡ request (values s.queue))
  collect_all n s i fits =
      let (rest, taken, b) = fill n s.queue s.in_rpc [] in
      let empty : rest ≡ [] = fill_all n s.queue s.in_rpc [] (omega (arith, fits)) in
      let same : taken ≡ s.queue =
        sym (append-nil taken)
        ∙ ap (λ r. taken ++ r) (sym empty)
        ∙ fill_order n s.queue s.in_rpc []
        ∙ ap (λ r. r ++ s.queue) i in
      (empty, ap request (sym (fill-values n s.queue s.in_rpc [] (ap values i)) ∙ ap values same))

  take_turn-collect :
      (max : Option ℕ) (n : ℕ) (now : ℕ → ℕ) (s : ClientSink M)
      → s.bundle ≡ none
      → s.next_retry_at ≡ 0
      → s.queue ≢ []
      → (take_turn max n now s).1 ≡ collect n s
  take_turn-collect max n now s e r v = ground arith

  -- A sink that is not waiting, has nothing to delete, and whose queue has a value and fits into one
  -- bundle, reports end of file as soon as its call starts: the values are then in the pending call
  -- only.
  pub eof-take_turn :
      (max : Option ℕ) (n : ℕ) (now : ℕ → ℕ) (s : ClientSink M)
      → s.bundle ≡ none
      → s.in_rpc ≡ []
      → s.pending_for_delete ≡ []
      → s.next_retry_at ≡ 0
      → values s.queue ≢ []
      → length s.queue ≤ n
      → let t = (take_turn max n now s).1 in (eof t ≡ true) × (t.bundle ≡ some (values s.queue))
  eof-take_turn max n now s e i d r v fits =
      let started = take_turn-collect max n now s e r (λ q. v (ap values q)) in
      let (empty, asked) = collect_all n s i fits in
      rw started (ground (arith, empty, d), asked ∙ request-some (values s.queue) v)
